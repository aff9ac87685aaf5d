-- ===== src/Client/Tests.antt =====
-- A host on which kernel parameters are set.
use vpn.Prelude.{[], ◌≡◌, refl, String, true, Result, ok, err, str_eq, if◌then◌else◌}
use vpn.Client.Sysctl.{
  Sysctl, kernel_settings, side_settings, disable_martian_logging, disable_rp_filter,
  buffer_settings, conntrack_settings, enable_ip_forwarding,
}
use vpn.Client.Sysctl.Applied.{recorded, shoot_settings}

abbrev plain_sysctl : Sysctl
plain_sysctl = record {
  Host = String → Result String;
  get = λ h k. h k;
  set = λ k v h. ((λ j. if str_eq k j then ok v else h j), ok tt);
  parse_is_one = λ text. ok (str_eq text "1");
}

abbrev unset : String → Result String
unset k = err "no such parameter"

made_test : (kernel_settings (recorded plain_sysctl) true (unset, [])).0.1 ≡ shoot_settings
unfolding kernel_settings side_settings disable_martian_logging disable_rp_filter buffer_settings
    conntrack_settings enable_ip_forwarding
made_test = refl
