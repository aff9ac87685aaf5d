-- ===== src/Network/Netmap/Tests.antt =====
-- An address of a shoot, mapped and mapped back.
use vpn.Prelude.{◌≡◌, refl, true, some, [], ◌∷◌, ok, All, arith}
use vpn.Net.Ip.{Ip, to4}
use vpn.Net.Mask.{
  IpNet, net_contains, mask_length, and_bytes, network_number_and_mask, same_network,
}
use vpn.Network.Netmap.{netmap_ip_net}
use vpn.Network.Netmap.Back.{IsSubnet, IsByte, netmap_ip_net-back}

abbrev pods : IpNet
pods = record { ip = 10 ∷ 96 ∷ 0 ∷ 0 ∷ []; mask = 255 ∷ 240 ∷ 0 ∷ 0 ∷ [] }

abbrev mapped_pods : IpNet
mapped_pods = record { ip = 244 ∷ 16 ∷ 0 ∷ 0 ∷ []; mask = 255 ∷ 240 ∷ 0 ∷ 0 ∷ [] }

pods-IsSubnet : IsSubnet pods
unfolding mask_length and_bytes
pods-IsSubnet = record {
  four = refl;
  mask_four = refl;
  mask_ones = (12, refl);
  kept = refl;
  bytes = (omega arith, (omega arith, (omega arith, (omega arith, tt))));
}

mapped_pods-IsSubnet : IsSubnet mapped_pods
unfolding mask_length and_bytes
mapped_pods-IsSubnet = record {
  four = refl;
  mask_four = refl;
  mask_ones = (12, refl);
  kept = refl;
  bytes = (omega arith, (omega arith, (omega arith, (omega arith, tt))));
}

abbrev pod : Ip
pod = 10 ∷ 99 ∷ 1 ∷ 255 ∷ []

pod_bytes : All IsByte pod
pod_bytes = (omega arith, (omega arith, (omega arith, (omega arith, tt))))

pod_to4 : to4 pod ≡ some pod
unfolding to4
pod_to4 = refl

pod_inside : net_contains pods pod ≡ true
unfolding net_contains network_number_and_mask same_network to4
pod_inside = refl

netmap_ip_net-back_example :
    (mapped : Ip) × (netmap_ip_net pod mapped_pods ≡ ok mapped)
    × (net_contains mapped_pods mapped ≡ true)
    × (netmap_ip_net mapped pods ≡ ok pod)
netmap_ip_net-back_example =
    netmap_ip_net-back pod pod pods mapped_pods pod_to4 pod_bytes pods-IsSubnet mapped_pods-IsSubnet
      refl pod_inside
