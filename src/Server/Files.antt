-- ===== src/Server/Files.antt =====
-- pkg/openvpn/config_server.go: the files of the OpenVPN server. The
-- templates and the file system are parameters.
use Prim.Native.String.{◌++◌}
use vpn.Prelude.{ℕ, zero, suc, ◌+◌, String, Bool, Result, ok, err, if◌then◌else◌}
use vpn.Prelude.Int.{pos_part}
use vpn.Prelude.Io.{Io, continue, ◌>>◌, return}
use vpn.Net.Text.{decimal}
use vpn.Server.Values.{SeedServerValues}

pub record Files : Type 1 where
  pub Host : Type 0
  pub write_file : String → String → Io Host (Unit {0})
  pub mkdir : String → Io Host (Unit {0})
  -- `os.IsExist` of an error.
  pub is_exist : String → Bool
  pub server_config : SeedServerValues → Result String
  pub client_config : SeedServerValues → Result String

module _ (fs : Files) where
  open fs use {Host}

  -- `Mkdir`, where a directory that exists is no error.
  unfoldable pub make_dir : String → Io Host (Unit {0})
  make_dir path h =
      let (h', r) = fs.mkdir path h in
      elim r [ ok u ↦ (h', ok tt) | err e ↦ if fs.is_exist e then (h', ok tt) else (h', err e) ]

  -- The loop over the HA clients, from an index on.
  unfoldable pub write_clients : ℕ → ℕ → Io Host (Unit {0})
  unfolding decimal
  write_clients i zero h = (h, ok tt)
  write_clients i (suc n) h =
      continue (fs.write_file ("/client-config-dir/vpn-shoot-client-" ++ decimal i) "" h)
        (λ u. write_clients (i + 1) n)

  -- `WriteServerConfigFiles`.
  unfoldable pub write_server_config_files : SeedServerValues → Io Host (Unit {0})
  unfolding make_dir write_clients
  write_server_config_files v h = elim (fs.server_config v) [
    | err e ↦ (h, err "Could not generate openvpn config")
    | ok text ↦ continue (fs.write_file "/openvpn-server.config" text h) (λ u h1.
        elim (fs.client_config v) [
          | err e ↦ (h1, err "Could not generate shoot client config")
          | ok client ↦
              ((do
                make_dir "/client-config-dir"
                fs.write_file "/client-config-dir/vpn-shoot-client" client
                (if v.is_ha then write_clients 0 (pos_part v.ha_vpn_clients) else return tt))
                h1)
        ])
  ]
