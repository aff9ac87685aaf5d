-- ===== src/Tunnel/Server/Retry.antt =====
-- When an update of pkg/shoot_client/tunnel/tunnel.go is tried again.
use vpn.Prelude.{
  ℕ, ◌+◌, ◌<◌, ◌≡◌, ◌↔◌, ◌≢◌, refl, String, true, false, Option, none, some, ok, err, eq_iff, arith,
}
use vpn.Net.Ip.{Ip}
use vpn.Network.Netlink.{Netlink}
use vpn.Tunnel.Server.{ServerData, needs_update, update, update_host, set_failed, set_created}

module _ (nl : Netlink) (parse_ip : String → Option Ip) where
  open nl use {Host}

  pub update_eq_created :
      (now : ℕ) (pod_ip : String) (d : ServerData) (h : Host)
      → (update_host nl parse_ip (record d { pod_ip = pod_ip }) h).1 ≡ ok tt
      → update nl parse_ip now pod_ip d h ≡ (
        (update_host nl parse_ip (record d { pod_ip = pod_ip }) h).0,
        set_created (record d { pod_ip = pod_ip }),
      )
  unfolding update
  update_eq_created now pod_ip d h e = ground arith

  pub update_eq_failed :
      (now : ℕ) (pod_ip e : String) (d : ServerData) (h : Host)
      → (update_host nl parse_ip (record d { pod_ip = pod_ip }) h).1 ≡ err e
      → update nl parse_ip now pod_ip d h ≡ (
        (update_host nl parse_ip (record d { pod_ip = pod_ip }) h).0,
        set_failed now e (record d { pod_ip = pod_ip }),
      )
  unfolding update
  update_eq_failed now pod_ip e d h f = ground arith

  -- After an update that succeeded, the same pod IP needs no further update at any time.
  pub update_done :
      (now later : ℕ) (pod_ip : String) (d : ServerData) (h : Host)
      → (update_host nl parse_ip (record d { pod_ip = pod_ip }) h).1 ≡ ok tt
      → let (h', d') = update nl parse_ip now pod_ip d h in
        (needs_update later pod_ip d' ≡ false)
        × (d'.creation_complete ≡ true)
        × (d'.last_error ≡ none)
        × ((other : String) → other ≢ pod_ip → needs_update later other d' ≡ true)
  unfolding needs_update set_created
  update_done now later pod_ip d h e = rw (update_eq_created now pod_ip d h e) (
    ground (arith, eq_iff pod_ip pod_ip),
    refl,
    refl,
    λ other ne. ground (arith, eq_iff pod_ip other),
  )

  -- After a failed update of a tunnel that was never complete, the same pod IP is tried again exactly
  -- when more than 30 seconds have gone by, and the failure is counted and kept.
  pub update_failed-retried :
      (now later : ℕ) (pod_ip e : String) (d : ServerData) (h : Host)
      → d.creation_complete ≡ false
      → (update_host nl parse_ip (record d { pod_ip = pod_ip }) h).1 ≡ err e
      → let (h', d') = update nl parse_ip now pod_ip d h in
        ((needs_update later pod_ip d' ≡ true) ↔ (now + 30_000_000_000 < later))
        × (d'.creation_failed_count ≡ d.creation_failed_count + 1)
        × (d'.last_error ≡ some e)
        × (d'.creation_complete ≡ false)
  unfolding needs_update set_failed
  update_failed-retried now later pod_ip e d h c f = rw (update_eq_failed now pod_ip e d h f) (
    (λ n. ground (arith, eq_iff pod_ip pod_ip), λ l. ground (arith, eq_iff pod_ip pod_ip)),
    refl,
    refl,
    c,
  )

  -- A failed update of a tunnel that was complete before, as after a change of the pod IP, is never
  -- tried again for that pod IP, though its error stays.
  pub update_failed-stuck :
      (now later : ℕ) (pod_ip e : String) (d : ServerData) (h : Host)
      → d.creation_complete ≡ true
      → (update_host nl parse_ip (record d { pod_ip = pod_ip }) h).1 ≡ err e
      → let (h', d') = update nl parse_ip now pod_ip d h in
        (needs_update later pod_ip d' ≡ false) × (d'.last_error ≡ some e)
  unfolding needs_update set_failed
  update_failed-stuck now later pod_ip e d h c f =
      rw (update_eq_failed now pod_ip e d h f) (ground (arith, eq_iff pod_ip pod_ip), refl)
