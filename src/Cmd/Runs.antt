-- ===== src/Cmd/Runs.antt =====
-- The client that the command line runs, until its end.
use hydravpn.Base.{
  ℕ, ◌≡◌, ◌⊎◌, refl, ap, sym, ◌∙◌, Bool, true, false, List, [], Result-cases, inl, inr, Result,
}
use hydravpn.Base.Int.{ℤ}
use hydravpn.Crypto.{Random, generate_key_pair}
use hydravpn.Crypto.Library.{Primitives}
use hydravpn.Transport.Network.{Network}
use hydravpn.Transport.Any.{new_transport, dial}
use hydravpn.Client.{Client, Effect, connect, disconnect}
use hydravpn.Client.Goroutines.{World, new_world, spawn, Reach}
use hydravpn.Client.Goroutines.Manual.{
  closes_conn, opens_tun, closes_tun, IsManual, Reach-IsManual, connected-IsManual,
  disconnect-closes,
}
use hydravpn.Cmd.{
  client_flags, client_config, new_client, Outcome, exits, waits, succeeds, connect_over,
  start_client, ClientConfig, run_client_args,
}
use hydravpn.Cmd.Flags.{Flags, Parsed, parsed, help, failed, parse}

Parsed-cases : (p : Parsed) → ((flags : Flags) × (p ≡ parsed flags)) ⊎ ((p ≡ help) ⊎ (p ≡ failed))
Parsed-cases (parsed flags) = inl (flags, refl)
Parsed-cases help = inr (inl refl)
Parsed-cases failed = inr (inr refl)

module _ {Aead : Type 0} where
  exits-waits :
      {r : List Effect × Outcome (Client Aead)} {sent out : List Effect} {n : ℕ} {c : Client Aead}
      → r ≡ (sent, exits n)
      → r ≡ (out, waits c)
      → ⊥
  exits-waits {r} {sent} {out} {n} {c} e f =
      let both : ◌≡◌ {A = List Effect × Outcome (Client Aead)} (sent, exits n) (out, waits c) =
        sym e ∙ f in
      absurd cc

module _ {Aead : Type 0} (lib : Primitives Aead) (network : Network) where
  start_client-IsManual :
      (config : ClientConfig) (key_random transport_random : Random) (incoming : List ℕ) (time : ℤ)
      (padding : Random) (writable : Bool) (input : Result (List ℕ)) (tun_made : Bool)
      {c : Client Aead} {out : List Effect}
      → config.auto_reconnect ≡ false
      → start_client lib network config key_random transport_random incoming time padding writable
          input tun_made
        ≡ (out, waits c)
      → IsManual (opens_tun out) (spawn out (new_world c))
  unfolding start_client connect_over new_client
  start_client-IsManual config key_random transport_random incoming time padding writable input
        tun_made {c} {out} manual h =
      elim (Result-cases (generate_key_pair lib key_random)) [
        | inl (e, g) ↦ absurd (exits-waits {sent = []} {n = 1} (rw (g, start_client) refl) h)
        | inr (key_pair, g) ↦
            let transport = new_transport config.transport_type transport_random in
            let fresh : Client Aead = new_client config key_pair in
            let dialed = succeeds (dial network transport config.server_addr incoming).1 in
            let (c', sent, result) =
              connect lib fresh dialed time padding writable input tun_made in
            elim (Result-cases result) [
              | inl (e, f) ↦
                  absurd (exits-waits {sent = sent} {n = 1} (rw (g, f, start_client) refl) h)
              | inr (u, f) ↦
                  let ended : start_client lib network config key_random transport_random incoming
                        time padding writable input tun_made
                      ≡ (sent, waits c') =
                    rw (g, f, start_client) refl in
                  let both : ◌≡◌ {A = List Effect × Outcome (Client Aead)} (sent, waits c')
                      (out, waits c) =
                    sym ended ∙ h in
                  let one : out ≡ sent = cc in
                  let other : c ≡ c' = cc in
                  rw (one, other)
                    (connected-IsManual lib fresh dialed time padding writable input tun_made
                      {c' = c'} {out = sent} (ap (λ r. (c', sent, r)) f) manual)
            ]
      ]

  -- A client that the command line has connected, whatever order its goroutines come in, never has a
  -- reconnect loop; and the deferred `Disconnect` closes its connection, and its TUN device if one was
  -- opened.
  pub run_client-closes :
      (args : List (List ℕ)) (key_random transport_random : Random) (incoming : List ℕ) (time : ℤ)
      (padding : Random) (writable : Bool) (input : Result (List ℕ)) (tun_made : Bool)
      {c : Client Aead} {out : List Effect} {w : World Aead}
      → run_client_args lib network args key_random transport_random incoming time padding writable
          input tun_made
        ≡ (out, waits c)
      → Reach lib (spawn out (new_world c)) w
      → (w.reconnects ≡ 0)
        × (closes_conn (disconnect w.client).1 ≡ true)
        × (opens_tun out ≡ true → closes_tun (disconnect w.client).1 ≡ true)
  unfolding run_client_args
  run_client-closes args key_random transport_random incoming time padding writable input tun_made
        {c} {out} {w} h r =
      elim (Parsed-cases (parse client_flags args)) [
        | inl (flags, g) ↦
            let ran : start_client lib network (client_config flags) key_random transport_random
                  incoming time padding writable input tun_made
                ≡ (out, waits c) =
              sym (rw (g, run_client_args) refl) ∙ h in
            let v : IsManual (opens_tun out) w = Reach-IsManual lib (opens_tun out) r (
              start_client-IsManual (client_config flags) key_random transport_random incoming time
                padding writable input tun_made refl ran) in
            let (conn, tun) = disconnect-closes w.client v.conn in
            (v.quiet, conn, λ t. tun (v.tun_kept t))
        | inr (inl g) ↦ absurd (exits-waits {sent = []} {n = 0} (rw (g, run_client_args) refl) h)
        | inr (inr g) ↦ absurd (exits-waits {sent = []} {n = 2} (rw (g, run_client_args) refl) h)
      ]
