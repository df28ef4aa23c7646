-- ===== src/Client/Goroutines/Spawn.antt =====
-- What starting goroutines changes.
use hydravpn.Base.{ℕ, ◌+◌, ◌≡◌, refl, List, [], ◌∷◌, arith, if◌then◌else◌}
use hydravpn.Client.{Client, Effect}
use hydravpn.Client.Goroutines.{World, spawn}

-- How many reconnect loops effects start.
abbrev pub is_reconnect : Effect → ℕ
is_reconnect Effect.go_reconnect = 1
is_reconnect _ = 0

abbrev pub reconnects_in : List Effect → ℕ
reconnects_in [] = 0
reconnects_in (e ∷ out) = is_reconnect e + reconnects_in out

abbrev pub online : {Aead : Type 0} → Client Aead → ℕ
online c = if c.connected then 1 else 0

module _ {Aead : Type 0} where
  pub spawn-reconnects :
      (out : List Effect) (w : World Aead)
      → (spawn out w).reconnects ≡ w.reconnects + reconnects_in out
  unfolding spawn
  spawn-reconnects [] w = omega arith
  spawn-reconnects (Effect.go_tun_read ∷ out) w =
      omega (arith, spawn-reconnects out (record w { tun_reads = w.tun_reads + 1 }))
  spawn-reconnects (Effect.go_receive ∷ out) w =
      omega (arith, spawn-reconnects out (record w { receives = w.receives + 1 }))
  spawn-reconnects (Effect.go_keep_alive ∷ out) w =
      omega (arith, spawn-reconnects out (record w { keep_alives = w.keep_alives + 1 }))
  spawn-reconnects (Effect.go_reconnect ∷ out) w =
      omega (arith, spawn-reconnects out (record w { reconnects = w.reconnects + 1 }))
  spawn-reconnects (_ ∷ out) w = omega (arith, spawn-reconnects out w)

  pub spawn-client : (out : List Effect) (w : World Aead) → (spawn out w).client ≡ w.client
  unfolding spawn
  spawn-client [] w = refl
  spawn-client (Effect.go_tun_read ∷ out) w =
      spawn-client out (record w { tun_reads = w.tun_reads + 1 })
  spawn-client (Effect.go_receive ∷ out) w =
      spawn-client out (record w { receives = w.receives + 1 })
  spawn-client (Effect.go_keep_alive ∷ out) w =
      spawn-client out (record w { keep_alives = w.keep_alives + 1 })
  spawn-client (Effect.go_reconnect ∷ out) w =
      spawn-client out (record w { reconnects = w.reconnects + 1 })
  spawn-client (_ ∷ out) w = spawn-client out w

  pub spawn-finishing : (out : List Effect) (w : World Aead) → (spawn out w).finishing ≡ w.finishing
  unfolding spawn
  spawn-finishing [] w = refl
  spawn-finishing (Effect.go_tun_read ∷ out) w =
      spawn-finishing out (record w { tun_reads = w.tun_reads + 1 })
  spawn-finishing (Effect.go_receive ∷ out) w =
      spawn-finishing out (record w { receives = w.receives + 1 })
  spawn-finishing (Effect.go_keep_alive ∷ out) w =
      spawn-finishing out (record w { keep_alives = w.keep_alives + 1 })
  spawn-finishing (Effect.go_reconnect ∷ out) w =
      spawn-finishing out (record w { reconnects = w.reconnects + 1 })
  spawn-finishing (_ ∷ out) w = spawn-finishing out w
