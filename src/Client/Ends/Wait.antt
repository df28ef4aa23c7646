-- ===== src/Client/Ends/Wait.antt =====
-- The wait of `Disconnect` for the loops of a client.
use hydravpn.Base.{
  ℕ, ◌+◌, ◌≤◌, ◌<◌, ◌≡◌, refl, Bool, arith, ap, Bool-cases, ◌⊎◌, inl, inr, none, some, Result, ok,
  err, String, List, [], true, false,
}
use hydravpn.Crypto.{Random}
use hydravpn.Crypto.Library.{Primitives}
use hydravpn.Client.{
  Client, Effect, handle_disconnect, send, receive_transfer, receive, keep_alive, disconnect,
}
use hydravpn.Client.Goroutines.Manual.{disconnect-closes}
use hydravpn.Client.Ends.{
  Place, ended, checking, reading, Loops, disconnect_loops, check, after_round, tun_read_returns,
  Step, tun_read_checks, tun_reads, receive_checks, receives, keep_alive_ticks, keep_alive_stops,
  Run, here, next, place_weight, alive, weight, running, waiting, IsOver,
}

module _ {Aead : Type 0} (lib : Primitives Aead) where
  tun_read_returns-IsOver :
      (c : Client Aead) (input : Result (List ℕ)) (random : Random) (writable : Bool)
      {c' : Client Aead} {out : List Effect} {more : Bool}
      → IsOver c
      → tun_read_returns lib c input random writable ≡ some (c', out, more)
      → IsOver c'
  unfolding tun_read_returns send handle_disconnect
  tun_read_returns-IsOver c (err e) random writable (done, gone) h =
      (ground (arith, h, done), ground (arith, h, gone))
  tun_read_returns-IsOver c (ok buf) random writable (done, gone) h =
      (ground (arith, h, done), ground (arith, h, gone))

  receive-IsOver :
      (c : Client Aead) (input : Result (List ℕ)) {c' : Client Aead} {out : List Effect}
      {more : Bool}
      → IsOver c
      → receive lib c input ≡ some (c', out, more)
      → IsOver c'
  unfolding receive receive_transfer handle_disconnect
  receive-IsOver c (err e) (done, gone) h = (ground (arith, h, done), ground (arith, h, gone))
  receive-IsOver c (ok buf) (done, gone) h = (ground (arith, h, done), ground (arith, h, gone))

  after_round_lem : (more : Bool) → place_weight (after_round more) ≤ 1
  unfolding after_round
  after_round_lem true = omega arith
  after_round_lem false = omega arith

  check_lem : (c : Client Aead) → IsOver c → place_weight (check c) ≡ 0
  unfolding check
  check_lem c (done, gone) = ground (arith, done)

  keep_alive_lem :
      (c : Client Aead) (writable : Bool) → IsOver c → (keep_alive c writable).1 ≡ false
  unfolding keep_alive
  keep_alive_lem c writable (done, gone) = ground (arith, gone)

  -- A step leaves the client as it is in this, and brings the loops nearer to their ends.
  Step-lessens :
      (w : Loops Aead) {m : Loops Aead}
      → IsOver w.client
      → Step lib w m
      → IsOver m.client × (weight m < weight w)
  Step-lessens w over (tun_read_checks at_check e) =
      rw (e) (over, omega (arith, ap place_weight at_check, check_lem w.client over))
  Step-lessens w over (tun_reads input random writable {more = more} at_read h e) = rw (e) (
    tun_read_returns-IsOver w.client input random writable over h,
    omega (arith, ap place_weight at_read, after_round_lem more),
  )
  Step-lessens w over (receive_checks at_check e) =
      rw (e) (over, omega (arith, ap place_weight at_check, check_lem w.client over))
  Step-lessens w over (receives input {more = more} at_read h e) = rw (e) (
    receive-IsOver w.client input over h,
    omega (arith, ap place_weight at_read, after_round_lem more),
  )
  Step-lessens w over (keep_alive_ticks writable runs e) =
      rw (e, keep_alive_lem w.client writable over) (over, omega (arith, ap alive runs))
  Step-lessens w over (keep_alive_stops runs done e) = rw (e) (over, omega (arith, ap alive runs))

  -- A step for which neither the server nor the system has to send anything: a check of the context, or the
  -- error of a read on what is closed.
  abbrev pub IsOwn : {w m : Loops Aead} → Step lib w m → Type 0
  IsOwn (tun_read_checks at_check e) = Unit {0}
  IsOwn {w} (tun_reads input random writable at_read h e) =
      (w.tun_closed ≡ true) × (text : String) × (input ≡ err text)
  IsOwn (receive_checks at_check e) = Unit {0}
  IsOwn {w} (receives input at_read h e) =
      (w.conn_closed ≡ true) × (text : String) × (input ≡ err text)
  IsOwn (keep_alive_ticks writable runs e) = ⊥
  IsOwn (keep_alive_stops runs done e) = Unit {0}

  abbrev HasOwn : Loops Aead → Type 0
  HasOwn w = (m : Loops Aead) × (s : Step lib w m) × IsOwn s

  -- A loop that has not ended reads what is closed.
  abbrev IsClosed : Place → Bool → Type 0
  IsClosed p closed = (p ≡ ended) ⊎ (closed ≡ true)

  tun_read-HasOwn :
      (w : Loops Aead) (p : Place)
      → w.tun_read ≡ p
      → IsClosed p w.tun_closed
      → HasOwn w ⊎ (running w.tun_read ≡ 0)
  unfolding tun_read_returns
  tun_read-HasOwn w ended e closed = inr (ap running e)
  tun_read-HasOwn w checking e closed = inl (_, tun_read_checks e refl, tt)
  tun_read-HasOwn w reading e (inl gone) = absurd cc
  tun_read-HasOwn w reading e (inr closed) =
      inl (_, tun_reads (err "file already closed") none true e refl refl, (closed, _, refl))

  receiving-HasOwn :
      (w : Loops Aead) (p : Place)
      → w.receiving ≡ p
      → w.client.cancelled ≡ true
      → IsClosed p w.conn_closed
      → HasOwn w ⊎ (running w.receiving ≡ 0)
  unfolding receive
  receiving-HasOwn w ended e done closed = inr (ap running e)
  receiving-HasOwn w checking e done closed = inl (_, receive_checks e refl, tt)
  receiving-HasOwn w reading e done (inl gone) = absurd cc
  receiving-HasOwn w reading e done (inr closed) =
      let over : receive lib w.client (err "use of closed network connection")
          ≡ some (w.client, [], false) =
        ground (arith, done) in
      inl (_, receives (err "use of closed network connection") e over refl, (closed, _, refl))

  Step-HasOwn :
      (w : Loops Aead)
      → IsOver w.client
      → IsClosed w.tun_read w.tun_closed
      → IsClosed w.receiving w.conn_closed
      → HasOwn w ⊎ (waiting w ≡ 0)
  Step-HasOwn w (done, gone) tun conn = elim (tun_read-HasOwn w w.tun_read refl tun) [
    | inl s ↦ inl s
    | inr a ↦ elim (receiving-HasOwn w w.receiving refl done conn) [
      | inl s ↦ inl s
      | inr b ↦ elim (Bool-cases w.keeping_alive) [
        | inl runs ↦ inl (_, keep_alive_stops runs done refl, tt)
        | inr stopped ↦ inr (omega (arith, a, b, ap alive stopped))
      ]
    ]
  ]

  -- What is closed stays closed, and a loop that has ended does not come back.
  Step-IsClosed :
      {w m : Loops Aead}
      → Step lib w m
      → IsClosed w.tun_read w.tun_closed × IsClosed w.receiving w.conn_closed
      → IsClosed m.tun_read m.tun_closed × IsClosed m.receiving m.conn_closed
  Step-IsClosed (tun_read_checks at e) (inl gone, conn) = absurd cc
  Step-IsClosed (tun_read_checks at e) (inr closed, conn) = rw e (inr closed, conn)
  Step-IsClosed (tun_reads input random writable at h e) (inl gone, conn) = absurd cc
  Step-IsClosed (tun_reads input random writable at h e) (inr closed, conn) =
      rw e (inr closed, conn)
  Step-IsClosed (receive_checks at e) (tun, inl gone) = absurd cc
  Step-IsClosed (receive_checks at e) (tun, inr closed) = rw e (tun, inr closed)
  Step-IsClosed (receives input at h e) (tun, inl gone) = absurd cc
  Step-IsClosed (receives input at h e) (tun, inr closed) = rw e (tun, inr closed)
  Step-IsClosed (keep_alive_ticks writable runs e) v = rw e v
  Step-IsClosed (keep_alive_stops runs done e) v = rw e v

  Run-IsClosed :
      {w m : Loops Aead} {steps : ℕ}
      → Run lib w steps m
      → IsClosed w.tun_read w.tun_closed × IsClosed w.receiving w.conn_closed
      → IsClosed m.tun_read m.tun_closed × IsClosed m.receiving m.conn_closed
  Run-IsClosed here v = v
  Run-IsClosed (next r s) v = Step-IsClosed s (Run-IsClosed r v)

  Run-lessens :
      {w m : Loops Aead} {steps : ℕ}
      → Run lib w steps m
      → IsOver w.client
      → IsOver m.client × (steps + weight m ≤ weight w)
  Run-lessens here over = (over, omega arith)
  Run-lessens (next r s) over =
      let (still, spent) = Run-lessens r over in
      let (kept, less) = Step-lessens _ still s in (kept, omega (arith, spent, less))

  place_bounds : (p : Place) → (running p ≤ place_weight p) × (place_weight p ≤ 2)
  place_bounds ended = (omega arith, omega arith)
  place_bounds checking = (omega arith, omega arith)
  place_bounds reading = (omega arith, omega arith)

  alive_bound : (b : Bool) → alive b ≤ 1
  alive_bound true = omega arith
  alive_bound false = omega arith

  disconnect-IsOver : (c : Client Aead) → IsOver (disconnect c).0
  unfolding disconnect
  disconnect-IsOver c = (refl, refl)

  -- Disconnect is called on a client whose loops, as many of the three as run and wherever they are,
  -- read its connection and its TUN device: it has a connection, and a TUN device unless the TUN loop
  -- has ended. The loops take at most 5 further steps, whatever their order and whatever their calls
  -- return; and until the wait group, on which Disconnect waits, is at 0, one of them has a next step
  -- for which nothing has to arrive: a check of the context, or the error of a read on what Disconnect
  -- has closed. The client stays disconnected.
  pub Run-IsEnded :
      (w : Loops Aead) {m : Loops Aead} {steps : ℕ}
      → w.client.has_conn ≡ true
      → (w.tun_read ≡ ended) ⊎ (w.client.has_tun ≡ true)
      → Run lib (disconnect_loops w) steps m
      → (steps + waiting m ≤ 5)
        × (((n : Loops Aead) × (s : Step lib m n) × IsOwn s) ⊎ (waiting m ≡ 0))
        × (m.client.connected ≡ false)
  unfolding disconnect_loops
  Run-IsEnded w {m = m} has_conn has_tun r =
      let (over, spent) = Run-lessens r (disconnect-IsOver w.client) in
      let (closes, closes_device) = disconnect-closes w.client has_conn in
      let conn : IsClosed w.receiving (disconnect_loops w).conn_closed =
        inr (ground (arith, closes)) in
      let tun : IsClosed w.tun_read (disconnect_loops w).tun_closed = elim has_tun [
        | inl e ↦ inl e
        | inr has ↦ let closed = closes_device has in inr (ground (arith, closed))
      ] in
      let (tun_after, conn_after) = Run-IsClosed r (tun, conn) in
      let start : weight w ≤ 5 =
        omega
          (arith, place_bounds w.tun_read, place_bounds w.receiving, alive_bound w.keeping_alive) in
      let left : waiting m ≤ weight m =
        omega (arith, place_bounds m.tun_read, place_bounds m.receiving) in
      (omega (arith, start, left, spent), Step-HasOwn m over tun_after conn_after, over.1)
