-- ===== src/Client/Attempt.antt =====
-- `Connect` of a client whose user calls `Disconnect` before it has returned: the reconnect loop runs
-- it in a goroutine of its own, so a `Disconnect` may come between any two of its stages. A call of a
-- library in a stage, and the system commands of one, are not divided further.
use hydravpn.Base.{
  ℕ, ◌≡◌, refl, Bool, true, false, not, ◌||◌, ◌&&◌, List, [], ◌∷◌, ◌++◌, arith, Option, none, some,
  Result, ok, err, if◌then◌else◌,
}
use hydravpn.Base.Int.{ℤ}
use hydravpn.Crypto.{Random}
use hydravpn.Crypto.Library.{Primitives}
use hydravpn.Client.{
  Client, Effect, open_tun, set_default_route, set_dns, go_tun_read, go_receive, go_keep_alive,
  close_conn, server_host, finish_handshake, perform_handshake, connect, disconnect,
}
use hydravpn.Client.Goroutines.{make_device, mark_connected, start_loops}
use hydravpn.Client.Goroutines.Manual.{closes_conn}

-- Where a `Disconnect` comes: when the dial has returned, after the handshake, when the TUN device and
-- its goroutine are there, or when the client is marked as connected.
pub data Point : Type 0 where
  after_dial : Point
  after_handshake : Point
  after_device : Point
  after_mark : Point

unfoldable pub same_point : Point → Point → Bool
same_point after_dial after_dial = true
same_point after_handshake after_handshake = true
same_point after_device after_device = true
same_point after_mark after_mark = true
same_point _ _ = false

-- A `Disconnect` that comes at `p`, if one comes there.
unfoldable pub disconnect_at :
    {Aead : Type 0} → Option Point → Point → Client Aead → Client Aead × List Effect
disconnect_at none p c = (c, [])
disconnect_at (some q) p c = if same_point q p then disconnect c else (c, [])

-- What follows the handshake, with a `Disconnect` at a point or none.
unfoldable pub finish_attempt :
    {Aead : Type 0}
    → Option Point
    → Client Aead
    → List Effect
    → Result (Unit {0})
    → Bool
    → Client Aead × List Effect × Result (Unit {0})
finish_attempt when c sent (err e) tun_made = (c, sent ++ close_conn ∷ [], err "handshake failed")
finish_attempt when c sent (ok _) tun_made =
    let (c2, out2) = disconnect_at when after_handshake c in
    let (c3, out3) = make_device c2 tun_made in
    let (c4, out4) = disconnect_at when after_device c3 in
    let (c5, out5) = disconnect_at when after_mark (mark_connected c4) in
    (c5, sent ++ (out2 ++ (out3 ++ (out4 ++ (out5 ++ start_loops)))), ok tt)

-- Whether a TUN device is open after effects.
abbrev pub device_open : Bool → List Effect → Bool
device_open before [] = before
device_open before (Effect.open_tun a b c ∷ out) = device_open true out
device_open before (Effect.close_tun ∷ out) = device_open false out
device_open before (_ ∷ out) = device_open before out

module _ {Aead : Type 0} (lib : Primitives Aead) where
  -- `Connect` from the return of a successful dial on.
  unfoldable pub attempt :
      Option Point
      → Client Aead
      → ℤ
      → Random
      → Bool
      → Result (List ℕ)
      → Bool
      → Client Aead × List Effect × Result (Unit {0})
  attempt when c time padding writable input tun_made =
      let (c0, out0) = disconnect_at when after_dial c in
      let (c1, out1, result) =
        perform_handshake lib (record c0 { has_conn = true }) time padding writable input in
      finish_attempt when c1 (out0 ++ out1) result tun_made

  handshake_addr :
      (c : Client Aead) (time : ℤ) (padding : Random) (writable : Bool) (input : Result (List ℕ))
      → (perform_handshake lib c time padding writable input).0.server_addr ≡ c.server_addr
  unfolding perform_handshake finish_handshake
  handshake_addr c time padding writable input = ground arith

  -- Without a `Disconnect` the stages make up `Connect`.
  attempt-connect :
      (c : Client Aead) (time : ℤ) (padding : Random) (writable : Bool) (input : Result (List ℕ))
      (tun_made : Bool)
      → attempt none c time padding writable input tun_made
        ≡ connect lib c true time padding writable input tun_made
  unfolding attempt finish_attempt disconnect_at make_device mark_connected connect
  attempt-connect c time padding writable input tun_made =
      let d : Client Aead = record c { has_conn = true } in
      let (c1, sent, result) = perform_handshake lib d time padding writable input in
      finished c1 sent result tun_made (handshake_addr d time padding writable input)
    where
      finished :
          (c1 : Client Aead) (sent : List Effect) (result : Result (Unit {0})) (tun_made : Bool)
          → c1.server_addr ≡ c.server_addr
          → finish_attempt none c1 sent result tun_made ≡ elim result [
            | err e ↦ (c1, sent ++ close_conn ∷ [], err "handshake failed")
            | ok _ ↦ (
              record c1 { connected = true; has_tun = tun_made || c1.has_tun },
              sent
                  ++ ((if tun_made
                        then open_tun c1.assigned_ip c1.server_ip (server_host c.server_addr)
                          ∷ set_default_route
                          ∷ set_dns
                          ∷ go_tun_read
                          ∷ []
                        else [])
                      ++ go_receive ∷ go_keep_alive ∷ []),
              ok tt,
            )
          ]
      finished c1 sent (err e) tun_made same = refl
      finished c1 sent (ok _) true same = rw (← same)
      finished c1 sent (ok _) false same = refl

  -- The defect: Connect, which the reconnect loop runs in a goroutine of its own, has dialed, and
  -- Disconnect is called when the dial has returned, after the handshake, when the TUN device and its
  -- loop are there, or when the client is marked as connected; Connect goes on to the end and
  -- succeeds. At all but the last of these points the client says in the end that it is connected
  -- although its context is done, and at the last one it does not. A TUN device that is made after the
  -- Disconnect stays open; and the Disconnect has closed the new connection, except that at the first
  -- point it closes the connection of before the dial, if there was one.
  pub attempt_late :
      (p : Point) (c : Client Aead) (time : ℤ) (padding : Random) (writable : Bool)
      (input : Result (List ℕ)) (tun_made : Bool) {c' : Client Aead} {out : List Effect}
      → attempt (some p) c time padding writable input tun_made ≡ (c', out, ok tt)
      → (c'.connected ≡ not (same_point p after_mark))
        × (c'.cancelled ≡ true)
        × (device_open c.has_tun out
            ≡ tun_made && not (same_point p after_device || same_point p after_mark))
        × (closes_conn out ≡ not (same_point p after_dial) || c.has_conn)
  unfolding attempt finish_attempt disconnect_at make_device mark_connected perform_handshake
      finish_handshake disconnect same_point
  attempt_late after_dial c time padding writable input tun_made h =
      (ground (arith, h), ground (arith, h), ground (arith, h), ground (arith, h))
  attempt_late after_handshake c time padding writable input tun_made h =
      (ground (arith, h), ground (arith, h), ground (arith, h), ground (arith, h))
  attempt_late after_device c time padding writable input tun_made h =
      (ground (arith, h), ground (arith, h), ground (arith, h), ground (arith, h))
  attempt_late after_mark c time padding writable input tun_made h =
      (ground (arith, h), ground (arith, h), ground (arith, h), ground (arith, h))
