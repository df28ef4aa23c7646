-- ===== src/Client/Goroutines/Single.antt =====
-- How many reconnect loops a client has.
use hydravpn.Base.{ℕ, ◌+◌, ◌≤◌, ◌≡◌, Bool, false, List, arith, some, Result, ok, err, if◌then◌else◌}
use hydravpn.Base.Int.{ℤ}
use hydravpn.Crypto.{Random}
use hydravpn.Crypto.Library.{Primitives}
use hydravpn.Client.{
  Client, Effect, handle_disconnect, finish_handshake, perform_handshake, send, receive_transfer,
  receive, disconnect,
}
use hydravpn.Client.Goroutines.{
  World, new_world, spawn, Step, receives, sends, receive_stops, tun_read_stops, keep_alive_stops,
  ticks, reconnect_opens, reconnect_failed, marks, starts, connect_device, make_device,
  mark_connected, start_loops, reconnect_stops, disconnects, Reach, here, next,
}
use hydravpn.Client.Goroutines.Spawn.{
  reconnects_in, online, spawn-reconnects, spawn-client, spawn-finishing,
}

module _ {Aead : Type 0} where
  -- A lost connection starts a reconnect loop at most if the client was connected, and leaves it
  -- disconnected.
  handle_disconnect_lem :
      (c : Client Aead)
      → online (handle_disconnect c).0 + reconnects_in (handle_disconnect c).1 ≤ online c
  unfolding handle_disconnect
  handle_disconnect_lem c = ground arith

module _ {Aead : Type 0} (lib : Primitives Aead) where
  receive_lem :
      (c : Client Aead) (input : Result (List ℕ)) {c' : Client Aead} {out : List Effect}
      {more : Bool}
      → receive lib c input ≡ some (c', out, more)
      → online c' + reconnects_in out ≤ online c
  unfolding receive receive_transfer
  receive_lem c (err e) h = ground (arith, handle_disconnect_lem c)
  receive_lem c (ok buf) h = ground (arith, handle_disconnect_lem c)

  send_lem :
      (c : Client Aead) (buf : List ℕ) (random : Random) (writable : Bool) {c' : Client Aead}
      {out : List Effect} {more : Bool}
      → send lib c buf random writable ≡ some (c', out, more)
      → online c' + reconnects_in out ≤ online c
  unfolding send handle_disconnect
  send_lem c buf random writable h = ground arith

  -- A connection attempt starts no reconnect loop, and leaves the client as connected as it was.
  connect_device_lem :
      (c : Client Aead) (dialed : Bool) (time : ℤ) (padding : Random) (writable : Bool)
      (input : Result (List ℕ)) (tun_made : Bool) {c' : Client Aead} {out : List Effect}
      {result : Result (Unit {0})}
      → connect_device lib c dialed time padding writable input tun_made ≡ (c', out, result)
      → (reconnects_in out ≡ 0) × (online c' ≡ online c)
  unfolding connect_device make_device perform_handshake finish_handshake
  connect_device_lem c dialed time padding writable input tun_made h =
      (ground (arith, h), ground (arith, h))

  -- At most one goroutine dials or is in a `Connect` that has not marked the client, and none while the
  -- client is connected.
  abbrev pub IsSingle : World Aead → Type 0
  IsSingle w = w.reconnects + w.finishing + online w.client ≤ 1

  spawned-IsSingle :
      (out : List Effect) (w : World Aead)
      → w.reconnects + reconnects_in out + w.finishing + online w.client ≤ 1
      → IsSingle (spawn out w)
  spawned-IsSingle out w h =
      rw (spawn-reconnects out w, spawn-client out w, spawn-finishing out w) h

  online_le : (c : Client Aead) → online c ≤ 1
  online_le c = ground arith

  disconnect_lem :
      (c : Client Aead) → (online (disconnect c).0 ≡ 0) × (reconnects_in (disconnect c).1 ≡ 0)
  unfolding disconnect
  disconnect_lem c = ground arith

  Step-IsSingle : {w m : World Aead} → Step lib w m → IsSingle w → IsSingle m
  Step-IsSingle {w} (receives input {c'} {out} {more} some_run h e) v = rw e (
      spawned-IsSingle out _
        (omega (arith, receive_lem w.client input {c' = c'} {out = out} {more = more} h)))
  Step-IsSingle {w} (sends buf random writable {c'} {out} {more} some_run h e) v = rw e (
      spawned-IsSingle out _ (
        omega (arith, send_lem w.client buf random writable {c' = c'} {out = out} {more = more} h)))
  Step-IsSingle (receive_stops stopped some_run e) v = rw e v
  Step-IsSingle (tun_read_stops stopped some_run e) v = rw e v
  Step-IsSingle (keep_alive_stops stopped some_run e) v = rw e v
  Step-IsSingle (ticks writable some_run e) v = rw e v
  Step-IsSingle {w}
        (reconnect_opens dialed time padding writable input tun_made {c'} {out} some_run h e) v =
      rw e (
        spawned-IsSingle out _ (
          omega (
            arith,
            connect_device_lem w.client dialed time padding writable input tun_made {c' = c'}
                {out = out} {result = ok tt} h,
          )))
  Step-IsSingle {w}
        (reconnect_failed dialed time padding writable input tun_made {c'} {out} {e = text} some_run
          h e)
        v =
      rw e (
        spawned-IsSingle out _ (
          omega (
            arith,
            connect_device_lem w.client dialed time padding writable input tun_made {c' = c'}
                {out = out} {result = err text} h,
          )))
  Step-IsSingle {w} (marks some_run e) v = rw e (omega (arith, online_le (mark_connected w.client)))
  Step-IsSingle {w} (starts some_run e) v = rw e (spawned-IsSingle start_loops _ (omega arith))
  Step-IsSingle (reconnect_stops stopped some_run e) v = rw e (omega arith)
  Step-IsSingle {w} (disconnects e) v =
      rw e (spawned-IsSingle (disconnect w.client).1 _ (omega (arith, disconnect_lem w.client)))

  -- A client that is not connected calls Connect. From the point on at which that has made its TUN device or
  -- done without, whatever order the goroutines, the rest of the Connect and a Disconnect come in: of the
  -- reconnect loops that dial or will dial, and the calls of Connect that will still mark the client as
  -- connected, there is at most one, and there is none while the client is connected.
  pub Reach-IsSingle :
      (c : Client Aead) (dialed : Bool) (time : ℤ) (padding : Random) (writable : Bool)
      (input : Result (List ℕ)) (tun_made : Bool) {c' : Client Aead} {out : List Effect}
      {w : World Aead}
      → c.connected ≡ false
      → connect_device lib c dialed time padding writable input tun_made ≡ (c', out, ok tt)
      → Reach lib (spawn out (record (new_world c') { finishing = 1 })) w
      → w.reconnects + w.finishing + (if w.client.connected then 1 else 0) ≤ 1
  Reach-IsSingle c dialed time padding writable input tun_made {c'} {out} down h here =
      let offline : online c ≡ 0 = ground (arith, down) in
      spawned-IsSingle out (record (new_world c') { finishing = 1 })
        (omega (
          arith,
          offline,
          connect_device_lem c dialed time padding writable input tun_made {c' = c'} {out = out}
              {result = ok tt} h,
        ))
  Reach-IsSingle c dialed time padding writable input tun_made {c'} {out} down h (next r s) =
      Step-IsSingle s (
        Reach-IsSingle c dialed time padding writable input tun_made {c' = c'} {out = out} down h r)
