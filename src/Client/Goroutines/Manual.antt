-- ===== src/Client/Goroutines/Manual.antt =====
-- A client that does not reconnect: what its goroutines leave of what `Disconnect` closes.
use hydravpn.Base.{
  ℕ, ◌≡◌, refl, ap, ◌∙◌, Bool, true, false, List, [], ◌∷◌, arith, some, Result, ok, err, String,
}
use hydravpn.Base.Int.{ℤ}
use hydravpn.Crypto.{Random}
use hydravpn.Crypto.Library.{Primitives}
use hydravpn.Client.{
  Client, Effect, handle_disconnect, finish_handshake, perform_handshake, connect, send,
  receive_transfer, receive, disconnect,
}
use hydravpn.Client.Goroutines.{
  World, new_world, spawn, Step, receives, sends, receive_stops, tun_read_stops, keep_alive_stops,
  ticks, reconnect_opens, reconnect_failed, marks, starts, start_loops, reconnect_stops,
  disconnects, Reach, here, next,
}
use hydravpn.Client.Goroutines.Spawn.{
  reconnects_in, spawn-reconnects, spawn-client, spawn-finishing,
}

-- Whether effects close the connection, open the TUN device, close it.
abbrev pub closes_conn : List Effect → Bool
closes_conn [] = false
closes_conn (Effect.close_conn ∷ out) = true
closes_conn (_ ∷ out) = closes_conn out

abbrev pub opens_tun : List Effect → Bool
opens_tun [] = false
opens_tun (Effect.open_tun a b c ∷ out) = true
opens_tun (_ ∷ out) = opens_tun out

abbrev pub closes_tun : List Effect → Bool
closes_tun [] = false
closes_tun (Effect.close_tun ∷ out) = true
closes_tun (_ ∷ out) = closes_tun out

-- What `c'` has of what `c` was told and had.
pub record IsKept {Aead : Type 0} (c c' : Client Aead) (out : List Effect) : Type 0 where
  pub manual : c'.auto_reconnect ≡ c.auto_reconnect
  pub conn : c'.has_conn ≡ c.has_conn
  pub tun : c'.has_tun ≡ c.has_tun
  pub address : c'.assigned_ip ≡ c.assigned_ip
  pub quiet : c.auto_reconnect ≡ false → reconnects_in out ≡ 0

module _ {Aead : Type 0} where
  handle_disconnect-IsKept :
      (c : Client Aead) → IsKept c (handle_disconnect c).0 (handle_disconnect c).1
  unfolding handle_disconnect
  handle_disconnect-IsKept c = record {
    manual = ground arith;
    conn = ground arith;
    tun = ground arith;
    address = ground arith;
    quiet = λ h. ground (arith, h);
  }

  disconnect-IsKept : (c : Client Aead) → IsKept c (disconnect c).0 (disconnect c).1
  unfolding disconnect
  disconnect-IsKept c = record {
    manual = refl;
    conn = refl;
    tun = refl;
    address = refl;
    quiet = λ h. ground (arith, h);
  }

module _ {Aead : Type 0} (lib : Primitives Aead) where
  pub receive-IsKept :
      (c : Client Aead) (input : Result (List ℕ)) {c' : Client Aead} {out : List Effect}
      {more : Bool}
      → receive lib c input ≡ some (c', out, more)
      → IsKept c c' out
  unfolding receive receive_transfer handle_disconnect
  receive-IsKept c (err e) h = record {
    manual = ground arith;
    conn = ground arith;
    tun = ground arith;
    address = ground arith;
    quiet = λ q. ground (arith, q);
  }
  receive-IsKept c (ok buf) h = record {
    manual = ground arith;
    conn = ground arith;
    tun = ground arith;
    address = ground arith;
    quiet = λ q. ground (arith, q);
  }

  pub send-IsKept :
      (c : Client Aead) (buf : List ℕ) (random : Random) (writable : Bool) {c' : Client Aead}
      {out : List Effect} {more : Bool}
      → send lib c buf random writable ≡ some (c', out, more)
      → IsKept c c' out
  unfolding send handle_disconnect
  send-IsKept c buf random writable h = record {
    manual = ground arith;
    conn = ground arith;
    tun = ground arith;
    address = ground arith;
    quiet = λ q. ground (arith, q);
  }

-- A client that does not reconnect, has a connection, and still has the TUN device that was opened.
pub record IsManual {Aead : Type 0} (tun : Bool) (w : World Aead) : Type 0 where
  pub manual : w.client.auto_reconnect ≡ false
  pub conn : w.client.has_conn ≡ true
  pub tun_kept : tun ≡ true → w.client.has_tun ≡ true
  pub quiet : w.reconnects ≡ 0
  pub settled : w.finishing ≡ 0

module _ {Aead : Type 0} where
  spawned-IsManual :
      (tun : Bool) (w u : World Aead) (out : List Effect)
      → IsKept w.client u.client out
      → u.reconnects ≡ w.reconnects
      → u.finishing ≡ w.finishing
      → IsManual tun w
      → IsManual tun (spawn out u)
  spawned-IsManual tun w u out k same same_finishing v =
      let client = spawn-client out u in
      record {
        manual = ap (λ c. c.auto_reconnect) client ∙ k.manual ∙ v.manual;
        conn = ap (λ c. c.has_conn) client ∙ k.conn ∙ v.conn;
        tun_kept = λ h. ap (λ c. c.has_tun) client ∙ k.tun ∙ v.tun_kept h;
        quiet = omega (arith, spawn-reconnects out u, same, v.quiet, k.quiet v.manual);
        settled = spawn-finishing out u ∙ same_finishing ∙ v.settled;
      }

  pub disconnect-closes :
      (c : Client Aead)
      → c.has_conn ≡ true
      → (closes_conn (disconnect c).1 ≡ true)
        × (c.has_tun ≡ true → closes_tun (disconnect c).1 ≡ true)
  unfolding disconnect
  disconnect-closes c h = (ground (arith, h), λ t. ground (arith, h, t))

module _ {Aead : Type 0} (lib : Primitives Aead) where
  Step-IsManual : (tun : Bool) {w m : World Aead} → Step lib w m → IsManual tun w → IsManual tun m
  Step-IsManual tun {w} (receives input {c'} {out} {more} some_run h e) v = rw e (
      spawned-IsManual tun w _ out
        (receive-IsKept lib w.client input {c' = c'} {out = out} {more = more} h) refl refl v)
  Step-IsManual tun {w} (sends buf random writable {c'} {out} {more} some_run h e) v = rw e (
      spawned-IsManual tun w _ out
        (send-IsKept lib w.client buf random writable {c' = c'} {out = out} {more = more} h) refl
        refl v)
  Step-IsManual tun (receive_stops stopped some_run e) v = rw e (record {
    manual = v.manual;
    conn = v.conn;
    tun_kept = v.tun_kept;
    quiet = v.quiet;
    settled = v.settled;
  })
  Step-IsManual tun (tun_read_stops stopped some_run e) v = rw e (record {
    manual = v.manual;
    conn = v.conn;
    tun_kept = v.tun_kept;
    quiet = v.quiet;
    settled = v.settled;
  })
  Step-IsManual tun (keep_alive_stops stopped some_run e) v = rw e (record {
    manual = v.manual;
    conn = v.conn;
    tun_kept = v.tun_kept;
    quiet = v.quiet;
    settled = v.settled;
  })
  Step-IsManual tun (ticks writable some_run e) v = rw e (record {
    manual = v.manual;
    conn = v.conn;
    tun_kept = v.tun_kept;
    quiet = v.quiet;
    settled = v.settled;
  })
  Step-IsManual tun (reconnect_opens dialed time padding writable input tun_made some_run h e) v =
      absurd (omega (arith, v.quiet))
  Step-IsManual tun (reconnect_failed dialed time padding writable input tun_made some_run h e) v =
      absurd (omega (arith, v.quiet))
  Step-IsManual tun (marks some_run e) v = absurd (omega (arith, v.settled))
  Step-IsManual tun {w} (starts some_run e) v = rw e (
      spawned-IsManual tun w _ start_loops
        (record { manual = refl; conn = refl; tun = refl; address = refl; quiet = λ q. refl }) refl
        refl v)
  Step-IsManual tun (reconnect_stops stopped some_run e) v = absurd (omega (arith, v.quiet))
  Step-IsManual tun {w} (disconnects e) v =
      rw e
        (spawned-IsManual tun w _ (disconnect w.client).1 (disconnect-IsKept w.client) refl refl v)

  pub Reach-IsManual :
      (tun : Bool) {w m : World Aead} → Reach lib w m → IsManual tun w → IsManual tun m
  Reach-IsManual tun here v = v
  Reach-IsManual tun (next r s) v = Step-IsManual tun s (Reach-IsManual tun r v)

  pub connected-IsManual :
      (c : Client Aead) (dialed : Bool) (time : ℤ) (padding : Random) (writable : Bool)
      (input : Result (List ℕ)) (tun_made : Bool) {c' : Client Aead} {out : List Effect}
      → connect lib c dialed time padding writable input tun_made ≡ (c', out, ok tt)
      → c.auto_reconnect ≡ false
      → IsManual (opens_tun out) (spawn out (new_world c'))
  unfolding connect perform_handshake finish_handshake
  connected-IsManual c dialed time padding writable input tun_made {c'} {out} h manual =
      let client = spawn-client out (new_world c') in
      let none_started : reconnects_in out ≡ 0 = ground (arith, h) in
      let kept : c'.auto_reconnect ≡ false = ground (arith, h, manual) in
      let conn : c'.has_conn ≡ true = ground (arith, h) in
      let tun : opens_tun out ≡ true → c'.has_tun ≡ true = λ t. ground (arith, h, t) in
      record {
        manual = ap (λ d. d.auto_reconnect) client ∙ kept;
        conn = ap (λ d. d.has_conn) client ∙ conn;
        tun_kept = λ t. ap (λ d. d.has_tun) client ∙ tun t;
        quiet = omega (arith, spawn-reconnects out (new_world c'), none_started);
        settled = spawn-finishing out (new_world c');
      }

  -- A connection attempt that fails starts no goroutine and opens no TUN device, leaves the client as
  -- connected as it was, and closes the connection if the dial had succeeded.
  pub connect_failed :
      (c : Client Aead) (dialed : Bool) (time : ℤ) (padding : Random) (writable : Bool)
      (input : Result (List ℕ)) (tun_made : Bool) {c' : Client Aead} {out : List Effect}
      {e : String} (w : World Aead)
      → connect lib c dialed time padding writable input tun_made ≡ (c', out, err e)
      → (spawn out w ≡ w)
        × (opens_tun out ≡ false)
        × (c'.connected ≡ c.connected)
        × (closes_conn out ≡ dialed)
  unfolding connect perform_handshake finish_handshake spawn
  connect_failed c dialed time padding writable input tun_made {c'} {out} {e} w h =
      (ground (arith, h), ground (arith, h), ground (arith, h), ground (arith, h))
