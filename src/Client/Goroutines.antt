-- ===== src/Client/Goroutines.antt =====
-- The goroutines of a client that reconnects: its loops, counted, over a step relation in which their
-- rounds come in any order. A round that reports a lost connection is `handleDisconnect`, which may
-- start a reconnect loop.
pub mod Spawn
pub mod Single
pub mod Manual
use hydravpn.Base.{
  ℕ, ◌+◌, ◌-◌, ◌≤◌, ◌<◌, ◌≡◌, refl, ap, sym, ◌∙◌, Bool, true, false, not, List, [], ◌∷◌, ◌++◌,
  arith, Bool-cases, Option-cases, Result-cases, inl, inr, ◌==◌, Option, none, some, Result, ok,
  err, String, if◌then◌else◌,
}
use hydravpn.Base.Int.{ℤ}
use hydravpn.Protocol.{unmarshal_packet}
use hydravpn.Protocol.PacketType
use hydravpn.Crypto.{Session, Random, encrypt, decrypt}
use hydravpn.Crypto.Library.{Primitives}
use hydravpn.Client.{
  Client, Effect, open_tun, set_default_route, set_dns, close_conn, server_host, go_tun_read,
  go_receive, go_keep_alive, go_reconnect, handle_disconnect, finish_handshake, perform_handshake,
  connect, send, receive_transfer, receive, keep_alive, disconnect,
}

-- How many goroutines run of each loop. The goroutines in a successful `Connect` are counted apart:
-- those that have the TUN device and have not yet marked the client as connected, and those that have
-- marked it and will start the other loops and return.
pub record World (Aead : Type 0) : Type 0 where
  pub client : Client Aead
  pub tun_reads : ℕ
  pub receives : ℕ
  pub keep_alives : ℕ
  pub reconnects : ℕ
  pub finishing : ℕ
  pub starting : ℕ

abbrev pub new_world : {Aead : Type 0} → Client Aead → World Aead
new_world c = record {
  client = c;
  tun_reads = 0;
  receives = 0;
  keep_alives = 0;
  reconnects = 0;
  finishing = 0;
  starting = 0;
}

-- The stage that makes the TUN device and starts its loop.
unfoldable pub make_device : {Aead : Type 0} → Client Aead → Bool → Client Aead × List Effect
make_device c tun_made =
    if tun_made
    then (
      record c { has_tun = true },
      open_tun c.assigned_ip c.server_ip (server_host c.server_addr)
          ∷ set_default_route
          ∷ set_dns
          ∷ go_tun_read
          ∷ [],
    )
    else (c, [])

-- The stage that marks the client as connected.
unfoldable pub mark_connected : {Aead : Type 0} → Client Aead → Client Aead
mark_connected c = record c { connected = true }

-- The other two loops, with which `Connect` ends.
abbrev pub start_loops : List Effect
start_loops = go_receive ∷ go_keep_alive ∷ []

-- The goroutines that effects start.
unfoldable pub spawn : {Aead : Type 0} → List Effect → World Aead → World Aead
spawn [] w = w
spawn (Effect.go_tun_read ∷ out) w = spawn out (record w { tun_reads = w.tun_reads + 1 })
spawn (Effect.go_receive ∷ out) w = spawn out (record w { receives = w.receives + 1 })
spawn (Effect.go_keep_alive ∷ out) w = spawn out (record w { keep_alives = w.keep_alives + 1 })
spawn (Effect.go_reconnect ∷ out) w = spawn out (record w { reconnects = w.reconnects + 1 })
spawn (_ ∷ out) w = spawn out w

module _ {Aead : Type 0} (lib : Primitives Aead) where
  -- `Connect` up to the start of `tunReadLoop`.
  unfoldable pub connect_device :
      Client Aead
      → Bool
      → ℤ
      → Random
      → Bool
      → Result (List ℕ)
      → Bool
      → Client Aead × List Effect × Result (Unit {0})
  connect_device c dialed time padding writable input tun_made =
      if not dialed
      then (c, [], err "failed to connect")
      else (let (c', sent, result) =
            perform_handshake lib (record c { has_conn = true }) time padding writable input in
          elim result [
            | err e ↦ (c', sent ++ close_conn ∷ [], err "handshake failed")
            | ok _ ↦ (let (c2, out) = make_device c' tun_made in (c2, sent ++ out, ok tt))
          ])

  -- The rounds of the goroutines, and what the user does.
  pub data Step (w m : World Aead) : Type 0 where
    receives :
        (input : Result (List ℕ)) {c' : Client Aead} {out : List Effect} {more : Bool}
        → 0 < w.receives
        → receive lib w.client input ≡ some (c', out, more)
        → m
          ≡ spawn out
              (record w { client = c'; receives = if more then w.receives else w.receives - 1 })
        → Step w m
    sends :
        (buf : List ℕ) (random : Random) (writable : Bool) {c' : Client Aead} {out : List Effect}
        {more : Bool}
        → 0 < w.tun_reads
        → send lib w.client buf random writable ≡ some (c', out, more)
        → m
          ≡ spawn out
              (record w { client = c'; tun_reads = if more then w.tun_reads else w.tun_reads - 1 })
        → Step w m
    receive_stops :
        w.client.cancelled ≡ true
        → 0 < w.receives
        → m ≡ record w { receives = w.receives - 1 }
        → Step w m
    tun_read_stops :
        w.client.cancelled ≡ true
        → 0 < w.tun_reads
        → m ≡ record w { tun_reads = w.tun_reads - 1 }
        → Step w m
    keep_alive_stops :
        w.client.cancelled ≡ true
        → 0 < w.keep_alives
        → m ≡ record w { keep_alives = w.keep_alives - 1 }
        → Step w m
    ticks :
        (writable : Bool)
        → 0 < w.keep_alives
        → m ≡ record w {
          keep_alives =
              if (keep_alive w.client writable).1 then w.keep_alives else w.keep_alives - 1;
        }
        → Step w m
    reconnect_opens :
        (dialed : Bool) (time : ℤ) (padding : Random) (writable : Bool) (input : Result (List ℕ))
        (tun_made : Bool) {c' : Client Aead} {out : List Effect}
        → 0 < w.reconnects
        → connect_device w.client dialed time padding writable input tun_made ≡ (c', out, ok tt)
        → m
          ≡ spawn out
              (record w { client = c'; reconnects = w.reconnects - 1; finishing = w.finishing + 1 })
        → Step w m
    reconnect_failed :
        (dialed : Bool) (time : ℤ) (padding : Random) (writable : Bool) (input : Result (List ℕ))
        (tun_made : Bool) {c' : Client Aead} {out : List Effect} {e : String}
        → 0 < w.reconnects
        → connect_device w.client dialed time padding writable input tun_made ≡ (c', out, err e)
        → m ≡ spawn out (record w { client = c' })
        → Step w m
    marks :
        0 < w.finishing
        → m ≡ record w {
          client = mark_connected w.client;
          finishing = w.finishing - 1;
          starting = w.starting + 1;
        }
        → Step w m
    starts :
        0 < w.starting → m ≡ spawn start_loops (record w { starting = w.starting - 1 }) → Step w m
    reconnect_stops :
        w.client.cancelled ≡ true
        → 0 < w.reconnects
        → m ≡ record w { reconnects = w.reconnects - 1 }
        → Step w m
    disconnects :
        m ≡ spawn (disconnect w.client).1 (record w { client = (disconnect w.client).0 }) → Step w m

  pub data Reach (start : World Aead) : World Aead → Type 0 where
    here : Reach start start
    next : {w m : World Aead} → Reach start w → Step w m → Reach start m
