-- ===== src/Client/Flow.antt =====
-- A client and a server over a WebSocket connection, with packets and keep-alives on the way in both
-- directions: what one end writes waits as a message until the other end reads it, and the goroutines of
-- both ends come in any order. A write of either end succeeds, and 16 random bytes are drawn for each.
pub mod Messages
pub mod Turns
pub mod Holds
pub mod ClientSteps
pub mod ServerSteps
pub mod Delivery
pub mod Drain
pub mod Tests
use hydravpn.Base.{
  ℕ, ◌≤◌, ◌≡◌, Bool, true, List, [], ◌∷◌, ◌++◌, ◌==◌, length, some, ok, String, if◌then◌else◌,
}
use hydravpn.Base.Bytes.{be_value}
use hydravpn.Base.Slices.{slice}
use hydravpn.Crypto.{Random}
use hydravpn.Crypto.Library.{Primitives}
use hydravpn.Transport.WebSocket.{Connection, read}
use hydravpn.Server.{ClientSession, Server, Effect, find_live, serve, route}
use hydravpn.Server.Apart.{messages_to}
use hydravpn.Server.Apart.Steps.{IsApart}
use hydravpn.Server.Interleaving as Runs
use hydravpn.Client.{Client, send, receive, keep_alive}
use hydravpn.Client as C

-- `up` is the server's end of the connection and `down` the client's; `put` are the packets that the TUN
-- devices have given for the tunnel, `got` those that have come out of it at the other TUN device.
pub record Flow (Aead : Type 0) : Type 0 where
  pub server : Server Aead
  pub client : Client Aead
  pub conn : ℕ
  pub up : Connection
  pub down : Connection
  pub put_up : List (List ℕ)
  pub got_up : List (List ℕ)
  pub put_down : List (List ℕ)
  pub got_down : List (List ℕ)

-- What effects write to the TUN device, and for the client's effects also to the connection.
abbrev pub packets_in : List Effect → List (List ℕ)
packets_in [] = []
packets_in (Effect.write_tun packet ∷ out) = packet ∷ packets_in out
packets_in (_ ∷ out) = packets_in out

abbrev pub client_messages : List C.Effect → List (List ℕ)
client_messages [] = []
client_messages (C.Effect.write_conn bytes ∷ out) = bytes ∷ client_messages out
client_messages (_ ∷ out) = client_messages out

abbrev pub client_packets : List C.Effect → List (List ℕ)
client_packets [] = []
client_packets (C.Effect.write_tun packet ∷ out) = packet ∷ client_packets out
client_packets (_ ∷ out) = client_packets out

-- Messages that arrive at an end of the connection.
abbrev pub arrive : Connection → List (List ℕ) → Connection
arrive c messages = record c { incoming = c.incoming ++ messages }

-- The size of the buffers of `handleConnection` and `receiveLoop`.
abbrev pub read_size : ℕ
read_size = 4096

-- Before the first packet: `failure` is the error after the last message.
abbrev pub new_connection : String → Connection
new_connection failure = record { read_buf = []; incoming = []; failure = failure; outgoing = [] }

abbrev pub new_flow : {Aead : Type 0} → Server Aead → Client Aead → ℕ → String → String → Flow Aead
new_flow s c conn up_failure down_failure = record {
  server = s;
  client = c;
  conn = conn;
  up = new_connection up_failure;
  down = new_connection down_failure;
  put_up = [];
  got_up = [];
  put_down = [];
  got_down = [];
}

module _ {Aead : Type 0} (lib : Primitives Aead) where
  -- A round of one of the three loops that `Connect` starts, of the handler of the client's connection or
  -- of the server's TUN loop; or a step of the server that is none of the client's.
  pub data Step (w m : Flow Aead) : Type 0 where
    client_sends :
        (buf random : List ℕ) {c' : Client Aead} {out : List C.Effect} {more : Bool}
        → length buf ≤ 2048
        → length random ≡ 16
        → send lib w.client buf (some random) true ≡ some (c', out, more)
        → m ≡ record w {
          client = c';
          up = arrive w.up (client_messages out);
          put_up = w.put_up ++ buf ∷ [];
        }
        → Step w m
    client_keeps_alive :
        m ≡ record w { up = arrive w.up (client_messages (keep_alive w.client true).0) } → Step w m
    server_reads :
        (now : ℕ) {up' : Connection} {bytes : List ℕ} {x : ClientSession Aead} {s' : Server Aead}
        {out : List Effect}
        → read w.up read_size ≡ (up', ok bytes)
        → find_live w.server.live w.conn ≡ some x
        → serve lib w.server x (ok bytes) now ≡ (s', out)
        → m ≡ record w {
          server = s';
          up = up';
          down = arrive w.down (messages_to w.conn out);
          got_up = w.got_up ++ packets_in out;
        }
        → Step w m
    server_routes :
        (buf random : List ℕ) {s' : Server Aead} {out : List Effect}
        → 20 ≤ length buf
        → length buf ≤ 2048
        → be_value (slice 16 20 buf) ≡ be_value w.client.assigned_ip
        → length random ≡ 16
        → route lib w.server buf (λ d. some random) ≡ (s', out)
        → m ≡ record w {
          server = s';
          down = arrive w.down (messages_to w.conn out);
          put_down = w.put_down ++ buf ∷ [];
        }
        → Step w m
    client_reads :
        {down' : Connection} {bytes : List ℕ} {c' : Client Aead} {out : List C.Effect} {more : Bool}
        → read w.down read_size ≡ (down', ok bytes)
        → receive lib w.client (ok bytes) ≡ some (c', out, more)
        → m ≡ record w { client = c'; down = down'; got_down = w.got_down ++ client_packets out }
        → Step w m
    others :
        (x : ClientSession Aead) {s' : Server Aead} {out : List Effect}
        → find_live w.server.live w.conn ≡ some x
        → (step : Runs.Step lib w.server s' out) → IsApart lib x step
        → m ≡ record w { server = s' }
        → Step w m

  pub data Reach (start : Flow Aead) : Flow Aead → Type 0 where
    here : Reach start start
    next : {w m : Flow Aead} → Reach start w → Step w m → Reach start m
