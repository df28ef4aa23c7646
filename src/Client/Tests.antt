-- ===== src/Client/Tests.antt =====
-- Tests of the client against the server.
use hydravpn.Base.{
  ℕ, ◌+◌, ◌≤◌, ◌≡◌, refl, true, false, List, [], ◌∷◌, ◌++◌, arith, replicate, none, some, ok,
  Result,
}
use hydravpn.Base.Bytes.{be_value, be_bytes, le_bytes, read_full, bytes_eq}
use hydravpn.Base.Int.{pos}
use hydravpn.Crypto.{
  Session, encrypt, clamp, generate_key_pair, compute_shared_secret, derive_session_keys,
}
use hydravpn.Crypto.Toy.{toy, toy-IsDocumented, random_a, random_b, nonce_tail, pair_a, pair_b}
use hydravpn.Server.{
  Server, write_conn, new_server, subnet_base, find_live, response_bytes, accept_session,
}
use hydravpn.Server.IpPool.{new_ip_pool, contains, max_hosts, candidate, scan, allocate}
use hydravpn.Server.Keep.{IsServer}
use hydravpn.Server.Interleaving.{here as at_start, Reach-IsServer}
use hydravpn.Server.Tests.{padding, start, pool_after, first}
use hydravpn.Client as C
use hydravpn.Protocol.{
  marshal, unmarshal_packet, new_packet, marshal_handshake_response, unmarshal_handshake_response,
}
use hydravpn.Client.{
  connect, perform_handshake, read_response, Client, host_before, server_host, init_bytes,
  finish_handshake, send, receive, handle_disconnect, keep_alive,
}
use hydravpn.Client.Goroutines.{
  World, spawn, new_world, connect_device, make_device, mark_connected, Reach, here, next, marks,
  sends,
}
use hydravpn.Client.Goroutines.Single.{Reach-IsSingle}
use hydravpn.Client.Goroutines.Manual.{closes_conn}
use hydravpn.Client.Attempt.{
  after_handshake, attempt, finish_attempt, disconnect_at, same_point, device_open, attempt_late,
}
use hydravpn.Client.Tunnel.{IsTunnel}
use hydravpn.Client.Conversation.{IsLinked}
use hydravpn.Client.Opening.{connect-IsLinked}

-- "[::1]:8443"
bracketed :
    server_host (91 ∷ 58 ∷ 58 ∷ 49 ∷ 93 ∷ 58 ∷ 56 ∷ 52 ∷ 52 ∷ 51 ∷ []) ≡ 91 ∷ 58 ∷ 58 ∷ 49 ∷ 93 ∷ []
unfolding server_host host_before
bracketed = refl

abbrev pub idle : Client (List ℕ)
idle = record {
  server_addr = 104 ∷ 58 ∷ 56 ∷ 48 ∷ [];
  auto_reconnect = true;
  key_pair = pair_a;
  has_conn = true;
  crypto_session = none;
  has_tun = true;
  session_id = 0;
  assigned_ip = [];
  server_ip = [];
  connected = false;
  cancelled = false;
}

start-IsServer : IsServer start
start-IsServer = Reach-IsServer toy pair_b true at_start

abbrev id_bytes : List ℕ
id_bytes = replicate 7 0 ++ 5 ∷ []

connect-IsLinked_example :
    (m : Server (List ℕ)) × (hello answer : List ℕ) × (accept_session toy start 1
        (ok hello)
        100
        (some id_bytes)
        none
        true
      ≡ some (m, write_conn 1 answer ∷ []))
    × (c' : Client (List ℕ)) × (connect toy idle true
          (pos 1700)
          (some padding)
          true
          (ok answer)
          true
        ≡ (
          c',
          C.write_conn hello
              ∷ C.open_tun c'.assigned_ip c'.server_ip (server_host idle.server_addr)
              ∷ C.set_default_route
              ∷ C.set_dns
              ∷ C.go_tun_read
              ∷ C.go_receive
              ∷ C.go_keep_alive
              ∷ [],
          ok tt,
        ))
    × (c'.connected ≡ true)
    × IsLinked m c' 1 (subnet_base + 2)
unfolding new_server new_ip_pool allocate scan candidate contains max_hosts compute_shared_secret
    generate_key_pair clamp bytes_eq
connect-IsLinked_example =
    connect-IsLinked toy toy-IsDocumented start idle 1 100 (pos 1700) (some padding) none random_a
      random_b id_bytes (replicate 32 88) {pool = pool_after} {ip = subnet_base + 2} start-IsServer
      refl (unfold find_live in refl) refl refl (omega arith)
      (record { size = refl; bytes = omega arith }) tt (record { size = refl; bytes = omega arith })
      refl refl

abbrev pub client_keys : Session (List ℕ)
client_keys = record {
  send_key = replicate 32 88;
  recv_key = replicate 32 7;
  send_nonce = 0;
  recv_nonce = 0;
  send_cipher = replicate 32 88;
  recv_cipher = replicate 32 7;
}

abbrev pub client : Client (List ℕ)
client = record idle {
  crypto_session = some client_keys;
  session_id = 5;
  assigned_ip = 10 ∷ 8 ∷ 0 ∷ 2 ∷ [];
  server_ip = 10 ∷ 8 ∷ 0 ∷ 1 ∷ [];
  connected = true;
}

pub client-IsTunnel : IsTunnel client first
unfolding be_value
client-IsTunnel = record {
  keys = client_keys;
  session = refl;
  peers = record { there = refl; back = refl; there_key = refl; back_key = refl };
  same_id = refl;
  small = omega arith;
  address = refl;
}

abbrev pub started : List C.Effect
started =
    C.write_conn (init_bytes pair_a (pos 1700) (some padding))
    ∷ C.open_tun (10 ∷ 8 ∷ 0 ∷ 2 ∷ []) (10 ∷ 8 ∷ 0 ∷ 1 ∷ []) (104 ∷ [])
    ∷ C.set_default_route
    ∷ C.set_dns
    ∷ C.go_tun_read
    ∷ C.go_receive
    ∷ C.go_keep_alive
    ∷ []

connected :
    connect toy idle true
      (pos 1700)
      (some padding)
      true
      (ok (response_bytes toy start first none))
      true
    ≡ (client, started, ok tt)
unfolding connect perform_handshake finish_handshake read_response server_host host_before
    response_bytes unmarshal_packet marshal new_packet be_bytes be_value le_bytes
    marshal_handshake_response unmarshal_handshake_response compute_shared_secret
    derive_session_keys bytes_eq read_full clamp new_server
connected = refl

abbrev lost : Client (List ℕ)
lost = record client {
  crypto_session = some (encrypt toy client_keys (some nonce_tail) (1 ∷ [])).0;
  connected = false;
}

abbrev half : Client (List ℕ)
half = record client { connected = false }

abbrev half_started : List C.Effect
half_started =
    C.write_conn (init_bytes pair_a (pos 1700) (some padding))
    ∷ C.open_tun (10 ∷ 8 ∷ 0 ∷ 2 ∷ []) (10 ∷ 8 ∷ 0 ∷ 1 ∷ []) (104 ∷ [])
    ∷ C.set_default_route
    ∷ C.set_dns
    ∷ C.go_tun_read
    ∷ []

half_connected :
    connect_device toy idle true
      (pos 1700)
      (some padding)
      true
      (ok (response_bytes toy start first none))
      true
    ≡ (half, half_started, ok tt)
unfolding connect_device make_device perform_handshake finish_handshake read_response server_host
    host_before response_bytes unmarshal_packet marshal new_packet be_bytes be_value le_bytes
    marshal_handshake_response unmarshal_handshake_response compute_shared_secret
    derive_session_keys bytes_eq read_full clamp new_server
half_connected = refl

-- The client is marked as connected, and loses its connection before `Connect` has started the other loops.
abbrev lost_early : World (List ℕ)
lost_early = record (new_world lost) { reconnects = 1; starting = 1 }

to_lost_early :
    Reach toy (spawn half_started (record (new_world half) { finishing = 1 })) lost_early
unfolding spawn mark_connected send handle_disconnect encrypt
to_lost_early = next (next here (marks (omega arith) refl)) (
    sends (1 ∷ []) (some nonce_tail) false {c' = lost} {out = C.go_reconnect ∷ []} {more = false}
      (omega arith) refl refl)

Reach-IsSingle_example : lost_early.reconnects + lost_early.finishing + 0 ≤ 1
Reach-IsSingle_example =
    Reach-IsSingle toy idle true (pos 1700) (some padding) true
      (ok (response_bytes toy start first none)) true {c' = half} {out = half_started} refl
      half_connected to_lost_early

-- `Disconnect` when the handshake of the reconnect loop is done.
abbrev late : C.Client (List ℕ) × List C.Effect × Result (Unit {0})
late =
    attempt toy (some after_handshake) lost (pos 1700) (some padding) true
      (ok (response_bytes toy start first none)) true

succeeds_late : late ≡ (late.0, late.1, ok tt)
unfolding attempt finish_attempt disconnect_at same_point make_device mark_connected
    perform_handshake finish_handshake read_response response_bytes unmarshal_packet marshal
    new_packet be_bytes be_value le_bytes marshal_handshake_response unmarshal_handshake_response
    compute_shared_secret derive_session_keys bytes_eq read_full clamp new_server C.disconnect
succeeds_late = refl

attempt_late_example :
    (late.0.connected ≡ true)
    × (late.0.cancelled ≡ true)
    × (device_open lost.has_tun late.1 ≡ true)
    × (closes_conn late.1 ≡ true)
unfolding same_point
attempt_late_example =
    attempt_late toy after_handshake lost (pos 1700) (some padding) true
      (ok (response_bytes toy start first none)) true {c' = late.0} {out = late.1} succeeds_late
