-- ===== src/Server/Tests.antt =====
-- Tests of the server: a client connects, sends, receives and leaves.
use hydravpn.Base.{
  ℕ, ◌+◌, ◌≡◌, refl, true, List, [], ◌∷◌, ◌++◌, replicate, arith, none, some, Result, ok,
}
use hydravpn.Base.Bytes.{be_bytes, le_bytes, be_value, bytes_eq, read_full}
use hydravpn.Base.Int.{pos, to_uint64, to_int64}
use hydravpn.Protocol.{
  new_packet, marshal, unmarshal_packet, marshal_handshake_init, unmarshal_handshake_init,
}
use hydravpn.Protocol.PacketType
use hydravpn.Crypto.{Session, clamp, compute_shared_secret, derive_session_keys}
use hydravpn.Crypto.Toy.{toy, pair_a, pair_b, nonce_tail}
use hydravpn.Server.{
  ClientSession, Server, Effect, write_conn, close_conn, subnet_base, new_server, find_live,
  store_live, remove_live, delete_id, close_session, handshake_keys, response_bytes, accept_session,
  serve_packet, serve,
}
use hydravpn.Server.IpPool.{
  IpPool as Pool, contains, remove, max_hosts, candidate, scan, allocate, release, new_ip_pool,
}
use hydravpn.Server.Keep.{IsServer}
use hydravpn.Server.Interleaving.{Reach, here, next, accepts, Reach-IsServer}
use hydravpn.Server.Leave.{IsLeft, disconnected, serve-IsLeft}
use hydravpn.Server.Accept.{accept_session-IsServer}
use hydravpn.Server.Apart.{IsUntouched}
use hydravpn.Server.Apart.Steps.{Step-IsUntouched}
use hydravpn.Client.{init_bytes}

abbrev pub padding : List ℕ
padding = replicate 32 9

abbrev pub keys : Session (List ℕ)
keys = record {
  send_key = replicate 32 7;
  recv_key = replicate 32 88;
  send_nonce = 0;
  recv_nonce = 0;
  send_cipher = replicate 32 7;
  recv_cipher = replicate 32 88;
}

abbrev pub start : Server (List ℕ)
start = new_server pair_b true

abbrev pub first : ClientSession (List ℕ)
first = record {
  id = 5;
  conn = 1;
  crypto_session = keys;
  assigned_ip = subnet_base + 2;
  last_seen = 100;
}

abbrev pub pool_after : Pool
pool_after = record {
  base = subnet_base;
  ones = 24;
  bits = 32;
  used = (subnet_base + 2) ∷ [];
  next_host = 3;
}

abbrev pub one_client : Server (List ℕ)
one_client = record {
  key_pair = pair_b;
  has_tun = true;
  sessions = (5, 1) ∷ [];
  live = first ∷ [];
  ip_pool = pool_after;
}

pub accepted :
    accept_session toy start 1
      (ok (init_bytes pair_a (pos 1700) (some padding)))
      100
      (some (0 ∷ 0 ∷ 0 ∷ 0 ∷ 0 ∷ 0 ∷ 0 ∷ 5 ∷ []))
      (some padding)
      true
    ≡ some (one_client, write_conn 1 (response_bytes toy start first (some padding)) ∷ [])
unfolding accept_session new_server new_ip_pool init_bytes handshake_keys allocate scan candidate
    contains max_hosts unmarshal_packet marshal new_packet be_bytes le_bytes be_value clamp
    compute_shared_secret derive_session_keys bytes_eq read_full marshal_handshake_init
    unmarshal_handshake_init delete_id to_int64 to_uint64
accepted = refl

-- The server after that handshake, and after the run of it.
pub run :
    Reach toy start one_client
      ([] ++ (write_conn 1 (response_bytes toy start first (some padding)) ∷ []))
unfolding new_server
run = next here (
    accepts 1 (ok (init_bytes pair_a (pos 1700) (some padding))) 100
      (some (0 ∷ 0 ∷ 0 ∷ 0 ∷ 0 ∷ 0 ∷ 0 ∷ 5 ∷ [])) (some padding) true (unfold find_live in refl)
      accepted)

pub one_client-IsServer : IsServer one_client
one_client-IsServer = Reach-IsServer toy pair_b true run

-- An IPv4 packet for 10.8.0.2.
abbrev pub for_client : List ℕ
for_client = replicate 16 69 ++ 10 ∷ 8 ∷ 0 ∷ 2 ∷ []

abbrev pub sealed : List ℕ
sealed = (replicate 8 0 ++ nonce_tail) ++ (replicate 16 7 ++ for_client)

abbrev goodbye : List ℕ
goodbye = marshal (new_packet PacketType.disconnect 5 [])

serve-IsLeft_example :
    ((serve toy one_client first (ok goodbye) 101).1 ≡ close_conn 1 ∷ [])
    × IsLeft one_client (serve toy one_client first (ok goodbye) 101).0 first
unfolding unmarshal_packet marshal new_packet be_bytes le_bytes be_value
serve-IsLeft_example =
    serve-IsLeft toy one_client first (ok goodbye) 101 (unfold find_live in refl)
      one_client-IsServer
      (disconnected goodbye (new_packet PacketType.disconnect 5 []) refl refl refl)

-- The client leaves: its address is free again.
left : serve toy one_client first (ok (marshal (new_packet PacketType.disconnect 5 []))) 101 ≡ (
  record one_client { sessions = []; live = []; ip_pool = record pool_after { used = [] } },
  close_conn 1 ∷ [],
)
unfolding serve serve_packet close_session store_live remove_live delete_id release remove
    unmarshal_packet marshal new_packet be_bytes le_bytes be_value
left = refl

-- Another client dials.
Step-IsUntouched_example :
    (m : Server (List ℕ)) × (out : List Effect) × IsUntouched one_client m out first
Step-IsUntouched_example =
    let hello : Result (List ℕ) = ok (init_bytes pair_a (pos 1700) (some padding)) in
    let free : find_live one_client.live 2 ≡ none = unfold find_live in refl in
    let found : find_live one_client.live 1 ≡ some first = unfold find_live in refl in
    let (m, out, accepted_too, sound) =
      accept_session-IsServer toy one_client 2 hello 130 none none true free one_client-IsServer in
    (
      m,
      out,
      Step-IsUntouched toy first (accepts 2 hello 130 none none true free accepted_too)
          (omega arith, omega arith) one_client-IsServer (found, refl),
    )
