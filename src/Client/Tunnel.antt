-- ===== src/Client/Tunnel.antt =====
-- The client against the server: the handshake of one is answered by the other, and what goes in at one
-- end of the tunnel comes out at the other.
use hydravpn.Base.{
  ℕ, ◌^◌, ◌<◌, ◌≡◌, refl, subst, ap, ◌∙◌, true, false, List, [], ◌∷◌, arith, replicate, none, some,
  ok, ◌>>=◌, ==_refl,
}
use hydravpn.Base.Bytes.{
  IsArray, be_bytes, be_value, length-be_bytes, be_bytes-IsBytes, replicate-IsBytes,
  be_value-be_bytes, be_value-lt,
}
use hydravpn.Base.Int.{ℤ, IsInt64}
use hydravpn.Protocol.{
  HandshakeInit, HandshakeResponse, IsHandshakeInit, IsHandshakeResponse, new_packet,
}
use hydravpn.Protocol.PacketType
use hydravpn.Protocol.Framed.{framed_init, framed_response}
use hydravpn.Crypto.{
  KeyPair, Session, Random, clamp, generate_key_pair, compute_shared_secret, derive_session_keys,
}
use hydravpn.Crypto.Library.{Primitives, IsDocumented}
use hydravpn.Crypto.Keys.{IsPeer, derive_session_keys-IsPeer, compute_shared_secret_agrees}
use hydravpn.Server.{
  ClientSession, Server, write_conn, server_ip, find_live, handshake_keys, response_bytes,
  accept_session,
}
use hydravpn.Server.IpPool.{IpPool as Pool, allocate}
use hydravpn.Server.IpPool.Invariant.{allocate_lem}
use hydravpn.Server.Keep.{IsServer}
use hydravpn.Server.Accept.{opened, opened-found}
use hydravpn.Server.Route.{has_entry}
use hydravpn.Client.{Client, init_bytes, read_response, finish_handshake}

-- What `rand.Read` fills an array of 32 with.
abbrev pub IsFill : Random → Type 0
IsFill none = Unit {0}
IsFill (some bytes) = IsArray 32 bytes

abbrev fill : Random → List ℕ
fill padding = elim padding [ none ↦ replicate 32 0 | some bytes ↦ bytes ]

fill-IsArray : (padding : Random) → IsFill padding → IsArray 32 (fill padding)
fill-IsArray none h = record { size = refl; bytes = replicate-IsBytes 32 0 (omega arith) }
fill-IsArray (some bytes) h = h

module _ {Aead : Type 0} (lib : Primitives Aead) where
  -- The server reads the client's first packet, and derives the keys from the client's public key.
  pub handshake_keys-init_bytes :
      (server client : KeyPair) (time : ℤ) (padding : Random)
      → IsArray 32 client.public_key
      → IsInt64 time
      → IsFill padding
      → handshake_keys lib server (ok (init_bytes client time padding)) ≡ (
          compute_shared_secret lib server.private_key client.public_key >>= λ secret.
          derive_session_keys lib secret false secret)
  unfolding init_bytes handshake_keys new_packet
  handshake_keys-init_bytes server client time padding key int64 filled =
      let init : HandshakeInit = record {
        client_public_key = client.public_key;
        timestamp = time;
        random_padding = fill padding;
      } in
      let v : IsHandshakeInit init = record {
        key = key;
        time = int64;
        padding = fill-IsArray padding filled;
      } in
      let (packet, payload) = framed_init PacketType.handshake_init 0 init (omega arith) v in
      rw (packet, payload) refl

  -- The client reads the server's answer.
  pub read_response-response_bytes :
      (s : Server Aead) (x : ClientSession Aead) (padding : Random)
      → IsArray 32 s.key_pair.public_key
      → x.id < 2 ^ 64
      → IsFill padding
      → (response : HandshakeResponse) × (read_response (ok (response_bytes lib s x padding))
          ≡ ok response)
        × (response.server_public_key ≡ s.key_pair.public_key)
        × (response.session_id ≡ x.id)
        × (response.assigned_ip ≡ be_bytes 4 x.assigned_ip)
        × (response.server_ip ≡ server_ip)
  unfolding response_bytes read_response new_packet
  read_response-response_bytes s x padding key id filled =
      let response : HandshakeResponse = record {
        server_public_key = s.key_pair.public_key;
        session_id = x.id;
        assigned_ip = be_bytes 4 x.assigned_ip;
        server_ip = server_ip;
        subnet = 24;
        random_padding = fill padding;
      } in
      let v : IsHandshakeResponse response = record {
        key = key;
        session = id;
        assigned = record {
          size = length-be_bytes 4 x.assigned_ip;
          bytes = be_bytes-IsBytes 4 x.assigned_ip;
        };
        server = record { size = refl; bytes = omega arith };
        mask = omega arith;
        padding = fill-IsArray padding filled;
      } in
      let (packet, payload) = framed_response PacketType.handshake_response x.id response id v in
      (response, rw (packet, payload) refl, refl, refl, refl, refl)

-- The two ends of an established tunnel.
pub record IsTunnel {Aead : Type 0} (c : Client Aead) (x : ClientSession Aead) : Type 0 where
  pub keys : Session Aead
  pub session : c.crypto_session ≡ some keys
  pub peers : IsPeer keys x.crypto_session
  pub same_id : c.session_id ≡ x.id
  pub small : x.id < 2 ^ 64
  pub address : be_value c.assigned_ip ≡ x.assigned_ip

module _ {Aead : Type 0} (lib : Primitives Aead) (doc : IsDocumented lib) where
  public_key-IsArray :
      (r : Random) {kp : KeyPair} → generate_key_pair lib r ≡ ok kp → IsArray 32 kp.public_key
  unfolding generate_key_pair
  public_key-IsArray none h = cc
  public_key-IsArray (some r) {kp} h =
      let public : lib.scalar_base_mult (clamp r) ≡ kp.public_key = cc in
      subst (IsArray 32) public (doc.base_size (clamp r))

  -- The client's end, on the bytes of the server's answer.
  finish-IsTunnel :
      (s : Server Aead) (x : ClientSession Aead) (c : Client Aead) (padding : Random)
      (secret : List ℕ) {a : Session Aead}
      → IsArray 32 s.key_pair.public_key
      → x.id < 2 ^ 64
      → x.assigned_ip < 2 ^ 32
      → IsFill padding
      → compute_shared_secret lib c.key_pair.private_key s.key_pair.public_key ≡ ok secret
      → derive_session_keys lib secret true secret ≡ ok a
      → IsPeer a x.crypto_session
      → let (c', result) = finish_handshake lib c (ok (response_bytes lib s x padding)) in
        (result ≡ ok tt) × IsTunnel c' x
  unfolding finish_handshake
  finish-IsTunnel s x c padding secret {a} key small address filled shared derived peers =
      let (response, read, key', id', ip, _) =
        read_response-response_bytes lib s x padding key small filled in
      let shared' : compute_shared_secret lib c.key_pair.private_key response.server_public_key
          ≡ ok secret =
        ap (compute_shared_secret lib c.key_pair.private_key) key' ∙ shared in
      rw (read, shared', derived, finish_handshake)
        (
          refl,
          record {
            keys = a;
            session = refl;
            peers = peers;
            same_id = id';
            small = small;
            address = ap be_value ip ∙ be_value-be_bytes 4 x.assigned_ip (omega arith);
          },
        )

  -- A client dials a server whose state is sound, on a new connection. The key pairs were generated, the
  -- random fields and the time have their Go types, the peers' secret is no low-order point, and the pool
  -- has an address. Then the server answers the client's packet and opens a session, the client's
  -- handshake succeeds on that answer, and the two are the ends of a tunnel: peer sessions, the same id,
  -- and the address that the pool gave. The session is in the table.
  pub handshake-IsTunnel :
      (s : Server Aead) (c : Client Aead) (conn now : ℕ) (time : ℤ)
      (client_padding padding : Random) (r t id_bytes secret : List ℕ) {pool : Pool} {ip : ℕ}
      → IsServer s
      → find_live s.live conn ≡ none
      → generate_key_pair lib (some t) ≡ ok s.key_pair
      → generate_key_pair lib (some r) ≡ ok c.key_pair
      → IsInt64 time
      → IsFill client_padding
      → IsFill padding
      → IsArray 8 id_bytes
      → compute_shared_secret lib c.key_pair.private_key s.key_pair.public_key ≡ ok secret
      → allocate s.ip_pool ≡ some (pool, ok ip)
      → (m : Server Aead) × (x : ClientSession Aead) × (answer : List ℕ) × (accept_session lib s
            conn
            (ok (init_bytes c.key_pair time client_padding))
            now
            (some id_bytes)
            padding
            true
          ≡ some (m, write_conn conn answer ∷ []))
        × (find_live m.live conn ≡ some x)
        × (has_entry m.sessions conn ≡ true)
        × (m.has_tun ≡ s.has_tun)
        × (x.assigned_ip ≡ ip)
        × ((finish_handshake lib c (ok answer)).1 ≡ ok tt)
        × IsTunnel (finish_handshake lib c (ok answer)).0 x
  unfolding accept_session
  handshake-IsTunnel s c conn now time client_padding padding r t id_bytes secret {pool} {ip} v free
        server client int64 client_filled filled id shared given =
      let (a, b, for_client, for_server, peers, _, _) =
        derive_session_keys-IsPeer lib doc secret secret in
      let same_secret : compute_shared_secret lib s.key_pair.private_key c.key_pair.public_key
          ≡ ok secret =
        compute_shared_secret_agrees lib doc t r {kp = s.key_pair} {kq = c.key_pair} server client
        ∙ shared in
      let keys : handshake_keys lib s.key_pair (ok (init_bytes c.key_pair time client_padding))
          ≡ ok b =
        handshake_keys-init_bytes lib s.key_pair c.key_pair time client_padding
          (public_key-IsArray (some r) client) int64 client_filled
        ∙ rw (same_secret, for_server) refl in
      let x : ClientSession Aead = record {
        id = be_value id_bytes;
        conn = conn;
        crypto_session = b;
        assigned_ip = ip;
        last_seen = now;
      } in
      let allocated = allocate_lem s.ip_pool v.pool given in
      let small : x.id < 2 ^ 64 =
        subst (λ n. be_value id_bytes < 256 ^ n) id.size (be_value-lt id_bytes id.bytes) in
      let (done, tunnel) =
        finish-IsTunnel s x c padding secret (public_key-IsArray (some t) server) small
          (omega (arith, allocated.lent, v.pool.subnet.bounded)) filled shared for_client peers in
      (
        opened s pool x,
        x,
        response_bytes lib s x padding,
        rw (keys, given, accept_session) refl,
        opened-found s pool x,
        rw (==_refl conn) refl,
        refl,
        refl,
        done,
        tunnel,
      )
