-- ===== src/Server.antt =====
-- pkg/server/server.go: the address pool, and the server's state under its handlers. A function here
-- is what one goroutine does between two points at which another may run: one handshake, one packet
-- of a session, the cleanup of a session, one packet from the TUN device. Log output is left out.
pub mod IpPool
pub mod Sessions
pub mod Keep
pub mod Accept
pub mod Route
pub mod Leave
pub mod Others
pub mod Interleaving
pub mod Apart
pub mod Life
pub mod Stages
pub mod Tests
use hydravpn.Base.{
  ℕ, ◌+◌, ◌*◌, ◌^◌, Bool, true, false, not, List, [], ◌∷◌, ltb, ◌==◌, length, replicate, Option,
  none, some, Result, ok, err, ◌>>=◌, ◌>>◌, fail_if, if◌then◌else◌,
}
use hydravpn.Base.Bytes.{be_bytes, be_value}
use hydravpn.Base.Slices.{slice}
use hydravpn.Protocol.{
  Packet, HandshakeResponse, new_packet, marshal, unmarshal_packet, unmarshal_handshake_init,
  marshal_handshake_response,
}
use hydravpn.Protocol.PacketType
use hydravpn.Crypto.{
  KeyPair, Session, Random, compute_shared_secret, derive_session_keys, encrypt, decrypt,
}
use hydravpn.Crypto.Library.{Primitives}
use IpPool.{IpPool as Pool, new_ip_pool, allocate, release}

-- A session object. Connections are numbered.
pub record ClientSession (Aead : Type 0) : Type 0 where
  pub id : ℕ
  pub conn : ℕ
  pub crypto_session : Session Aead
  pub assigned_ip : ℕ
  pub last_seen : ℕ

-- `sessions` maps a session id to the connection whose session object it points to; `live` holds
-- the objects of the running handlers.
pub record Server (Aead : Type 0) : Type 0 where
  pub key_pair : KeyPair
  pub has_tun : Bool
  pub sessions : List (ℕ × ℕ)
  pub live : List (ClientSession Aead)
  pub ip_pool : Pool

-- 10.8.0.0
abbrev pub subnet_base : ℕ
subnet_base = 10 * 2 ^ 24 + 8 * 2 ^ 16

-- `New` with its address pool, on a key pair that was made, and whether `Start` makes a TUN device.
unfoldable pub new_server : {Aead : Type 0} → KeyPair → Bool → Server Aead
new_server key_pair has_tun = record {
  key_pair = key_pair;
  has_tun = has_tun;
  sessions = [];
  live = [];
  ip_pool = new_ip_pool subnet_base 24 32;
}

-- What leaves the server.
pub data Effect : Type 0 where
  write_conn : ℕ → List ℕ → Effect
  write_tun : List ℕ → Effect
  close_conn : ℕ → Effect

unfoldable pub delete_id : List (ℕ × ℕ) → ℕ → List (ℕ × ℕ)
delete_id [] id = []
delete_id ((k, c) ∷ rest) id = if k == id then delete_id rest id else (k, c) ∷ delete_id rest id

module _ {Aead : Type 0} where
  unfoldable pub find_live : List (ClientSession Aead) → ℕ → Option (ClientSession Aead)
  find_live [] c = none
  find_live (s ∷ rest) c = if s.conn == c then some s else find_live rest c

  -- A write through the pointer to the session object of the same connection.
  unfoldable pub store_live :
      List (ClientSession Aead) → ClientSession Aead → List (ClientSession Aead)
  store_live [] s' = []
  store_live (s ∷ rest) s' = if s.conn == s'.conn then s' ∷ rest else s ∷ store_live rest s'

  unfoldable pub remove_live : List (ClientSession Aead) → ℕ → List (ClientSession Aead)
  remove_live [] c = []
  remove_live (s ∷ rest) c = if s.conn == c then rest else s ∷ remove_live rest c

  abbrev pub store : Server Aead → ClientSession Aead → Server Aead
  store s session = record s { live = store_live s.live session }

  -- The deferred cleanup of a handler: the table entry, the address, the connection.
  unfoldable pub close_session : Server Aead → ClientSession Aead → Server Aead × List Effect
  close_session s session = (
    record s {
      sessions = delete_id s.sessions session.id;
      live = remove_live s.live session.conn;
      ip_pool = release s.ip_pool session.assigned_ip;
    },
    close_conn session.conn ∷ [],
  )

-- 10.8.0.1
abbrev pub server_ip : List ℕ
server_ip = 10 ∷ 8 ∷ 0 ∷ 1 ∷ []

module _ {Aead : Type 0} (lib : Primitives Aead) where
  -- From the first packet of a connection to the session's keys; the shared secret is the salt.
  unfoldable pub handshake_keys : KeyPair → Result (List ℕ) → Result (Session Aead)
  handshake_keys key_pair input = do
    buf ← input
    packet ← unmarshal_packet buf
    fail_if (not (packet.header.packet_type == PacketType.handshake_init)) "expected handshake init"
    init ← unmarshal_handshake_init packet.payload
    shared_secret ← compute_shared_secret lib key_pair.private_key init.client_public_key
    derive_session_keys lib shared_secret false shared_secret

  -- The packet that answers a handshake. A failed draw leaves the padding at zero.
  unfoldable pub response_bytes : Server Aead → ClientSession Aead → Random → List ℕ
  response_bytes s session padding =
      let response : HandshakeResponse = record {
        server_public_key = s.key_pair.public_key;
        session_id = session.id;
        assigned_ip = be_bytes 4 session.assigned_ip;
        server_ip = server_ip;
        subnet = 24;
        random_padding = elim padding [ none ↦ replicate 32 0 | some bytes ↦ bytes ];
      } in
      marshal
        (new_packet PacketType.handshake_response session.id (marshal_handshake_response response))

  -- `handleConnection` up to its loop, on the result of the first read, the time, the random session
  -- id and padding, and whether the response can be written. `none` is a panic.
  unfoldable pub accept_session :
      Server Aead
      → ℕ
      → Result (List ℕ)
      → ℕ
      → Random
      → Random
      → Bool
      → Option (Server Aead × List Effect)
  accept_session s conn input now id_bytes padding writable =
      elim (handshake_keys s.key_pair input) [
        | err e ↦ some (s, close_conn conn ∷ [])
        | ok crypto_session ↦ elim (allocate s.ip_pool) [
          | none ↦ none
          | some (pool, result) ↦ elim result [
            | err e ↦ some (record s { ip_pool = pool }, close_conn conn ∷ [])
            | ok ip ↦
                let id : ℕ = elim id_bytes [ none ↦ 0 | some bytes ↦ be_value bytes ] in
                let session : ClientSession Aead = record {
                  id = id;
                  conn = conn;
                  crypto_session = crypto_session;
                  assigned_ip = ip;
                  last_seen = now;
                } in
                let opened : Server Aead = record s {
                  sessions = (id, conn) ∷ delete_id s.sessions id;
                  live = session ∷ s.live;
                  ip_pool = pool;
                } in
                some (
                  if writable
                  then (opened, write_conn conn (response_bytes s session padding) ∷ [])
                  else close_session opened session)
          ]
        ]
      ]

  -- A data packet: the plaintext goes to the TUN device, if there is one.
  unfoldable pub serve_transfer :
      Server Aead → ClientSession Aead → List ℕ → Server Aead × List Effect
  serve_transfer s session payload =
      let (crypto_session, result) = decrypt lib session.crypto_session payload in
      let s' = store s (record session { crypto_session = crypto_session }) in
      elim result [
        | err e ↦ (s', [])
        | ok plaintext ↦ (s', if s.has_tun then write_tun plaintext ∷ [] else [])
      ]

  -- The switch on the packet type; a packet of any other type is ignored.
  unfoldable pub serve_packet :
      Server Aead → ClientSession Aead → Packet → Server Aead × List Effect
  serve_packet s session packet =
      let t = packet.header.packet_type in
      if t == PacketType.transfer
      then serve_transfer s session packet.payload
      else if t == PacketType.keep_alive
      then (
        store s session,
        write_conn session.conn (marshal (new_packet PacketType.keep_alive session.id [])) ∷ [],
      )
      else if t == PacketType.disconnect
      then close_session (store s session) session
      else (store s session, [])

  -- One round of the loop of `handleConnection`, on the result of the read.
  unfoldable pub serve :
      Server Aead → ClientSession Aead → Result (List ℕ) → ℕ → Server Aead × List Effect
  serve s session input now = elim input [
    | err e ↦ close_session s session
    | ok buf ↦ elim (unmarshal_packet buf) [
      | err e ↦ (s, [])
      | ok packet ↦ serve_packet s (record session { last_seen = now }) packet
    ]
  ]

  -- The search of `tunReadLoop` through the session table, in the order in which it is visited. The
  -- draw of random bytes is given for each connection.
  unfoldable pub route_to :
      Server Aead → List (ℕ × ℕ) → ℕ → List ℕ → (ℕ → Random) → Server Aead × List Effect
  route_to s [] dest buf random = (s, [])
  route_to s ((id, conn) ∷ rest) dest buf random = elim (find_live s.live conn) [
    | none ↦ route_to s rest dest buf random
    | some session ↦ elim (session.assigned_ip == dest) [
      | false ↦ route_to s rest dest buf random
      | true ↦
          let (crypto_session, result) = encrypt lib session.crypto_session (random conn) buf in
          let s' = store s (record session { crypto_session = crypto_session }) in
          elim result [
            | err e ↦ route_to s' rest dest buf random
            | ok ciphertext ↦ (
              s',
              write_conn conn (marshal (new_packet PacketType.transfer session.id ciphertext)) ∷ [],
            )
          ]
    ]
  ]

  -- One packet from the TUN device: the destination of an IPv4 packet is at bytes 16 to 19.
  unfoldable pub route : Server Aead → List ℕ → (ℕ → Random) → Server Aead × List Effect
  unfolding route_to
  route s buf random =
      if ltb (length buf) 20
      then (s, [])
      else route_to s s.sessions (be_value (slice 16 20 buf)) buf random
