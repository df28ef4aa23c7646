-- ===== src/Client.antt =====
-- pkg/client/client.go: the client's handshake, its three loops, and how a connection ends. A function
-- is what one goroutine does between two points at which another may run; the results of reads and
-- writes, the time and the random bytes are arguments. Log output is left out.
pub mod Host
pub mod Tunnel
pub mod Transfer
pub mod Conversation
pub mod Control
pub mod Opening
pub mod Goroutines
pub mod Attempt
pub mod Ends
pub mod Early
pub mod Flow
pub mod Tests
pub mod TunnelTests
use hydravpn.Base.{
  ℕ, ◌-◌, suc, zero, Bool, true, false, not, ◌||◌, List, [], ◌∷◌, ◌++◌, ltb, ◌==◌, length, get_or,
  take, replicate, Option, none, some, Result, ok, err, ◌>>=◌, ◌>>◌, fail_if, if◌then◌else◌, wrap,
}
use hydravpn.Base.Int.{ℤ}
use hydravpn.Protocol.{
  HandshakeInit, HandshakeResponse, Packet, new_packet, marshal, unmarshal_packet,
  marshal_handshake_init, unmarshal_handshake_response,
}
use hydravpn.Protocol.PacketType
use hydravpn.Crypto.{
  KeyPair, Session, Random, compute_shared_secret, derive_session_keys, encrypt, decrypt,
}
use hydravpn.Crypto.Library.{Primitives}

-- `crypto_session` may be nil. `cancelled` is the state of the client's context.
pub record Client (Aead : Type 0) : Type 0 where
  pub server_addr : List ℕ
  pub auto_reconnect : Bool
  pub key_pair : KeyPair
  pub has_conn : Bool
  pub crypto_session : Option (Session Aead)
  pub has_tun : Bool
  pub session_id : ℕ
  pub assigned_ip : List ℕ
  pub server_ip : List ℕ
  pub connected : Bool
  pub cancelled : Bool

-- What leaves the client, and the goroutines that it starts.
pub data Effect : Type 0 where
  write_conn : List ℕ → Effect
  close_conn : Effect
  write_tun : List ℕ → Effect
  open_tun : List ℕ → List ℕ → List ℕ → Effect
  set_default_route : Effect
  set_dns : Effect
  close_tun : Effect
  go_tun_read : Effect
  go_receive : Effect
  go_keep_alive : Effect
  go_reconnect : Effect

-- The search of `Connect` for the last colon, from index n - 1 down.
unfoldable pub host_before : List ℕ → ℕ → List ℕ
host_before addr zero = addr
host_before addr (suc i) = if get_or addr i 0 == 58 then take i addr else host_before addr i

-- The server's address without its port; the characters are their codes.
unfoldable pub server_host : List ℕ → List ℕ
unfolding host_before
server_host addr = if ltb 1 (length addr) then host_before addr (length addr) else addr

-- The first packet of a connection. A failed draw leaves the padding at zero.
unfoldable pub init_bytes : KeyPair → ℤ → Random → List ℕ
init_bytes key_pair time padding =
    let init : HandshakeInit = record {
      client_public_key = key_pair.public_key;
      timestamp = time;
      random_padding = elim padding [ none ↦ replicate 32 0 | some bytes ↦ bytes ];
    } in
    marshal (new_packet PacketType.handshake_init 0 (marshal_handshake_init init))

unfoldable pub read_response : Result (List ℕ) → Result HandshakeResponse
read_response input = do
  buf ← wrap "failed to read handshake response" input
  packet ← wrap "failed to parse response" (unmarshal_packet buf)
  fail_if (not (packet.header.packet_type == PacketType.handshake_response))
      "unexpected packet type"
  wrap "failed to parse handshake response" (unmarshal_handshake_response packet.payload)

unfoldable pub handle_disconnect : {Aead : Type 0} → Client Aead → Client Aead × List Effect
handle_disconnect c =
    if c.connected
    then (record c { connected = false }, if c.auto_reconnect then go_reconnect ∷ [] else [])
    else (c, [])

module _ {Aead : Type 0} (lib : Primitives Aead) where
  -- `performHandshake` from the read on. Keys that cannot be derived leave a nil session.
  unfoldable pub finish_handshake : Client Aead → Result (List ℕ) → Client Aead × Result (Unit {0})
  unfolding read_response
  finish_handshake c input =
      let secret : Result (HandshakeResponse × List ℕ) = do
        response ← read_response input
        shared_secret ←
            wrap "failed to compute shared secret"
              (compute_shared_secret lib c.key_pair.private_key response.server_public_key)
        ok (response, shared_secret)
      in elim secret [
        | err e ↦ (c, err e)
        | ok (response, shared_secret) ↦
            elim (derive_session_keys lib shared_secret true shared_secret) [
              | err e ↦ (record c { crypto_session = none }, err "failed to derive keys")
              | ok keys ↦ (
                record c {
                  crypto_session = some keys;
                  session_id = response.session_id;
                  assigned_ip = response.assigned_ip;
                  server_ip = response.server_ip;
                },
                ok tt,
              )
            ]
      ]

  unfoldable pub perform_handshake :
      Client Aead
      → ℤ
      → Random
      → Bool
      → Result (List ℕ)
      → Client Aead × List Effect × Result (Unit {0})
  perform_handshake c time padding writable input =
      if writable
      then (let (c', result) = finish_handshake c input in
          (c', write_conn (init_bytes c.key_pair time padding) ∷ [], result))
      else (c, [], err "failed to send handshake init")

  -- `Connect`: whether the dial succeeds, the handshake's arguments, and whether a TUN device is made.
  unfoldable pub connect :
      Client Aead
      → Bool
      → ℤ
      → Random
      → Bool
      → Result (List ℕ)
      → Bool
      → Client Aead × List Effect × Result (Unit {0})
  unfolding server_host
  connect c dialed time padding writable input tun_made =
      if not dialed
      then (c, [], err "failed to connect")
      else (let (c', sent, result) =
            perform_handshake (record c { has_conn = true }) time padding writable input in
          elim result [
            | err e ↦ (c', sent ++ close_conn ∷ [], err "handshake failed")
            | ok _ ↦ (
              record c' { connected = true; has_tun = tun_made || c'.has_tun },
              sent
                  ++ ((if tun_made
                        then open_tun c'.assigned_ip c'.server_ip (server_host c.server_addr)
                          ∷ set_default_route
                          ∷ set_dns
                          ∷ go_tun_read
                          ∷ []
                        else [])
                      ++ go_receive ∷ go_keep_alive ∷ []),
              ok tt,
            )
          ])

  -- One round of `tunReadLoop` on a packet that was read, and whether the loop goes on. A nil session
  -- is a panic: `none`.
  unfoldable pub send :
      Client Aead → List ℕ → Random → Bool → Option (Client Aead × List Effect × Bool)
  unfolding handle_disconnect
  send c buf random writable = elim c.crypto_session [
    | none ↦ none
    | some session ↦
        let (session', result) = encrypt lib session random buf in
        let c' = record c { crypto_session = some session' } in
        elim result [
          | err e ↦ some (c', [], true)
          | ok ciphertext ↦
              if writable
              then some (
                c',
                write_conn (marshal (new_packet PacketType.transfer c.session_id ciphertext)) ∷ [],
                true,
              )
              else (let (c'', out) = handle_disconnect c' in some (c'', out, false))
        ]
  ]

  -- A data packet from the server.
  unfoldable pub receive_transfer : Client Aead → List ℕ → Option (Client Aead × List Effect × Bool)
  receive_transfer c payload = elim c.crypto_session [
    | none ↦ none
    | some session ↦
        let (session', result) = decrypt lib session payload in
        let c' = record c { crypto_session = some session' } in
        elim result [
          | err e ↦ some (c', [], true)
          | ok plaintext ↦ some (c', if c.has_tun then write_tun plaintext ∷ [] else [], true)
        ]
  ]

  -- One round of `receiveLoop` on the result of the read, and whether the loop goes on.
  unfoldable pub receive : Client Aead → Result (List ℕ) → Option (Client Aead × List Effect × Bool)
  unfolding handle_disconnect receive_transfer
  receive c input = elim input [
    | err e ↦
        if c.cancelled
        then some (c, [], false)
        else (let (c', out) = handle_disconnect c in some (c', out, false))
    | ok buf ↦ elim (unmarshal_packet buf) [
      | err e ↦ some (c, [], true)
      | ok packet ↦
          let t = packet.header.packet_type in
          if t == PacketType.transfer
          then receive_transfer c packet.payload
          else if t == PacketType.keep_alive
          then some (c, [], true)
          else if t == PacketType.disconnect
          then (let (c', out) = handle_disconnect c in some (c', out, false))
          else some (c, [], true)
    ]
  ]

-- One tick of `keepaliveLoop`, and whether the loop goes on.
unfoldable pub keep_alive : {Aead : Type 0} → Client Aead → Bool → List Effect × Bool
keep_alive c writable = if not c.connected then ([], false) else (
  if writable
      then write_conn (marshal (new_packet PacketType.keep_alive c.session_id [])) ∷ []
      else [],
  true,
)

-- `Disconnect`, up to its wait for the goroutines.
unfoldable pub disconnect : {Aead : Type 0} → Client Aead → Client Aead × List Effect
disconnect c = (
  record c { connected = false; cancelled = true },
  (if c.has_conn
        then write_conn (marshal (new_packet PacketType.disconnect c.session_id []))
          ∷ close_conn
          ∷ []
        else [])
      ++ (if c.has_tun then close_tun ∷ [] else []),
)
