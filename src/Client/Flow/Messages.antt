-- ===== src/Client/Flow/Messages.antt =====
-- The messages of a tunnel: what each end writes, and what the other end makes of it.
use hydravpn.Base.{
  ℕ, ◌^◌, ◌≤◌, ◌<◌, ◌≡◌, refl, ap, true, false, List, [], ◌∷◌, ◌++◌, arith, ltb, min, length,
  length-append, take_all, some, ok,
}
use native.Mathlib.Nat.{le_refl}
use hydravpn.Base.Bytes.{le_bytes, length-le_bytes}
use hydravpn.Protocol.{new_packet, marshal, unmarshal_packet}
use hydravpn.Protocol.PacketType
use hydravpn.Protocol.RoundTrip.{length-marshal}
use hydravpn.Protocol.Framed.{unmarshal-new_packet}
use hydravpn.Crypto.{encrypt}
use hydravpn.Crypto.Library.{Primitives, IsDocumented}
use hydravpn.Transport.WebSocket.{Connection, read, read_message}
use hydravpn.Server.{ClientSession}
use hydravpn.Client.{Client, send, receive, receive_transfer, keep_alive}
use hydravpn.Client as C
use hydravpn.Client.Tunnel.{IsTunnel}
use hydravpn.Client.Flow.{read_size}

-- A sealed packet with its nonce, or a keep-alive.
pub data Item : Type 0 where
  packet : List ℕ → List ℕ → Item
  beat : Item

abbrev pub IsItem : Item → Type 0
IsItem (packet nonce plaintext) = (length nonce ≡ 24) × (length plaintext ≤ 2048)
IsItem beat = Unit {0}

abbrev pub payloads : List Item → List (List ℕ)
payloads [] = []
payloads (packet nonce plaintext ∷ items) = plaintext ∷ payloads items
payloads (beat ∷ items) = payloads items

-- `Read` with an empty buffer takes a message whole, where it fits.
pub read_whole :
    (c : Connection) (m : List ℕ) (ms : List (List ℕ))
    → c.read_buf ≡ []
    → c.incoming ≡ m ∷ ms
    → length m ≤ read_size
    → read c read_size ≡ (record c { incoming = ms }, ok m)
unfolding read read_message
read_whole c m ms empty queue fits =
    let none_left : ltb 0 (length c.read_buf) ≡ false = ap (λ b. ltb 0 (length b)) empty in
    let whole : min read_size (length m) ≡ length m = ground arith in
    let not_less : ltb (length m) (length m) ≡ false = ground arith in
    rw (none_left, queue, whole, not_less, take_all (length m) m (le_refl _), read_message) refl

module _ {Aead : Type 0} (lib : Primitives Aead) where
  -- The message of an item, sealed with a cipher, on a session.
  abbrev pub message_of : Aead → ℕ → Item → List ℕ
  message_of cipher id (packet nonce plaintext) =
      marshal (new_packet PacketType.transfer id (nonce ++ lib.seal cipher nonce plaintext))
  message_of cipher id beat = marshal (new_packet PacketType.keep_alive id [])

  abbrev pub messages : Aead → ℕ → List Item → List (List ℕ)
  messages cipher id [] = []
  messages cipher id (item ∷ items) = message_of cipher id item ∷ messages cipher id items

  pub messages-append :
      (cipher : Aead) (id : ℕ) (items more : List Item)
      → messages cipher id (items ++ more) ≡ messages cipher id items ++ messages cipher id more
  messages-append cipher id [] more = refl
  messages-append cipher id (item ∷ items) more = rw (messages-append cipher id items more)

module _ {Aead : Type 0} (lib : Primitives Aead) (doc : IsDocumented lib) where
  pub message_fits :
      (cipher : Aead) (id : ℕ) (item : Item)
      → IsItem item
      → length (message_of lib cipher id item) ≤ read_size
  unfolding new_packet
  message_fits cipher id (packet nonce plaintext) (len, short) =
      let sealed = lib.seal cipher nonce plaintext in
      omega (
        arith,
        len,
        length-marshal (new_packet PacketType.transfer id (nonce ++ sealed)),
        length-append nonce sealed,
        doc.seal_size cipher nonce plaintext,
      )
  message_fits cipher id beat v =
      omega (arith, length-marshal (new_packet PacketType.keep_alive id []))

  -- The packet of a message.
  pub unmarshal_message :
      (cipher : Aead) (id : ℕ) (nonce plaintext : List ℕ)
      → id < 2 ^ 64
      → length nonce ≡ 24
      → length plaintext ≤ 2048
      → let sealed = new_packet PacketType.transfer id (nonce ++ lib.seal cipher nonce plaintext) in
        unmarshal_packet (marshal sealed) ≡ ok sealed
  unmarshal_message cipher id nonce plaintext small len short =
      let box = lib.seal cipher nonce plaintext in
      unmarshal-new_packet PacketType.transfer id (nonce ++ box) small
        (omega (arith, length-append nonce box, doc.seal_size cipher nonce plaintext))

  -- The client sends one message for a packet.
  pub send_item :
      (c : Client Aead) (x : ClientSession Aead) (buf random : List ℕ)
      → IsTunnel c x
      → length random ≡ 16
      → (c' : Client Aead) × (nonce : List ℕ) × (length nonce ≡ 24)
        × (send lib c buf (some random) true
            ≡ some (
              c',
              C.write_conn (message_of lib x.crypto_session.recv_cipher x.id (packet nonce buf))
                  ∷ [],
              true,
            ))
        × IsTunnel c' x
        × (c'.has_tun ≡ c.has_tun)
        × (c'.assigned_ip ≡ c.assigned_ip)
  unfolding send encrypt
  send_item c x buf random tunnel size =
      let keys = tunnel.keys in
      let nonce : List ℕ = le_bytes 8 keys.send_nonce ++ random in
      let keys' = (encrypt lib keys (some random) buf).0 in
      (
        record c { crypto_session = some keys' },
        nonce,
        omega (
          arith,
          length-append (le_bytes 8 keys.send_nonce) random,
          length-le_bytes 8 keys.send_nonce,
        ),
        rw (tunnel.session, ← tunnel.same_id, ← tunnel.peers.there, send) refl,
        record {
          keys = keys';
          session = refl;
          peers = record {
            there = tunnel.peers.there;
            back = tunnel.peers.back;
            there_key = tunnel.peers.there_key;
            back_key = tunnel.peers.back_key;
          };
          same_id = tunnel.same_id;
          small = tunnel.small;
          address = tunnel.address;
        },
        refl,
        refl,
      )
