-- ===== src/Client/Flow/Turns.antt =====
-- What each end makes of a message of the other.
use hydravpn.Base.{
  ==_refl, ℕ, ◌+◌, ◌%◌, ◌^◌, ◌≤◌, ◌≡◌, refl, ap, ◌∙◌, true, List, [], ◌∷◌, ◌++◌, arith, length,
  length-append, some, ok,
}
use hydravpn.Base.Bytes.{be_value, le_bytes, length-le_bytes}
use hydravpn.Base.Slices.{slice}
use hydravpn.Protocol.{new_packet}
use hydravpn.Protocol.PacketType
use hydravpn.Protocol.Framed.{unmarshal-new_packet}
use hydravpn.Crypto.{Session, encrypt, decrypt}
use hydravpn.Crypto.Library.{Primitives, IsDocumented}
use hydravpn.Crypto.Keys.{IsPeer, IsPeer-sym}
use hydravpn.Crypto.Traffic.{decrypt-sealed}
use hydravpn.Server.{
  ClientSession, Server, Effect, write_conn, write_tun, find_live, store, serve, serve_packet,
  serve_transfer, route,
}
use hydravpn.Server.Keep.{IsServer, store-found}
use hydravpn.Server.Route.{has_entry, route-sent_to}
use hydravpn.Client.{Client, send, receive, receive_transfer, keep_alive}
use hydravpn.Client as C
use hydravpn.Client.Tunnel.{IsTunnel}
use hydravpn.Server.Apart.{messages_to}
use hydravpn.Client.Flow.{packets_in, client_packets}
use hydravpn.Client.Flow.Messages.{
  Item, packet, beat, IsItem, message_of, messages, unmarshal_message,
}

-- What the receiver of an item writes to its TUN device.
abbrev pub payload_of : Item → List (List ℕ)
payload_of (packet nonce plaintext) = plaintext ∷ []
payload_of beat = []

-- With what a server answers an item.
abbrev pub answer_to : Item → List Item
answer_to (packet nonce plaintext) = []
answer_to beat = beat ∷ []

-- The keys and the identity of a session, which its use leaves.
pub record SameSession {Aead : Type 0} (x' x : ClientSession Aead) : Type 0 where
  pub conn : x'.conn ≡ x.conn
  pub id : x'.id ≡ x.id
  pub sends : x'.crypto_session.send_cipher ≡ x.crypto_session.send_cipher
  pub receives : x'.crypto_session.recv_cipher ≡ x.crypto_session.recv_cipher

module _ {Aead : Type 0} (lib : Primitives Aead) (doc : IsDocumented lib) where
  decrypted-IsPeer :
      {a b : Session Aead} (ciphertext : List ℕ) {plaintext : List ℕ} {n : ℕ}
      → IsPeer a b
      → decrypt lib b ciphertext ≡ (record b { recv_nonce = n }, ok plaintext)
      → IsPeer a (decrypt lib b ciphertext).0
  decrypted-IsPeer ciphertext peers opened = rw opened (record {
    there = peers.there;
    back = peers.back;
    there_key = peers.there_key;
    back_key = peers.back_key;
  })

  -- The server reads a message of the client.
  pub serve_item :
      (s : Server Aead) (x : ClientSession Aead) (c : Client Aead) (item : Item) (now : ℕ)
      → IsTunnel c x
      → IsItem item
      → find_live s.live x.conn ≡ some x
      → s.has_tun ≡ true
      → (x' : ClientSession Aead) × (out : List Effect) × (serve lib s x
            (ok (message_of lib x.crypto_session.recv_cipher x.id item))
            now
          ≡ (store s x', out))
        × (packets_in out ≡ payload_of item)
        × (messages_to x.conn out ≡ messages lib x.crypto_session.send_cipher x.id (answer_to item))
        × (find_live (store s x').live x.conn ≡ some x')
        × SameSession x' x
        × IsTunnel c x'
  unfolding serve serve_packet serve_transfer new_packet
  serve_item s x c (packet nonce plaintext) now tunnel (len, short) found tun =
      let keys = x.crypto_session in
      let read =
        unmarshal_message lib doc keys.recv_cipher x.id nonce plaintext tunnel.small len short in
      let ciphertext : List ℕ = nonce ++ lib.seal keys.recv_cipher nonce plaintext in
      let opened = decrypt-sealed lib doc keys nonce plaintext len in
      let plain : (decrypt lib keys ciphertext).1 ≡ ok plaintext = ap (λ r. r.1) opened in
      let x' : ClientSession Aead = record x {
        last_seen = now;
        crypto_session = (decrypt lib keys ciphertext).0;
      } in
      (
        x',
        write_tun plaintext ∷ [],
        rw (read, plain, tun, serve_transfer, serve) refl,
        refl,
        refl,
        store-found s x' x found,
        record {
          conn = refl;
          id = refl;
          sends = ap (λ r. r.0.send_cipher) opened;
          receives = ap (λ r. r.0.recv_cipher) opened;
        },
        record {
          keys = tunnel.keys;
          session = tunnel.session;
          peers = decrypted-IsPeer ciphertext tunnel.peers opened;
          same_id = tunnel.same_id;
          small = tunnel.small;
          address = tunnel.address;
        },
      )
  serve_item s x c beat now tunnel v found tun =
      let read = unmarshal-new_packet PacketType.keep_alive x.id [] tunnel.small (omega arith) in
      let x' : ClientSession Aead = record x { last_seen = now } in
      (
        x',
        write_conn x.conn (message_of lib x.crypto_session.send_cipher x.id beat) ∷ [],
        rw (read, serve) refl,
        refl,
        rw (==_refl x.conn) refl,
        store-found s x' x found,
        record { conn = refl; id = refl; sends = refl; receives = refl },
        record {
          keys = tunnel.keys;
          session = tunnel.session;
          peers = tunnel.peers;
          same_id = tunnel.same_id;
          small = tunnel.small;
          address = tunnel.address;
        },
      )

  -- The server sends one message for a packet.
  pub route_item :
      (s : Server Aead) (x : ClientSession Aead) (c : Client Aead) (buf random : List ℕ)
      → IsTunnel c x
      → IsServer s
      → find_live s.live x.conn ≡ some x
      → has_entry s.sessions x.conn ≡ true
      → 20 ≤ length buf
      → be_value (slice 16 20 buf) ≡ be_value c.assigned_ip
      → length random ≡ 16
      → (x' : ClientSession Aead) × (nonce : List ℕ) × (length nonce ≡ 24)
        × (route lib s buf (λ d. some random) ≡ (
          store s x',
          write_conn x.conn (message_of lib x.crypto_session.send_cipher x.id (packet nonce buf))
              ∷ [],
        ))
        × (find_live (store s x').live x.conn ≡ some x')
        × SameSession x' x
        × IsTunnel c x'
  unfolding encrypt
  route_item s x c buf random tunnel v found listed enough dest size =
      let keys = x.crypto_session in
      let nonce : List ℕ = le_bytes 8 keys.send_nonce ++ random in
      let x' : ClientSession Aead = record x {
        crypto_session = (encrypt lib keys (some random) buf).0;
      } in
      (
        x',
        nonce,
        omega (
          arith,
          length-append (le_bytes 8 keys.send_nonce) random,
          length-le_bytes 8 keys.send_nonce,
        ),
        route-sent_to lib s x buf (λ d. some random)
            {ciphertext = nonce ++ lib.seal keys.send_cipher nonce buf} v found listed enough
            (dest ∙ tunnel.address) refl,
        store-found s x' x found,
        record { conn = refl; id = refl; sends = refl; receives = refl },
        record {
          keys = tunnel.keys;
          session = tunnel.session;
          peers = record {
            there = tunnel.peers.there;
            back = tunnel.peers.back;
            there_key = tunnel.peers.there_key;
            back_key = tunnel.peers.back_key;
          };
          same_id = tunnel.same_id;
          small = tunnel.small;
          address = tunnel.address;
        },
      )

  -- The client reads a message of the server.
  pub receive_item :
      (c : Client Aead) (x : ClientSession Aead) (item : Item)
      → IsTunnel c x
      → IsItem item
      → c.has_tun ≡ true
      → (c' : Client Aead) × (out : List C.Effect) × (receive lib c
            (ok (message_of lib x.crypto_session.send_cipher x.id item))
          ≡ some (c', out, true))
        × (client_packets out ≡ payload_of item)
        × IsTunnel c' x
        × (c'.has_tun ≡ true)
        × (c'.assigned_ip ≡ c.assigned_ip)
  unfolding receive receive_transfer new_packet
  receive_item c x (packet nonce plaintext) tunnel (len, short) tun =
      let keys = tunnel.keys in
      let read =
        unmarshal_message lib doc x.crypto_session.send_cipher x.id nonce plaintext tunnel.small len
          short in
      let ciphertext : List ℕ = nonce ++ lib.seal x.crypto_session.send_cipher nonce plaintext in
      let opened : decrypt lib keys ciphertext
          ≡ (record keys { recv_nonce = (keys.recv_nonce + 1) % 2 ^ 64 }, ok plaintext) =
        rw tunnel.peers.back (decrypt-sealed lib doc keys nonce plaintext len) in
      let plain : (decrypt lib keys ciphertext).1 ≡ ok plaintext = ap (λ r. r.1) opened in
      let keys' = (decrypt lib keys ciphertext).0 in
      (
        record c { crypto_session = some keys' },
        C.write_tun plaintext ∷ [],
        rw (read, tunnel.session, plain, tun, receive_transfer, receive) refl,
        refl,
        record {
          keys = keys';
          session = refl;
          peers = IsPeer-sym (decrypted-IsPeer ciphertext (IsPeer-sym tunnel.peers) opened);
          same_id = tunnel.same_id;
          small = tunnel.small;
          address = tunnel.address;
        },
        tun,
        refl,
      )
  receive_item c x beat tunnel v tun =
      let read = unmarshal-new_packet PacketType.keep_alive x.id [] tunnel.small (omega arith) in
      (c, [], rw (read, receive) refl, refl, tunnel, tun, refl)
