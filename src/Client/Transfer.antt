-- ===== src/Client/Transfer.antt =====
-- A packet through an established tunnel, each way.
use hydravpn.Base.{ℕ, ◌≤◌, ◌≡◌, refl, ap, ◌∙◌, true, List, [], ◌∷◌, arith, length, some, ok}
use hydravpn.Base.Bytes.{be_value}
use hydravpn.Base.Slices.{slice}
use hydravpn.Protocol.{new_packet, marshal, unmarshal_packet}
use hydravpn.Protocol.PacketType
use hydravpn.Protocol.Framed.{unmarshal-new_packet}
use hydravpn.Crypto.{Random, encrypt, decrypt}
use hydravpn.Crypto.Library.{Primitives, IsDocumented}
use hydravpn.Crypto.Keys.{IsPeer-sym}
use hydravpn.Crypto.Traffic.{decrypt-encrypt, length-encrypt}
use hydravpn.Server.{
  ClientSession, Server, write_conn, write_tun, find_live, store, serve, serve_packet,
  serve_transfer, route,
}
use hydravpn.Server.Keep.{IsServer, store-found}
use hydravpn.Server.Route.{has_entry, sent_to, route-sent_to}
use hydravpn.Client.{Client, send, receive, receive_transfer}
use hydravpn.Client as C
use hydravpn.Client.Tunnel.{IsTunnel}

module _ {Aead : Type 0} (lib : Primitives Aead) (doc : IsDocumented lib) where
  -- The largest packet that is read from a TUN device.
  abbrev pub buffer_size : ℕ
  buffer_size = 2048

  -- A packet of at most 2048 bytes from the client's TUN device through a tunnel whose server's handler
  -- runs and has a TUN device, with 16 random bytes drawn and a write that succeeds: the client sends it
  -- in one packet, and the server, on reading that, writes the same packet to its own TUN device;
  -- afterwards the two are again the ends of a tunnel.
  pub upload :
      (s : Server Aead) (x : ClientSession Aead) (c : Client Aead) (buf random : List ℕ) (now : ℕ)
      → IsTunnel c x
      → find_live s.live x.conn ≡ some x
      → s.has_tun ≡ true
      → length buf ≤ buffer_size
      → length random ≡ 16
      → (bytes : List ℕ) × (c' : Client Aead) × (x' : ClientSession Aead) × (send lib c buf
            (some random)
            true
          ≡ some (c', C.write_conn bytes ∷ [], true))
        × (serve lib s x (ok bytes) now ≡ (store s x', write_tun buf ∷ []))
        × (find_live (store s x').live x.conn ≡ some x')
        × IsTunnel c' x'
  unfolding send serve serve_packet serve_transfer new_packet
  upload s x c buf random now tunnel found tun long size =
      let keys = tunnel.keys in
      let (ciphertext, sealed, opened, peers, _) =
        decrypt-encrypt lib doc keys x.crypto_session random buf tunnel.peers size in
      let keys' = (encrypt lib keys (some random) buf).0 in
      let c' : Client Aead = record c { crypto_session = some keys' } in
      let x' : ClientSession Aead = record x {
        last_seen = now;
        crypto_session = (decrypt lib x.crypto_session ciphertext).0;
      } in
      let packet = new_packet PacketType.transfer c.session_id ciphertext in
      let read : unmarshal_packet (marshal packet) ≡ ok packet =
        unmarshal-new_packet PacketType.transfer c.session_id ciphertext
          (omega (arith, tunnel.same_id, tunnel.small))
          (omega (
            arith,
            length-encrypt lib doc keys random buf {ciphertext = ciphertext} size sealed,
          )) in
      (
        marshal packet,
        c',
        x',
        rw (tunnel.session, sealed, send) refl,
        rw (read, opened, tun, serve_transfer, serve) refl,
        store-found s x' x found,
        record {
          keys = keys';
          session = refl;
          peers = peers;
          same_id = tunnel.same_id;
          small = tunnel.small;
          address = tunnel.address;
        },
      )

  -- A packet of 20 to 2048 bytes from the server's TUN device for the client's address, on a sound server
  -- whose handler for the client runs and stands in the table, with 16 random bytes drawn, and a client
  -- that has a TUN device: the server sends it on the client's connection in one
  -- packet, and the client, on reading that, writes the same packet to its own TUN device; afterwards the
  -- two are again the ends of a tunnel.
  pub download :
      (s : Server Aead) (x : ClientSession Aead) (c : Client Aead) (buf random : List ℕ)
      (draws : ℕ → Random)
      → IsTunnel c x
      → IsServer s
      → find_live s.live x.conn ≡ some x
      → has_entry s.sessions x.conn ≡ true
      → c.has_tun ≡ true
      → 20 ≤ length buf
      → length buf ≤ buffer_size
      → be_value (slice 16 20 buf) ≡ be_value c.assigned_ip
      → draws x.conn ≡ some random
      → length random ≡ 16
      → (bytes : List ℕ) × (c' : Client Aead) × (x' : ClientSession Aead) × (route lib s buf draws
          ≡ (store s x', write_conn x.conn bytes ∷ []))
        × (receive lib c (ok bytes) ≡ some (c', C.write_tun buf ∷ [], true))
        × (find_live (store s x').live x.conn ≡ some x')
        × IsTunnel c' x'
  unfolding receive receive_transfer new_packet
  download s x c buf random draws tunnel v found listed tun enough long dest drawn size =
      let keys = tunnel.keys in
      let (ciphertext, sealed, opened, peers, _) =
        decrypt-encrypt lib doc x.crypto_session keys random buf (IsPeer-sym tunnel.peers) size in
      let keys' = (decrypt lib keys ciphertext).0 in
      let c' : Client Aead = record c { crypto_session = some keys' } in
      let x' : ClientSession Aead = record x {
        crypto_session = (encrypt lib x.crypto_session (some random) buf).0;
      } in
      let packet = new_packet PacketType.transfer x.id ciphertext in
      let read : unmarshal_packet (marshal packet) ≡ ok packet =
        unmarshal-new_packet PacketType.transfer x.id ciphertext tunnel.small (
          omega (
            arith,
            length-encrypt lib doc x.crypto_session random buf {ciphertext = ciphertext} size
                sealed,
          )) in
      let routed : route lib s buf draws ≡ (store s x', write_conn x.conn (marshal packet) ∷ []) =
        route-sent_to lib s x buf draws {ciphertext = ciphertext} v found listed enough
          (dest ∙ tunnel.address) (ap (λ r. (encrypt lib x.crypto_session r buf).1) drawn ∙ sealed)
        ∙ ap (λ r. sent_to s x (encrypt lib x.crypto_session r buf).0 ciphertext) drawn in
      (
        marshal packet,
        c',
        x',
        routed,
        rw (read, tunnel.session, opened, tun, receive_transfer, receive) refl,
        store-found s x' x found,
        record {
          keys = keys';
          session = refl;
          peers = IsPeer-sym peers;
          same_id = tunnel.same_id;
          small = tunnel.small;
          address = tunnel.address;
        },
      )
