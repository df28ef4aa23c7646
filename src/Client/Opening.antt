-- ===== src/Client/Opening.antt =====
-- `Connect` against `handleConnection`: a whole handshake, and the state of the two ends after it.
use hydravpn.Base.{ℕ, ◌≡◌, refl, ap, ◌∙◌, subst, true, List, [], ◌∷◌, none, some, some_same, ok}
use hydravpn.Base.Bytes.{IsArray}
use hydravpn.Base.Int.{ℤ, IsInt64}
use hydravpn.Crypto.{Random, generate_key_pair, compute_shared_secret}
use hydravpn.Crypto.Library.{Primitives, IsDocumented}
use hydravpn.Server.{Server, write_conn, find_live, accept_session}
use hydravpn.Server.IpPool.{IpPool as Pool, allocate}
use hydravpn.Server.Keep.{IsServer}
use hydravpn.Server.Accept.{accept_session-IsServer}
use hydravpn.Client.{Client, init_bytes, finish_handshake, connect, server_host}
use hydravpn.Client as C
use hydravpn.Client.Tunnel.{IsFill, handshake-IsTunnel}
use hydravpn.Client.Conversation.{IsLinked}

module _ {Aead : Type 0} (lib : Primitives Aead) (doc : IsDocumented lib) where
  -- A client with a generated key pair dials a sound server that has a TUN device, on a connection
  -- that no handler has; the random fields and the time have their Go types, the peers' secret is no
  -- low-order point, the pool has an address, writes succeed, and the client gets its TUN device.
  -- Connect sends one packet; the server, which reads it as the first packet of the connection, sends
  -- one answer; and Connect, which reads that answer, succeeds: it opens the TUN device under the
  -- lent address, sets the default route and the DNS servers, and starts its loops. Then the two are
  -- linked: the server is sound, the handler's session is in the table, and the client has its peer
  -- keys, its id and the address that the pool gave.
  pub connect-IsLinked :
      (s : Server Aead) (c : Client Aead) (conn now : ℕ) (time : ℤ)
      (client_padding padding : Random) (r t id_bytes secret : List ℕ) {pool : Pool} {ip : ℕ}
      → IsServer s
      → s.has_tun ≡ true
      → find_live s.live conn ≡ none
      → generate_key_pair lib (some t) ≡ ok s.key_pair
      → generate_key_pair lib (some r) ≡ ok c.key_pair
      → IsInt64 time
      → IsFill client_padding
      → IsFill padding
      → IsArray 8 id_bytes
      → compute_shared_secret lib c.key_pair.private_key s.key_pair.public_key ≡ ok secret
      → allocate s.ip_pool ≡ some (pool, ok ip)
      → (m : Server Aead) × (hello answer : List ℕ) × (accept_session lib s conn
            (ok hello)
            now
            (some id_bytes)
            padding
            true
          ≡ some (m, write_conn conn answer ∷ []))
        × (c' : Client Aead) × (connect lib c true time client_padding true (ok answer) true ≡ (
          c',
          C.write_conn hello
              ∷ C.open_tun c'.assigned_ip c'.server_ip (server_host c.server_addr)
              ∷ C.set_default_route
              ∷ C.set_dns
              ∷ C.go_tun_read
              ∷ C.go_receive
              ∷ C.go_keep_alive
              ∷ [],
          ok tt,
        ))
        × (c'.connected ≡ true)
        × IsLinked m c' conn ip
  unfolding connect C.perform_handshake
  connect-IsLinked s c conn now time client_padding padding r t id_bytes secret {pool} {ip} v tun
        free server client int64 client_filled filled id shared given =
      let c0 : Client Aead = record c { has_conn = true } in
      let (m, x, answer, accepted, found, listed, same_tun, address, done, tunnel) =
        handshake-IsTunnel lib doc s c0 conn now time client_padding padding r t id_bytes secret
          {pool = pool} {ip = ip} v free server client int64 client_filled filled id shared given in
      let (m', out, accepted', sound) =
        accept_session-IsServer lib s conn (ok (init_bytes c.key_pair time client_padding)) now
          (some id_bytes) padding true free v in
      let c1 = (finish_handshake lib c0 (ok answer)).0 in
      let c' : Client Aead = record c1 { connected = true; has_tun = true } in
      (
        m,
        init_bytes c.key_pair time client_padding,
        answer,
        accepted,
        c',
        rw (done, connect) refl,
        refl,
        record {
          sound = subst IsServer (ap (λ r. r.0) (some_same accepted' accepted)) sound;
          session = x;
          found = found;
          listed = listed;
          server_tun = same_tun ∙ tun;
          client_tun = refl;
          address_of = tunnel.address ∙ address;
          tunnel = record {
            keys = tunnel.keys;
            session = tunnel.session;
            peers = tunnel.peers;
            same_id = tunnel.same_id;
            small = tunnel.small;
            address = tunnel.address;
          };
        },
      )
