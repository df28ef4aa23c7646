-- ===== src/Server/Keep.antt =====
-- What the server's state keeps true, and that the packets of a session, its end and the packets from
-- the TUN device keep it.
use hydravpn.Base.{
  ℕ, ◌≡◌, refl, sym, ap, ◌∙◌, List, [], ◌∷◌, arith, ◌==◌, Bool-cases, Option-cases, Result-cases,
  All, inl, inr, some, Result, ok, err, ltb, length,
}
use mathlib.Core.Path.{subst₂}
use hydravpn.Base.Bytes.{be_value}
use hydravpn.Base.Slices.{slice}
use hydravpn.Protocol.{Packet, unmarshal_packet}
use hydravpn.Protocol.PacketType
use hydravpn.Crypto.{Random, encrypt, decrypt}
use hydravpn.Crypto.Library.{Primitives}
use hydravpn.Server.{
  ClientSession, Server, subnet_base, find_live, store_live, remove_live, delete_id, store,
  close_session, serve_transfer, serve_packet, serve, route_to, route,
}
use hydravpn.Server.IpPool.{contains, max_hosts, release}
use hydravpn.Server.IpPool.Invariant.{IsPool, Distinct, release_lem}
use hydravpn.Server.Sessions.{
  ips, DistinctConns, PointsTo, find_live-conn, find_live-store_live, ips-store_live,
  store_live-DistinctConns, store_live-PointsTo, delete_id-PointsTo, contains-remove_live,
  remove_live-Distinct, remove_live-DistinctConns,
}

-- The pool is well formed and on 10.8.0.0/24. The addresses in use are those of the running
-- handlers, each of which has its own connection and its own address; a table entry points to a
-- running handler's session with its id.
pub record IsServer {Aead : Type 0} (s : Server Aead) : Type 0 where
  pub pool : IsPool s.ip_pool
  pub same_base : s.ip_pool.base ≡ subnet_base
  pub same_size : max_hosts s.ip_pool ≡ 256
  pub conns : DistinctConns s.live
  pub addresses : Distinct (ips s.live)
  pub used : (a : ℕ) → contains s.ip_pool.used a ≡ contains (ips s.live) a
  pub table : All (PointsTo s.live) s.sessions

module _ {Aead : Type 0} where
  -- A write to a session object that leaves its connection, id and address.
  pub store-IsServer :
      (s : Server Aead) (x' x : ClientSession Aead)
      → find_live s.live x'.conn ≡ some x
      → x'.id ≡ x.id
      → x'.assigned_ip ≡ x.assigned_ip
      → IsServer s
      → IsServer (store s x')
  store-IsServer s x' x found ids addresses v =
      let same : ips (store_live s.live x') ≡ ips s.live =
        ips-store_live s.live x' {x = x} found addresses in
      record {
        pool = v.pool;
        same_base = v.same_base;
        same_size = v.same_size;
        conns = store_live-DistinctConns s.live x' v.conns;
        addresses = rw same v.addresses;
        used = λ a. rw same (v.used a);
        table = store_live-PointsTo s.live x' x s.sessions found ids v.table;
      }

  pub close_session-IsServer :
      (s : Server Aead) (x' x : ClientSession Aead)
      → find_live s.live x'.conn ≡ some x
      → x'.id ≡ x.id
      → x'.assigned_ip ≡ x.assigned_ip
      → IsServer s
      → IsServer (close_session s x').0
  unfolding close_session release max_hosts
  close_session-IsServer s x' x found ids addresses v =
      let (pool, freed) = release_lem s.ip_pool x'.assigned_ip v.pool in
      record {
        pool = pool;
        same_base = v.same_base;
        same_size = v.same_size;
        conns = remove_live-DistinctConns s.live x'.conn v.conns;
        addresses = remove_live-Distinct s.live x'.conn v.addresses;
        used = λ a.
            freed a
            ∙ rw (addresses, v.used a)
                (sym (contains-remove_live s.live x'.conn a {x = x} v.addresses found));
        table =
            let conns : x.conn ≡ x'.conn = find_live-conn s.live x'.conn {x = x} found in
            let at : find_live s.live x.conn ≡ some x = ap (find_live s.live) conns ∙ found in
            subst₂ (λ c i. All (PointsTo (remove_live s.live c)) (delete_id s.sessions i)) conns
              (sym ids) (delete_id-PointsTo s.live x s.sessions v.conns at v.table);
      }

  pub store-found :
      (s : Server Aead) (x' x : ClientSession Aead)
      → find_live s.live x'.conn ≡ some x
      → find_live (store s x').live x'.conn ≡ some x'
  store-found s x' x found = find_live-store_live s.live x' x'.conn {x = x} found ∙ ground arith

module _ {Aead : Type 0} (lib : Primitives Aead) where
  serve_transfer-IsServer :
      (s : Server Aead) (x' x : ClientSession Aead) (payload : List ℕ)
      → find_live s.live x'.conn ≡ some x
      → x'.id ≡ x.id
      → x'.assigned_ip ≡ x.assigned_ip
      → IsServer s
      → IsServer (serve_transfer lib s x' payload).0
  unfolding serve_transfer
  serve_transfer-IsServer s x' x payload found ids addresses v =
      let (crypto_session, result) = decrypt lib x'.crypto_session payload in
      let next : ClientSession Aead = record x' { crypto_session = crypto_session } in
      let kept = store-IsServer s next x found ids addresses v in
      elim (Result-cases result) [
        | inl (e, h) ↦ rw (h, serve_transfer) kept
        | inr (plaintext, h) ↦ rw (h, serve_transfer) kept
      ]

  serve_packet-IsServer :
      (s : Server Aead) (x' x : ClientSession Aead) (packet : Packet)
      → find_live s.live x'.conn ≡ some x
      → x'.id ≡ x.id
      → x'.assigned_ip ≡ x.assigned_ip
      → IsServer s
      → IsServer (serve_packet lib s x' packet).0
  unfolding serve_packet
  serve_packet-IsServer s x' x packet found ids addresses v =
      let t = packet.header.packet_type in
      let kept : IsServer (store s x') = store-IsServer s x' x found ids addresses v in
      elim (Bool-cases (t == PacketType.transfer)) [
        | inl e ↦ rw e (serve_transfer-IsServer s x' x packet.payload found ids addresses v)
        | inr e ↦ elim (Bool-cases (t == PacketType.keep_alive)) [
          | inl f ↦ rw (e, f) kept
          | inr f ↦ elim (Bool-cases (t == PacketType.disconnect)) [
            | inl g ↦
                rw (e, f, g)
                  (close_session-IsServer (store s x') x' x' (store-found s x' x found) refl refl
                    kept)
            | inr g ↦ rw (e, f, g) kept
          ]
        ]
      ]

  -- One round of a handler on its session, whatever was read, keeps the server's state.
  pub serve-IsServer :
      (s : Server Aead) (x : ClientSession Aead) (input : Result (List ℕ)) (now : ℕ)
      → find_live s.live x.conn ≡ some x
      → IsServer s
      → IsServer (serve lib s x input now).0
  unfolding serve
  serve-IsServer s x (err e) now found v = close_session-IsServer s x x found refl refl v
  serve-IsServer s x (ok buf) now found v = elim (Result-cases (unmarshal_packet buf)) [
    | inl (e, h) ↦ rw (h, serve) v
    | inr (packet, h) ↦
        rw (h, serve)
          (serve_packet-IsServer s (record x { last_seen = now }) x packet found refl refl v)
  ]

  route_to-IsServer :
      (s : Server Aead) (table : List (ℕ × ℕ)) (dest : ℕ) (buf : List ℕ) (random : ℕ → Random)
      → IsServer s
      → IsServer (route_to lib s table dest buf random).0
  unfolding route_to
  route_to-IsServer s [] dest buf random v = v
  route_to-IsServer s ((id, conn) ∷ rest) dest buf random v =
      elim (Option-cases (find_live s.live conn)) [
        | inl h ↦ rw (h, route_to) (route_to-IsServer s rest dest buf random v)
        | inr (x, h) ↦ elim (Bool-cases (x.assigned_ip == dest)) [
          | inr e ↦ rw (h, e, route_to) (route_to-IsServer s rest dest buf random v)
          | inl e ↦
              let at : find_live s.live x.conn ≡ some x =
                ap (find_live s.live) (find_live-conn s.live conn {x = x} h) ∙ h in
              let (crypto_session, result) = encrypt lib x.crypto_session (random conn) buf in
              let x' : ClientSession Aead = record x { crypto_session = crypto_session } in
              let kept : IsServer (store s x') = store-IsServer s x' x at refl refl v in
              elim (Result-cases result) [
                | inl (text, f) ↦
                    rw (h, e, f, route_to)
                      (route_to-IsServer (store s x') rest dest buf random kept)
                | inr (ciphertext, f) ↦ rw (h, e, f, route_to) kept
              ]
        ]
      ]

  -- A packet from the TUN device keeps the server's state.
  pub route-IsServer :
      (s : Server Aead) (buf : List ℕ) (random : ℕ → Random)
      → IsServer s
      → IsServer (route lib s buf random).0
  unfolding route
  route-IsServer s buf random v = elim (Bool-cases (ltb (length buf) 20)) [
    | inl e ↦ rw (e, route) v
    | inr e ↦
        rw (e, route) (route_to-IsServer s s.sessions (be_value (slice 16 20 buf)) buf random v)
  ]
