-- ===== src/Server/Route.antt =====
-- Which client gets a packet from the TUN device. The order of the session table, over which Go
-- iterates in an order of its own, does not matter.
use hydravpn.Base.{
  ==_refl, ℕ, ◌≤◌, ◌<◌, ◌≢◌, ◌⊎◌, ◌≡◌, refl, sym, subst, ◌∙◌, true, false, Bool, ◌||◌, List, [],
  ◌∷◌, arith, ◌==◌, ==_iff, ltb, length, Bool-cases, Option-cases, All, inl, inr, some, ok,
}
use hydravpn.Base.Bytes.{be_value}
use hydravpn.Base.Slices.{slice}
use hydravpn.Protocol.{new_packet, marshal}
use hydravpn.Protocol.PacketType
use hydravpn.Crypto.{Session, Random, encrypt}
use hydravpn.Crypto.Library.{Primitives}
use hydravpn.Server.{ClientSession, Server, Effect, write_conn, find_live, store, route_to, route}
use hydravpn.Server.IpPool.Invariant.{Distinct}
use hydravpn.Server.Sessions.{ips, PointsTo, same_address}
use hydravpn.Server.Keep.{IsServer}

-- Whether an entry of the table is for a connection.
abbrev pub has_entry : List (ℕ × ℕ) → ℕ → Bool
has_entry [] c = false
has_entry (entry ∷ table) c = entry.1 == c || has_entry table c

-- The packet that is sent to the client of a session, and the session updated.
abbrev pub sent_to :
    {Aead : Type 0}
    → Server Aead
    → ClientSession Aead
    → Session Aead
    → List ℕ
    → Server Aead × List Effect
sent_to s x crypto_session ciphertext = (
  store s (record x { crypto_session = crypto_session }),
  write_conn x.conn (marshal (new_packet PacketType.transfer x.id ciphertext)) ∷ [],
)

module _ {Aead : Type 0} (lib : Primitives Aead) where
  route_to_hit :
      (s : Server Aead) (id : ℕ) (table : List (ℕ × ℕ)) (x : ClientSession Aead) (buf : List ℕ)
      (random : ℕ → Random) {ciphertext : List ℕ}
      → find_live s.live x.conn ≡ some x
      → (encrypt lib x.crypto_session (random x.conn) buf).1 ≡ ok ciphertext
      → route_to lib s ((id, x.conn) ∷ table) x.assigned_ip buf random
        ≡ sent_to s x (encrypt lib x.crypto_session (random x.conn) buf).0 ciphertext
  unfolding route_to
  route_to_hit s id table x buf random found sealed =
      let self : (x.assigned_ip == x.assigned_ip) ≡ true = ==_refl _ in
      rw (found, self, sealed, route_to) refl

  route_to_owner :
      (s : Server Aead) (table : List (ℕ × ℕ)) (x : ClientSession Aead) (buf : List ℕ)
      (random : ℕ → Random) {ciphertext : List ℕ}
      → Distinct (ips s.live)
      → All (PointsTo s.live) table
      → find_live s.live x.conn ≡ some x
      → has_entry table x.conn ≡ true
      → (encrypt lib x.crypto_session (random x.conn) buf).1 ≡ ok ciphertext
      → route_to lib s table x.assigned_ip buf random
        ≡ sent_to s x (encrypt lib x.crypto_session (random x.conn) buf).0 ciphertext
  unfolding route_to
  route_to_owner s [] x buf random v points found listed sealed = cc
  route_to_owner s ((id, c) ∷ table) x buf random {ciphertext} v points found listed sealed =
      let (y, at, e) = points.0 in
      elim (Bool-cases (y.assigned_ip == x.assigned_ip)) [
        | inl q ↦
            let conns : c ≡ x.conn =
              same_address s.live c x.conn {x = y} {y = x} v at found ((==_iff _ _).0 q) in
            subst
              (λ d.
                route_to lib s ((id, d) ∷ table) x.assigned_ip buf random
                ≡ sent_to s x (encrypt lib x.crypto_session (random x.conn) buf).0 ciphertext)
              (sym conns)
              (route_to_hit s id table x buf random {ciphertext = ciphertext} found sealed)
        | inr q ↦
            let listed_after : has_entry table x.conn ≡ true = elim (Bool-cases (c == x.conn)) [
              | inl f ↦
                  let at_x : find_live s.live x.conn ≡ some y = rw (← (==_iff _ _).0 f) at in
                  let same : y.assigned_ip ≡ x.assigned_ip = cc in absurd (ground (arith, q, same))
              | inr f ↦ sym (rw f refl) ∙ listed
            ] in
            rw (at, q, route_to)
              (route_to_owner s table x buf random {ciphertext = ciphertext} v points.1 found
                listed_after sealed)
      ]

  route_to_nobody :
      (s : Server Aead) (table : List (ℕ × ℕ)) (dest : ℕ) (buf : List ℕ) (random : ℕ → Random)
      → ((c : ℕ) (x : ClientSession Aead)
          → has_entry table c ≡ true
          → find_live s.live c ≡ some x
          → (x.assigned_ip == dest) ≡ false)
      → route_to lib s table dest buf random ≡ (s, [])
  unfolding route_to
  route_to_nobody s [] dest buf random h = refl
  route_to_nobody s ((id, c) ∷ table) dest buf random h =
      let after =
        route_to_nobody s table dest buf random
          λ d x listed found. h d x (ground (arith, listed)) found in
      elim (Option-cases (find_live s.live c)) [
        | inl e ↦ rw (e, route_to) after
        | inr (x, e) ↦
            let other : (x.assigned_ip == dest) ≡ false = h c x (ground arith) e in
            rw (e, other, route_to) after
      ]

  -- On a server whose state is sound, a packet of at least 20 bytes for the address of a running,
  -- listed handler goes to that handler's connection and to no other: encrypted under its session, in
  -- a data packet with its id; the session is updated and nothing else is. The condition is that the
  -- encryption succeeds.
  pub route-sent_to :
      (s : Server Aead) (x : ClientSession Aead) (buf : List ℕ) (random : ℕ → Random)
      {ciphertext : List ℕ}
      → IsServer s
      → find_live s.live x.conn ≡ some x
      → has_entry s.sessions x.conn ≡ true
      → 20 ≤ length buf
      → be_value (slice 16 20 buf) ≡ x.assigned_ip
      → (encrypt lib x.crypto_session (random x.conn) buf).1 ≡ ok ciphertext
      → route lib s buf random
        ≡ sent_to s x (encrypt lib x.crypto_session (random x.conn) buf).0 ciphertext
  unfolding route
  route-sent_to s x buf random {ciphertext} v found listed long dest sealed =
      let enough : ltb (length buf) 20 ≡ false = ground arith in
      let sent =
        route_to_owner s s.sessions x buf random {ciphertext = ciphertext} v.addresses v.table found
          listed sealed in
      rw (enough, dest, route) sent

  -- A packet that is shorter than an IPv4 header, or whose destination is the address of no running
  -- handler, goes to nobody, and the state stays.
  pub route_nobody :
      (s : Server Aead) (buf : List ℕ) (random : ℕ → Random)
      → (length buf < 20)
        ⊎ ((c : ℕ) (x : ClientSession Aead)
            → find_live s.live c ≡ some x
            → x.assigned_ip ≢ be_value (slice 16 20 buf))
      → route lib s buf random ≡ (s, [])
  unfolding route
  route_nobody s buf random (inl short) =
      let e : ltb (length buf) 20 ≡ true = ground arith in rw (e, route) refl
  route_nobody s buf random (inr nobody) = elim (Bool-cases (ltb (length buf) 20)) [
    | inl e ↦ rw (e, route) refl
    | inr e ↦
        rw (e, route)
          (route_to_nobody s s.sessions (be_value (slice 16 20 buf)) buf random
            λ c x _ found. ground (arith, nobody c x found))
  ]
