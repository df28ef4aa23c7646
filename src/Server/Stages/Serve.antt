-- ===== src/Server/Stages/Serve.antt =====
-- A round of a handler that goes on, and a packet from the TUN device: they leave the table, and the
-- sessions their addresses.
use hydravpn.Base.{
  ℕ, ◌≡◌, refl, ap, ◌∙◌, false, List, [], ◌∷◌, ltb, ◌==◌, length, Bool-cases, Option-cases,
  Result-cases, inl, inr, Option, none, some, Result, ok, err,
}
use hydravpn.Base.Bytes.{be_value}
use hydravpn.Base.Slices.{slice}
use hydravpn.Protocol.{Packet, unmarshal_packet}
use hydravpn.Protocol.PacketType
use hydravpn.Crypto.{Random, encrypt, decrypt}
use hydravpn.Crypto.Library.{Primitives}
use hydravpn.Server.{
  ClientSession, Server, Effect, find_live, store, serve_transfer, serve_packet, route_to, route,
}
use hydravpn.Server.Keep.{IsServer, store-IsServer}
use hydravpn.Server.Others.{is_live, store-is_live}
use hydravpn.Server.Stages.{serve_open}

-- The session of `x` has a new state in `s'`, if anything has changed.
pub data IsStored {Aead : Type 0} (s : Server Aead) (x : ClientSession Aead) (s' : Server Aead)
    : Type 0 where
  same : s' ≡ s → IsStored s x s'
  stored :
      (x' : ClientSession Aead)
      → (x'.conn ≡ x.conn) × (x'.id ≡ x.id) × (x'.assigned_ip ≡ x.assigned_ip)
      → s' ≡ store s x'
      → IsStored s x s'

-- What a round leaves where the handler goes on.
abbrev pub GoesOn :
    {Aead : Type 0} → Server Aead → ClientSession Aead → Option (Server Aead × List Effect) → Type 0
GoesOn s x none = Unit {0}
GoesOn s x (some (s', out)) = IsStored s x s'

module _ {Aead : Type 0} where
  pub IsStored-IsServer :
      (s s' : Server Aead) (x : ClientSession Aead)
      → find_live s.live x.conn ≡ some x
      → IsServer s
      → IsStored s x s'
      → IsServer s'
  IsStored-IsServer s s' x found v (same e) = rw e v
  IsStored-IsServer s s' x found v (stored x' (conns, ids, addresses) e) =
      rw e (store-IsServer s x' x (ap (find_live s.live) conns ∙ found) ids addresses v)

  pub IsStored-is_live :
      (s s' : Server Aead) (x : ClientSession Aead) (d : ℕ)
      → find_live s.live x.conn ≡ some x
      → IsStored s x s'
      → is_live s' d ≡ is_live s d
  IsStored-is_live s s' x d found (same e) = ap (λ t. is_live t d) e
  IsStored-is_live s s' x d found (stored x' (conns, ids, addresses) e) =
      ap (λ t. is_live t d) e ∙ store-is_live s x' x d (ap (find_live s.live) conns ∙ found)

  pub IsStored-sessions :
      (s s' : Server Aead) (x : ClientSession Aead) → IsStored s x s' → s'.sessions ≡ s.sessions
  IsStored-sessions s s' x (same e) = ap (λ t. t.sessions) e
  IsStored-sessions s s' x (stored x' _ e) = ap (λ t. t.sessions) e

module _ {Aead : Type 0} (lib : Primitives Aead) where
  serve_packet-IsStored :
      (s : Server Aead) (x : ClientSession Aead) (now : ℕ) (packet : Packet)
      → (packet.header.packet_type == PacketType.disconnect) ≡ false
      → IsStored s x (serve_packet lib s (record x { last_seen = now }) packet).0
  unfolding serve_packet serve_transfer
  serve_packet-IsStored s x now packet goes_on =
      let t = packet.header.packet_type in
      let seen : ClientSession Aead = record x { last_seen = now } in
      elim (Bool-cases (t == PacketType.transfer)) [
        | inl e ↦
            let (crypto_session, result) = decrypt lib x.crypto_session packet.payload in
            let next : ClientSession Aead = record seen { crypto_session = crypto_session } in
            elim (Result-cases result) [
              | inl (_, h) ↦ stored next (refl, refl, refl) (rw (e, h, serve_transfer) refl)
              | inr (_, h) ↦ stored next (refl, refl, refl) (rw (e, h, serve_transfer) refl)
            ]
        | inr e ↦ elim (Bool-cases (t == PacketType.keep_alive)) [
          | inl f ↦ stored seen (refl, refl, refl) (rw (e, f) refl)
          | inr f ↦ stored seen (refl, refl, refl) (rw (e, f, goes_on) refl)
        ]
      ]

  pub serve_open-GoesOn :
      (s : Server Aead) (x : ClientSession Aead) (input : Result (List ℕ)) (now : ℕ)
      → GoesOn s x (serve_open lib s x input now)
  unfolding serve_open
  serve_open-GoesOn s x (err e) now = tt
  serve_open-GoesOn s x (ok buf) now = elim (Result-cases (unmarshal_packet buf)) [
    | inl (e, f) ↦ rw (f, serve_open) (same refl)
    | inr (packet, f) ↦ elim (Bool-cases (packet.header.packet_type == PacketType.disconnect)) [
      | inl g ↦ rw (f, g, serve_open) tt
      | inr g ↦ rw (f, g, serve_open) (serve_packet-IsStored s x now packet g)
    ]
  ]

  route_to-sessions :
      (s : Server Aead) (table : List (ℕ × ℕ)) (dest : ℕ) (buf : List ℕ) (random : ℕ → Random)
      → (route_to lib s table dest buf random).0.sessions ≡ s.sessions
  unfolding route_to
  route_to-sessions s [] dest buf random = refl
  route_to-sessions s ((id, conn) ∷ rest) dest buf random =
      elim (Option-cases (find_live s.live conn)) [
        | inl h ↦ rw (h, route_to) (route_to-sessions s rest dest buf random)
        | inr (x, h) ↦ elim (Bool-cases (x.assigned_ip == dest)) [
          | inr e ↦ rw (h, e, route_to) (route_to-sessions s rest dest buf random)
          | inl e ↦
              let (crypto_session, result) = encrypt lib x.crypto_session (random conn) buf in
              let x' : ClientSession Aead = record x { crypto_session = crypto_session } in
              elim (Result-cases result) [
                | inl (_, f) ↦
                    rw (h, e, f, route_to) (route_to-sessions (store s x') rest dest buf random)
                | inr (_, f) ↦ rw (h, e, f, route_to) refl
              ]
        ]
      ]

  pub route-sessions :
      (s : Server Aead) (buf : List ℕ) (random : ℕ → Random)
      → (route lib s buf random).0.sessions ≡ s.sessions
  unfolding route
  route-sessions s buf random = elim (Bool-cases (ltb (length buf) 20)) [
    | inl e ↦ rw (e, route) refl
    | inr e ↦ rw (e, route) (route_to-sessions s s.sessions (be_value (slice 16 20 buf)) buf random)
  ]
