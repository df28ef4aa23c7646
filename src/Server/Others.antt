-- ===== src/Server/Others.antt =====
-- What one goroutine of the server leaves of the other handlers' session objects.
use hydravpn.Base.{
  ℕ, ◌≡◌, ◌≢◌, inl, inr, refl, ap, sym, ◌∙◌, Bool, true, false, List, [], ◌∷◌, arith, ltb, ◌==◌,
  ==_iff, Bool-cases, Option-cases, Result-cases, length, Option, none, some, Result, ok, err,
  if◌then◌else◌,
}
use hydravpn.Base.Bytes.{be_value}
use hydravpn.Base.Slices.{slice}
use hydravpn.Protocol.{Packet, unmarshal_packet}
use hydravpn.Protocol.PacketType
use hydravpn.Crypto.{Random, encrypt, decrypt}
use hydravpn.Crypto.Library.{Primitives}
use hydravpn.Server.{
  ClientSession, Server, Effect, find_live, store, write_conn, response_bytes, close_session,
  accept_session, serve_transfer, serve_packet, serve, route_to, route,
}
use hydravpn.Server.IpPool.{IpPool as Pool}
use hydravpn.Server.Sessions.{
  DistinctConns, find_live-conn, find_live-store_live, find_live-remove_live,
}
use hydravpn.Server.Keep.{IsServer, store-IsServer, store-found}
use hydravpn.Server.Accept.{refused, exhausted, established, opened, accept_session-Accepted}
use hydravpn.Server.Leave.{close_session-IsLeft}

module _ {Aead : Type 0} where
  -- Whether a connection has a handler in its loop.
  abbrev pub found_any : Option (ClientSession Aead) → Bool
  found_any none = false
  found_any (some _) = true

  abbrev pub is_live : Server Aead → ℕ → Bool
  is_live s c = found_any (find_live s.live c)

  pub store-others :
      (s : Server Aead) (x' x : ClientSession Aead) (d : ℕ)
      → find_live s.live x'.conn ≡ some x
      → x'.conn ≢ d
      → find_live (store s x').live d ≡ find_live s.live d
  store-others s x' x d found other =
      find_live-store_live s.live x' d {x = x} found ∙ ground (arith, other)

  pub closed-others :
      (s : Server Aead) (x : ClientSession Aead) (d : ℕ)
      → DistinctConns s.live
      → x.conn ≢ d
      → find_live (close_session s x).0.live d ≡ find_live s.live d
  unfolding close_session
  closed-others s x d v other = find_live-remove_live s.live x.conn d v ∙ ground (arith, other)

  one_outcome :
      {o : Option (Server Aead × List Effect)} {m s : Server Aead} {sent out : List Effect}
      → o ≡ some (m, sent)
      → o ≡ some (s, out)
      → m ≡ s
  one_outcome {o} {m} {s} {sent} {out} e f =
      let both : ◌≡◌ {A = Option (Server Aead × List Effect)} (some (m, sent)) (some (s, out)) =
        sym e ∙ f in
      cc

  pub store-is_live :
      (s : Server Aead) (x' x : ClientSession Aead) (d : ℕ)
      → find_live s.live x'.conn ≡ some x
      → is_live (store s x') d ≡ is_live s d
  store-is_live s x' x d found =
      let stored = find_live-store_live s.live x' d {x = x} found in
      elim (Bool-cases (x'.conn == d)) [
        | inl e ↦
            let same : x'.conn ≡ d = (==_iff x'.conn d).0 e in
            let at : find_live s.live d ≡ some x = ap (find_live s.live) (sym same) ∙ found in
            let after : find_live (store s x').live d ≡ some x' = stored ∙ rw e refl in
            ap found_any after ∙ sym (ap found_any at)
        | inr e ↦
            let after : find_live (store s x').live d ≡ find_live s.live d = stored ∙ rw e refl in
            ap found_any after
      ]

  pub opened-others :
      (s : Server Aead) (pool : Pool) (x : ClientSession Aead) (d : ℕ)
      → x.conn ≢ d
      → find_live (opened s pool x).live d ≡ find_live s.live d
  unfolding find_live
  opened-others s pool x d other = ground (arith, other)

module _ {Aead : Type 0} (lib : Primitives Aead) where
  serve_packet-others :
      (s : Server Aead) (x' x : ClientSession Aead) (packet : Packet) (d : ℕ)
      → find_live s.live x'.conn ≡ some x
      → x'.id ≡ x.id
      → x'.assigned_ip ≡ x.assigned_ip
      → x'.conn ≢ d
      → IsServer s
      → find_live (serve_packet lib s x' packet).0.live d ≡ find_live s.live d
  unfolding serve_packet serve_transfer
  serve_packet-others s x' x packet d found ids addresses other v =
      let t = packet.header.packet_type in
      let stored : find_live (store s x').live d ≡ find_live s.live d =
        store-others s x' x d found other in
      elim (Bool-cases (t == PacketType.transfer)) [
        | inl e ↦
            let (crypto_session, result) = decrypt lib x'.crypto_session packet.payload in
            let next : ClientSession Aead = record x' { crypto_session = crypto_session } in
            let after = store-others s next x d found other in
            elim (Result-cases result) [
              | inl (_, h) ↦ rw (e, h, serve_transfer) after
              | inr (_, h) ↦ rw (e, h, serve_transfer) after
            ]
        | inr e ↦ elim (Bool-cases (t == PacketType.keep_alive)) [
          | inl f ↦ rw (e, f) stored
          | inr f ↦ elim (Bool-cases (t == PacketType.disconnect)) [
            | inl g ↦
                let kept : IsServer (store s x') = store-IsServer s x' x found ids addresses v in
                let left = close_session-IsLeft (store s x') x' (store-found s x' x found) kept in
                rw (e, f, g) (left.others d other ∙ stored)
            | inr g ↦ rw (e, f, g) stored
          ]
        ]
      ]

  -- A round of one handler leaves the session objects of the others.
  pub serve-others :
      (s : Server Aead) (x : ClientSession Aead) (input : Result (List ℕ)) (now d : ℕ)
      → find_live s.live x.conn ≡ some x
      → x.conn ≢ d
      → IsServer s
      → find_live (serve lib s x input now).0.live d ≡ find_live s.live d
  unfolding serve
  serve-others s x (err e) now d found other v = (close_session-IsLeft s x found v).others d other
  serve-others s x (ok buf) now d found other v = elim (Result-cases (unmarshal_packet buf)) [
    | inl (e, h) ↦ rw (h, serve) refl
    | inr (packet, h) ↦
        rw (h, serve)
          (serve_packet-others s (record x { last_seen = now }) x packet d found refl refl other v)
  ]

  route_to-is_live :
      (s : Server Aead) (table : List (ℕ × ℕ)) (dest : ℕ) (buf : List ℕ) (random : ℕ → Random)
      (d : ℕ)
      → is_live (route_to lib s table dest buf random).0 d ≡ is_live s d
  unfolding route_to
  route_to-is_live s [] dest buf random d = refl
  route_to-is_live s ((id, conn) ∷ rest) dest buf random d =
      elim (Option-cases (find_live s.live conn)) [
        | inl h ↦ rw (h, route_to) (route_to-is_live s rest dest buf random d)
        | inr (x, h) ↦ elim (Bool-cases (x.assigned_ip == dest)) [
          | inr e ↦ rw (h, e, route_to) (route_to-is_live s rest dest buf random d)
          | inl e ↦
              let at : find_live s.live x.conn ≡ some x =
                ap (find_live s.live) (find_live-conn s.live conn {x = x} h) ∙ h in
              let (crypto_session, result) = encrypt lib x.crypto_session (random conn) buf in
              let x' : ClientSession Aead = record x { crypto_session = crypto_session } in
              let stored : is_live (store s x') d ≡ is_live s d = store-is_live s x' x d at in
              elim (Result-cases result) [
                | inl (text, f) ↦
                    rw (h, e, f, route_to)
                      (route_to-is_live (store s x') rest dest buf random d ∙ stored)
                | inr (ciphertext, f) ↦ rw (h, e, f, route_to) stored
              ]
        ]
      ]

  -- A packet from the TUN device starts and ends no handler.
  pub route-is_live :
      (s : Server Aead) (buf : List ℕ) (random : ℕ → Random) (d : ℕ)
      → is_live (route lib s buf random).0 d ≡ is_live s d
  unfolding route
  route-is_live s buf random d = elim (Bool-cases (ltb (length buf) 20)) [
    | inl e ↦ rw (e, route) refl
    | inr e ↦
        rw (e, route) (route_to-is_live s s.sessions (be_value (slice 16 20 buf)) buf random d)
  ]

  -- A handshake on a new connection leaves the session objects of the other connections.
  pub accept_session-others :
      (s : Server Aead) (conn : ℕ) (input : Result (List ℕ)) (now : ℕ) (id_bytes padding : Random)
      (writable : Bool) (d : ℕ) {m : Server Aead} {out : List Effect}
      → accept_session lib s conn input now id_bytes padding writable ≡ some (m, out)
      → conn ≢ d
      → find_live s.live conn ≡ none
      → IsServer s
      → find_live m.live d ≡ find_live s.live d
  accept_session-others s conn input now id_bytes padding writable d {m} {out} e other free v =
      elim (accept_session-Accepted lib s conn input now id_bytes padding writable v.pool) [
        | refused text h outcome ↦ ap (λ t. find_live t.live d) (one_outcome e outcome)
        | exhausted h outcome ↦ ap (λ t. find_live t.live d) (one_outcome e outcome)
        | established keys pool x h g (c, _, _, _) outcome ↦
            let other_x : x.conn ≢ d = λ f. other (sym c ∙ f) in
            let new : find_live s.live x.conn ≡ none = ap (find_live s.live) c ∙ free in
            let kept : find_live (opened s pool x).live d ≡ find_live s.live d =
              opened-others s pool x d other_x in
            let opened_out : Server Aead × List Effect =
              (opened s pool x, write_conn conn (response_bytes lib s x padding) ∷ []) in
            let closed_out : Server Aead × List Effect = close_session (opened s pool x) x in
            elim (Bool-cases writable) [
              | inl w ↦
                  let same : (if writable then opened_out else closed_out).0 ≡ opened s pool x =
                    rw w refl in
                  let first : m ≡ opened s pool x = one_outcome e outcome ∙ same in
                  ap (λ t. find_live t.live d) first ∙ kept
              | inr w ↦
                  let same : (if writable then opened_out else closed_out).0
                      ≡ (close_session (opened s pool x) x).0 =
                    rw w refl in
                  let first : m ≡ (close_session (opened s pool x) x).0 =
                    one_outcome e outcome ∙ same in
                  ap (λ t. find_live t.live d) first
                  ∙ closed-others (opened s pool x) x d (new, v.conns) other_x
                  ∙ kept
            ]
      ]
