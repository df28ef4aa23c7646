-- ===== src/Server/Apart/Rounds.antt =====
-- The rounds of other handlers, and packets for other clients, leave a session alone.
use hydravpn.Base.{
  ℕ, ◌≡◌, ◌≢◌, inl, inr, refl, ap, sym, ◌∙◌, Bool, true, false, List, [], ◌∷◌, arith, ltb, ◌==◌,
  ==_iff, Bool-cases, Option-cases, Result-cases, length, some, some_same, Result, ok, err,
  if◌then◌else◌,
}
use hydravpn.Base.Bytes.{be_value}
use hydravpn.Base.Slices.{slice}
use hydravpn.Protocol.{Packet, unmarshal_packet}
use hydravpn.Protocol.PacketType
use hydravpn.Crypto.{Random, encrypt, decrypt}
use hydravpn.Crypto.Library.{Primitives}
use hydravpn.Server.{
  ClientSession, Server, write_conn, write_tun, find_live, store, serve_transfer, serve_packet,
  serve, route_to, route,
}
use hydravpn.Server.Sessions.{find_live-conn}
use hydravpn.Server.Keep.{IsServer, store-IsServer}
use hydravpn.Server.Apart.{
  messages_to, IsUntouched, IsListed, unchanged, stored, closed, then-IsUntouched,
}

pub elsewhere : (c d : ℕ) (bytes : List ℕ) → c ≢ d → messages_to d (write_conn c bytes ∷ []) ≡ []
elsewhere c d bytes other = ground (arith, other)

to_tun :
    (has_tun : Bool) (plaintext : List ℕ) (d : ℕ)
    → messages_to d (if has_tun then write_tun plaintext ∷ [] else []) ≡ []
to_tun true plaintext d = refl
to_tun false plaintext d = refl

module _ {Aead : Type 0} (lib : Primitives Aead) where
  serve_packet-IsUntouched :
      (s : Server Aead) (y' y : ClientSession Aead) (packet : Packet) (x : ClientSession Aead)
      → find_live s.live y'.conn ≡ some y
      → y'.id ≡ y.id
      → y'.assigned_ip ≡ y.assigned_ip
      → y'.conn ≢ x.conn
      → y'.id ≢ x.id
      → IsServer s
      → IsListed s x
      → let (m, out) = serve_packet lib s y' packet in IsUntouched s m out x
  unfolding serve_packet serve_transfer
  serve_packet-IsUntouched s y' y packet x found ids addresses other other_id v listed =
      let t = packet.header.packet_type in
      let kept : IsUntouched s (store s y') [] x = stored s y' y [] x found other listed refl in
      elim (Bool-cases (t == PacketType.transfer)) [
        | inl e ↦
            let (crypto_session, result) = decrypt lib y'.crypto_session packet.payload in
            let next : ClientSession Aead = record y' { crypto_session = crypto_session } in
            elim (Result-cases result) [
              | inl (_, h) ↦
                  rw (e, h, serve_transfer) (stored s next y [] x found other listed refl)
              | inr (plaintext, h) ↦
                  rw (e, h, serve_transfer)
                    (stored s next y _ x found other listed (to_tun s.has_tun plaintext x.conn))
            ]
        | inr e ↦ elim (Bool-cases (t == PacketType.keep_alive)) [
          | inl f ↦
              rw (e, f) (stored s y' y _ x found other listed (elsewhere y'.conn x.conn _ other))
          | inr f ↦ elim (Bool-cases (t == PacketType.disconnect)) [
            | inl g ↦
                rw (e, f, g)
                  (then-IsUntouched kept (
                    closed (store s y') y' x (store-IsServer s y' y found ids addresses v) other
                      other_id (kept.found, kept.listed)))
            | inr g ↦ rw (e, f, g) kept
          ]
        ]
      ]

  pub serve-IsUntouched :
      (s : Server Aead) (y : ClientSession Aead) (input : Result (List ℕ)) (now : ℕ)
      (x : ClientSession Aead)
      → find_live s.live y.conn ≡ some y
      → y.conn ≢ x.conn
      → y.id ≢ x.id
      → IsServer s
      → IsListed s x
      → let (m, out) = serve lib s y input now in IsUntouched s m out x
  unfolding serve
  serve-IsUntouched s y (err e) now x found other other_id v listed =
      closed s y x v other other_id listed
  serve-IsUntouched s y (ok buf) now x found other other_id v listed =
      elim (Result-cases (unmarshal_packet buf)) [
        | inl (e, h) ↦ rw (h, serve) (unchanged s [] x listed refl)
        | inr (packet, h) ↦
            rw (h, serve)
              (serve_packet-IsUntouched s (record y { last_seen = now }) y packet x found refl refl
                other other_id v listed)
      ]

  route_to-IsUntouched :
      (table : List (ℕ × ℕ)) (s : Server Aead) (dest : ℕ) (buf : List ℕ) (random : ℕ → Random)
      (x : ClientSession Aead)
      → dest ≢ x.assigned_ip
      → IsListed s x
      → let (m, out) = route_to lib s table dest buf random in IsUntouched s m out x
  unfolding route_to
  route_to-IsUntouched [] s dest buf random x other listed = unchanged s [] x listed refl
  route_to-IsUntouched ((id, conn) ∷ rest) s dest buf random x other listed =
      elim (Option-cases (find_live s.live conn)) [
        | inl h ↦ rw (h, route_to) (route_to-IsUntouched rest s dest buf random x other listed)
        | inr (y, h) ↦ elim (Bool-cases (y.assigned_ip == dest)) [
          | inr e ↦ rw (h, e, route_to) (route_to-IsUntouched rest s dest buf random x other listed)
          | inl e ↦
              let own : y.conn ≡ conn = find_live-conn s.live conn {x = y} h in
              let at : find_live s.live y.conn ≡ some y = ap (find_live s.live) own ∙ h in
              let apart : conn ≢ x.conn = λ same.
                let at_x : find_live s.live x.conn ≡ some y =
                  ap (find_live s.live) (sym same) ∙ h in
                let both : y ≡ x = some_same at_x listed.0 in
                other (sym ((==_iff y.assigned_ip dest).0 e) ∙ ap (λ z. z.assigned_ip) both) in
              let (crypto_session, result) = encrypt lib y.crypto_session (random conn) buf in
              let y' : ClientSession Aead = record y { crypto_session = crypto_session } in
              let kept : IsUntouched s (store s y') [] x =
                stored s y' y [] x at (λ same. apart (sym own ∙ same)) listed refl in
              elim (Result-cases result) [
                | inl (text, f) ↦
                    rw (h, e, f, route_to)
                      (then-IsUntouched kept (
                        route_to-IsUntouched rest (store s y') dest buf random x other
                          (kept.found, kept.listed)))
                | inr (ciphertext, f) ↦
                    rw (h, e, f, route_to)
                      (record {
                        found = kept.found;
                        listed = kept.listed;
                        same_tun = refl;
                        silent = elsewhere conn x.conn _ apart;
                      })
              ]
        ]
      ]

  pub route-IsUntouched :
      (s : Server Aead) (buf : List ℕ) (random : ℕ → Random) (x : ClientSession Aead)
      → be_value (slice 16 20 buf) ≢ x.assigned_ip
      → IsListed s x
      → let (m, out) = route lib s buf random in IsUntouched s m out x
  unfolding route
  route-IsUntouched s buf random x other listed = elim (Bool-cases (ltb (length buf) 20)) [
    | inl e ↦ rw (e, route) (unchanged s [] x listed refl)
    | inr e ↦
        rw (e, route)
          (route_to-IsUntouched s.sessions s (be_value (slice 16 20 buf)) buf random x other listed)
  ]
