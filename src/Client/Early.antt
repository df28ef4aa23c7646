-- ===== src/Client/Early.antt =====
-- A packet from the server's TUN device between the two halves of a handshake: `handleConnection` puts
-- the session into the table before it writes the response, and `tunReadLoop` may run in between.
use hydravpn.Base.{
  ℕ, ◌^◌, ◌≤◌, ◌<◌, ◌≡◌, refl, ap, ◌∙◌, subst, Bool, true, List, [], ◌∷◌, ◌++◌, arith, length, some,
  ok, err,
}
use hydravpn.Base.Int.{ℤ}
use hydravpn.Base.Bytes.{be_value, le_bytes}
use hydravpn.Base.Slices.{slice}
use hydravpn.Protocol.{new_packet, marshal}
use hydravpn.Protocol.PacketType
use hydravpn.Protocol.Framed.{unmarshal-new_packet}
use hydravpn.Crypto.{Random, encrypt}
use hydravpn.Crypto.Library.{Primitives, IsDocumented}
use hydravpn.Crypto.Traffic.{length-encrypt}
use hydravpn.Server.{ClientSession, write_conn, find_live, store, route, response_bytes}
use hydravpn.Server.Keep.{store-found}
use hydravpn.Server.Route.{has_entry, route-sent_to}
use hydravpn.Server.Life.Handlers.{phase_of}
use hydravpn.Server.Stages.{Stages, listed, answer, Reach, here, next, routes, answers}
use hydravpn.Server.Stages.Sound.{IsStages}
use hydravpn.Client.{Client, read_response, finish_handshake, perform_handshake, connect}

module _ {Aead : Type 0} (lib : Primitives Aead) (doc : IsDocumented lib) where
  read_response_early :
      (id : ℕ) (payload : List ℕ)
      → id < 2 ^ 64
      → length payload < 2 ^ 16
      → read_response (ok (marshal (new_packet PacketType.transfer id payload)))
        ≡ err "unexpected packet type"
  unfolding read_response new_packet
  read_response_early id payload small long =
      let read = unmarshal-new_packet PacketType.transfer id payload small long in
      rw (read, read_response) refl

  connect_early :
      (c : Client Aead) (bytes : List ℕ) (time : ℤ) (padding : Random) (tun_made : Bool)
      → read_response (ok bytes) ≡ err "unexpected packet type"
      → (connect lib c true time padding true (ok bytes) tun_made).2 ≡ err "handshake failed"
  unfolding connect perform_handshake finish_handshake
  connect_early c bytes time padding tun_made h = rw (h, finish_handshake, connect) refl

  -- A session is in the table and its response is not yet written.
  pub connect-refused_early :
      (w : Stages Aead) (x : ClientSession Aead) (c : Client Aead) (buf random : List ℕ)
      (draws : ℕ → Random) (padding : Random) (time : ℤ) (client_padding : Random) (tun_made : Bool)
      → IsStages w
      → phase_of w.handlers x.conn ≡ some listed
      → find_live w.server.live x.conn ≡ some x
      → has_entry w.server.sessions x.conn ≡ true
      → x.id < 2 ^ 64
      → 20 ≤ length buf
      → length buf ≤ 2048
      → be_value (slice 16 20 buf) ≡ x.assigned_ip
      → draws x.conn ≡ some random
      → length random ≡ 16
      → (m : Stages Aead) × (first response : List ℕ) × Reach lib w m
          (write_conn x.conn first ∷ write_conn x.conn response ∷ [])
        × ((connect lib c true time client_padding true (ok first) tun_made).2
            ≡ err "handshake failed")
  unfolding encrypt answer
  connect-refused_early w x c buf random draws padding time client_padding tun_made v at found
        inside small enough long dest drawn size =
      let s = w.server in
      let nonce : List ℕ = le_bytes 8 x.crypto_session.send_nonce ++ random in
      let ciphertext : List ℕ = nonce ++ lib.seal x.crypto_session.send_cipher nonce buf in
      let sealed : (encrypt lib x.crypto_session (draws x.conn) buf).1 ≡ ok ciphertext =
        ap (λ r. (encrypt lib x.crypto_session r buf).1) drawn in
      let fits =
        length-encrypt lib doc x.crypto_session random buf {ciphertext = ciphertext} size refl in
      let x' : ClientSession Aead = record x {
        crypto_session = (encrypt lib x.crypto_session (draws x.conn) buf).0;
      } in
      let first : List ℕ = marshal (new_packet PacketType.transfer x.id ciphertext) in
      let routed : route lib s buf draws ≡ (store s x', write_conn x.conn first ∷ []) =
        route-sent_to lib s x buf draws {ciphertext = ciphertext} v.server found inside enough dest
          sealed in
      let after : Stages Aead = record w { server = (route lib s buf draws).0 } in
      let there : find_live after.server.live x.conn ≡ some x' =
        ap (λ r. find_live r.0.live x.conn) routed ∙ store-found s x' x found in
      let response : List ℕ = response_bytes lib after.server x' padding in
      let run = next (next here (routes buf draws)) (answers x' padding true at there) in
      (
        _,
        first,
        response,
        subst (Reach lib w (answer lib after x' padding true).0)
            (ap (λ r. r.1 ++ write_conn x.conn response ∷ []) routed) run,
        connect_early c first time client_padding tun_made
            (read_response_early x.id ciphertext small (omega (arith, fits))),
      )
