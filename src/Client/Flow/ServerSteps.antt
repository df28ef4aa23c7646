-- ===== src/Client/Flow/ServerSteps.antt =====
-- The steps of the server keep what is on the way.
use hydravpn.Base.{
  ==_refl, ℕ, ◌≤◌, ◌≡◌, refl, ap, sym, ◌∙◌, subst, List, [], ◌∷◌, ◌++◌, length, All, some, ok,
}
use hydravpn.Base.Bytes.{be_value}
use hydravpn.Base.Slices.{slice}
use hydravpn.Crypto.Library.{Primitives, IsDocumented}
use hydravpn.Server.{write_conn, find_live, store, serve, route}
use hydravpn.Server.Sessions.{find_live-conn}
use hydravpn.Server.Keep.{IsServer, serve-IsServer, route-IsServer}
use hydravpn.Server.Route.{has_entry}
use hydravpn.Server.Apart.{messages_to}
use hydravpn.Client.Flow.{Flow, packets_in, arrive}
use hydravpn.Client.Flow.Messages.{Item, packet, beat, IsItem, payloads, message_of, messages}
use hydravpn.Client.Flow.Turns.{answer_to, serve_item, route_item}
use hydravpn.Client.Flow.Holds.{IsFlow, arrive-Holds, arrive_beats-Holds, read-Holds, same-Holds}

answer_payloads : (item : Item) → payloads (answer_to item) ≡ []
answer_payloads (packet nonce plaintext) = refl
answer_payloads beat = refl

answer_valid : (item : Item) → All IsItem (answer_to item)
answer_valid (packet nonce plaintext) = tt
answer_valid beat = (tt, tt)

module _ {Aead : Type 0} (lib : Primitives Aead) (doc : IsDocumented lib) where
  -- The first of the messages at the server's end.
  pub serves-IsFlow :
      (w : Flow Aead) (item : Item) (items : List Item) (now : ℕ) (v : IsFlow lib w)
      → v.upward.items ≡ item ∷ items
      → let x = v.session in
        let bytes = message_of lib x.crypto_session.recv_cipher x.id item in
        let (s', out) = serve lib w.server x (ok bytes) now in
        IsFlow lib (record w {
          server = s';
          up = record w.up { incoming = messages lib x.crypto_session.recv_cipher x.id items };
          down = arrive w.down (messages_to w.conn out);
          got_up = w.got_up ++ packets_in out;
        })
  serves-IsFlow w item items now v e =
      let x = v.session in
      let same : x.conn ≡ w.conn = find_live-conn w.server.live w.conn {x = x} v.found in
      let found : find_live w.server.live x.conn ≡ some x =
        ap (find_live w.server.live) same ∙ v.found in
      let valid : IsItem item = (subst (All IsItem) e v.upward.valid).0 in
      let (x', out, served, packets, answers, after, session, tunnel) =
        serve_item lib doc w.server x w.client item now v.tunnel valid found v.server_tun in
      let read =
        read-Holds lib x.crypto_session.recv_cipher x.id w.up w.put_up w.got_up item items v.upward
          e in
      let to_conn = ap (λ c. messages_to c out) (sym same) ∙ answers in
      let answered =
        arrive_beats-Holds lib x.crypto_session.send_cipher x.id w.down w.put_down w.got_down
          (answer_to item) (answer_valid item) (answer_payloads item) v.downward in
      let base : IsFlow lib (record w {
        server = store w.server x';
        up = record w.up { incoming = messages lib x.crypto_session.recv_cipher x.id items };
        down = arrive w.down (messages_to w.conn out);
        got_up = w.got_up ++ packets_in out;
      }) =
        record {
          sound = subst IsServer (ap (λ r. r.0) served) (
              serve-IsServer lib w.server x
                (ok (message_of lib x.crypto_session.recv_cipher x.id item)) now found v.sound);
          session = x';
          found = ap (find_live (store w.server x').live) (sym same) ∙ after;
          listed = v.listed;
          server_tun = v.server_tun;
          client_tun = v.client_tun;
          tunnel = tunnel;
          upward = same-Holds lib _ w.put_up _ session.receives session.id (rw packets read);
          downward =
              same-Holds lib _ w.put_down w.got_down session.sends session.id (rw to_conn answered);
        } in
      rw served base

  pub routes-IsFlow :
      (w : Flow Aead) (buf random : List ℕ)
      → 20 ≤ length buf
      → length buf ≤ 2048
      → be_value (slice 16 20 buf) ≡ be_value w.client.assigned_ip
      → length random ≡ 16
      → IsFlow lib w
      → let (s', out) = route lib w.server buf (λ d. some random) in
        IsFlow lib (record w {
          server = s';
          down = arrive w.down (messages_to w.conn out);
          put_down = w.put_down ++ buf ∷ [];
        })
  routes-IsFlow w buf random enough short dest size v =
      let x = v.session in
      let same : x.conn ≡ w.conn = find_live-conn w.server.live w.conn {x = x} v.found in
      let found : find_live w.server.live x.conn ≡ some x =
        ap (find_live w.server.live) same ∙ v.found in
      let (x', nonce, len, routed, after, session, tunnel) =
        route_item lib doc w.server x w.client buf random v.tunnel v.sound found
          (ap (has_entry w.server.sessions) same ∙ v.listed) enough dest size in
      let k = x.crypto_session.send_cipher in
      let sent =
        arrive-Holds lib k x.id w.down w.put_down w.got_down (packet nonce buf ∷ [])
          ((len, short), tt) v.downward in
      let to_conn : messages_to w.conn
            (write_conn x.conn (message_of lib k x.id (packet nonce buf)) ∷ [])
          ≡ message_of lib k x.id (packet nonce buf) ∷ [] =
        ap (λ c. messages_to c (write_conn x.conn (message_of lib k x.id (packet nonce buf)) ∷ []))
          (sym same)
        ∙ rw (==_refl x.conn) refl in
      rw (routed, to_conn)
        (record {
          sound =
              subst IsServer (ap (λ r. r.0) routed)
                (route-IsServer lib w.server buf (λ d. some random) v.sound);
          session = x';
          found = ap (find_live (store w.server x').live) (sym same) ∙ after;
          listed = v.listed;
          server_tun = v.server_tun;
          client_tun = v.client_tun;
          tunnel = tunnel;
          upward = same-Holds lib w.up w.put_up w.got_up session.receives session.id v.upward;
          downward =
              same-Holds lib (arrive w.down (message_of lib k x.id (packet nonce buf) ∷ []))
                (w.put_down ++ buf ∷ []) w.got_down session.sends session.id sent;
        })
