-- ===== src/Client/Flow/ClientSteps.antt =====
-- The steps of the client keep what is on the way.
use hydravpn.Base.{
  some_same, ℕ, ◌≤◌, ◌≡◌, Bool-cases, inl, inr, refl, ◌∙◌, subst, Bool, true, List, [], ◌∷◌, ◌++◌,
  arith, length, All, some, ok,
}
use hydravpn.Crypto.Library.{Primitives, IsDocumented}
use hydravpn.Client.{Client, send, receive, keep_alive}
use hydravpn.Client as C
use hydravpn.Client.Flow.{Flow, client_messages, client_packets, arrive}
use hydravpn.Client.Flow.Messages.{
  Item, packet, beat, IsItem, payloads, message_of, messages, send_item,
}
use hydravpn.Client.Flow.Turns.{receive_item}
use hydravpn.Client.Flow.Holds.{Holds, IsFlow, arrive-Holds, arrive_beats-Holds, read-Holds}

module _ {Aead : Type 0} (lib : Primitives Aead) (doc : IsDocumented lib) where
  pub sends-IsFlow :
      (w : Flow Aead) (buf random : List ℕ) {c' : Client Aead} {out : List C.Effect} {more : Bool}
      → length buf ≤ 2048
      → length random ≡ 16
      → send lib w.client buf (some random) true ≡ some (c', out, more)
      → IsFlow lib w
      → IsFlow lib (record w {
        client = c';
        up = arrive w.up (client_messages out);
        put_up = w.put_up ++ buf ∷ [];
      })
  sends-IsFlow w buf random {c'} {out} {more} short size e v =
      let x = v.session in
      let (c0, nonce, len, sent, tunnel, tun, _) =
        send_item lib doc w.client x buf random v.tunnel size in
      let base : IsFlow lib (record w {
        client = c0;
        up = arrive w.up (message_of lib x.crypto_session.recv_cipher x.id (packet nonce buf) ∷ []);
        put_up = w.put_up ++ buf ∷ [];
      }) =
        record {
          sound = v.sound;
          session = x;
          found = v.found;
          listed = v.listed;
          server_tun = v.server_tun;
          client_tun = tun ∙ v.client_tun;
          tunnel = tunnel;
          upward =
              arrive-Holds lib x.crypto_session.recv_cipher x.id w.up w.put_up w.got_up
                (packet nonce buf ∷ []) ((len, short), tt) v.upward;
          downward = v.downward;
        } in
      subst
        (λ (t : Client Aead × List C.Effect × Bool). IsFlow lib (record w {
          client = t.0;
          up = arrive w.up (client_messages t.1);
          put_up = w.put_up ++ buf ∷ [];
        }))
        (some_same sent e) base

  beats-IsFlow :
      (w : Flow Aead) (ms : List (List ℕ)) (more : List Item) (v : IsFlow lib w)
      → messages lib v.session.crypto_session.recv_cipher v.session.id more ≡ ms
      → All IsItem more
      → payloads more ≡ []
      → IsFlow lib (record w { up = arrive w.up ms })
  beats-IsFlow w ms more v same valid none_more =
      let x = v.session in
      let k = x.crypto_session.recv_cipher in
      record {
        sound = v.sound;
        session = x;
        found = v.found;
        listed = v.listed;
        server_tun = v.server_tun;
        client_tun = v.client_tun;
        tunnel = v.tunnel;
        upward =
            subst (λ bytes. Holds lib k x.id (arrive w.up bytes) w.put_up w.got_up) same
              (arrive_beats-Holds lib k x.id w.up w.put_up w.got_up more valid none_more v.upward);
        downward = v.downward;
      }

  pub keeps_alive-IsFlow :
      (w : Flow Aead)
      → IsFlow lib w
      → IsFlow lib (record w { up = arrive w.up (client_messages (keep_alive w.client true).0) })
  unfolding keep_alive
  keeps_alive-IsFlow w v = elim (Bool-cases w.client.connected) [
    | inl e ↦
        beats-IsFlow w (client_messages (keep_alive w.client true).0) (beat ∷ []) v
          (ground (arith, e, v.tunnel.same_id)) (tt, tt) refl
    | inr e ↦
        beats-IsFlow w (client_messages (keep_alive w.client true).0) [] v (ground (arith, e)) tt
          refl
  ]

  -- The first of the messages at the client's end.
  pub receives-IsFlow :
      (w : Flow Aead) (item : Item) (items : List Item) (v : IsFlow lib w)
      → v.downward.items ≡ item ∷ items
      → let k = v.session.crypto_session.send_cipher in
        (c' : Client Aead) × (out : List C.Effect) × (receive lib w.client
            (ok (message_of lib k v.session.id item))
          ≡ some (c', out, true))
        × IsFlow lib (record w {
          client = c';
          down = record w.down { incoming = messages lib k v.session.id items };
          got_down = w.got_down ++ client_packets out;
        })
  receives-IsFlow w item items v e =
      let x = v.session in
      let k = x.crypto_session.send_cipher in
      let valid : IsItem item = (subst (All IsItem) e v.downward.valid).0 in
      let (c', out, received, packets, tunnel, tun, _) =
        receive_item lib doc w.client x item v.tunnel valid v.client_tun in
      (
        c',
        out,
        received,
        record {
          sound = v.sound;
          session = x;
          found = v.found;
          listed = v.listed;
          server_tun = v.server_tun;
          client_tun = tun;
          tunnel = tunnel;
          upward = v.upward;
          downward =
              rw packets
                (read-Holds lib k x.id w.down w.put_down w.got_down item items v.downward e);
        },
      )
