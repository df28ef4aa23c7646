-- ===== src/Client/Flow/Holds.antt =====
-- What is on the way between the two ends: the messages of packets that were put in and have not come
-- out, in order.
use hydravpn.Base.{
  ℕ, ◌≡◌, refl, ap, sym, ◌∙◌, subst, true, List, [], ◌∷◌, ◌++◌, append_assoc, append-nil, All,
  All-append, some,
}
use hydravpn.Crypto.Library.{Primitives}
use hydravpn.Transport.WebSocket.{Connection}
use hydravpn.Server.{ClientSession, find_live}
use hydravpn.Server.Keep.{IsServer}
use hydravpn.Server.Route.{has_entry}
use hydravpn.Client.Tunnel.{IsTunnel}
use hydravpn.Client.Flow.{Flow, arrive}
use hydravpn.Client.Flow.Messages.{Item, packet, beat, IsItem, payloads, messages, messages-append}
use hydravpn.Client.Flow.Turns.{payload_of}

pub payloads-append :
    (items more : List Item) → payloads (items ++ more) ≡ payloads items ++ payloads more
payloads-append [] more = refl
payloads-append (packet nonce plaintext ∷ items) more =
    ap (◌∷◌ plaintext) (payloads-append items more)
payloads-append (beat ∷ items) more = payloads-append items more

pub payloads-first :
    (item : Item) (items : List Item) → payloads (item ∷ items) ≡ payload_of item ++ payloads items
payloads-first (packet nonce plaintext) items = refl
payloads-first beat items = refl

-- One direction: the messages at the receiving end, whose `Read` has no rest of one, are those of items;
-- and what has come out, followed by what the items hold, is what was put in.
pub record Holds {Aead : Type 0} (lib : Primitives Aead) (cipher : Aead) (id : ℕ) (end : Connection)
    (put got : List (List ℕ)) : Type 0 where
  pub items : List Item
  pub whole : end.read_buf ≡ []
  pub waiting : end.incoming ≡ messages lib cipher id items
  pub valid : All IsItem items
  pub in_order : got ++ payloads items ≡ put

module _ {Aead : Type 0} (lib : Primitives Aead) where
  -- A message more at the end of the queue.
  pub arrive-Holds :
      (cipher : Aead) (id : ℕ) (end : Connection) (put got : List (List ℕ)) (more : List Item)
      → All IsItem more
      → Holds lib cipher id end put got
      → Holds lib cipher id (arrive end (messages lib cipher id more)) (put ++ payloads more) got
  arrive-Holds cipher id end put got more valid h = record {
    items = h.items ++ more;
    whole = h.whole;
    waiting =
        ap (λ ms. ms ++ messages lib cipher id more) h.waiting
        ∙ sym (messages-append lib cipher id h.items more);
    valid = All-append IsItem h.items more h.valid valid;
    in_order =
        ap (λ ps. got ++ ps) (payloads-append h.items more)
        ∙ sym (append_assoc got (payloads h.items) (payloads more))
        ∙ ap (λ ps. ps ++ payloads more) h.in_order;
  }

  -- Messages without a packet.
  pub arrive_beats-Holds :
      (cipher : Aead) (id : ℕ) (end : Connection) (put got : List (List ℕ)) (more : List Item)
      → All IsItem more
      → payloads more ≡ []
      → Holds lib cipher id end put got
      → Holds lib cipher id (arrive end (messages lib cipher id more)) put got
  arrive_beats-Holds cipher id end put got more valid none_more h =
      subst (λ ps. Holds lib cipher id (arrive end (messages lib cipher id more)) ps got)
        (ap (λ ps. put ++ ps) none_more ∙ append-nil put)
        (arrive-Holds cipher id end put got more valid h)

  -- The first message is read.
  pub read-Holds :
      (cipher : Aead) (id : ℕ) (end : Connection) (put got : List (List ℕ)) (item : Item)
      (items : List Item) (h : Holds lib cipher id end put got)
      → h.items ≡ item ∷ items
      → Holds lib cipher id
          (record end { incoming = messages lib cipher id items })
          put
          (got ++ payload_of item)
  read-Holds cipher id end put got item items h e = record {
    items = items;
    whole = h.whole;
    waiting = refl;
    valid = (subst (All IsItem) e h.valid).1;
    in_order =
        append_assoc got (payload_of item) (payloads items)
        ∙ ap (λ ps. got ++ ps) (sym (payloads-first item items) ∙ ap payloads (sym e))
        ∙ h.in_order;
  }

  -- The same queue for the same keys.
  pub same-Holds :
      {cipher cipher' : Aead} {id id' : ℕ} (end : Connection) (put got : List (List ℕ))
      → cipher' ≡ cipher
      → id' ≡ id
      → Holds lib cipher id end put got
      → Holds lib cipher' id' end put got
  same-Holds {cipher} {cipher'} {id} {id'} end put got e f h =
      subst (λ k. Holds lib k id' end put got) (sym e)
        (subst (λ n. Holds lib cipher n end put got) (sym f) h)

-- A tunnel with both directions. The handler of the connection runs and is listed, and both ends have a
-- TUN device.
pub record IsFlow {Aead : Type 0} (lib : Primitives Aead) (w : Flow Aead) : Type 0 where
  pub sound : IsServer w.server
  pub session : ClientSession Aead
  pub found : find_live w.server.live w.conn ≡ some session
  pub listed : has_entry w.server.sessions w.conn ≡ true
  pub server_tun : w.server.has_tun ≡ true
  pub client_tun : w.client.has_tun ≡ true
  pub tunnel : IsTunnel w.client session
  pub upward : Holds lib session.crypto_session.recv_cipher session.id w.up w.put_up w.got_up
  pub downward :
      Holds lib session.crypto_session.send_cipher session.id w.down w.put_down w.got_down
