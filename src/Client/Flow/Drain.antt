-- ===== src/Client/Flow/Drain.antt =====
-- What is on the way is a rest of what was put in, and can be read out.
use hydravpn.Base.{ℕ, ◌≡◌, refl, ap, sym, ◌∙◌, List, [], ◌∷◌, ◌++◌, append-nil, String}
use hydravpn.Crypto.Library.{Primitives, IsDocumented}
use hydravpn.Transport.WebSocket.{Connection}
use hydravpn.Server.{Server}
use hydravpn.Client.{Client}
use hydravpn.Client.Conversation.{IsLinked}
use hydravpn.Client.Flow.{
  Flow, new_connection, new_flow, server_reads, client_reads, Reach, here, next,
}
use hydravpn.Client.Flow.Messages.{Item, payloads, messages}
use hydravpn.Client.Flow.Holds.{Holds, IsFlow}
use hydravpn.Client.Flow.ClientSteps.{receives-IsFlow}
use hydravpn.Client.Flow.ServerSteps.{serves-IsFlow}
use hydravpn.Client.Flow.Delivery.{first_message, Reach-IsFlow}

module _ {Aead : Type 0} (lib : Primitives Aead) where
  pub then_runs : {w m n : Flow Aead} → Reach lib w m → Reach lib m n → Reach lib w n
  then_runs before here = before
  then_runs before (next run step) = next (then_runs before run) step

  messages_first :
      (cipher : Aead) (id : ℕ) (items : List Item) {m : List ℕ} {ms : List (List ℕ)}
      → messages lib cipher id items ≡ m ∷ ms
      → (item : Item) × (rest : List Item) × (items ≡ item ∷ rest)
        × (messages lib cipher id rest ≡ ms)
  messages_first cipher id [] e = cc
  messages_first cipher id (item ∷ rest) {m} {ms} e = (item, rest, refl, cc)

  messages_none :
      (cipher : Aead) (id : ℕ) (items : List Item) → messages lib cipher id items ≡ [] → items ≡ []
  messages_none cipher id [] e = refl
  messages_none cipher id (item ∷ rest) e = cc

  -- Nothing on the way: all that was put in has come out.
  empty-Holds :
      (cipher : Aead) (id : ℕ) (end : Connection) (put got : List (List ℕ))
      → Holds lib cipher id end put got
      → end.incoming ≡ []
      → got ≡ put
  empty-Holds cipher id end put got h none_left =
      sym (append-nil got)
      ∙ ap (λ items. got ++ payloads items)
          (sym (messages_none cipher id h.items (sym h.waiting ∙ none_left)))
      ∙ h.in_order

  new_Holds :
      (cipher : Aead) (id : ℕ) (failure : String)
      → Holds lib cipher id (new_connection failure) [] []
  new_Holds cipher id failure = record {
    items = [];
    whole = refl;
    waiting = refl;
    valid = tt;
    in_order = refl;
  }

module _ {Aead : Type 0} (lib : Primitives Aead) (doc : IsDocumented lib) where
  drain_up :
      (queue : List (List ℕ)) (w : Flow Aead)
      → w.up.incoming ≡ queue
      → IsFlow lib w
      → (n : Flow Aead) × Reach lib w n
        × IsFlow lib n
        × (n.up.incoming ≡ [])
        × (n.put_up ≡ w.put_up)
        × (n.put_down ≡ w.put_down)
  drain_up [] w e v = (w, here, v, e, refl, refl)
  drain_up (m ∷ ms) w e v =
      let x = v.session in
      let k = x.crypto_session.recv_cipher in
      let (item, rest, first, later) =
        messages_first lib k x.id v.upward.items (sym v.upward.waiting ∙ e) in
      let got = first_message lib doc k x.id w.up w.put_up w.got_up item rest v.upward first in
      let after = serves-IsFlow lib doc w item rest 0 v first in
      let (n, run, kept, none_left, up, down) = drain_up ms _ later after in
      (
        n,
        then_runs lib (next here (server_reads 0 got v.found refl refl)) run,
        kept,
        none_left,
        up,
        down,
      )

  drain_down :
      (queue : List (List ℕ)) (w : Flow Aead)
      → w.down.incoming ≡ queue
      → IsFlow lib w
      → (n : Flow Aead) × Reach lib w n
        × IsFlow lib n
        × (n.down.incoming ≡ [])
        × (n.up ≡ w.up)
        × (n.put_up ≡ w.put_up)
        × (n.put_down ≡ w.put_down)
  drain_down [] w e v = (w, here, v, e, refl, refl, refl)
  drain_down (m ∷ ms) w e v =
      let x = v.session in
      let k = x.crypto_session.send_cipher in
      let (item, rest, first, later) =
        messages_first lib k x.id v.downward.items (sym v.downward.waiting ∙ e) in
      let got =
        first_message lib doc k x.id w.down w.put_down w.got_down item rest v.downward first in
      let (c', out, received, after) = receives-IsFlow lib doc w item rest v first in
      let (n, run, kept, none_left, same, up, down) = drain_down ms _ later after in
      (
        n,
        then_runs lib (next here (client_reads got received refl)) run,
        kept,
        none_left,
        same,
        up,
        down,
      )

  -- A sound server and a client are the ends of a tunnel over a WebSocket connection, both with a TUN
  -- device, the client's handler running and listed; no message is on the way. The tunnel is run in
  -- any way: packets of at most 2048 bytes from the client's side, IPv4 packets of at most 2048 bytes
  -- for the client's address from the server's side, and keep-alives are sent at any times, each
  -- packet with 16 random bytes drawn and each write taken; the reads of both ends come anywhere
  -- between, and so do handshakes of other clients, which draw other session ids, the rounds and ends
  -- of handlers with other connections and ids, and packets for other addresses. Then in each
  -- direction what has come out of the tunnel is the beginning of what was put in, in order and
  -- whole; and there is a way to go on in which nothing more is put in and at whose end all that was
  -- put in has come out.
  pub Reach-delivers :
      (s : Server Aead) (c : Client Aead) (conn address : ℕ) (up_failure down_failure : String)
      {m : Flow Aead}
      → IsLinked s c conn address
      → Reach lib (new_flow s c conn up_failure down_failure) m
      → (pending_up pending_down : List (List ℕ)) × (m.got_up ++ pending_up ≡ m.put_up)
        × (m.got_down ++ pending_down ≡ m.put_down)
        × (n : Flow Aead) × Reach lib m n
        × (n.put_up ≡ m.put_up)
        × (n.put_down ≡ m.put_down)
        × (n.got_up ≡ m.put_up)
        × (n.got_down ≡ m.put_down)
  Reach-delivers s c conn address up_failure down_failure {m} l run =
      let start : IsFlow lib (new_flow s c conn up_failure down_failure) = record {
        sound = l.sound;
        session = l.session;
        found = l.found;
        listed = l.listed;
        server_tun = l.server_tun;
        client_tun = l.client_tun;
        tunnel = l.tunnel;
        upward = new_Holds lib _ _ up_failure;
        downward = new_Holds lib _ _ down_failure;
      } in
      let v = Reach-IsFlow lib doc run start in
      let (up_read, run_up, kept, no_up, up, down) = drain_up m.up.incoming m refl v in
      let (n, run_down, done, no_down, same, up', down') =
        drain_down up_read.down.incoming up_read refl kept in
      let h = done.upward in
      let g = done.downward in
      (
        payloads v.upward.items,
        payloads v.downward.items,
        v.upward.in_order,
        v.downward.in_order,
        n,
        then_runs lib run_up run_down,
        up' ∙ up,
        down' ∙ down,
        empty-Holds lib _ _ n.up n.put_up n.got_up h (ap (λ c. c.incoming) same ∙ no_up) ∙ up' ∙ up,
        empty-Holds lib _ _ n.down n.put_down n.got_down g no_down ∙ down' ∙ down,
      )
