-- ===== src/Client/Flow/Delivery.antt =====
-- Whatever the order of the steps, packets come out as they were put in, and the two ends can always read
-- what is on the way.
use hydravpn.Base.{
  ℕ, ◌≡◌, refl, ap, sym, ◌∙◌, subst, Bool, false, List, [], ◌∷◌, ◌++◌, ltb, length, All, some_same,
  some, Result, ok, err,
}
use hydravpn.Crypto.Library.{Primitives, IsDocumented}
use hydravpn.Transport.WebSocket.{Connection, read, read_message}
use hydravpn.Server.{ClientSession, Server, Effect, find_live, serve}
use hydravpn.Server.Interleaving.{Step-IsServer}
use hydravpn.Server.Sessions.{find_live-conn}
use hydravpn.Server.Route.{has_entry}
use hydravpn.Server.Apart.Steps.{Step-IsUntouched}
use hydravpn.Client.{Client, receive}
use hydravpn.Client as C
use hydravpn.Server.Apart.{messages_to}
use hydravpn.Client.Flow.{
  Flow, packets_in, client_packets, arrive, read_size, Step, client_sends, client_keeps_alive,
  server_reads, server_routes, client_reads, others, Reach, here, next,
}
use hydravpn.Client.Flow.Messages.{Item, IsItem, read_whole, message_of, messages, message_fits}
use hydravpn.Client.Flow.Holds.{Holds, IsFlow}
use hydravpn.Client.Flow.ClientSteps.{sends-IsFlow, keeps_alive-IsFlow, receives-IsFlow}
use hydravpn.Client.Flow.ServerSteps.{serves-IsFlow, routes-IsFlow}

-- `Read` where there is no message gives no bytes.
read_none :
    (c : Connection) {c' : Connection} {bytes : List ℕ}
    → c.read_buf ≡ []
    → c.incoming ≡ []
    → read c read_size ≡ (c', ok bytes)
    → ok bytes ≡ err c.failure
unfolding read read_message
read_none c {c'} {bytes} empty queue e =
    let none_left : ltb 0 (length c.read_buf) ≡ false = ap (λ b. ltb 0 (length b)) empty in
    let nothing : read c read_size ≡ (c, err c.failure) =
      rw none_left (ap (read_message c read_size) queue) in
    ap (λ r. r.1) (sym e ∙ nothing)

module _ {Aead : Type 0} (lib : Primitives Aead) (doc : IsDocumented lib) where
  pub first_message :
      (cipher : Aead) (id : ℕ) (end : Connection) (put got : List (List ℕ)) (item : Item)
      (items : List Item) (h : Holds lib cipher id end put got)
      → h.items ≡ item ∷ items
      → read end read_size ≡ (
        record end { incoming = messages lib cipher id items },
        ok (message_of lib cipher id item),
      )
  first_message cipher id end put got item items h e =
      read_whole end (message_of lib cipher id item) (messages lib cipher id items) h.whole
        (h.waiting ∙ ap (messages lib cipher id) e)
        (message_fits lib doc cipher id item (subst (All IsItem) e h.valid).0)

  server_reads-IsFlow :
      (w : Flow Aead) (now : ℕ) {up' : Connection} {bytes : List ℕ} {x : ClientSession Aead}
      {s' : Server Aead} {out : List Effect} (items : List Item)
      → read w.up read_size ≡ (up', ok bytes)
      → find_live w.server.live w.conn ≡ some x
      → serve lib w.server x (ok bytes) now ≡ (s', out)
      → (v : IsFlow lib w) → v.upward.items ≡ items
      → IsFlow lib (record w {
        server = s';
        up = up';
        down = arrive w.down (messages_to w.conn out);
        got_up = w.got_up ++ packets_in out;
      })
  server_reads-IsFlow w now [] got found served v e =
      let k = v.session.crypto_session.recv_cipher in
      let no =
        read_none w.up v.upward.whole (v.upward.waiting ∙ ap (messages lib k v.session.id) e) got in
      cc
  server_reads-IsFlow w now {up'} {bytes} {x} {s'} {out} (item ∷ items) got found served v e =
      let y = v.session in
      let k = y.crypto_session.recv_cipher in
      let message = message_of lib k y.id item in
      let same = sym (first_message k y.id w.up w.put_up w.got_up item items v.upward e) ∙ got in
      let served_all : serve lib w.server y (ok message) now ≡ (s', out) =
        ap (λ z. serve lib w.server z (ok message) now) (some_same v.found found)
        ∙ ap (λ (r : Connection × Result (List ℕ)). serve lib w.server x r.1 now) same
        ∙ served in
      subst
        (λ (t : (Connection × Result (List ℕ)) × Server Aead × List Effect). IsFlow lib (record w {
          server = t.1;
          up = t.0.0;
          down = arrive w.down (messages_to w.conn t.2);
          got_up = w.got_up ++ packets_in t.2;
        }))
        (λ i. (same i, (served_all i).0, (served_all i).1))
        (serves-IsFlow lib doc w item items now v e)

  client_reads-IsFlow :
      (w : Flow Aead) {down' : Connection} {bytes : List ℕ} {c' : Client Aead} {out : List C.Effect}
      {more : Bool} (items : List Item)
      → read w.down read_size ≡ (down', ok bytes)
      → receive lib w.client (ok bytes) ≡ some (c', out, more)
      → (v : IsFlow lib w) → v.downward.items ≡ items
      → IsFlow lib
          (record w { client = c'; down = down'; got_down = w.got_down ++ client_packets out })
  client_reads-IsFlow w [] got received v e =
      let k = v.session.crypto_session.send_cipher in
      let no =
        read_none w.down v.downward.whole (v.downward.waiting ∙ ap (messages lib k v.session.id) e)
          got in
      cc
  client_reads-IsFlow w {down'} {bytes} {c'} {out} {more} (item ∷ items) got received v e =
      let y = v.session in
      let k = y.crypto_session.send_cipher in
      let same =
        sym (first_message k y.id w.down w.put_down w.got_down item items v.downward e) ∙ got in
      let (c0, out0, received0, kept) = receives-IsFlow lib doc w item items v e in
      let both =
        some_same received0
          (ap (λ (r : Connection × Result (List ℕ)). receive lib w.client r.1) same ∙ received) in
      subst
        (λ (t : (Connection × Result (List ℕ)) × Client Aead × List C.Effect × Bool).
          IsFlow lib
            (record w { client = t.1; down = t.0.0; got_down = w.got_down ++ client_packets t.2 }))
        (λ i. (same i, (both i).0, (both i).1, (both i).2)) kept

  Step-IsFlow : {w m : Flow Aead} → Step lib w m → IsFlow lib w → IsFlow lib m
  Step-IsFlow {w} (client_sends buf random {c'} {out} {more} short size e next_flow) v =
      subst (IsFlow lib) (sym next_flow)
        (sends-IsFlow lib doc w buf random {c' = c'} {out = out} {more = more} short size e v)
  Step-IsFlow {w} (client_keeps_alive next_flow) v =
      subst (IsFlow lib) (sym next_flow) (keeps_alive-IsFlow lib doc w v)
  Step-IsFlow {w} (server_reads now {up'} {bytes} {x} {s'} {out} got found served next_flow) v =
      subst (IsFlow lib) (sym next_flow) (
        server_reads-IsFlow w now {up' = up'} {bytes = bytes} {x = x} {s' = s'} {out = out}
          v.upward.items got found served v refl)
  Step-IsFlow {w} (server_routes buf random enough short dest size e next_flow) v =
      let routed = routes-IsFlow lib doc w buf random enough short dest size v in
      subst (IsFlow lib) (sym next_flow) (
        subst
          (λ (t : Server Aead × List Effect). IsFlow lib (record w {
            server = t.0;
            down = arrive w.down (messages_to w.conn t.1);
            put_down = w.put_down ++ buf ∷ [];
          }))
          e routed)
  Step-IsFlow {w} (client_reads {down'} {bytes} {c'} {out} {more} got received next_flow) v =
      subst (IsFlow lib) (sym next_flow) (
        client_reads-IsFlow w {down' = down'} {bytes = bytes} {c' = c'} {out = out} {more = more}
          v.downward.items got received v refl)
  Step-IsFlow {w} (others x found step apart next_flow) v =
      let same : x.conn ≡ w.conn = find_live-conn w.server.live w.conn {x = x} found in
      let kept = Step-IsUntouched lib x step apart v.sound (
        ap (find_live w.server.live) same ∙ found,
        ap (has_entry w.server.sessions) same ∙ v.listed,
      ) in
      let own : x ≡ v.session = some_same found v.found in
      subst (IsFlow lib) (sym next_flow) (record {
        sound = Step-IsServer lib step v.sound;
        session = v.session;
        found = ap (find_live _) (sym same) ∙ kept.found ∙ ap some own;
        listed = ap (has_entry _) (sym same) ∙ kept.listed;
        server_tun = kept.same_tun ∙ v.server_tun;
        client_tun = v.client_tun;
        tunnel = v.tunnel;
        upward = v.upward;
        downward = v.downward;
      })

  pub Reach-IsFlow : {w m : Flow Aead} → Reach lib w m → IsFlow lib w → IsFlow lib m
  Reach-IsFlow here v = v
  Reach-IsFlow (next run step) v = Step-IsFlow step (Reach-IsFlow run v)
