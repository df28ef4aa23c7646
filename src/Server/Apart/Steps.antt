-- ===== src/Server/Apart/Steps.antt =====
-- The steps of other connections' goroutines leave a session alone.
use hydravpn.Base.{
  ℕ, ◌≡◌, ◌≢◌, inl, inr, refl, ap, sym, ◌∙◌, subst, Bool, List, [], Bool-cases, Option, none, some,
  some_same, Result,
}
use hydravpn.Base.Bytes.{be_value}
use hydravpn.Base.Slices.{slice}
use hydravpn.Crypto.{Random}
use hydravpn.Crypto.Library.{Primitives}
use hydravpn.Server.{ClientSession, Server, Effect, find_live, accept_session}
use hydravpn.Server.IpPool.Invariant.{allocate_lem}
use hydravpn.Server.Keep.{IsServer}
use hydravpn.Server.Accept.{
  refused, exhausted, established, opened, session_id, accept_session-Accepted, opened-IsServer,
}
use hydravpn.Server.Interleaving.{Step, accepts, serves, stops, routes}
use hydravpn.Server.Apart.{IsUntouched, IsListed, unchanged, closed, new_session, then-IsUntouched}
use hydravpn.Server.Apart.Rounds.{elsewhere, serve-IsUntouched, route-IsUntouched}

-- A step is of another connection than that of a session: a handshake on another connection that draws
-- another id, a round or the end of a handler with another connection and id, a packet for another address.
abbrev pub IsApart :
    {Aead : Type 0}
    → (lib : Primitives Aead) → {s m : Server Aead} → {out : List Effect} → ClientSession Aead
    → Step lib s m out
    → Type 0
IsApart lib x (accepts conn input now id_bytes padding writable free e) =
    (conn ≢ x.conn) × (session_id lib id_bytes ≢ x.id)
IsApart lib x (serves y input now found e) = (y.conn ≢ x.conn) × (y.id ≢ x.id)
IsApart lib x (stops y found e) = (y.conn ≢ x.conn) × (y.id ≢ x.id)
IsApart lib x (routes buf random e) = be_value (slice 16 20 buf) ≢ x.assigned_ip

by_outcome :
    {Aead : Type 0} {o : Option (Server Aead × List Effect)} {s m : Server Aead} {out : List Effect}
    {r : Server Aead × List Effect} {x : ClientSession Aead}
    → o ≡ some (m, out)
    → o ≡ some r
    → IsUntouched s r.0 r.1 x
    → IsUntouched s m out x
by_outcome {Aead} {o} {s} {m} {out} {r} {x} e f u =
    subst (λ (t : Server Aead × List Effect). IsUntouched s t.0 t.1 x) (some_same f e) u

module _ {Aead : Type 0} (lib : Primitives Aead) where
  accept-IsUntouched :
      (s : Server Aead) (conn : ℕ) (input : Result (List ℕ)) (now : ℕ) (id_bytes padding : Random)
      (writable : Bool) (x : ClientSession Aead) {m : Server Aead} {out : List Effect}
      → accept_session lib s conn input now id_bytes padding writable ≡ some (m, out)
      → find_live s.live conn ≡ none
      → conn ≢ x.conn
      → session_id lib id_bytes ≢ x.id
      → IsServer s
      → IsListed s x
      → IsUntouched s m out x
  accept-IsUntouched s conn input now id_bytes padding writable x {m} {out} e free other other_id v
        listed =
      elim (accept_session-Accepted lib s conn input now id_bytes padding writable v.pool) [
        | refused text h outcome ↦ by_outcome e outcome (unchanged s _ x listed refl)
        | exhausted h outcome ↦ by_outcome e outcome (unchanged s _ x listed refl)
        | established keys pool y h g (c, _, same_id, _) outcome ↦
            let other_y : y.conn ≢ x.conn = λ f. other (sym c ∙ f) in
            let other_y_id : y.id ≢ x.id = λ f. other_id (sym same_id ∙ f) in
            let new : find_live s.live y.conn ≡ none = ap (find_live s.live) c ∙ free in
            let sound : IsServer (opened s pool y) =
              opened-IsServer s pool y v new (allocate_lem s.ip_pool v.pool g) in
            let fresh = new_session s pool y [] x v other_y other_y_id listed refl in
            by_outcome e outcome (elim (Bool-cases writable) [
              | inl w ↦ rw w (
                  new_session s pool y _ x v other_y other_y_id listed
                    (elsewhere conn x.conn _ other))
              | inr w ↦ rw w (
                  then-IsUntouched fresh (
                    closed (opened s pool y) y x sound other_y other_y_id
                      (fresh.found, fresh.listed)))
            ])
      ]

  -- On a sound server, a session object of a running handler with an entry in the table, and one step
  -- of any other goroutine: a handshake on another connection, whatever its outcome, that draws
  -- another session id; a round or the end of a handler with another connection and another id; a
  -- packet from the TUN device for another address. After the step the session object is the same,
  -- counters included, its connection is still in the table, the TUN device stays, and nothing was
  -- written to its connection.
  pub Step-IsUntouched :
      {s m : Server Aead} {out : List Effect} (x : ClientSession Aead) (step : Step lib s m out)
      → IsApart lib x step
      → IsServer s
      → IsListed s x
      → IsUntouched s m out x
  Step-IsUntouched {s} {m} {out} x (accepts conn input now id_bytes padding writable free e) apart v
        listed =
      accept-IsUntouched s conn input now id_bytes padding writable x {m = m} {out = out} e free
        apart.0 apart.1 v listed
  Step-IsUntouched {s} {m} {out} x (serves y input now found e) apart v listed =
      subst (λ (t : Server Aead × List Effect). IsUntouched s t.0 t.1 x) e
        (serve-IsUntouched lib s y input now x found apart.0 apart.1 v listed)
  Step-IsUntouched {s} {m} {out} x (stops y found e) apart v listed =
      subst (λ (t : Server Aead × List Effect). IsUntouched s t.0 t.1 x) e
        (closed s y x v apart.0 apart.1 listed)
  Step-IsUntouched {s} {m} {out} x (routes buf random e) apart v listed =
      subst (λ (t : Server Aead × List Effect). IsUntouched s t.0 t.1 x) e
        (route-IsUntouched lib s buf random x apart listed)
