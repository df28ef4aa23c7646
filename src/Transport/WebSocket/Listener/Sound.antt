-- ===== src/Transport/WebSocket/Listener/Sound.antt =====
-- Every connection that was upgraded is accounted for, and the two channels never stop both sides.
use hydravpn.Base.{
  ◌≢◌, ◌⊎◌, inl, inr, ℕ, ◌+◌, ◌≤◌, ◌≡◌, refl, sym, ap, ◌∙◌, subst, Bool, true, false, Bool-cases,
  List, [], ◌∷◌, ◌++◌, append_assoc, arith, ltb, ◌==◌, length, length-append, Option, some, none,
  some_same, Result, if◌then◌else◌,
}
use hydravpn.Transport.WebSocket.Listener.{
  WebSocketListener, capacity, remove_one, select, send_conn, drop_conn, handle, take_conn,
  refuse_closed, accept, close, times, Step, upgrades, handles, accepts, closes, Reach, here, next,
  new_listener,
}

times-append :
    (front back : List ℕ) (c : ℕ) → times (front ++ back) c ≡ times front c + times back c
times-append [] back c = omega arith
times-append (d ∷ rest) back c = omega (arith, times-append rest back c)

times-remove_one :
    (cs : List ℕ) (c a : ℕ)
    → 1 ≤ times cs c
    → times (remove_one cs c) a + times (c ∷ []) a ≡ times cs a
unfolding remove_one
times-remove_one [] c a some_more = omega arith
times-remove_one (d ∷ rest) c a some_more = elim (Bool-cases (d == c)) [
  | inl e ↦ rw e (ground (arith, e))
  | inr e ↦ let later = times-remove_one rest c a (ground (arith, e)) in rw e (omega (arith, later))
]

-- The channel holds 100 connections at most; `Accept` returns connections in the order in which
-- they were sent; every upgraded connection is in exactly one place: with its handler, in the
-- channel, accepted or closed; and never do a handler and `Accept` both wait.
pub record IsSound (l : WebSocketListener) : Type 0 where
  pub bounded : length l.conn_chan ≤ capacity
  pub in_order : l.accepted ++ l.conn_chan ≡ l.sent
  pub accounted :
      (a : ℕ) → times l.handlers a + times l.sent a + times l.dropped a ≡ times l.upgraded a
  pub going : (c : ℕ) (first other : Bool) → (handle l c first ≢ none) ⊎ (accept l other ≢ none)

select-none :
    {A : Type 0} (first : Bool) (a b : Option A) → select first a b ≡ none → (a ≡ none) × (b ≡ none)
unfolding select
select-none true none b e = (refl, e)
select-none true (some a) b e = cc
select-none false a none e = (e, refl)
select-none false a (some b) e = cc

select-some :
    {A : Type 0} (first : Bool) (a b : Option A) {x : A}
    → select first a b ≡ some x
    → (a ≡ some x) ⊎ (b ≡ some x)
unfolding select
select-some true none b e = inr e
select-some true (some a) b e = inl e
select-some false a none e = inl e
select-some false a (some b) e = inr e

if_some :
    {A : Type 0} (b : Bool) {x y : A} → (if b then some x else none) ≡ some y → (b ≡ true) × (x ≡ y)
if_some true e = (refl, some_same refl e)
if_some false e = cc

goes_on_with :
    (l : WebSocketListener) (c : ℕ) (first other : Bool) (chan : List ℕ)
    → l.conn_chan ≡ chan
    → (handle l c first ≢ none) ⊎ (accept l other ≢ none)
unfolding handle accept send_conn take_conn
goes_on_with l c first other [] e = inl (λ none_ready.
    let no_room = (select-none first (send_conn l c) (drop_conn l c) none_ready).0 in
    let room : ltb (length l.conn_chan) capacity ≡ true = ground (arith, ap length e) in cc)
goes_on_with l c first other (d ∷ rest) e = inr (λ none_ready.
    let no_conn = (select-none other (take_conn l l.conn_chan) (refuse_closed l) none_ready).0 in
    let taken = ap (take_conn l) e in cc)

goes_on :
    (l : WebSocketListener) (c : ℕ) (first other : Bool)
    → (handle l c first ≢ none) ⊎ (accept l other ≢ none)
goes_on l c first other = goes_on_with l c first other l.conn_chan refl

send_conn-IsSound :
    (l : WebSocketListener) (c : ℕ) {m : WebSocketListener}
    → 1 ≤ times l.handlers c
    → IsSound l
    → send_conn l c ≡ some m
    → IsSound m
unfolding send_conn
send_conn-IsSound l c waits v e =
    let (room, same) = if_some (ltb (length l.conn_chan) capacity) e in
    subst IsSound same (record {
      bounded = ground (arith, room, length-append l.conn_chan (c ∷ []));
      in_order =
          sym (append_assoc l.accepted l.conn_chan (c ∷ [])) ∙ ap (λ xs. xs ++ c ∷ []) v.in_order;
      accounted = λ a. omega (
        arith,
        v.accounted a,
        times-remove_one l.handlers c a waits,
        times-append l.sent (c ∷ []) a,
      );
      going = goes_on _;
    })

drop_conn-IsSound :
    (l : WebSocketListener) (c : ℕ) {m : WebSocketListener}
    → 1 ≤ times l.handlers c
    → IsSound l
    → drop_conn l c ≡ some m
    → IsSound m
unfolding drop_conn
drop_conn-IsSound l c waits v e = subst IsSound (if_some l.closed e).1 (record {
  bounded = v.bounded;
  in_order = v.in_order;
  accounted = λ a. omega (arith, v.accounted a, times-remove_one l.handlers c a waits);
  going = goes_on _;
})

take_conn-IsSound :
    (l : WebSocketListener) (chan : List ℕ) {m : WebSocketListener} {answer : Result ℕ}
    → l.conn_chan ≡ chan
    → IsSound l
    → take_conn l chan ≡ some (m, answer)
    → IsSound m
unfolding take_conn
take_conn-IsSound l [] h v e = cc
take_conn-IsSound l (c ∷ rest) h v e = subst IsSound (ap (λ r. r.0) (some_same refl e)) (record {
  bounded = omega (arith, ap length h, v.bounded);
  in_order = append_assoc l.accepted (c ∷ []) rest ∙ ap (◌++◌ l.accepted) (sym h) ∙ v.in_order;
  accounted = v.accounted;
  going = goes_on _;
})

Step-IsSound : {l m : WebSocketListener} → Step l m → IsSound l → IsSound m
unfolding handle accept refuse_closed close
Step-IsSound {l} {m} (upgrades c e) v = rw e (record {
  bounded = v.bounded;
  in_order = v.in_order;
  accounted = λ a. omega (arith, v.accounted a);
  going = goes_on _;
})
Step-IsSound {l} {m} (handles c first waits e) v =
    elim (select-some first (send_conn l c) (drop_conn l c) e) [
      | inl sent ↦ send_conn-IsSound l c waits v sent
      | inr dropped ↦ drop_conn-IsSound l c waits v dropped
    ]
Step-IsSound {l} {m} (accepts first e) v =
    elim (select-some first (take_conn l l.conn_chan) (refuse_closed l) e) [
      | inl taken ↦ take_conn-IsSound l l.conn_chan refl v taken
      | inr refused ↦ subst IsSound (ap (λ r. r.0) (if_some l.closed refused).1) v
    ]
Step-IsSound {l} {m} (closes closing e) v = subst IsSound e (record {
  bounded = v.bounded;
  in_order = v.in_order;
  accounted = v.accounted;
  going = goes_on _;
})

-- So it is after any interleaving of requests, accepts and closes.
pub Reach-IsSound : {l : WebSocketListener} → Reach new_listener l → IsSound l
Reach-IsSound here = record {
  bounded = omega arith;
  in_order = refl;
  accounted = λ a. refl;
  going = goes_on _;
}
Reach-IsSound (next r s) = Step-IsSound s (Reach-IsSound r)
