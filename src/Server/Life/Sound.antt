-- ===== src/Server/Life/Sound.antt =====
-- What the goroutines of a server keep true between them.
use hydravpn.Base.{
  ℕ, ◌+◌, ◌≡◌, ◌≢◌, refl, ap, sym, ◌∙◌, Bool, true, false, arith, ◌==◌, ==_iff, Bool-cases,
  Option-cases, Option, none, some, ok, inl, inr, if◌then◌else◌,
}
use hydravpn.Crypto.{KeyPair}
use hydravpn.Server.{ClientSession, Server, new_server, find_live}
use hydravpn.Server.Keep.{IsServer}
use hydravpn.Server.Others.{found_any, is_live}
use hydravpn.Server.Interleaving.{new_server-IsServer}
use hydravpn.Server.Life.{
  Life, LoopState, at_check, in_call, returned, start, accept_return, handler_returns, go_on,
  done_if,
}
use hydravpn.Server.Life.Handlers.{
  Phase, handshaking, checking, waiting, phase_of, set_phase, DistinctHandlers, total,
  phase_of-set_phase, phase_of-remove_handler, set_phase-DistinctHandlers,
  remove_handler-DistinctHandlers, total-set_phase, total-remove_handler,
}

-- A handler has a session once it is in its loop.
abbrev pub in_loop : Option Phase → Bool
in_loop none = false
in_loop (some handshaking) = false
in_loop (some checking) = true
in_loop (some waiting) = true

abbrev pub running : LoopState → ℕ
running at_check = 1
running in_call = 1
running returned = 0

abbrev pub one : Phase → ℕ
one p = 1

-- The server's state is sound; each connection has one handler, which has a session exactly if it is
-- in its loop; and the wait group counts the goroutines.
pub record IsLife {Aead : Type 0} (l : Life Aead) : Type 0 where
  pub server : IsServer l.server
  pub handlers : DistinctHandlers l.handlers
  pub in_step : (c : ℕ) → is_live l.server c ≡ in_loop (phase_of l.handlers c)
  pub counted : l.wg ≡ running l.accepting + running l.routing + total one l.handlers

-- A loop that runs, behind its check or an error of its call, and the counter with it.
pub returns_counted :
    (cancelled : Bool) (wg rest : ℕ) (state after : LoopState)
    → running state ≡ 1
    → running after ≡ 1
    → wg ≡ running state + rest
    → done_if cancelled wg ≡ running (if cancelled then returned else after) + rest
unfolding done_if
returns_counted true wg rest state after h k e = omega arith
returns_counted false wg rest state after h k e = omega arith

module _ {Aead : Type 0} where
  pub handler_returns-IsLife :
      (l : Life Aead) (server : Server Aead) (c : ℕ) {q : Phase}
      → phase_of l.handlers c ≡ some q
      → is_live server c ≡ false
      → ((d : ℕ) → c ≢ d → is_live server d ≡ is_live l.server d)
      → IsServer server
      → IsLife l
      → IsLife (handler_returns l server c)
  unfolding handler_returns
  handler_returns-IsLife l server c {q} at gone others sound v = record {
    server = sound;
    handlers = remove_handler-DistinctHandlers l.handlers c v.handlers;
    in_step = λ d.
        let after = phase_of-remove_handler l.handlers c d v.handlers in
        elim (Bool-cases (c == d)) [
          | inl e ↦
              let same : c ≡ d = (==_iff c d).0 e in
              rw (after, e) (ap (is_live server) (sym same) ∙ gone)
          | inr e ↦ rw (after, e) (others d (ground arith) ∙ v.in_step d)
        ];
    counted = omega (arith, v.counted, total-remove_handler one l.handlers c {q = q} at);
  }

  pub moves-IsLife :
      (l : Life Aead) (server : Server Aead) (c : ℕ) (p : Phase) {q : Phase}
      → phase_of l.handlers c ≡ some q
      → is_live server c ≡ in_loop (some p)
      → ((d : ℕ) → c ≢ d → is_live server d ≡ is_live l.server d)
      → IsServer server
      → IsLife l
      → IsLife (record l { server = server; handlers = set_phase l.handlers c p })
  moves-IsLife l server c p {q} at now others sound v = record {
    server = sound;
    handlers = set_phase-DistinctHandlers l.handlers c p v.handlers;
    in_step = λ d.
        let after = phase_of-set_phase l.handlers c d p {q = q} at in
        elim (Bool-cases (c == d)) [
          | inl e ↦
              let same : c ≡ d = (==_iff c d).0 e in
              rw (after, e) (ap (is_live server) (sym same) ∙ now)
          | inr e ↦ rw (after, e) (others d (ground arith) ∙ v.in_step d)
        ];
    counted = omega (arith, v.counted, total-set_phase one l.handlers c p {q = q} at);
  }

  pub go_on-IsLife :
      (l : Life Aead) (server : Server Aead) (c : ℕ) {q : Phase}
      → phase_of l.handlers c ≡ some q
      → ((d : ℕ) → c ≢ d → is_live server d ≡ is_live l.server d)
      → IsServer server
      → IsLife l
      → IsLife (go_on l server c)
  unfolding go_on
  go_on-IsLife l server c {q} at others sound v = elim (Option-cases (find_live server.live c)) [
    | inl e ↦
        rw (e, go_on) (handler_returns-IsLife l server c {q = q} at (ap found_any e) others sound v)
    | inr (x, e) ↦
        rw (e, go_on) (moves-IsLife l server c checking {q = q} at (ap found_any e) others sound v)
  ]

  pub go_on-server :
      (l : Life Aead) (server : Server Aead) (c : ℕ) → (go_on l server c).server ≡ server
  unfolding go_on handler_returns
  go_on-server l server c = elim (Option-cases (find_live server.live c)) [
    | inl e ↦ rw (e, go_on) refl
    | inr (x, e) ↦ rw (e, go_on) refl
  ]

  -- A handler that has a session is in its loop, and the other way round.
  pub in_loop-find_live :
      (l : Life Aead) (c : ℕ)
      → IsLife l
      → in_loop (phase_of l.handlers c) ≡ true
      → (x : ClientSession Aead) × (find_live l.server.live c ≡ some x)
  in_loop-find_live l c v h = elim (Option-cases (find_live l.server.live c)) [
    | inl e ↦
        let no : is_live l.server c ≡ false = ap found_any e in absurd (ground (arith, v.in_step c))
    | inr (x, e) ↦ (x, e)
  ]

  pub handshaking-find_live :
      (l : Life Aead) (c : ℕ)
      → IsLife l
      → in_loop (phase_of l.handlers c) ≡ false
      → find_live l.server.live c ≡ none
  handshaking-find_live l c v h = elim (Option-cases (find_live l.server.live c)) [
    | inl e ↦ e
    | inr (x, e) ↦
        let yes : is_live l.server c ≡ true = ap found_any e in absurd (ground (arith, v.in_step c))
  ]

  pub start-IsLife :
      (key_pair : KeyPair) (has_tun listens : Bool)
      → IsLife (start {Aead = Aead} key_pair has_tun listens).0
  unfolding start new_server phase_of total find_live
  start-IsLife key_pair has_tun listens = record {
    server = new_server-IsServer key_pair has_tun;
    handlers = tt;
    in_step = λ c. refl;
    counted = elim (Bool-cases has_tun) [
      | inl e ↦ elim (Bool-cases listens) [ inl f ↦ rw (e, f) refl | inr f ↦ rw (e, f) refl ]
      | inr e ↦ elim (Bool-cases listens) [ inl f ↦ rw (e, f) refl | inr f ↦ rw (e, f) refl ]
    ];
  }

  -- The loops of the two other goroutines leave the handlers as they are.
  pub loops-IsLife :
      (l : Life Aead) (server : Server Aead) (accepting routing : LoopState) (wg : ℕ)
      → IsServer server
      → ((d : ℕ) → is_live server d ≡ is_live l.server d)
      → wg ≡ running accepting + running routing + total one l.handlers
      → IsLife l
      → IsLife (record l { server = server; accepting = accepting; routing = routing; wg = wg })
  loops-IsLife l server accepting routing wg sound same counted v = record {
    server = sound;
    handlers = v.handlers;
    in_step = λ d. same d ∙ v.in_step d;
    counted = counted;
  }

  -- The loop that accepts gives a new connection a handler.
  pub opens-IsLife :
      (l : Life Aead) (conn : ℕ)
      → l.accepting ≡ in_call
      → phase_of l.handlers conn ≡ none
      → IsLife l
      → IsLife (accept_return l (ok conn))
  unfolding accept_return phase_of total
  opens-IsLife l conn h new v = record {
    server = v.server;
    handlers = (new, v.handlers);
    in_step = λ d. elim (Bool-cases (conn == d)) [
      | inl e ↦
          let same : conn ≡ d = (==_iff conn d).0 e in
          rw e (ap (is_live l.server) (sym same) ∙ v.in_step conn ∙ ap in_loop new)
      | inr e ↦ rw e (v.in_step d)
    ];
    counted = omega (arith, v.counted, ap running h);
  }
