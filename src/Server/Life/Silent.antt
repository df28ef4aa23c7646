-- ===== src/Server/Life/Silent.antt =====
-- A client that stays silent keeps the server from stopping: `Stop` closes no client's connection.
use hydravpn.Base.{
  ◌<◌, ℕ, ◌≡◌, ◌≢◌, ap, sym, ◌∙◌, List, arith, ◌==◌, ==_iff, Bool-cases, if_cases, Option-cases,
  Option, none, some, ok, err, inl, inr,
}
use hydravpn.Crypto.Library.{Primitives}
use hydravpn.Server.{Server, Effect, find_live, serve}
use hydravpn.Server.Life.{
  Life, stop, accept_check, accept_return, tun_check, tun_return, handler_check, handler_returns,
  go_on, first_read, round,
}
use hydravpn.Server.Life.Handlers.{
  Phase, handshaking, checking, waiting, phase_of, DistinctHandlers, phase_of-set_phase,
  phase_of-remove_handler, total-remove_handler,
}
use hydravpn.Server.Life.Runs.{
  Step, stops, accept_checks, accept_returns, tun_checks, tun_returns, first_reads, handler_checks,
  rounds,
}
use hydravpn.Server.Life.Sound.{one, IsLife}
use hydravpn.Server.Life.Steps.{first_read_result, Step-IsLife}

module _ {Aead : Type 0} where
  other_phase :
      (l : Life Aead) (c d : ℕ) {p q : Phase}
      → phase_of l.handlers c ≡ some p
      → phase_of l.handlers d ≡ some q
      → p ≢ q
      → c ≢ d
  other_phase l c d {p} {q} h k differ same =
      let both : ◌≡◌ {A = Option Phase} (some p) (some q) =
        sym h ∙ ap (phase_of l.handlers) same ∙ k in
      differ cc

  waiting_counted :
      (l : Life Aead) (c : ℕ) → IsLife l → phase_of l.handlers c ≡ some waiting → 0 < l.wg
  waiting_counted l c v w =
      omega (arith, v.counted, total-remove_handler one l.handlers c {q = waiting} w)

module _ {Aead : Type 0} (lib : Primitives Aead) where
  -- A step that is not the return of the read on a connection.
  abbrev pub IsSilent : (c : ℕ) {l m : Life Aead} {out : List Effect} → Step lib l m out → Type 0
  IsSilent c (stops h) = Unit {0}
  IsSilent c (accept_checks h) = Unit {0}
  IsSilent c (accept_returns result h new) = Unit {0}
  IsSilent c (tun_checks h) = Unit {0}
  IsSilent c (tun_returns result random h) = Unit {0}
  IsSilent c (first_reads conn input now id_bytes padding writable h e) = Unit {0}
  IsSilent c (handler_checks x h found) = Unit {0}
  IsSilent c (rounds x input now h found) = x.conn ≢ c

  -- A run in which the read on a connection does not return.
  pub data SilentRun (c : ℕ) (l : Life Aead) : Life Aead → Type 0 where
    here : SilentRun c l l
    next :
        {m n : Life Aead} {out : List Effect}
        → SilentRun c l m
        → (s : Step lib m n out) → IsSilent c s
        → SilentRun c l n

  go_on-waiting :
      (l : Life Aead) (server : Server Aead) (d c : ℕ) {q : Phase}
      → DistinctHandlers l.handlers
      → phase_of l.handlers d ≡ some q
      → d ≢ c
      → phase_of (go_on l server d).handlers c ≡ phase_of l.handlers c
  unfolding go_on handler_returns
  go_on-waiting l server d c {q} v at other = elim (Option-cases (find_live server.live d)) [
    | inl e ↦ rw (e, go_on) (phase_of-remove_handler l.handlers d c v ∙ ground (arith, other))
    | inr (x, e) ↦
        rw (e, go_on)
          (phase_of-set_phase l.handlers d c checking {q = q} at ∙ ground (arith, other))
  ]

  Step-waiting :
      (c : ℕ) {l m : Life Aead} {out : List Effect} (s : Step lib l m out)
      → IsSilent c s
      → IsLife l
      → phase_of l.handlers c ≡ some waiting
      → phase_of m.handlers c ≡ some waiting
  unfolding stop accept_check accept_return tun_check tun_return handler_check first_read round
      handler_returns phase_of
  Step-waiting c {l} {m} {out} (stops h) silent v w = w
  Step-waiting c {l} {m} {out} (accept_checks h) silent v w = w
  Step-waiting c {l} {m} {out} (accept_returns (err t) h new) silent v w = w
  Step-waiting c {l} {m} {out} (accept_returns (ok conn) h new) silent v w =
      elim (Bool-cases (conn == c)) [
        | inl e ↦
            let same : conn ≡ c = (==_iff conn c).0 e in
            let gone : phase_of l.handlers c ≡ none = ap (phase_of l.handlers) (sym same) ∙ new in
            absurd cc
        | inr e ↦ rw e w
      ]
  Step-waiting c {l} {m} {out} (tun_checks h) silent v w = w
  Step-waiting c {l} {m} {out} (tun_returns (err t) random h) silent v w = w
  Step-waiting c {l} {m} {out} (tun_returns (ok buf) random h) silent v w = w
  Step-waiting c {l} {m} {out} (first_reads conn input now id_bytes padding writable h f) silent v
        w =
      let (server, accepted, result, kept) =
        first_read_result lib l m conn input now id_bytes padding writable h f v in
      let other : conn ≢ c = other_phase l conn c h w (λ e. absurd cc) in
      ap (λ t. phase_of t.handlers c) result
      ∙ go_on-waiting l server conn c {q = handshaking} v.handlers h other
      ∙ w
  Step-waiting c {l} {m} {out} (handler_checks x h found) silent v w =
      let other : x.conn ≢ c = other_phase l x.conn c h w (λ e. absurd cc) in
      if_cases (λ (r : Life Aead × List Effect). phase_of r.0.handlers c ≡ some waiting) l.cancelled
        (λ e. phase_of-remove_handler l.handlers x.conn c v.handlers ∙ ground (arith, other, w))
        (λ e.
          phase_of-set_phase l.handlers x.conn c waiting {q = checking} h
          ∙ ground (arith, other, w))
  Step-waiting c {l} {m} {out} (rounds x input now h found) silent v w =
      go_on-waiting l (serve lib l.server x input now).0 x.conn c {q = waiting} v.handlers h silent
      ∙ w

  -- The defect: the handler of a client that has been answered waits for its next packet. As long as
  -- the client sends nothing, and its connection does not fail, the handler waits on, and the wait
  -- group that `Stop` waits for is not at 0, in whatever order the other goroutines run, and whether or
  -- not the context is done.
  pub SilentRun-waiting :
      (c : ℕ) {l m : Life Aead}
      → SilentRun c l m
      → IsLife l
      → phase_of l.handlers c ≡ some waiting
      → (phase_of m.handlers c ≡ some waiting) × (0 < m.wg) × IsLife m
  SilentRun-waiting c {l} here v w = (w, waiting_counted l c v w, v)
  SilentRun-waiting c (next {n = n} r s silent) v w =
      let (before, _, kept) = SilentRun-waiting c r v w in
      let sound = Step-IsLife lib s kept in
      let after = Step-waiting c s silent kept before in
      (after, waiting_counted n c sound after, sound)
