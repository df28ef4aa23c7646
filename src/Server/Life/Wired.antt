-- ===== src/Server/Life/Wired.antt =====
-- The two loops and what they wait on: a loop runs only on an open or closed handle, and `Stop` leaves none
-- open.
use hydravpn.Base.{
  ℕ, ◌≡◌, refl, ap, sym, subst, Bool, true, false, List, arith, Option-cases, if_cases, ok, err,
  inl, inr, if◌then◌else◌,
}
use hydravpn.Crypto.{KeyPair}
use hydravpn.Crypto.Library.{Primitives}
use hydravpn.Server.{Server, Effect, find_live, serve}
use hydravpn.Server.Life.{
  Life, LoopState, at_check, returned, Handle, absent, open_handle, closed, close_handle, start,
  stop, accept_check, accept_return, tun_check, tun_return, handler_check, handler_returns, go_on,
  first_read, round,
}
use hydravpn.Server.Life.Runs.{
  Step, Run, stops, accept_checks, accept_returns, tun_checks, tun_returns, first_reads,
  handler_checks, rounds, here, next,
}
use hydravpn.Server.Life.Sound.{running, IsLife, start-IsLife}
use hydravpn.Server.Life.Steps.{first_read_result, Run-IsLife}

abbrev pub IsWired : Bool → LoopState → Handle → Type 0
IsWired cancelled state absent = state ≡ returned
IsWired cancelled state open_handle = cancelled ≡ false
IsWired cancelled state closed = Unit {0}

abbrev pub AreWired : {Aead : Type 0} → Life Aead → Type 0
AreWired l = IsWired l.cancelled l.accepting l.listener × IsWired l.cancelled l.routing l.tun_device

moved :
    (cancelled : Bool) (h : Handle) (state after : LoopState)
    → running state ≡ 1
    → IsWired cancelled state h
    → IsWired cancelled after h
moved cancelled absent state after runs w = absurd (omega (arith, runs, ap running w))
moved cancelled open_handle state after runs w = w
moved cancelled closed state after runs w = tt

stopped :
    (cancelled : Bool) (state : LoopState) (h : Handle)
    → IsWired cancelled state h
    → IsWired true state (close_handle h)
unfolding close_handle
stopped cancelled state absent w = w
stopped cancelled state open_handle w = tt
stopped cancelled state closed w = tt

started :
    (b : Bool)
    → IsWired false (if b then at_check else returned) (if b then open_handle else absent)
started true = refl
started false = refl

module _ {Aead : Type 0} where
  go_on-AreWired :
      (l : Life Aead) (server : Server Aead) (c : ℕ) → AreWired l → AreWired (go_on l server c)
  unfolding go_on handler_returns
  go_on-AreWired l server c w = elim (Option-cases (find_live server.live c)) [
    | inl e ↦ rw (e, go_on) w
    | inr (x, e) ↦ rw (e, go_on) w
  ]

module _ {Aead : Type 0} (lib : Primitives Aead) where
  Step-AreWired :
      {l m : Life Aead} {out : List Effect} → Step lib l m out → IsLife l → AreWired l → AreWired m
  unfolding stop accept_check accept_return tun_check tun_return handler_check first_read round
      handler_returns
  Step-AreWired {l} (stops h) v (a, t) =
      (stopped l.cancelled l.accepting l.listener a, stopped l.cancelled l.routing l.tun_device t)
  Step-AreWired {l} (accept_checks h) v (a, t) =
      (moved l.cancelled l.listener l.accepting _ (ap running h) a, t)
  Step-AreWired {l} (accept_returns (err e) h new) v (a, t) =
      (moved l.cancelled l.listener l.accepting _ (ap running h) a, t)
  Step-AreWired {l} (accept_returns (ok conn) h new) v (a, t) =
      (moved l.cancelled l.listener l.accepting at_check (ap running h) a, t)
  Step-AreWired {l} (tun_checks h) v (a, t) =
      (a, moved l.cancelled l.tun_device l.routing _ (ap running h) t)
  Step-AreWired {l} (tun_returns (err e) random h) v (a, t) =
      (a, moved l.cancelled l.tun_device l.routing _ (ap running h) t)
  Step-AreWired {l} (tun_returns (ok buf) random h) v (a, t) =
      (a, moved l.cancelled l.tun_device l.routing at_check (ap running h) t)
  Step-AreWired {l} {m} (first_reads conn input now id_bytes padding writable h f) v w =
      let (server, accepted, result, kept) =
        first_read_result lib l m conn input now id_bytes padding writable h f v in
      subst AreWired (sym result) (go_on-AreWired l server conn w)
  Step-AreWired {l} (handler_checks x h found) v w =
      if_cases (λ (r : Life Aead × List Effect). AreWired r.0) l.cancelled (λ e. w) (λ e. w)
  Step-AreWired {l} (rounds x input now h found) v w =
      go_on-AreWired l (serve lib l.server x input now).0 x.conn w

  pub Run-AreWired :
      (key_pair : KeyPair) (has_tun listens : Bool) {l : Life Aead} {sent : List Effect} {steps : ℕ}
      → Run lib (start key_pair has_tun listens).0 l sent steps
      → AreWired l
  unfolding start
  Run-AreWired key_pair has_tun listens here = (started listens, started has_tun)
  Run-AreWired key_pair has_tun listens (next r s) =
      Step-AreWired s (Run-IsLife lib r (start-IsLife key_pair has_tun listens))
        (Run-AreWired key_pair has_tun listens r)
