-- ===== src/Server/Life/Next.antt =====
-- The next steps that a stopped server takes by itself.
use hydravpn.Base.{
  ℕ, ◌≡◌, ◌≢◌, ◌⊎◌, refl, ap, sym, ◌∙◌, true, All, List, [], ◌∷◌, ◌==◌, ==_refl, ==_iff, Bool-cases,
  arith, none, some, err, inl, inr, String,
}
use hydravpn.Crypto.Library.{Primitives}
use hydravpn.Server.{Effect, find_live}
use hydravpn.Server.Life.{
  Life, LoopState, at_check, in_call, returned, Handle, absent, open_handle, closed,
}
use hydravpn.Server.Life.Handlers.{
  Phase, handshaking, checking, waiting, phase_of, DistinctHandlers,
}
use hydravpn.Server.Life.Runs.{
  Step, stops, accept_checks, accept_returns, tun_checks, tun_returns, first_reads, handler_checks,
  rounds,
}
use hydravpn.Server.Life.Sound.{in_loop, IsLife, in_loop-find_live}
use hydravpn.Server.Life.Wired.{IsWired, AreWired}
use hydravpn.Server.Sessions.{find_live-conn}

-- A handler is in a read from its client.
abbrev pub IsReading : ℕ × Phase → Type 0
IsReading entry = entry.1 ≢ checking

module _ {Aead : Type 0} (lib : Primitives Aead) where
  -- A step for which no client has to do anything: a check of the context, or the error of a call on what
  -- `Stop` has closed.
  abbrev pub IsOwn : {l m : Life Aead} {out : List Effect} → Step lib l m out → Type 0
  IsOwn (stops h) = ⊥
  IsOwn (accept_checks h) = Unit {0}
  IsOwn {l} (accept_returns result h new) = (l.listener ≡ closed) × (e : String) × (result ≡ err e)
  IsOwn (tun_checks h) = Unit {0}
  IsOwn {l} (tun_returns result random h) =
      (l.tun_device ≡ closed) × (e : String) × (result ≡ err e)
  IsOwn (first_reads conn input now id_bytes padding writable h e) = ⊥
  IsOwn (handler_checks x h found) = Unit {0}
  IsOwn (rounds x input now h found) = ⊥

  abbrev pub HasOwn : Life Aead → Type 0
  HasOwn l = (m : Life Aead) × (out : List Effect) × (s : Step lib l m out) × IsOwn s

  accept-HasOwn :
      (l : Life Aead) (state : LoopState) (h : Handle)
      → l.accepting ≡ state
      → l.listener ≡ h
      → l.cancelled ≡ true
      → IsWired l.cancelled state h
      → HasOwn l ⊎ (l.accepting ≡ returned)
  accept-HasOwn l returned h at is done w = inr at
  accept-HasOwn l at_check h at is done w = inl (_, _, accept_checks at, tt)
  accept-HasOwn l in_call absent at is done w = absurd cc
  accept-HasOwn l in_call open_handle at is done w = absurd (ground (arith, done, w))
  accept-HasOwn l in_call closed at is done w =
      inl (_, _, accept_returns (err "use of closed network connection") at tt, (is, _, refl))

  tun-HasOwn :
      (l : Life Aead) (state : LoopState) (h : Handle)
      → l.routing ≡ state
      → l.tun_device ≡ h
      → l.cancelled ≡ true
      → IsWired l.cancelled state h
      → HasOwn l ⊎ (l.routing ≡ returned)
  tun-HasOwn l returned h at is done w = inr at
  tun-HasOwn l at_check h at is done w = inl (_, _, tun_checks at, tt)
  tun-HasOwn l in_call absent at is done w = absurd cc
  tun-HasOwn l in_call open_handle at is done w = absurd (ground (arith, done, w))
  tun-HasOwn l in_call closed at is done w =
      inl (_, _, tun_returns (err "file already closed") (λ c. none) at, (is, _, refl))

  checking-HasOwn :
      (l : Life Aead) (c : ℕ) → IsLife l → phase_of l.handlers c ≡ some checking → HasOwn l
  checking-HasOwn l c v h =
      let (x, found) = in_loop-find_live l c v (ap in_loop h) in
      let same : x.conn ≡ c = find_live-conn l.server.live c {x = x} found in
      (
        _,
        _,
        handler_checks x (ap (phase_of l.handlers) same ∙ h)
            (ap (find_live l.server.live) same ∙ found),
        tt,
      )

  IsReading-first :
      (c : ℕ) (q : Phase) (hs : List (ℕ × Phase))
      → DistinctHandlers ((c, q) ∷ hs)
      → q ≢ checking
      → ((d : ℕ) × (phase_of hs d ≡ some checking)) ⊎ All IsReading hs
      → ((d : ℕ) × (phase_of ((c, q) ∷ hs) d ≡ some checking)) ⊎ All IsReading ((c, q) ∷ hs)
  unfolding phase_of
  IsReading-first c q hs v reads (inr all) = inr (reads, all)
  IsReading-first c q hs v reads (inl (d, h)) = elim (Bool-cases (c == d)) [
    | inl e ↦
        let gone : phase_of hs d ≡ none = ap (phase_of hs) (sym ((==_iff c d).0 e)) ∙ v.0 in
        absurd cc
    | inr e ↦ inl (d, rw e h)
  ]

  -- A handler at its check, or none.
  handlers_at :
      (hs : List (ℕ × Phase))
      → DistinctHandlers hs
      → ((c : ℕ) × (phase_of hs c ≡ some checking)) ⊎ All IsReading hs
  unfolding phase_of
  handlers_at [] v = inr tt
  handlers_at ((c, checking) ∷ hs) v = inl (c, rw (==_refl c) refl)
  handlers_at ((c, handshaking) ∷ hs) v =
      IsReading-first c handshaking hs v (λ e. absurd cc) (handlers_at hs v.1)
  handlers_at ((c, waiting) ∷ hs) v =
      IsReading-first c waiting hs v (λ e. absurd cc) (handlers_at hs v.1)

  -- What is left of a stopped server without such a step: handlers that read from their clients.
  pub Step-HasOwn :
      (l : Life Aead)
      → IsLife l
      → AreWired l
      → l.cancelled ≡ true
      → HasOwn l ⊎ ((l.accepting ≡ returned) × (l.routing ≡ returned) × All IsReading l.handlers)
  Step-HasOwn l v (a, t) done = elim (accept-HasOwn l l.accepting l.listener refl refl done a) [
    | inl s ↦ inl s
    | inr x ↦ elim (tun-HasOwn l l.routing l.tun_device refl refl done t) [
      | inl s ↦ inl s
      | inr y ↦ elim (handlers_at l.handlers v.handlers) [
        | inl (c, h) ↦ inl (checking-HasOwn l c v h)
        | inr r ↦ inr (x, y, r)
      ]
    ]
  ]
