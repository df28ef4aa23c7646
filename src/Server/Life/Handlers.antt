-- ===== src/Server/Life/Handlers.antt =====
-- The running handlers, each with the place at which it stands.
use hydravpn.Base.{
  ℕ, ◌+◌, ◌≡◌, refl, List, [], ◌∷◌, arith, ◌==◌, Bool-cases, inl, inr, Option, none, some,
  if◌then◌else◌,
}

-- A handler waits for its first packet, is before the check of the context, or waits for a packet.
pub data Phase : Type 0 where
  handshaking : Phase
  checking : Phase
  waiting : Phase

-- Any places will do.
module _ {P : Type 0} where
  unfoldable pub phase_of : List (ℕ × P) → ℕ → Option P
  phase_of [] c = none
  phase_of ((d, p) ∷ rest) c = if d == c then some p else phase_of rest c

  unfoldable pub set_phase : List (ℕ × P) → ℕ → P → List (ℕ × P)
  set_phase [] c p = []
  set_phase ((d, q) ∷ rest) c p = if d == c then (d, p) ∷ rest else (d, q) ∷ set_phase rest c p

  unfoldable pub remove_handler : List (ℕ × P) → ℕ → List (ℕ × P)
  remove_handler [] c = []
  remove_handler ((d, q) ∷ rest) c = if d == c then rest else (d, q) ∷ remove_handler rest c

  -- No two handlers have the same connection.
  abbrev pub DistinctHandlers : List (ℕ × P) → Type 0
  DistinctHandlers [] = Unit {0}
  DistinctHandlers ((d, q) ∷ rest) = (phase_of rest d ≡ none) × DistinctHandlers rest

  -- A weight of the phases, over all handlers.
  unfoldable pub total : (P → ℕ) → List (ℕ × P) → ℕ
  total weight [] = 0
  total weight ((d, q) ∷ rest) = weight q + total weight rest

  pub phase_of-set_phase :
      (hs : List (ℕ × P)) (c d : ℕ) (p : P) {q : P}
      → phase_of hs c ≡ some q
      → phase_of (set_phase hs c p) d ≡ (if c == d then some p else phase_of hs d)
  unfolding phase_of set_phase
  phase_of-set_phase [] c d p h = cc
  phase_of-set_phase ((b, r) ∷ hs) c d p {q} h = ground (arith, phase_of-set_phase hs c d p {q = q})

  pub phase_of-remove_handler :
      (hs : List (ℕ × P)) (c d : ℕ)
      → DistinctHandlers hs
      → phase_of (remove_handler hs c) d ≡ (if c == d then none else phase_of hs d)
  unfolding phase_of remove_handler
  phase_of-remove_handler [] c d v = ground arith
  phase_of-remove_handler ((b, r) ∷ hs) c d v = ground (arith, phase_of-remove_handler hs c d v.1)

  absent-set_phase :
      (hs : List (ℕ × P)) (c d : ℕ) (p : P)
      → phase_of hs d ≡ none
      → phase_of (set_phase hs c p) d ≡ none
  unfolding phase_of set_phase
  absent-set_phase [] c d p h = refl
  absent-set_phase ((b, r) ∷ hs) c d p h = ground (arith, absent-set_phase hs c d p)

  absent-remove_handler :
      (hs : List (ℕ × P)) (c d : ℕ) → phase_of hs d ≡ none → phase_of (remove_handler hs c) d ≡ none
  unfolding phase_of remove_handler
  absent-remove_handler [] c d h = refl
  absent-remove_handler ((b, r) ∷ hs) c d h = ground (arith, absent-remove_handler hs c d)

  pub set_phase-DistinctHandlers :
      (hs : List (ℕ × P)) (c : ℕ) (p : P)
      → DistinctHandlers hs
      → DistinctHandlers (set_phase hs c p)
  unfolding set_phase
  set_phase-DistinctHandlers [] c p v = tt
  set_phase-DistinctHandlers ((b, r) ∷ hs) c p v = elim (Bool-cases (b == c)) [
    | inl e ↦ rw e v
    | inr e ↦ rw e (absent-set_phase hs c b p v.0, set_phase-DistinctHandlers hs c p v.1)
  ]

  pub remove_handler-DistinctHandlers :
      (hs : List (ℕ × P)) (c : ℕ) → DistinctHandlers hs → DistinctHandlers (remove_handler hs c)
  unfolding remove_handler
  remove_handler-DistinctHandlers [] c v = tt
  remove_handler-DistinctHandlers ((b, r) ∷ hs) c v = elim (Bool-cases (b == c)) [
    | inl e ↦ rw e v.1
    | inr e ↦ rw e (absent-remove_handler hs c b v.0, remove_handler-DistinctHandlers hs c v.1)
  ]

  pub total-set_phase :
      (weight : P → ℕ) (hs : List (ℕ × P)) (c : ℕ) (p : P) {q : P}
      → phase_of hs c ≡ some q
      → total weight (set_phase hs c p) + weight q ≡ total weight hs + weight p
  unfolding phase_of set_phase total
  total-set_phase weight [] c p h = cc
  total-set_phase weight ((b, r) ∷ hs) c p {q} h =
      ground (arith, total-set_phase weight hs c p {q = q})

  pub total-remove_handler :
      (weight : P → ℕ) (hs : List (ℕ × P)) (c : ℕ) {q : P}
      → phase_of hs c ≡ some q
      → total weight (remove_handler hs c) + weight q ≡ total weight hs
  unfolding phase_of remove_handler total
  total-remove_handler weight [] c h = cc
  total-remove_handler weight ((b, r) ∷ hs) c {q} h =
      ground (arith, total-remove_handler weight hs c {q = q})
