-- ===== src/Base/Slices.antt =====
-- Go's `xs[lo:hi]` on lists, for bounds that the callers have checked.
use hydravpn.Base.{
  ℕ, zero, suc, ◌+◌, ◌-◌, ◌≤◌, ◌≡◌, ap, sym, ◌∙◌, List, [], ◌∷◌, ◌++◌, arith, length, take, drop,
  get_or, length-take, length-drop, take-append, All, All-take, All-drop,
}

module _ {ℓ} {A : Type ℓ} where
  abbrev pub slice : ℕ → ℕ → List A → List A
  slice lo hi xs = take (hi - lo) (drop lo xs)

module _ {ℓ} {A : Type ℓ} where
  -- Past a prefix the positions count from its end.
  pub drop_past : (k m : ℕ) (xs ys : List A) → length xs + m ≡ k → drop k (xs ++ ys) ≡ drop m ys
  drop_past k m [] ys h = let e : m ≡ k = omega arith in rw e
  drop_past zero m (x ∷ xs) ys h = absurd (omega arith)
  drop_past (suc k) m (x ∷ xs) ys h = drop_past k m xs ys (omega arith)

  pub slice_past :
      (lo hi lo' hi' : ℕ) (xs ys : List A)
      → length xs + lo' ≡ lo
      → length xs + hi' ≡ hi
      → slice lo hi (xs ++ ys) ≡ slice lo' hi' ys
  slice_past lo hi lo' hi' xs ys p q =
      let e : hi - lo ≡ hi' - lo' = omega arith in rw (drop_past lo lo' xs ys p, e)

  pub slice_prefix : (hi : ℕ) (xs ys : List A) → length xs ≡ hi → slice 0 hi (xs ++ ys) ≡ xs
  slice_prefix hi xs ys h = let e : hi - 0 ≡ hi = omega arith in rw e (take-append hi xs ys h)

  pub drop-drop : (m n : ℕ) (xs : List A) → drop n (drop m xs) ≡ drop (m + n) xs
  drop-drop zero n xs = let e : n ≡ 0 + n = omega arith in ap (λ k. drop k xs) e
  drop-drop (suc m) zero [] = let e : suc m + 0 ≡ suc (m + 0) = omega arith in rw e
  drop-drop (suc m) (suc n) [] = let e : suc m + suc n ≡ suc (m + suc n) = omega arith in rw e
  drop-drop (suc m) n (x ∷ xs) =
      let e : suc m + n ≡ suc (m + n) = omega arith in rw e (drop-drop m n xs)

  pub take-append-take : (m n : ℕ) (xs : List A) → take m xs ++ take n (drop m xs) ≡ take (m + n) xs
  take-append-take zero n xs = let e : n ≡ 0 + n = omega arith in ap (λ k. take k xs) e
  take-append-take (suc m) zero [] = let e : suc m + 0 ≡ suc (m + 0) = omega arith in rw e
  take-append-take (suc m) (suc n) [] =
      let e : suc m + suc n ≡ suc (m + suc n) = omega arith in rw e
  take-append-take (suc m) n (x ∷ xs) =
      let e : suc m + n ≡ suc (m + n) = omega arith in rw e (ap (◌∷◌ x) (take-append-take m n xs))

  -- Adjacent slices join.
  pub slice-append-slice :
      (a b c : ℕ) (xs : List A) → a ≤ b → b ≤ c → slice a b xs ++ slice b c xs ≡ slice a c xs
  slice-append-slice a b c xs p q =
      let e : b ≡ a + (b - a) = omega arith in
      let f : (b - a) + (c - b) ≡ c - a = omega arith in
      ap (λ ys. slice a b xs ++ take (c - b) ys)
        (ap (λ k. drop k xs) e ∙ sym (drop-drop a (b - a) xs))
      ∙ take-append-take (b - a) (c - b) (drop a xs)
      ∙ ap (λ k. take k (drop a xs)) f

  pub length-slice :
      (lo hi : ℕ) (xs : List A) → lo ≤ hi → hi ≤ length xs → length (slice lo hi xs) ≡ hi - lo
  length-slice lo hi xs p q = omega (arith, length-take (hi - lo) (drop lo xs), length-drop lo xs)

  pub All-slice {κ} : (P : A → Type κ) (lo hi : ℕ) (xs : List A) → All P xs → All P (slice lo hi xs)
  All-slice P lo hi xs h = All-take P (hi - lo) (drop lo xs) (All-drop P lo xs h)

-- A byte behind a prefix.
pub get_or_past :
    (i j : ℕ) (xs ys : List ℕ) → length xs + j ≡ i → get_or (xs ++ ys) i 0 ≡ get_or ys j 0
get_or_past i j [] ys h = let e : j ≡ i = omega arith in rw e
get_or_past zero j (x ∷ xs) ys h = absurd (omega arith)
get_or_past (suc i) j (x ∷ xs) ys h = get_or_past i j xs ys (omega arith)
