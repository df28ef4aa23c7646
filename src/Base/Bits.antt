-- ===== src/Base/Bits.antt =====
-- Laws of the native `bit_xor` at variables, from its recursion on binary digits, and bytes checked
-- one by one.
use Prim.Native.Nat.{digits, differ, bit_xor-bitwise}
use native.Mathlib.Nat.{pow-suc}
use hydravpn.Base.{
  ℕ, zero, suc, ◌+◌, ◌-◌, ◌*◌, ◌/◌, ◌%◌, ◌^◌, ◌≤◌, ◌<◌, ◌≡◌, refl, sym, ap, ◌∙◌, Bool, true, ◌&&◌,
  bit_xor, arith,
}

-- One more unit of fuel than is enough changes nothing.
digits_more :
    (fuel a b : ℕ)
    → a ≤ fuel
    → digits (λ y. y) differ (suc fuel) a b ≡ digits (λ y. y) differ fuel a b
digits_more zero zero b h = refl
digits_more zero (suc a) b h = absurd (omega arith)
digits_more (suc fuel) zero b h = refl
digits_more (suc fuel) (suc a) b h =
    ap (λ rest. rest * 2 + differ (suc a % 2) (b % 2))
      (digits_more fuel (suc a / 2) (b / 2) (omega arith))

digits_surplus :
    (extra fuel a b : ℕ)
    → a ≤ fuel
    → digits (λ y. y) differ (extra + fuel) a b ≡ digits (λ y. y) differ fuel a b
digits_surplus zero fuel a b h = ap (λ k. digits (λ y. y) differ k a b) (omega arith)
digits_surplus (suc extra) fuel a b h =
    let next : suc extra + fuel ≡ suc (extra + fuel) = omega arith in
    rw next (digits_more (extra + fuel) a b (omega arith) ∙ digits_surplus extra fuel a b h)

bit_xor_step : (a b : ℕ) → bit_xor a b ≡ bit_xor (a / 2) (b / 2) * 2 + differ (a % 2) (b % 2)
bit_xor_step zero b = simp bit_xor-bitwise (omega arith)
bit_xor_step (suc a) b =
    let half : ℕ = suc a / 2 in
    let all : a ≡ (a - half) + half = omega arith in
    let same : digits (λ y. y) differ a half (b / 2) ≡ digits (λ y. y) differ half half (b / 2) =
      ap (λ k. digits (λ y. y) differ k half (b / 2)) all
      ∙ digits_surplus (a - half) half half (b / 2) (omega arith) in
    simp bit_xor-bitwise (ap (λ rest. rest * 2 + differ (suc a % 2) (b % 2)) same)

-- The one-digit laws, by cases.
differ-lt : (x y : ℕ) → x < 2 → y < 2 → differ x y < 2
differ-lt zero y hx hy = hy
differ-lt (suc zero) zero hx hy = omega arith
differ-lt (suc zero) (suc y) hx hy = omega arith
differ-lt (suc (suc x)) y hx hy = absurd (omega arith)

differ-differ : (x y : ℕ) → x < 2 → y < 2 → differ (differ x y) y ≡ x
differ-differ zero zero hx hy = refl
differ-differ zero (suc zero) hx hy = refl
differ-differ (suc zero) zero hx hy = refl
differ-differ (suc zero) (suc zero) hx hy = refl
differ-differ (suc (suc x)) y hx hy = absurd (omega arith)
differ-differ x (suc (suc y)) hx hy = absurd (omega arith)

differ-cancel_left : (x y z : ℕ) → x < 2 → y < 2 → z < 2 → differ x y ≡ differ x z → y ≡ z
differ-cancel_left zero y z hx hy hz e = e
differ-cancel_left (suc zero) zero zero hx hy hz e = refl
differ-cancel_left (suc zero) zero (suc z) hx hy hz e = omega arith
differ-cancel_left (suc zero) (suc y) zero hx hy hz e = omega arith
differ-cancel_left (suc zero) (suc y) (suc z) hx hy hz e = omega arith
differ-cancel_left (suc (suc x)) y z hx hy hz e = absurd (omega arith)

-- The lowest digit and the rest of a `bit_xor`.
bit_xor_parts :
    (a b : ℕ)
    → (bit_xor a b / 2 ≡ bit_xor (a / 2) (b / 2)) × (bit_xor a b % 2 ≡ differ (a % 2) (b % 2))
bit_xor_parts a b =
    omega (arith, bit_xor_step a b, differ-lt (a % 2) (b % 2) (omega arith) (omega arith))

pub bit_xor-lt : (k a b : ℕ) → a < 2 ^ k → b < 2 ^ k → bit_xor a b < 2 ^ k
bit_xor-lt zero a b ha hb = omega (arith, zeros)
  where
    zeros : bit_xor a b ≡ 0
    zeros = let ea : a ≡ 0 = omega arith in let eb : b ≡ 0 = omega arith in rw (ea, eb)
bit_xor-lt (suc k) a b ha hb = omega (
  arith,
  pow-suc 2 k,
  bit_xor_parts a b,
  differ-lt (a % 2) (b % 2) (omega arith) (omega arith),
  bit_xor-lt k (a / 2) (b / 2) (omega (arith, pow-suc 2 k)) (omega (arith, pow-suc 2 k)),
)

-- Applying the same mask twice gives the number back.
pub bit_xor-bit_xor : (k a b : ℕ) → a < 2 ^ k → b < 2 ^ k → bit_xor (bit_xor a b) b ≡ a
bit_xor-bit_xor zero a b ha hb =
    let ea : a ≡ 0 = omega arith in let eb : b ≡ 0 = omega arith in rw (ea, eb)
bit_xor-bit_xor (suc k) a b ha hb =
    let (rest, low) = bit_xor_parts a b in
    let ih =
      bit_xor-bit_xor k (a / 2) (b / 2) (omega (arith, pow-suc 2 k)) (omega (arith, pow-suc 2 k)) in
    let top : bit_xor (bit_xor a b) b / 2 ≡ a / 2 =
      (bit_xor_parts (bit_xor a b) b).0 ∙ rw rest ih in
    let bottom : bit_xor (bit_xor a b) b % 2 ≡ a % 2 =
      (bit_xor_parts (bit_xor a b) b).1
      ∙ rw low (differ-differ (a % 2) (b % 2) (omega arith) (omega arith)) in
    omega arith

-- One number under two masks gives the same result only if the masks are the same.
pub bit_xor-cancel_left :
    (k a b c : ℕ) → a < 2 ^ k → b < 2 ^ k → c < 2 ^ k → bit_xor a b ≡ bit_xor a c → b ≡ c
bit_xor-cancel_left zero a b c ha hb hc e = omega arith
bit_xor-cancel_left (suc k) a b c ha hb hc e =
    let (rest_b, low_b) = bit_xor_parts a b in
    let (rest_c, low_c) = bit_xor_parts a c in
    let p = pow-suc 2 k in
    let halves : b / 2 ≡ c / 2 =
      bit_xor-cancel_left k (a / 2) (b / 2) (c / 2) (omega arith) (omega arith) (omega arith)
        (sym rest_b ∙ ap (λ (t : ℕ). t / 2) e ∙ rest_c) in
    let digit : b % 2 ≡ c % 2 =
      differ-cancel_left (a % 2) (b % 2) (c % 2) (omega arith) (omega arith) (omega arith)
        (sym low_b ∙ ap (λ (t : ℕ). t % 2) e ∙ low_c) in
    omega arith

-- A test that passes at every number below a bound, run number by number.
unfoldable pub passes : (ℕ → Bool) → ℕ → Bool
passes test zero = true
passes test (suc top) = passes test top && test top

pub passes_at :
    (test : ℕ → Bool) (top : ℕ) (x : ℕ) → x < top → passes test top ≡ true → test x ≡ true
unfolding passes
passes_at test zero x lt run = absurd (omega arith)
passes_at test (suc top) x lt run = ground (arith, passes_at test top x)
