-- ===== src/Crypto/Clamp.antt =====
-- What clamping makes of a private key.
use native.Mathlib.Nat.{pow-suc}
use hydravpn.Base.{
  ℕ, zero, suc, ◌+◌, ◌*◌, ◌%◌, ◌^◌, ◌≤◌, ◌<◌, ◌≡◌, refl, ap, ◌∙◌, ◌&&◌, true, List, [], ◌∷◌, ◌++◌,
  arith, leb, ltb, ◌==◌, bit_and, bit_or, length, take, get_or, set, length-take, length-append,
  some, ok, All-take,
}
use hydravpn.Base.Bits.{passes, passes_at}
use hydravpn.Base.Bytes.{IsByte, IsBytes, IsArray, le_value, le_value-lt}
use hydravpn.Crypto.{KeyPair, clamp, generate_key_pair}
use hydravpn.Crypto.Library.{Primitives}

-- The two bytes that are changed, over all their values.
low_byte_table : passes (λ x. bit_and x 248 % 8 == 0 && ltb (bit_and x 248) 256) 256 ≡ true
unfolding passes
low_byte_table = refl

high_byte_table :
    passes (λ x. leb 64 (bit_or (bit_and x 127) 64) && ltb (bit_or (bit_and x 127) 64) 128) 256
    ≡ true
unfolding passes
high_byte_table = refl

low_byte : (x : ℕ) → x < 256 → (bit_and x 248 % 8 ≡ 0) × (bit_and x 248 < 256)
low_byte x h = ground (arith, passes_at _ 256 x h low_byte_table)

high_byte : (x : ℕ) → x < 256 → (64 ≤ bit_or (bit_and x 127) 64) × (bit_or (bit_and x 127) 64 < 128)
high_byte x h = ground (arith, passes_at _ 256 x h high_byte_table)

le_value-append :
    (xs ys : List ℕ) → le_value (xs ++ ys) ≡ le_value xs + 256 ^ length xs * le_value ys
unfolding le_value
le_value-append [] ys = omega arith
le_value-append (x ∷ xs) ys =
    omega (arith, le_value-append xs ys, ap (λ (t : ℕ). t * le_value ys) (pow-suc 256 (length xs)))

-- Writing the last element.
set_last : (xs : List ℕ) (n v : ℕ) → length xs ≡ suc n → set xs n v ≡ take n xs ++ (v ∷ [])
set_last [] n v h = absurd (omega arith)
set_last (x ∷ []) zero v h = refl
set_last (x ∷ y ∷ xs) zero v h = absurd (omega arith)
set_last (x ∷ xs) (suc n) v h = ap (◌∷◌ x) (set_last xs n v (omega arith))

-- A second write to the same place, and a read from it.
set-set : (xs : List ℕ) (n u v : ℕ) → set (set xs n u) n v ≡ set xs n v
set-set [] n u v = refl
set-set (x ∷ xs) zero u v = refl
set-set (x ∷ xs) (suc n) u v = ap (◌∷◌ x) (set-set xs n u v)

get_or-set_self : (xs : List ℕ) (n u : ℕ) → n < length xs → get_or (set xs n u) n 0 ≡ u
get_or-set_self [] n u h = absurd (omega arith)
get_or-set_self (x ∷ xs) zero u h = refl
get_or-set_self (x ∷ xs) (suc n) u h = get_or-set_self xs n u (omega arith)

get_or-IsByte : (xs : List ℕ) (i : ℕ) → IsBytes xs → get_or xs i 0 < 256
get_or-IsByte [] i h = omega arith
get_or-IsByte (x ∷ xs) zero h = h.0
get_or-IsByte (x ∷ xs) (suc i) h = get_or-IsByte xs i h.1

abbrev top_byte : List ℕ → ℕ
top_byte rest = bit_or (bit_and (get_or rest 30 0) 127) 64

clamp-cons :
    (b : ℕ) (rest : List ℕ)
    → length rest ≡ 31
    → clamp (b ∷ rest) ≡ bit_and b 248 ∷ (take 30 rest ++ (top_byte rest ∷ []))
unfolding clamp
clamp-cons b rest h =
    let x = bit_and (get_or rest 30 0) 127 in
    ap (◌∷◌ (bit_and b 248)) (
      ap (λ y. set (set rest 30 x) 30 (bit_or y 64)) (get_or-set_self rest 30 x (omega arith))
      ∙ set-set rest 30 x (bit_or x 64)
      ∙ set_last rest 30 (bit_or x 64) h)

-- A clamped key, read as a little-endian number: a multiple of 8 between 2 ^ 254 and 2 ^ 255.
pub record IsScalar (key : List ℕ) : Type 0 where
  pub size : length key ≡ 32
  pub multiple : le_value key % 8 ≡ 0
  pub above : 2 ^ 254 ≤ le_value key
  pub below : le_value key < 2 ^ 255

pub clamp-IsScalar : (key : List ℕ) → IsArray 32 key → IsScalar (clamp key)
unfolding le_value
clamp-IsScalar [] a = absurd (omega arith)
clamp-IsScalar (b ∷ rest) a =
    let low = low_byte b a.bytes.0 in
    let high = high_byte (get_or rest 30 0) (get_or-IsByte rest 30 a.bytes.1) in
    let mid : length (take 30 rest) ≡ 30 = omega (arith, length-take 30 rest) in
    let bound = rw mid at (le_value-lt (take 30 rest) (All-take IsByte 30 rest a.bytes.1)) in
    let sum = rw mid at (le_value-append (take 30 rest) (top_byte rest ∷ [])) in
    rw (clamp-cons b rest (omega arith)) (record {
      size = omega (arith, length-append (take 30 rest) (top_byte rest ∷ []));
      multiple = omega arith;
      above = omega arith;
      below = omega arith;
    })

-- Every key pair that is made from 32 random bytes has such a private key, and its public key
-- belongs to it.
pub generate_key_pair_lem :
    {Aead : Type 0} (lib : Primitives Aead) (random : List ℕ)
    → IsArray 32 random
    → (kp : KeyPair) × (generate_key_pair lib (some random) ≡ ok kp)
      × IsScalar kp.private_key
      × (kp.public_key ≡ lib.scalar_base_mult kp.private_key)
unfolding generate_key_pair
generate_key_pair_lem lib random a = (
  record { private_key = clamp random; public_key = lib.scalar_base_mult (clamp random) },
  refl,
  clamp-IsScalar random a,
  refl,
)
