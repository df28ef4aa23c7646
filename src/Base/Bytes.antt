-- ===== src/Base/Bytes.antt =====
-- Bytes and the fixed-width encodings of `encoding/binary`. A byte is a number below 256, and a
-- `[n]byte` a list of n bytes.
use mathlib.Core.List.{reverse, reverse-reverse, reverse-cons}
use native.Mathlib.Nat.{pow-suc}
use hydravpn.Base.{
  ℕ, zero, suc, ◌+◌, ◌*◌, ◌/◌, ◌%◌, ◌^◌, ◌<◌, ◌≡◌, refl, ap, ap₂, ◌∙◌, List, [], ◌∷◌, ◌++◌, arith,
  Bool, true, false, ◌&&◌, ◌==◌, ◌↔◌, leb, if◌then◌else◌, take, drop, take-append, drop-append,
  Result, ok, err, length, length-append, replicate, All, All-append,
}

abbrev pub IsByte : ℕ → Type 0
IsByte b = b < 256

abbrev pub IsBytes : List ℕ → Type 0
IsBytes bs = All IsByte bs

-- A `[n]byte`.
pub record IsArray (n : ℕ) (bs : List ℕ) : Type 0 where
  pub size : length bs ≡ n
  pub bytes : IsBytes bs

-- The n lowest base-256 digits, lowest first: `binary.LittleEndian.PutUint…` for n = 2, 4, 8.
unfoldable pub le_bytes : ℕ → ℕ → List ℕ
le_bytes zero x = []
le_bytes (suc n) x = (x % 256) ∷ le_bytes n (x / 256)

unfoldable pub le_value : List ℕ → ℕ
le_value [] = 0
le_value (b ∷ bs) = b + 256 * le_value bs

-- The same with the highest digit first: `binary.BigEndian`.
unfoldable pub be_bytes : ℕ → ℕ → List ℕ
unfolding le_bytes
be_bytes n x = reverse (le_bytes n x)

unfoldable pub be_value : List ℕ → ℕ
unfolding le_value
be_value bs = le_value (reverse bs)

pub length-le_bytes : (n x : ℕ) → length (le_bytes n x) ≡ n
unfolding le_bytes
length-le_bytes zero x = refl
length-le_bytes (suc n) x = ap suc (length-le_bytes n (x / 256))

pub le_bytes-IsBytes : (n x : ℕ) → IsBytes (le_bytes n x)
unfolding le_bytes
le_bytes-IsBytes zero x = tt
le_bytes-IsBytes (suc n) x = (omega arith, le_bytes-IsBytes n (x / 256))

pub le_value-le_bytes : (n x : ℕ) → x < 256 ^ n → le_value (le_bytes n x) ≡ x
unfolding le_bytes le_value
le_value-le_bytes zero x h = omega arith
le_value-le_bytes (suc n) x h =
    omega (arith, pow-suc 256 n, le_value-le_bytes n (x / 256) (omega (arith, pow-suc 256 n)))

pub le_bytes-le_value : (bs : List ℕ) → IsBytes bs → le_bytes (length bs) (le_value bs) ≡ bs
unfolding le_bytes le_value
le_bytes-le_value [] h = refl
le_bytes-le_value (b ∷ bs) h =
    let tail : (b + 256 * le_value bs) / 256 ≡ le_value bs = omega arith in
    ap₂ ◌∷◌ (omega arith) (ap (le_bytes (length bs)) tail ∙ le_bytes-le_value bs h.1)

pub le_value-lt : (bs : List ℕ) → IsBytes bs → le_value bs < 256 ^ length bs
unfolding le_value
le_value-lt [] h = omega arith
le_value-lt (b ∷ bs) h = omega (arith, pow-suc 256 (length bs), le_value-lt bs h.1)

pub length-reverse {ℓ} : {A : Type ℓ} (xs : List A) → length (reverse xs) ≡ length xs
length-reverse [] = refl
length-reverse (x ∷ xs) =
    omega
      (arith, ap length (reverse-cons x xs), length-append (reverse xs) (x ∷ []), length-reverse xs)

reverse-IsBytes : (bs : List ℕ) → IsBytes bs → IsBytes (reverse bs)
reverse-IsBytes [] h = tt
reverse-IsBytes (b ∷ bs) h =
    rw reverse-cons (All-append IsByte (reverse bs) (b ∷ []) (reverse-IsBytes bs h.1) (h.0, tt))

pub length-be_bytes : (n x : ℕ) → length (be_bytes n x) ≡ n
unfolding be_bytes
length-be_bytes n x = length-reverse (le_bytes n x) ∙ length-le_bytes n x

pub be_bytes-IsBytes : (n x : ℕ) → IsBytes (be_bytes n x)
unfolding be_bytes
be_bytes-IsBytes n x = reverse-IsBytes (le_bytes n x) (le_bytes-IsBytes n x)

-- Reading back what was written gives the number, and writing what was read gives the bytes.
pub be_value-be_bytes : (n x : ℕ) → x < 256 ^ n → be_value (be_bytes n x) ≡ x
unfolding be_bytes be_value
be_value-be_bytes n x h = rw reverse-reverse (le_value-le_bytes n x h)

pub be_bytes-be_value :
    (n : ℕ) (bs : List ℕ) → length bs ≡ n → IsBytes bs → be_bytes n (be_value bs) ≡ bs
unfolding be_bytes be_value
be_bytes-be_value n bs size h =
    rw (← size, ← length-reverse bs, le_bytes-le_value (reverse bs) (reverse-IsBytes bs h))
      (reverse-reverse bs)

pub be_value-lt : (bs : List ℕ) → IsBytes bs → be_value bs < 256 ^ length bs
unfolding be_value
be_value-lt bs h = rw (← length-reverse bs) (le_value-lt (reverse bs) (reverse-IsBytes bs h))

-- `==` on arrays.
unfoldable pub bytes_eq : List ℕ → List ℕ → Bool
bytes_eq [] [] = true
bytes_eq [] (y ∷ ys) = false
bytes_eq (x ∷ xs) [] = false
bytes_eq (x ∷ xs) (y ∷ ys) = x == y && bytes_eq xs ys

pub bytes_eq_iff : (xs ys : List ℕ) → (bytes_eq xs ys ≡ true) ↔ (xs ≡ ys)
unfolding bytes_eq
bytes_eq_iff [] [] = ground arith
bytes_eq_iff [] (y ∷ ys) = ground arith
bytes_eq_iff (x ∷ xs) [] = ground arith
bytes_eq_iff (x ∷ xs) (y ∷ ys) = ground (arith, bytes_eq_iff xs ys)

-- `io.ReadFull` for n bytes of a reader that yields `stream` and then ends: the bytes and what is
-- left to read.
unfoldable pub read_full : ℕ → List ℕ → Result (List ℕ × List ℕ)
read_full n stream =
    if leb n (length stream)
    then ok (take n stream, drop n stream)
    else err (if length stream == 0 then "EOF" else "unexpected EOF")

pub read_full-append :
    (n : ℕ) (xs ys : List ℕ) → length xs ≡ n → read_full n (xs ++ ys) ≡ ok (xs, ys)
unfolding read_full
read_full-append n xs ys h =
    ground (arith, length-append xs ys, take-append n xs ys h, drop-append n xs ys h)

pub replicate-IsBytes : (n b : ℕ) → b < 256 → IsBytes (replicate n b)
replicate-IsBytes zero b h = tt
replicate-IsBytes (suc n) b h = (h, replicate-IsBytes n b h)
