-- ===== src/Base/Int.antt =====
-- Go's int64 as an integer, and its conversions to and from uint64.
use hydravpn.Base.{ℕ, ◌-◌, ◌%◌, ◌^◌, ◌<◌, ◌≡◌, arith, ltb, if◌then◌else◌}

-- `negsuc n` is -(n + 1).
pub data ℤ : Type 0 where
  pos : ℕ → ℤ
  negsuc : ℕ → ℤ

-- The values of an int64.
abbrev pub IsInt64 : ℤ → Type 0
IsInt64 (pos n) = n < 2 ^ 63
IsInt64 (negsuc n) = n < 2 ^ 63

-- `uint64(x)`: two's complement.
unfoldable pub to_uint64 : ℤ → ℕ
to_uint64 (pos n) = n % 2 ^ 64
to_uint64 (negsuc n) = 2 ^ 64 - 1 - n % 2 ^ 64

-- `int64(w)`
unfoldable pub to_int64 : ℕ → ℤ
to_int64 w = if ltb w (2 ^ 63) then pos w else negsuc (2 ^ 64 - 1 - w)

pub to_uint64-lt : (x : ℤ) → to_uint64 x < 2 ^ 64
unfolding to_uint64
to_uint64-lt (pos n) = omega arith
to_uint64-lt (negsuc n) = omega arith

pub to_int64-to_uint64 : (x : ℤ) → IsInt64 x → to_int64 (to_uint64 x) ≡ x
unfolding to_uint64 to_int64
to_int64-to_uint64 (pos n) h = ground arith
to_int64-to_uint64 (negsuc n) h = ground arith

pub to_uint64-to_int64 : (w : ℕ) → w < 2 ^ 64 → to_uint64 (to_int64 w) ≡ w
unfolding to_uint64 to_int64
to_uint64-to_int64 w h = ground arith

pub to_int64-IsInt64 : (w : ℕ) → w < 2 ^ 64 → IsInt64 (to_int64 w)
unfolding to_int64
to_int64-IsInt64 w h = ground arith
