-- ===== src/Base/Fallible.antt =====
-- Go's `(value, error)` results: a value, or the text of the error.
use Prim.Native.String.{String}
use mathlib.Core.Path.{◌≡◌, refl, sym, ◌∙◌}
use mathlib.Core.Logic.{◌⊎◌, inl, inr}
use mathlib.Core.Bool.{Bool, true, false}
use mathlib.Core.Option.{Option, none, some}

pub data Result {ℓ} (A : Type ℓ) : Type ℓ where
  ok : A → Result A
  err : String → Result A

-- `if err != nil { return fmt.Errorf("outer: %w", err) }` keeps the outer text.
abbrev pub wrap {ℓ} : {A : Type ℓ} → String → Result A → Result A
wrap outer (ok a) = ok a
wrap outer (err _) = err outer

-- `if err != nil { return err }` between two steps.
infixl 5 ◌>>=◌ ◌>>◌
abbrev pub ◌>>=◌ {ℓ κ} : {A : Type ℓ} {B : Type κ} → Result A → (A → Result B) → Result B
err text >>= step = err text
ok a >>= step = step a

abbrev pub ◌>>◌ {ℓ} : {B : Type ℓ} → Result (Unit {0}) → Result B → Result B
err text >> after = err text
ok _ >> after = after

-- `if bad { return errors.New(e) }`
abbrev pub fail_if : Bool → String → Result (Unit {0})
fail_if true e = err e
fail_if false e = ok tt

abbrev pub or_err {ℓ} : {A : Type ℓ} → Option A → String → Result A
or_err none e = err e
or_err (some a) e = ok a

-- An option has one value.
pub some_same {ℓ} : {A : Type ℓ} {o : Option A} {a b : A} → o ≡ some a → o ≡ some b → a ≡ b
some_same {o = o} {a} {b} e f = let both : some a ≡ some b = sym e ∙ f in cc

pub Result-cases {ℓ} :
    {A : Type ℓ} (r : Result A) → ((e : String) × (r ≡ err e)) ⊎ ((a : A) × (r ≡ ok a))
Result-cases (ok a) = inr (a, refl)
Result-cases (err e) = inl (e, refl)
