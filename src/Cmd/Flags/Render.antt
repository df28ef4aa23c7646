-- ===== src/Cmd/Flags/Render.antt =====
-- Options as a user writes them, and what the flags hold after them.
use hydravpn.Base.{
  ℕ, ◌≡◌, refl, ◌∙◌, Bool, true, false, not, ◌&&◌, List, [], ◌∷◌, ◌++◌, arith, ◌==◌, Bool-cases,
  All, inl, inr, Option, none, some, if◌then◌else◌,
}
use hydravpn.Cmd.Flags.{
  Flags, parsed, flag, takes_one, takes_two, defines, assign, split_value, flag_token, double_dash,
  token_of, parse_one, parse,
}

-- An option: one dash or two, its value behind an equals sign or as the next argument.
pub record Written : Type 0 where
  pub name : List ℕ
  pub value : List ℕ
  pub double : Bool
  pub joined : Bool

abbrev pub dashes : Bool → List ℕ → List ℕ
dashes double text = 45 ∷ (if double then 45 ∷ text else text)

abbrev pub render : List Written → List (List ℕ)
render [] = []
render (o ∷ os) =
    if o.joined
    then dashes o.double (o.name ++ 61 ∷ o.value) ∷ render os
    else dashes o.double o.name ∷ o.value ∷ render os

abbrev pub assign_all : Flags → List Written → Flags
assign_all flags [] = flags
assign_all flags (o ∷ os) = assign_all (assign flags o.name o.value) os

abbrev pub no_equals : List ℕ → Bool
no_equals [] = true
no_equals (c ∷ cs) = not (c == 61) && no_equals cs

-- A name that can be written as an option.
abbrev pub is_name : List ℕ → Bool
is_name [] = false
is_name (c ∷ cs) = not (c == 45) && no_equals (c ∷ cs)

split_value-joined :
    (name value : List ℕ)
    → no_equals name ≡ true
    → split_value (name ++ 61 ∷ value) ≡ (name, some value)
unfolding split_value
split_value-joined [] value h = refl
split_value-joined (c ∷ name) value h = ground (arith, split_value-joined name value)

split_value-alone : (name : List ℕ) → no_equals name ≡ true → split_value name ≡ (name, none)
unfolding split_value
split_value-alone [] h = refl
split_value-alone (c ∷ name) h = ground (arith, split_value-alone name)

token_of-joined :
    (double : Bool) (name value : List ℕ)
    → is_name name ≡ true
    → token_of (dashes double (name ++ 61 ∷ value)) ≡ flag name (some value)
unfolding token_of flag_token double_dash
token_of-joined double [] value h = absurd (ground arith)
token_of-joined true (c ∷ name) value h = ground (arith, split_value-joined name value)
token_of-joined false (c ∷ name) value h = ground (arith, split_value-joined name value)

token_of-alone :
    (double : Bool) (name : List ℕ)
    → is_name name ≡ true
    → token_of (dashes double name) ≡ flag name none
unfolding token_of flag_token double_dash
token_of-alone double [] h = absurd (ground arith)
token_of-alone true (c ∷ name) h = ground (arith, split_value-alone name)
token_of-alone false (c ∷ name) h = ground (arith, split_value-alone name)

defines-assign :
    (flags : Flags) (name value other : List ℕ)
    → defines (assign flags name value) other ≡ defines flags other
unfolding defines assign
defines-assign [] name value other = refl
defines-assign ((n, v) ∷ flags) name value other =
    ground (arith, defines-assign flags name value other)

parse-takes_one :
    (flags flags' : Flags) (arg : List ℕ) (args : List (List ℕ))
    → ((following : Option (List ℕ)) → parse_one flags arg following ≡ takes_one flags')
    → parse flags (arg ∷ args) ≡ parse flags' args
unfolding parse
parse-takes_one flags flags' arg [] h = rw (h none, parse) refl
parse-takes_one flags flags' arg (following ∷ args) h = rw (h (some following), parse) refl

parse-takes_two :
    (flags flags' : Flags) (arg following : List ℕ) (args : List (List ℕ))
    → parse_one flags arg (some following) ≡ takes_two flags'
    → parse flags (arg ∷ following ∷ args) ≡ parse flags' args
unfolding parse
parse-takes_two flags flags' arg following args h = rw (h, parse) refl

-- What makes an option one of a set of flags.
abbrev pub IsOf : Flags → Written → Type 0
IsOf flags o = (is_name o.name ≡ true) × (defines flags o.name ≡ true)

assigned-IsOf :
    (flags : Flags) (name value : List ℕ) (os : List Written)
    → All (IsOf flags) os
    → All (IsOf (assign flags name value)) os
assigned-IsOf flags name value [] v = tt
assigned-IsOf flags name value (o ∷ os) v =
    ((v.0.0, defines-assign flags name value o.name ∙ v.0.1), assigned-IsOf flags name value os v.1)

-- Options of a set of flags, in any number and order, with one dash or two and their values behind an
-- equals sign or as the next argument, whatever the values are, are parsed to the set's values with
-- those of the options assigned in their order.
pub parse-render :
    (flags : Flags) (os : List Written)
    → All (IsOf flags) os
    → parse flags (render os) ≡ parsed (assign_all flags os)
unfolding parse parse_one
parse-render flags [] v = refl
parse-render flags (o ∷ os) v =
    let after = assign flags o.name o.value in
    let rest : parse after (render os) ≡ parsed (assign_all after os) =
      parse-render after os (assigned-IsOf flags o.name o.value os v.1) in
    elim (Bool-cases o.joined) [
      | inl e ↦
          let token = token_of-joined o.double o.name o.value v.0.0 in
          rw e (
            parse-takes_one flags after (dashes o.double (o.name ++ 61 ∷ o.value)) (render os)
              (λ following. rw (token, v.0.1, parse_one) refl)
            ∙ rest)
      | inr e ↦
          let token = token_of-alone o.double o.name v.0.0 in
          rw e (
            parse-takes_two flags after (dashes o.double o.name) o.value (render os)
              (rw (token, v.0.1, parse_one) refl)
            ∙ rest)
    ]
