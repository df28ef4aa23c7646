-- ===== src/Tun/Text.antt =====
-- The functions of Go's `strings` that pkg/tun/tun.go uses, on texts of ASCII codes.
use hydravpn.Base.{
  ℕ, Bool, true, false, ◌&&◌, ◌||◌, List, [], ◌∷◌, ◌++◌, leb, ◌==◌, length, drop, if◌then◌else◌,
}
use mathlib.Core.List.{reverse}

abbrev pub Text : Type 0
Text = List ℕ

abbrev pub is_space : ℕ → Bool
is_space b = b == 32 || (leb 9 b && leb b 13)

abbrev pub is_empty : Text → Bool
is_empty [] = true
is_empty (b ∷ bs) = false

-- A word that has ended, unless nothing was read of it.
abbrev pub flush : Text → List Text
flush word = if is_empty word then [] else word ∷ []

abbrev pub fields_from : Text → Text → List Text
fields_from word [] = flush word
fields_from word (b ∷ bs) =
    if is_space b then flush word ++ fields_from [] bs else fields_from (word ++ b ∷ []) bs

-- `strings.Fields`
abbrev pub fields : Text → List Text
fields = fields_from []

abbrev pub lines_from : Text → Text → List Text
lines_from line [] = line ∷ []
lines_from line (b ∷ bs) =
    if b == 10 then line ∷ lines_from [] bs else lines_from (line ++ b ∷ []) bs

-- `strings.Split(text, "\n")`
abbrev pub split_lines : Text → List Text
split_lines = lines_from []

abbrev pub trim_left : Text → Text
trim_left [] = []
trim_left (b ∷ bs) = if is_space b then trim_left bs else b ∷ bs

-- `strings.TrimSpace`
abbrev pub trim_space : Text → Text
trim_space text = reverse (trim_left (reverse (trim_left text)))

abbrev pub has_prefix : Text → Text → Bool
has_prefix text [] = true
has_prefix [] (p ∷ ps) = false
has_prefix (b ∷ bs) (p ∷ ps) = b == p && has_prefix bs ps

abbrev pub trim_prefix : Text → Text → Text
trim_prefix text prefix = if has_prefix text prefix then drop (length prefix) text else text

-- `strings.Contains`
abbrev pub contains_text : Text → Text → Bool
contains_text [] part = is_empty part
contains_text (b ∷ bs) part = has_prefix (b ∷ bs) part || contains_text bs part
