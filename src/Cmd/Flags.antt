-- ===== src/Cmd/Flags.antt =====
-- Go's `flag` package, as far as the commands use it: flags with a text as their value, in a set that
-- exits on an error.
pub mod Render
use hydravpn.Base.{
  ℕ, Bool, true, false, ◌||◌, List, [], ◌∷◌, ◌++◌, ◌==◌, Option, none, some, if◌then◌else◌,
}
use hydravpn.Base.Bytes.{bytes_eq}
use hydravpn.Base.Codes.{codes}

-- The flags of a set, with their values.
abbrev pub Flags : Type 0
Flags = List (List ℕ × List ℕ)

unfoldable pub lookup : Flags → List ℕ → List ℕ
lookup [] name = []
lookup ((n, v) ∷ flags) name = if bytes_eq n name then v else lookup flags name

unfoldable pub defines : Flags → List ℕ → Bool
defines [] name = false
defines ((n, v) ∷ flags) name = bytes_eq n name || defines flags name

unfoldable pub assign : Flags → List ℕ → List ℕ → Flags
assign [] name value = []
assign ((n, v) ∷ flags) name value =
    if bytes_eq n name then (n, value) ∷ flags else (n, v) ∷ assign flags name value

-- What an argument is: the end of the flags, a malformed flag, a flag with its value if it has one.
pub data Token : Type 0 where
  stop : Token
  malformed : Token
  flag : List ℕ → Option (List ℕ) → Token

-- A name up to its equals sign, and the value behind it.
unfoldable pub split_value : List ℕ → List ℕ × Option (List ℕ)
split_value [] = ([], none)
split_value (c ∷ cs) =
    let (name, value) = split_value cs in if c == 61 then ([], some cs) else (c ∷ name, value)

unfoldable pub flag_token : List ℕ → Token
flag_token [] = malformed
flag_token (c ∷ cs) =
    if c == 45 || c == 61 then malformed else flag (c ∷ (split_value cs).0) (split_value cs).1

unfoldable pub double_dash : List ℕ → Token
double_dash [] = stop
double_dash (c ∷ cs) = flag_token (c ∷ cs)

unfoldable pub token_of : List ℕ → Token
token_of [] = stop
token_of (a ∷ []) = stop
token_of (a ∷ b ∷ rest) =
    if a == 45 then (if b == 45 then double_dash rest else flag_token (b ∷ rest)) else stop

pub data Parsed : Type 0 where
  parsed : Flags → Parsed
  help : Parsed
  failed : Parsed

-- A name that the set does not define asks for help or is an error.
unfoldable pub undefined : List ℕ → Parsed
undefined name = if bytes_eq name (codes "help") || bytes_eq name (codes "h") then help else failed

-- What one argument, with the next one if there is one, comes to: the end of the parse, or new values
-- and whether the next argument was one of them.
pub data Turn : Type 0 where
  ends : Parsed → Turn
  takes_one : Flags → Turn
  takes_two : Flags → Turn

-- `parseOne`
unfoldable pub parse_one : Flags → List ℕ → Option (List ℕ) → Turn
parse_one flags arg following = elim (token_of arg) [
  | stop ↦ ends (parsed flags)
  | malformed ↦ ends failed
  | flag name value ↦ elim (defines flags name) [
    | false ↦ ends (undefined name)
    | true ↦ elim value [
      | some v ↦ takes_one (assign flags name v)
      | none ↦ elim following [ none ↦ ends failed | some v ↦ takes_two (assign flags name v) ]
    ]
  ]
]

-- `Parse`: the arguments from the first one that is no flag on are left.
unfoldable pub parse : Flags → List (List ℕ) → Parsed
parse flags [] = parsed flags
parse flags (arg ∷ []) = elim (parse_one flags arg none) [
  | ends result ↦ result
  | takes_one flags' ↦ parsed flags'
  | takes_two flags' ↦ parsed flags'
]
parse flags (arg ∷ following ∷ args) = elim (parse_one flags arg (some following)) [
  | ends result ↦ result
  | takes_one flags' ↦ parse flags' (following ∷ args)
  | takes_two flags' ↦ parse flags' args
]
