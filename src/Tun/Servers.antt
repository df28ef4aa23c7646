-- ===== src/Tun/Servers.antt =====
-- What `SetDNS` and `RestoreDNS` do to the DNS servers of macOS.
use hydravpn.Base.{
  ℕ, ◌≡◌, ◌≢◌, refl, sym, ap, ◌∙◌, Bool, true, false, ◌||◌, List, [], ◌∷◌, ◌++◌, append-nil,
  append_assoc, All, All-append, arith, ◌==◌, Bool-cases, inl, inr,
}
use mathlib.Core.List.{reverse, reverse-reverse, reverse-cons, reverse-append}
use hydravpn.Tun.Text.{
  Text as Word, is_space, is_empty, flush, fields_from, fields, trim_left, trim_space, has_prefix,
  contains_text,
}
use hydravpn.Tun.Commands.{
  darwin, Answer, Device, get_dns_servers, set_dns_servers, close_interface,
}
use hydravpn.Tun.Gateway.{remove_default_route}
use hydravpn.Tun.Dns.{get_active_network_service, set_dns, restore_dns, no_servers}
use hydravpn.Tun.{close}

-- A word without a white space.
abbrev pub IsWord : Word → Type 0
IsWord word = (is_empty word ≡ false) × All (λ b. is_space b ≡ false) word

-- The servers as the system prints them, one on a line.
abbrev pub print_servers : List Word → Word
print_servers [] = []
print_servers (w ∷ ws) = w ++ 10 ∷ print_servers ws

fields_from-word :
    (before word text : Word)
    → All (λ b. is_space b ≡ false) word
    → fields_from before (word ++ text) ≡ fields_from (before ++ word) text
fields_from-word before [] text h = ap (λ w. fields_from w text) (sym (append-nil before))
fields_from-word before (b ∷ word) text h = rw h.0 (
    fields_from-word (before ++ b ∷ []) word text h.1
    ∙ ap (λ w. fields_from w text) (append_assoc before (b ∷ []) word))

flush-word : (word : Word) → is_empty word ≡ false → flush word ≡ word ∷ []
flush-word [] h = absurd (ground arith)
flush-word (b ∷ word) h = refl

-- The fields of what is printed are the servers.
fields-print_servers : (ws : List Word) → All IsWord ws → fields (print_servers ws) ≡ ws
fields-print_servers [] v = refl
fields-print_servers (w ∷ ws) v =
    fields_from-word [] w (10 ∷ print_servers ws) v.0.1
    ∙ ap (λ xs. xs ++ fields (print_servers ws)) (flush-word w v.0.0)
    ∙ ap (◌∷◌ w) (fields-print_servers ws v.1)

-- Spaces around a text make no field.
fields_from-spaces :
    (word text spaces : Word)
    → All (λ b. is_space b ≡ true) spaces
    → fields_from word (text ++ spaces) ≡ fields_from word text
fields_from-spaces word [] [] h = refl
fields_from-spaces word [] (b ∷ spaces) h =
    rw h.0 (ap (◌++◌ (flush word)) (fields_from-spaces [] [] spaces h.1) ∙ append-nil (flush word))
fields_from-spaces word (b ∷ text) spaces h = elim (Bool-cases (is_space b)) [
  | inl e ↦ rw e (ap (◌++◌ (flush word)) (fields_from-spaces [] text spaces h))
  | inr e ↦ rw e (fields_from-spaces (word ++ b ∷ []) text spaces h)
]

fields-trim_left : (text : Word) → fields (trim_left text) ≡ fields text
fields-trim_left [] = refl
fields-trim_left (b ∷ text) = elim (Bool-cases (is_space b)) [
  | inl e ↦ rw e (fields-trim_left text)
  | inr e ↦ rw (e, e) refl
]

All-reverse {ℓ} : (P : ℕ → Type ℓ) (xs : Word) → All P xs → All P (reverse xs)
All-reverse P [] h = tt
All-reverse P (x ∷ xs) h =
    rw reverse-cons (All-append P (reverse xs) (x ∷ []) (All-reverse P xs h.1) (h.0, tt))

All-trim_left {ℓ} : (P : ℕ → Type ℓ) (xs : Word) → All P xs → All P (trim_left xs)
All-trim_left P [] h = tt
All-trim_left P (x ∷ xs) h = elim (Bool-cases (is_space x)) [
  | inl e ↦ rw e (All-trim_left P xs h.1)
  | inr e ↦ rw e h
]

All-trim_space {ℓ} : (P : ℕ → Type ℓ) (xs : Word) → All P xs → All P (trim_space xs)
All-trim_space P xs h =
    All-reverse P (trim_left (reverse (trim_left xs))) (
      All-trim_left P (reverse (trim_left xs))
        (All-reverse P (trim_left xs) (All-trim_left P xs h)))

trimmed_off :
    (text : Word)
    → (spaces : Word) × All (λ b. is_space b ≡ true) spaces × (text ≡ spaces ++ trim_left text)
trimmed_off [] = ([], tt, refl)
trimmed_off (b ∷ text) = elim (Bool-cases (is_space b)) [
  | inl e ↦
      let (spaces, all, same) = trimmed_off text in (b ∷ spaces, (e, all), rw e (ap (◌∷◌ b) same))
  | inr e ↦ ([], tt, rw e refl)
]

fields-trim_space : (text : Word) → fields (trim_space text) ≡ fields text
fields-trim_space text =
    let back = reverse (trim_left text) in
    let (spaces, all, same) = trimmed_off back in
    let whole : trim_left text ≡ trim_space text ++ reverse spaces =
      sym (reverse-reverse (trim_left text))
      ∙ ap reverse same
      ∙ reverse-append spaces (trim_left back) in
    sym (fields_from-spaces [] (trim_space text) (reverse spaces) (All-reverse _ spaces all))
    ∙ ap fields (sym whole)
    ∙ fields-trim_left text

-- A text without a blank does not contain one that has a blank.
abbrev has_blank : Word → Bool
has_blank [] = false
has_blank (b ∷ bs) = b == 32 || has_blank bs

has_prefix-blank :
    (text part : Word)
    → has_blank part ≡ true
    → All (λ b. b ≢ 32) text
    → has_prefix text part ≡ false
has_prefix-blank text [] h v = absurd (ground arith)
has_prefix-blank [] (p ∷ part) h v = refl
has_prefix-blank (b ∷ text) (p ∷ part) h v =
    let rest = has_prefix-blank text part in ground (arith, rest, v.0, v.1)

contains_text-blank :
    (text part : Word)
    → has_blank part ≡ true
    → All (λ b. b ≢ 32) text
    → contains_text text part ≡ false
contains_text-blank [] [] h v = absurd (ground arith)
contains_text-blank [] (p ∷ part) h v = refl
contains_text-blank (b ∷ text) part h v =
    rw (has_prefix-blank (b ∷ text) part h v) (contains_text-blank text part h v.1)

word-no_blank : (word : Word) → All (λ b. is_space b ≡ false) word → All (λ b. b ≢ 32) word
word-no_blank [] h = tt
word-no_blank (b ∷ word) h = (λ e. ground (arith, h.0, e), word-no_blank word h.1)

print_servers-no_blank : (ws : List Word) → All IsWord ws → All (λ b. b ≢ 32) (print_servers ws)
print_servers-no_blank [] v = tt
print_servers-no_blank (w ∷ ws) v =
    All-append (λ b. b ≢ 32) w (10 ∷ print_servers ws) (word-no_blank w v.0.1)
      (ground arith, print_servers-no_blank ws v.1)

some_fields :
    (text : Word) {w : Word} {ws : List Word} → fields text ≡ w ∷ ws → is_empty text ≡ false
some_fields [] h = absurd cc
some_fields (b ∷ text) h = refl

-- On macOS, where the service has servers, which the system prints one on a line, `SetDNS` keeps them,
-- and `RestoreDNS`, as the first of the commands of `Close`, sets exactly them again on the service for
-- which they were replaced.
pub set_dns-restores :
    (answer : Answer) (d : Device) (server : Word) (servers : List Word)
    → All IsWord (server ∷ servers)
    → is_empty (get_active_network_service answer).1 ≡ false
    → (answer (get_dns_servers (get_active_network_service answer).1)).0
      ≡ print_servers (server ∷ servers)
    → close darwin (set_dns darwin answer d).0
      ≡ set_dns_servers (get_active_network_service answer).1 (server ∷ servers)
        ∷ (remove_default_route darwin d ++ close_interface ∷ [])
unfolding close set_dns restore_dns remove_default_route
set_dns-restores answer d server servers v named printed =
    let ws = server ∷ servers in
    let kept = trim_space (print_servers ws) in
    let back : fields kept ≡ ws =
      fields-trim_space (print_servers ws) ∙ fields-print_servers ws v in
    let full : is_empty kept ≡ false = some_fields kept {w = server} {ws = servers} back in
    let listed : contains_text kept no_servers ≡ false =
      contains_text-blank kept no_servers refl
        (All-trim_space (λ b. b ≢ 32) (print_servers ws) (print_servers-no_blank ws v)) in
    rw (printed, named, full, listed, back) refl
