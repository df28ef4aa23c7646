-- ===== src/Transport/Obfs/Mask.antt =====
-- What `obfuscate` does: byte i of the data meets byte (pos + i) of the repeated key.
use native.Mathlib.Nat.{mod-add-mod, mod-lt, mod-mod, mod-eq_of_lt}
use hydravpn.Base.{
  ℕ, zero, suc, ◌+◌, ◌%◌, ◌<◌, ◌≡◌, refl, sym, ap, ap₂, ◌∙◌, List, [], ◌∷◌, ◌++◌, arith, bit_xor,
  length, get_or, get_elem?, get_elem?-eq-get_or, some, ◌↔◌,
}
use hydravpn.Base.Bits.{bit_xor-bit_xor, bit_xor-lt, bit_xor-cancel_left}
use hydravpn.Base.Bytes.{IsBytes}
use hydravpn.Transport.Obfs.{obfuscate}

-- The byte of the repeated key at any position.
abbrev pub key_at : List ℕ → ℕ → ℕ
key_at key p = get_or key (p % length key) 0

unfoldable pub mask : List ℕ → List ℕ → ℕ → List ℕ
mask [] key p = []
mask (d ∷ ds) key p = bit_xor d (key_at key p) ∷ mask ds key (p + 1)

mod_next : (p q n : ℕ) → p % n ≡ q % n → (p + 1) % n ≡ (q + 1) % n
mod_next p q n h = sym (mod-add-mod p n 1) ∙ ap (λ r. (r + 1) % n) h ∙ mod-add-mod q n 1

mask_cong :
    (ds key : List ℕ) (p q : ℕ) → p % length key ≡ q % length key → mask ds key p ≡ mask ds key q
unfolding mask
mask_cong [] key p q h = refl
mask_cong (d ∷ ds) key p q h =
    ap₂ ◌∷◌ (ap (λ i. bit_xor d (get_or key i 0)) h)
      (mask_cong ds key (p + 1) (q + 1) (mod_next p q (length key) h))

-- From a position inside the key the loop does not panic, and it ends inside the key.
pub obfuscate-mask :
    (ds key : List ℕ) (pos : ℕ)
    → pos < length key
    → obfuscate ds key pos ≡ some (mask ds key pos, (pos + length ds) % length key)
unfolding obfuscate mask
obfuscate-mask [] key pos h =
    let e : pos ≡ (pos + 0) % length key =
      sym (mod-eq_of_lt h) ∙ ap (λ p. p % length key) (omega arith) in
    ap (λ p. some ([], p)) e
obfuscate-mask (d ∷ ds) key pos h =
    let next = (pos + 1) % length key in
    let same : pos % length key ≡ pos = mod-eq_of_lt h in
    let at : get_elem? key pos ≡ some (key_at key pos) =
      get_elem?-eq-get_or key pos 0 h ∙ ap (λ p. some (get_or key p 0)) (sym same) in
    let tail : mask ds key next ≡ mask ds key (pos + 1) =
      mask_cong ds key next (pos + 1) (mod-mod (pos + 1) (length key)) in
    let end : (next + length ds) % length key ≡ (pos + suc (length ds)) % length key =
      mod-add-mod (pos + 1) (length key) (length ds) ∙ ap (λ p. p % length key) (omega arith) in
    rw (at, obfuscate-mask ds key next (mod-lt (pos + 1) (omega arith)), tail, end, obfuscate) refl

pub length-mask : (ds key : List ℕ) (p : ℕ) → length (mask ds key p) ≡ length ds
unfolding mask
length-mask [] key p = refl
length-mask (d ∷ ds) key p = ap suc (length-mask ds key (p + 1))

pub mask-append :
    (xs ys key : List ℕ) (p : ℕ)
    → mask (xs ++ ys) key p ≡ mask xs key p ++ mask ys key (p + length xs)
unfolding mask
mask-append [] ys key p = ap (mask ys key) (omega arith)
mask-append (x ∷ xs) ys key p =
    ap (◌∷◌ (bit_xor x (key_at key p)))
      (mask-append xs ys key (p + 1) ∙ ap (λ q. mask xs key (p + 1) ++ mask ys key q) (omega arith))

pub key_at-IsByte : (key : List ℕ) (p : ℕ) → IsBytes key → key_at key p < 256
key_at-IsByte key p h = byte key (p % length key) h
  where
    byte : (xs : List ℕ) (i : ℕ) → IsBytes xs → get_or xs i 0 < 256
    byte [] i h = omega arith
    byte (x ∷ xs) zero h = h.0
    byte (x ∷ xs) (suc i) h = byte xs i h.1

pub mask-IsBytes : (ds key : List ℕ) (p : ℕ) → IsBytes ds → IsBytes key → IsBytes (mask ds key p)
unfolding mask
mask-IsBytes [] key p h k = tt
mask-IsBytes (d ∷ ds) key p h k =
    (bit_xor-lt 8 d (key_at key p) h.0 (key_at-IsByte key p k), mask-IsBytes ds key (p + 1) h.1 k)

-- Masking again from the same position gives the data back.
pub mask-mask :
    (ds key : List ℕ) (p : ℕ) → IsBytes ds → IsBytes key → mask (mask ds key p) key p ≡ ds
unfolding mask
mask-mask [] key p h k = refl
mask-mask (d ∷ ds) key p h k =
    ap₂ ◌∷◌ (bit_xor-bit_xor 8 d (key_at key p) h.0 (key_at-IsByte key p k))
      (mask-mask ds key (p + 1) h.1 k)

-- The key reads the same from two positions, for n bytes.
abbrev pub KeyAgrees : List ℕ → ℕ → ℕ → ℕ → Type 0
KeyAgrees key p q n = (i : ℕ) → i < n → key_at key (p + i) ≡ key_at key (q + i)

KeyAgrees-cons :
    (key : List ℕ) (p q n : ℕ)
    → KeyAgrees key p q (suc n)
    → (key_at key p ≡ key_at key q) × KeyAgrees key (p + 1) (q + 1) n
KeyAgrees-cons key p q n a = (
  ap (key_at key) (omega arith) ∙ a 0 (omega arith) ∙ ap (key_at key) (omega arith),
  (λ i lt. ap (key_at key) (omega arith) ∙ a (suc i) (omega arith) ∙ ap (key_at key) (omega arith)),
)

cons-KeyAgrees :
    (key : List ℕ) (p q n : ℕ)
    → key_at key p ≡ key_at key q
    → KeyAgrees key (p + 1) (q + 1) n
    → KeyAgrees key p q (suc n)
cons-KeyAgrees key p q n e a zero lt =
    ap (key_at key) (omega arith) ∙ e ∙ ap (key_at key) (omega arith)
cons-KeyAgrees key p q n e a (suc i) lt =
    ap (key_at key) (omega arith) ∙ a i (omega arith) ∙ ap (key_at key) (omega arith)

-- One byte under two masks comes back only if the masks are the same.
masks_same : (d k1 k2 : ℕ) → d < 256 → k1 < 256 → k2 < 256 → bit_xor (bit_xor d k1) k2 ≡ d → k1 ≡ k2
masks_same d k1 k2 hd h1 h2 e = bit_xor-cancel_left 8 d k1 k2 hd h1 h2 (
    sym (bit_xor-bit_xor 8 (bit_xor d k1) k2 (bit_xor-lt 8 d k1 hd h1) h2)
    ∙ ap (λ x. bit_xor x k2) e)

-- Unmasking from another position gives the data back exactly if the key reads the same there.
pub mask-mask_iff :
    (ds key : List ℕ) (p q : ℕ)
    → IsBytes ds
    → IsBytes key
    → (mask (mask ds key p) key q ≡ ds) ↔ KeyAgrees key p q (length ds)
unfolding mask
mask-mask_iff [] key p q h k = ((λ e i lt. absurd (omega arith)), (λ a. refl))
mask-mask_iff (d ∷ ds) key p q h k = (
  (λ e.
      cons-KeyAgrees key p q (length ds)
        (masks_same d (key_at key p) (key_at key q) h.0 (key_at-IsByte key p k)
          (key_at-IsByte key q k) (cc))
        ((mask-mask_iff ds key (p + 1) (q + 1) h.1 k).0 (cc))),
  (λ a.
      let (e, rest) = KeyAgrees-cons key p q (length ds) a in
      ap₂ ◌∷◌ (rw (← e) (bit_xor-bit_xor 8 d (key_at key p) h.0 (key_at-IsByte key p k)))
        ((mask-mask_iff ds key (p + 1) (q + 1) h.1 k).1 rest)),
)
