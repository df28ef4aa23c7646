-- ===== src/Crypto/Nonces.antt =====
-- The nonces of a run of messages: no two are the same before the 64-bit counter wraps.
use hydravpn.Base.{
  ℕ, zero, suc, ◌+◌, ◌%◌, ◌^◌, ◌<◌, ◌≡◌, ◌≢◌, refl, sym, ap, ◌∙◌, List, [], ◌∷◌, ◌++◌, arith, take,
  get_elem?, take-append, take-take, append_assoc, none, some, Result, ok,
}
use hydravpn.Base.Bytes.{le_bytes, le_value, length-le_bytes, le_value-le_bytes}
use hydravpn.Crypto.{Session, Random, encrypt}
use hydravpn.Crypto.Library.{Primitives}

module _ {Aead : Type 0} (lib : Primitives Aead) where
  -- The results of encrypting messages one after the other, each with its draw of random bytes.
  unfoldable pub encrypt_all : Session Aead → List (Random × List ℕ) → List (Result (List ℕ))
  encrypt_all s [] = []
  encrypt_all s ((random, plaintext) ∷ rest) =
      (encrypt lib s random plaintext).1 ∷ encrypt_all (encrypt lib s random plaintext).0 rest

  encrypt_prefix :
      (s : Session Aead) (random : Random) (plaintext : List ℕ) {c : List ℕ}
      → (encrypt lib s random plaintext).1 ≡ ok c
      → take 8 c ≡ le_bytes 8 s.send_nonce
  unfolding encrypt
  encrypt_prefix s none plaintext h = cc
  encrypt_prefix s (some bytes) plaintext {c} h =
      let box = lib.seal s.send_cipher (le_bytes 8 s.send_nonce ++ bytes) plaintext in
      let e : (le_bytes 8 s.send_nonce ++ bytes) ++ box ≡ c = cc in
      rw (← e, append_assoc) (take-append 8 _ (bytes ++ box) (length-le_bytes 8 s.send_nonce))

  encrypt_next :
      (s : Session Aead) (random : Random) (plaintext : List ℕ)
      → (encrypt lib s random plaintext).0.send_nonce ≡ (s.send_nonce + 1) % 2 ^ 64
  unfolding encrypt
  encrypt_next s random plaintext = refl

  -- The i-th ciphertext starts with the counter's value after i messages.
  nonce_at :
      (i : ℕ) (s : Session Aead) (ms : List (Random × List ℕ)) {c : List ℕ}
      → s.send_nonce < 2 ^ 64
      → get_elem? (encrypt_all s ms) i ≡ some (ok c)
      → take 8 c ≡ le_bytes 8 ((s.send_nonce + i) % 2 ^ 64)
  unfolding encrypt_all
  nonce_at zero s [] b h = cc
  nonce_at (suc i) s [] b h = cc
  nonce_at zero s ((random, plaintext) ∷ ms) {c} b h =
      encrypt_prefix s random plaintext (ground arith) ∙ ap (le_bytes 8) (omega arith)
  nonce_at (suc i) s ((random, plaintext) ∷ ms) {c} b h =
      nonce_at i (encrypt lib s random plaintext).0 ms
        (omega (arith, encrypt_next s random plaintext)) h
      ∙ ap (le_bytes 8) (omega (arith, encrypt_next s random plaintext))

  -- Two messages of a run of fewer than 2 ^ 64 go out under different 24-byte nonces, whatever
  -- random bytes were drawn.
  pub nonces_distinct :
      (i j : ℕ) (s : Session Aead) (ms : List (Random × List ℕ)) {c d : List ℕ}
      → s.send_nonce < 2 ^ 64
      → i < j
      → j < i + 2 ^ 64
      → get_elem? (encrypt_all s ms) i ≡ some (ok c)
      → get_elem? (encrypt_all s ms) j ≡ some (ok d)
      → take 24 c ≢ take 24 d
  nonces_distinct i j s ms {c} {d} b lt near hi hj e =
      let heads : take 8 c ≡ take 8 d =
        sym (take-take 8 24 c (omega arith)) ∙ ap (take 8) e ∙ take-take 8 24 d (omega arith) in
      let counters : (s.send_nonce + i) % 2 ^ 64 ≡ (s.send_nonce + j) % 2 ^ 64 =
        sym (le_value-le_bytes 8 _ (omega arith))
        ∙ ap le_value (sym (nonce_at i s ms b hi) ∙ heads ∙ nonce_at j s ms b hj)
        ∙ le_value-le_bytes 8 _ (omega arith) in
      omega arith
