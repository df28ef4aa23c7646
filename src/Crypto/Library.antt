-- ===== src/Crypto/Library.antt =====
-- The third-party packages under pkg/crypto, as the operations that the code calls, and what their
-- documentation says of them.
use hydravpn.Base.{ℕ, ◌+◌, ◌≤◌, ◌≡◌, List, length, Result, ok}
use hydravpn.Base.Bytes.{IsArray}

-- curve25519, hkdf and chacha20poly1305. `hkdf` yields the bytes that its reader gives before it
-- ends; `seal` the sealed text that `Seal` appends to its first argument.
pub record Primitives (Aead : Type 0) : Type 0 where
  pub scalar_base_mult : List ℕ → List ℕ
  pub scalar_mult : List ℕ → List ℕ → List ℕ
  pub hkdf : List ℕ → List ℕ → List ℕ → List ℕ
  pub new_x : List ℕ → Result Aead
  pub seal : Aead → List ℕ → List ℕ → List ℕ
  pub open_box : Aead → List ℕ → List ℕ → Result (List ℕ)

-- Documented behaviour: X25519 makes a shared secret and its values are 32 bytes; HKDF with SHA-256
-- yields up to 255 blocks of 32 bytes; `NewX` takes keys of 32 bytes; what was sealed opens under
-- the same 24-byte nonce, and is longer by 16 bytes.
pub record IsDocumented {Aead : Type 0} (lib : Primitives Aead) : Type 0 where
  pub agrees :
      (a b : List ℕ)
      → lib.scalar_mult a (lib.scalar_base_mult b) ≡ lib.scalar_mult b (lib.scalar_base_mult a)
  pub base_size : (a : List ℕ) → IsArray 32 (lib.scalar_base_mult a)
  pub hkdf_size : (secret salt info : List ℕ) → 8160 ≤ length (lib.hkdf secret salt info)
  pub accepts : (key : List ℕ) → length key ≡ 32 → (c : Aead) × (lib.new_x key ≡ ok c)
  pub opens :
      (c : Aead) (nonce plaintext : List ℕ)
      → length nonce ≡ 24
      → lib.open_box c nonce (lib.seal c nonce plaintext) ≡ ok plaintext
  pub seal_size :
      (c : Aead) (nonce plaintext : List ℕ)
      → length (lib.seal c nonce plaintext) ≡ length plaintext + 16
