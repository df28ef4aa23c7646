-- ===== src/Crypto.antt =====
-- pkg/crypto/crypto.go: key pairs, the shared secret, session keys, and the two ciphers of a session.
-- X25519, HKDF and XChaCha20-Poly1305 are third-party packages, and parameters here.
pub mod Library
pub mod Clamp
pub mod Keys
pub mod Traffic
pub mod Nonces
pub mod Toy
pub mod Tests
use hydravpn.Base.{
  ℕ, ◌+◌, ◌%◌, ◌^◌, Bool, true, List, [], ◌∷◌, ◌++◌, ltb, bit_and, bit_or, length, take, drop,
  get_or, set, replicate, Option, none, some, Result, ok, err, ◌>>=◌, ◌>>◌, fail_if, or_err,
  if◌then◌else◌, String,
}
use hydravpn.Base.Bytes.{le_bytes, bytes_eq, read_full}
use Library.{Primitives}

pub record KeyPair : Type 0 where
  pub private_key : List ℕ
  pub public_key : List ℕ

-- A cipher is a value of the AEAD package.
pub record Session (Aead : Type 0) : Type 0 where
  pub send_key : List ℕ
  pub recv_key : List ℕ
  pub send_nonce : ℕ
  pub recv_nonce : ℕ
  pub send_cipher : Aead
  pub recv_cipher : Aead

-- Clamps the first and the last byte of a private key.
unfoldable pub clamp : List ℕ → List ℕ
clamp key =
    let low = set key 0 (bit_and (get_or key 0 0) 248) in
    let cut = set low 31 (bit_and (get_or low 31 0) 127) in set cut 31 (bit_or (get_or cut 31 0) 64)

-- The ASCII codes of "hydravpn-session-keys".
abbrev pub key_info : List ℕ
key_info =
    104 ∷ 121 ∷ 100 ∷ 114 ∷ 97 ∷ 118 ∷ 112 ∷ 110 ∷ 45 ∷ 115 ∷ 101 ∷ 115 ∷ 115 ∷ 105 ∷ 111 ∷ 110 ∷ 45
    ∷ 107 ∷ 101 ∷ 121 ∷ 115 ∷ []

-- What `io.ReadFull(rand.Reader, …)` fills a buffer with, or its failure.
abbrev pub Random : Type 0
Random = Option (List ℕ)

abbrev pub draw : Random → Result (List ℕ)
draw r = or_err r "random source failed"

module _ {Aead : Type 0} (lib : Primitives Aead) where
  unfoldable pub generate_key_pair : Random → Result KeyPair
  unfolding clamp
  generate_key_pair random = do
    bytes ← draw random
    ok (record { private_key = clamp bytes; public_key = lib.scalar_base_mult (clamp bytes) })

  unfoldable pub compute_shared_secret : List ℕ → List ℕ → Result (List ℕ)
  compute_shared_secret private_key peer_public_key = do
    let shared_secret = lib.scalar_mult private_key peer_public_key
    fail_if (bytes_eq shared_secret (replicate 32 0)) "invalid shared secret: low-order point"
    ok shared_secret

  unfoldable pub derive_session_keys : List ℕ → Bool → List ℕ → Result (Session Aead)
  unfolding read_full
  derive_session_keys shared_secret is_initiator salt = do
    (key1, rest) ← read_full 32 (lib.hkdf shared_secret salt key_info)
    (key2, _) ← read_full 32 rest
    let send_key = if is_initiator then key1 else key2
    let recv_key = if is_initiator then key2 else key1
    send_cipher ← lib.new_x send_key
    recv_cipher ← lib.new_x recv_key
    ok (record {
      send_key = send_key;
      recv_key = recv_key;
      send_nonce = 0;
      recv_nonce = 0;
      send_cipher = send_cipher;
      recv_cipher = recv_cipher;
    })

  -- The counter moves on also where the random source fails.
  unfoldable pub encrypt : Session Aead → Random → List ℕ → Session Aead × Result (List ℕ)
  encrypt s random plaintext = (
    record s { send_nonce = (s.send_nonce + 1) % 2 ^ 64 },
    (do
      bytes ← draw random
      let nonce = le_bytes 8 s.send_nonce ++ bytes
      ok (nonce ++ lib.seal s.send_cipher nonce plaintext)),
  )

  unfoldable pub decrypt : Session Aead → List ℕ → Session Aead × Result (List ℕ)
  decrypt s ciphertext =
      if ltb (length ciphertext) 24
      then (s, err "ciphertext too short")
      else elim (lib.open_box s.recv_cipher (take 24 ciphertext) (drop 24 ciphertext)) [
        | ok plaintext ↦ (record s { recv_nonce = (s.recv_nonce + 1) % 2 ^ 64 }, ok plaintext)
        | err e ↦ (s, err e)
      ]

-- `GenerateRandomBytes`: the argument is the number of bytes asked for.
unfoldable pub generate_random_bytes : ℕ → (ℕ → Random) → Result (List ℕ)
generate_random_bytes n source = draw (source n)
