-- ===== src/Crypto/Traffic.antt =====
-- What one end of a session encrypts, the other decrypts.
use hydravpn.Base.{
  ℕ, ◌+◌, ◌%◌, ◌^◌, ◌<◌, ◌≡◌, ◌⊎◌, String, refl, ap, false, List, ◌++◌, arith, ltb, length, take,
  drop, length-append, take-append, drop-append, some, ok, err,
}
use hydravpn.Base.Bytes.{le_bytes, length-le_bytes}
use hydravpn.Crypto.{Session, encrypt, decrypt}
use hydravpn.Crypto.Library.{Primitives, IsDocumented}
use hydravpn.Crypto.Keys.{IsPeer}

module _ {Aead : Type 0} (lib : Primitives Aead) (doc : IsDocumented lib) where
  -- What was sealed for a session under a nonce of 24 bytes.
  pub decrypt-sealed :
      (b : Session Aead) (nonce plaintext : List ℕ)
      → length nonce ≡ 24
      → decrypt lib b (nonce ++ lib.seal b.recv_cipher nonce plaintext)
        ≡ (record b { recv_nonce = (b.recv_nonce + 1) % 2 ^ 64 }, ok plaintext)
  unfolding decrypt
  decrypt-sealed b nonce plaintext len =
      let box = lib.seal b.recv_cipher nonce plaintext in
      let long : ltb (length (nonce ++ box)) 24 ≡ false = ground (arith, length-append nonce box) in
      rw (
        long,
        take-append 24 nonce box len,
        drop-append 24 nonce box len,
        doc.opens b.recv_cipher nonce plaintext len,
      )

  -- A message that one end encrypts under any 16 random bytes is decrypted by its peer to the same
  -- plaintext, in whatever state the counters are; the ends stay peers, the sender's counter has
  -- moved on by one and so has the receiver's.
  pub decrypt-encrypt :
      (a b : Session Aead) (random plaintext : List ℕ)
      → IsPeer a b
      → length random ≡ 16
      → (ciphertext : List ℕ) × ((encrypt lib a (some random) plaintext).1 ≡ ok ciphertext)
        × ((decrypt lib b ciphertext).1 ≡ ok plaintext)
        × IsPeer (encrypt lib a (some random) plaintext).0 (decrypt lib b ciphertext).0
        × ((decrypt lib b ciphertext).0.recv_nonce ≡ (b.recv_nonce + 1) % 2 ^ 64)
  unfolding encrypt
  decrypt-encrypt a b random plaintext peer size =
      let nonce = le_bytes 8 a.send_nonce ++ random in
      let box = lib.seal a.send_cipher nonce plaintext in
      let len : length nonce ≡ 24 =
        omega
          (arith, length-append (le_bytes 8 a.send_nonce) random, length-le_bytes 8 a.send_nonce) in
      let done : decrypt lib b (nonce ++ box)
          ≡ (record b { recv_nonce = (b.recv_nonce + 1) % 2 ^ 64 }, ok plaintext) =
        rw peer.there (decrypt-sealed b nonce plaintext len) in
      (
        nonce ++ box,
        refl,
        ap (λ r. r.1) done,
        rw done (record {
          there = peer.there;
          back = peer.back;
          there_key = peer.there_key;
          back_key = peer.back_key;
        }),
        ap (λ r. r.0.recv_nonce) done,
      )

  -- A sealed message is 40 bytes longer than its plaintext.
  pub length-encrypt :
      (a : Session Aead) (random plaintext : List ℕ) {ciphertext : List ℕ}
      → length random ≡ 16
      → (encrypt lib a (some random) plaintext).1 ≡ ok ciphertext
      → length ciphertext ≡ length plaintext + 40
  unfolding encrypt
  length-encrypt a random plaintext {ciphertext} size h =
      let nonce = le_bytes 8 a.send_nonce ++ random in
      let box = lib.seal a.send_cipher nonce plaintext in
      let whole : nonce ++ box ≡ ciphertext = cc in
      omega (
        arith,
        ap length whole,
        length-append nonce box,
        length-append (le_bytes 8 a.send_nonce) random,
        length-le_bytes 8 a.send_nonce,
        doc.seal_size a.send_cipher nonce plaintext,
      )

-- Every refusal: a text that is too short for a nonce, or one that does not open. Neither changes
-- the session.
module _ {Aead : Type 0} (lib : Primitives Aead) where
  pub decrypt_refuses :
      (s : Session Aead) (ciphertext : List ℕ) {e : String}
      → (decrypt lib s ciphertext).1 ≡ err e
      → ((decrypt lib s ciphertext).0 ≡ s)
        × ((length ciphertext < 24)
            ⊎ (lib.open_box s.recv_cipher (take 24 ciphertext) (drop 24 ciphertext) ≡ err e))
  unfolding decrypt
  decrypt_refuses s ciphertext h = ground arith
