-- ===== src/Crypto/Tests.antt =====
-- Tests of pkg/crypto/crypto.go with a transparent stand-in for the third-party packages.
use hydravpn.Base.{
  Result, ℕ, ◌-◌, ◌^◌, ◌<◌, ◌≡◌, ◌≢◌, refl, true, false, ◌⊎◌, List, [], ◌∷◌, ◌++◌, arith, take,
  drop, replicate, some, ok, err,
}
use hydravpn.Base.Bytes.{bytes_eq, le_bytes}
use hydravpn.Crypto.{
  Session, KeyPair, clamp, generate_key_pair, compute_shared_secret, derive_session_keys, encrypt,
  decrypt,
}
use hydravpn.Crypto.Clamp.{IsScalar, generate_key_pair_lem}
use hydravpn.Crypto.Keys.{
  IsPeer, exchange-IsPeer, compute_shared_secret_cases, derive_session_keys-IsPeer,
}
use hydravpn.Crypto.Traffic.{decrypt-encrypt, decrypt_refuses}
use hydravpn.Crypto.Nonces.{encrypt_all, nonces_distinct}
use hydravpn.Crypto.Toy.{toy, toy-IsDocumented, random_a, random_b, nonce_tail, pair_a, pair_b}

generate_key_pair_lem_example :
    (kp : KeyPair) × (generate_key_pair toy (some random_a) ≡ ok kp)
    × IsScalar kp.private_key
    × (kp.public_key ≡ toy.scalar_base_mult kp.private_key)
generate_key_pair_lem_example = generate_key_pair_lem toy random_a (omega arith)

exchange-IsPeer_example :
    let secret = toy.scalar_mult pair_a.private_key pair_b.public_key in
    let refused : Result (List ℕ) = err "invalid shared secret: low-order point" in
    ((secret ≡ replicate 32 0)
      × (compute_shared_secret toy pair_a.private_key pair_b.public_key ≡ refused)
      × (compute_shared_secret toy pair_b.private_key pair_a.public_key ≡ refused))
    ⊎ ((secret ≢ replicate 32 0)
        × (compute_shared_secret toy pair_a.private_key pair_b.public_key ≡ ok secret)
        × (compute_shared_secret toy pair_b.private_key pair_a.public_key ≡ ok secret)
        × (a b : Session (List ℕ)) × (derive_session_keys toy secret true secret ≡ ok a)
        × (derive_session_keys toy secret false secret ≡ ok b)
        × IsPeer a b)
unfolding generate_key_pair
exchange-IsPeer_example =
    exchange-IsPeer toy toy-IsDocumented random_a random_b {kp = pair_a} {kq = pair_b} refl refl

shared : compute_shared_secret toy pair_a.private_key pair_b.public_key ≡ ok (replicate 32 88)
unfolding compute_shared_secret bytes_eq clamp
shared = refl

low_order : compute_shared_secret toy (0 ∷ []) [] ≡ err "invalid shared secret: low-order point"
unfolding compute_shared_secret bytes_eq
low_order = refl

compute_shared_secret_cases_example :
    ((toy.scalar_mult (0 ∷ []) [] ≡ replicate 32 0)
      × (compute_shared_secret toy (0 ∷ []) [] ≡ err "invalid shared secret: low-order point"))
    ⊎ ((toy.scalar_mult (0 ∷ []) [] ≢ replicate 32 0)
        × (compute_shared_secret toy (0 ∷ []) [] ≡ ok (toy.scalar_mult (0 ∷ []) [])))
compute_shared_secret_cases_example = compute_shared_secret_cases toy (0 ∷ []) []

derive_session_keys-IsPeer_example :
    (a : Session (List ℕ)) × (b : Session (List ℕ)) × (derive_session_keys toy
        (replicate 32 88)
        true
        (replicate 32 88)
      ≡ ok a)
    × (derive_session_keys toy (replicate 32 88) false (replicate 32 88) ≡ ok b)
    × IsPeer a b
    × (a.send_nonce ≡ 0)
    × (b.send_nonce ≡ 0)
derive_session_keys-IsPeer_example =
    derive_session_keys-IsPeer toy toy-IsDocumented (replicate 32 88) (replicate 32 88)

abbrev near_end : Session (List ℕ)
near_end = record {
  send_key = 1 ∷ [];
  recv_key = 2 ∷ [];
  send_nonce = 2 ^ 64 - 1;
  recv_nonce = 0;
  send_cipher = 1 ∷ [];
  recv_cipher = 2 ∷ [];
}

abbrev far_end : Session (List ℕ)
far_end = record {
  send_key = 2 ∷ [];
  recv_key = 1 ∷ [];
  send_nonce = 5;
  recv_nonce = 2 ^ 64 - 1;
  send_cipher = 2 ∷ [];
  recv_cipher = 1 ∷ [];
}

ends-IsPeer : IsPeer near_end far_end
ends-IsPeer = record { there = refl; back = refl; there_key = refl; back_key = refl }

decrypt-encrypt_example :
    (ciphertext : List ℕ) × ((encrypt toy near_end (some nonce_tail) (9 ∷ 8 ∷ [])).1
      ≡ ok ciphertext)
    × ((decrypt toy far_end ciphertext).1 ≡ ok (9 ∷ 8 ∷ []))
    × IsPeer
        (encrypt toy near_end (some nonce_tail) (9 ∷ 8 ∷ [])).0
        (decrypt toy far_end ciphertext).0
    × ((decrypt toy far_end ciphertext).0.recv_nonce ≡ 0)
decrypt-encrypt_example =
    decrypt-encrypt toy toy-IsDocumented near_end far_end nonce_tail (9 ∷ 8 ∷ []) ends-IsPeer
      (omega arith)

decrypt_refuses_example :
    ((decrypt toy far_end (1 ∷ [])).0 ≡ far_end)
    × ((1 < 24)
        ⊎ (toy.open_box (1 ∷ []) (take 24 (1 ∷ [])) (drop 24 (1 ∷ []))
            ≡ err "ciphertext too short"))
unfolding decrypt
decrypt_refuses_example = decrypt_refuses toy far_end (1 ∷ []) refl

abbrev first_text : List ℕ
first_text = replicate 8 255 ++ nonce_tail ++ 1 ∷ (replicate 15 0 ++ 9 ∷ [])

abbrev second_text : List ℕ
second_text = replicate 8 0 ++ nonce_tail ++ 1 ∷ (replicate 15 0 ++ 9 ∷ [])

nonces_distinct_example : take 24 first_text ≢ take 24 second_text
unfolding encrypt_all encrypt le_bytes
nonces_distinct_example =
    nonces_distinct toy 0 1 near_end ((some nonce_tail, 9 ∷ []) ∷ (some nonce_tail, 9 ∷ []) ∷ [])
      {c = first_text} {d = second_text} (omega arith) (omega arith) (omega arith) refl refl
