-- ===== src/Crypto/Keys.antt =====
-- The two ends of a session: the shared secret and the derived keys.
use hydravpn.Base.{
  ℕ, ◌≡◌, ◌≢◌, ◌⊎◌, inl, inr, sym, ◌∙◌, refl, Result, true, false, List, arith, length, take, drop,
  replicate, length-take, length-drop, leb, le→leb, some, ok, err,
}
use hydravpn.Base.Bytes.{bytes_eq_iff}
use hydravpn.Crypto.{
  Session, KeyPair, clamp, key_info, generate_key_pair, compute_shared_secret, derive_session_keys,
}
use hydravpn.Crypto.Library.{Primitives, IsDocumented}

-- What one end sends, the other receives, both ways.
pub record IsPeer {Aead : Type 0} (a b : Session Aead) : Type 0 where
  pub there : a.send_cipher ≡ b.recv_cipher
  pub back : b.send_cipher ≡ a.recv_cipher
  pub there_key : a.send_key ≡ b.recv_key
  pub back_key : b.send_key ≡ a.recv_key

pub IsPeer-sym : {Aead : Type 0} {a b : Session Aead} → IsPeer a b → IsPeer b a
IsPeer-sym v = record {
  there = v.back;
  back = v.there;
  there_key = v.back_key;
  back_key = v.there_key;
}

abbrev fresh_session : {Aead : Type 0} → List ℕ → List ℕ → Aead → Aead → Session Aead
fresh_session send_key recv_key send_cipher recv_cipher = record {
  send_key = send_key;
  recv_key = recv_key;
  send_nonce = 0;
  recv_nonce = 0;
  send_cipher = send_cipher;
  recv_cipher = recv_cipher;
}

module _ {Aead : Type 0} (lib : Primitives Aead) where
  -- The secret is the point computed, and a low-order point is refused.
  pub compute_shared_secret_cases :
      (private_key peer : List ℕ)
      → ((lib.scalar_mult private_key peer ≡ replicate 32 0)
          × (compute_shared_secret lib private_key peer
              ≡ err "invalid shared secret: low-order point"))
        ⊎ ((lib.scalar_mult private_key peer ≢ replicate 32 0)
            × (compute_shared_secret lib private_key peer ≡ ok (lib.scalar_mult private_key peer)))
  unfolding compute_shared_secret
  compute_shared_secret_cases private_key peer =
      ground (arith, bytes_eq_iff (lib.scalar_mult private_key peer) (replicate 32 0))

module _ {Aead : Type 0} (lib : Primitives Aead) (doc : IsDocumented lib) where
  -- The two ends of an exchange compute the same secret, or both refuse.
  pub compute_shared_secret_agrees :
      (r s : List ℕ) {kp kq : KeyPair}
      → generate_key_pair lib (some r) ≡ ok kp
      → generate_key_pair lib (some s) ≡ ok kq
      → compute_shared_secret lib kp.private_key kq.public_key
        ≡ compute_shared_secret lib kq.private_key kp.public_key
  unfolding compute_shared_secret generate_key_pair
  compute_shared_secret_agrees r s {kp} {kq} p q = ground (arith, doc.agrees (clamp r) (clamp s))

  -- Both roles derive a session from any secret and salt, and the two sessions are peers: what the
  -- initiator sends with, the responder receives with, and the other way round. Counters start at 0.
  pub derive_session_keys-IsPeer :
      (secret salt : List ℕ)
      → (a : Session Aead) × (b : Session Aead) × (derive_session_keys lib secret true salt ≡ ok a)
        × (derive_session_keys lib secret false salt ≡ ok b)
        × IsPeer a b
        × (a.send_nonce ≡ 0)
        × (b.send_nonce ≡ 0)
  unfolding derive_session_keys
  derive_session_keys-IsPeer secret salt =
      let stream = lib.hkdf secret salt key_info in
      let size = doc.hkdf_size secret salt key_info in
      let key1 = take 32 stream in
      let key2 = take 32 (drop 32 stream) in
      let first : leb 32 (length stream) ≡ true = le→leb 32 (length stream) (omega arith) in
      let second : leb 32 (length (drop 32 stream)) ≡ true =
        le→leb 32 (length (drop 32 stream)) (omega (arith, length-drop 32 stream)) in
      let (c1, e1) = doc.accepts key1 (omega (arith, length-take 32 stream)) in
      let (c2, e2) =
        doc.accepts key2 (omega (arith, length-take 32 (drop 32 stream), length-drop 32 stream)) in
      (
        fresh_session key1 key2 c1 c2,
        fresh_session key2 key1 c2 c1,
        rw (first, second, e1, e2),
        rw (first, second, e1, e2),
        record { there = refl; back = refl; there_key = refl; back_key = refl },
        refl,
        refl,
      )

  -- Of two generated key pairs, each end computes the shared secret from its own private key and the
  -- other's public key. Either the point is the low-order one, and both ends refuse it with that
  -- error; or it is not, both compute it, and the keys that one end derives from it as the initiator
  -- and the other as the responder, with the secret as salt, make peer sessions.
  pub exchange-IsPeer :
      (r s : List ℕ) {kp kq : KeyPair}
      → generate_key_pair lib (some r) ≡ ok kp
      → generate_key_pair lib (some s) ≡ ok kq
      → let secret = lib.scalar_mult kp.private_key kq.public_key in
        let refused : Result (List ℕ) = err "invalid shared secret: low-order point" in
        ((secret ≡ replicate 32 0)
          × (compute_shared_secret lib kp.private_key kq.public_key ≡ refused)
          × (compute_shared_secret lib kq.private_key kp.public_key ≡ refused))
        ⊎ ((secret ≢ replicate 32 0)
            × (compute_shared_secret lib kp.private_key kq.public_key ≡ ok secret)
            × (compute_shared_secret lib kq.private_key kp.public_key ≡ ok secret)
            × (a b : Session Aead) × (derive_session_keys lib secret true secret ≡ ok a)
            × (derive_session_keys lib secret false secret ≡ ok b)
            × IsPeer a b)
  exchange-IsPeer r s {kp} {kq} p q =
      let secret = lib.scalar_mult kp.private_key kq.public_key in
      let same = compute_shared_secret_agrees r s {kp = kp} {kq = kq} p q in
      elim (compute_shared_secret_cases lib kp.private_key kq.public_key) [
        | inl (low, refused) ↦ inl (low, refused, sym same ∙ refused)
        | inr (point, computed) ↦
            let (a, b, first, second, peers, _, _) = derive_session_keys-IsPeer secret secret in
            inr (point, computed, sym same ∙ computed, a, b, first, second, peers)
      ]
