-- ===== src/Crypto/Toy.antt =====
-- A transparent stand-in for the third-party packages: it meets what their documentation says.
use hydravpn.Base.{
  ℕ, ◌+◌, ◌%◌, List, ◌++◌, arith, length, take, drop, get_or, replicate, length-replicate,
  length-append, length-take, ◌≡◌, take-append, drop-append, ◌==◌, if◌then◌else◌, ok, err, ap,
}
use hydravpn.Base.Bytes.{replicate-IsBytes, bytes_eq, bytes_eq_iff}
use hydravpn.Crypto.{KeyPair, clamp}
use hydravpn.Crypto.Library.{Primitives, IsDocumented}

-- A cipher is its key, and a sealed text is the start of the key and the plaintext.
abbrev tag : List ℕ → List ℕ
tag c = take 16 (c ++ replicate 16 0)

length-tag : (c : List ℕ) → length (tag c) ≡ 16
length-tag c = omega (
  arith,
  length-take 16 (c ++ replicate 16 0),
  length-append c (replicate 16 0),
  length-replicate {A = ℕ} 16 0,
)

abbrev pub toy : Primitives (List ℕ)
toy = record {
  scalar_base_mult = λ a. replicate 32 (get_or a 0 0 % 256);
  scalar_mult = λ a p. replicate 32 ((get_or a 0 0 + get_or p 0 0) % 256);
  hkdf = λ secret salt info. replicate 32 (get_or secret 0 0) ++ replicate 8160 7;
  new_x = λ key. if length key == 32 then ok key else err "chacha20poly1305: bad key length";
  seal = λ c nonce plaintext. tag c ++ plaintext;
  open_box = λ c nonce box.
      if bytes_eq (take 16 box) (tag c)
      then ok (drop 16 box)
      else err "chacha20poly1305: message authentication failed";
}

pub toy-IsDocumented : IsDocumented toy
toy-IsDocumented = record {
  agrees = λ a b. ap (replicate 32) (omega arith);
  base_size = λ a. record {
    size = length-replicate {A = ℕ} 32 (get_or a 0 0 % 256);
    bytes = replicate-IsBytes 32 _ (omega arith);
  };
  hkdf_size = λ secret salt info. omega (
    arith,
    length-append (replicate 32 (get_or secret 0 0)) (replicate 8160 7),
    length-replicate {A = ℕ} 8160 7,
  );
  accepts = λ key h. (key, ground arith);
  opens = λ c nonce plaintext h. ground (
    arith,
    take-append 16 (tag c) plaintext (length-tag c),
    drop-append 16 (tag c) plaintext (length-tag c),
    bytes_eq_iff (tag c) (tag c),
  );
  seal_size = λ c nonce plaintext. omega (arith, length-append (tag c) plaintext, length-tag c);
}

-- Random draws, and the key pairs of a client and a server.
abbrev pub random_a : List ℕ
random_a = replicate 32 255

abbrev pub random_b : List ℕ
random_b = replicate 32 100

abbrev pub nonce_tail : List ℕ
nonce_tail = replicate 16 3

abbrev pub pair_a : KeyPair
pair_a = record { private_key = clamp random_a; public_key = toy.scalar_base_mult (clamp random_a) }

abbrev pub pair_b : KeyPair
pair_b = record { private_key = clamp random_b; public_key = toy.scalar_base_mult (clamp random_b) }
