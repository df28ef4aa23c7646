-- ===== src/Transport/Obfs.antt =====
-- pkg/transport/obfs.go: the connection that masks its packets with a repeating XOR key. The TLS
-- connection below it is a byte stream: what has still to arrive, and what has been sent.
pub mod Dial
pub mod Mask
pub mod Exchange
pub mod Tests
use hydravpn.Base.{
  ℕ, ◌+◌, ◌%◌, ◌^◌, List, [], ◌∷◌, ◌++◌, ltb, bit_xor, length, take, get_elem?, Option, none, some,
  Result, ok, err, if◌then◌else◌, String,
}
use hydravpn.Base.Bytes.{be_bytes, be_value, read_full}

pub record Connection : Type 0 where
  pub key : List ℕ
  pub key_pos : ℕ
  pub incoming : List ℕ
  pub outgoing : List ℕ

-- Each byte is masked by the key byte at the position, which then moves on and wraps at the end of
-- the key. `none` is the panic of a read outside the key.
unfoldable pub obfuscate : List ℕ → List ℕ → ℕ → Option (List ℕ × ℕ)
obfuscate [] key pos = some ([], pos)
obfuscate (d ∷ ds) key pos = elim (get_elem? key pos) [
  | none ↦ none
  | some k ↦ elim (obfuscate ds key ((pos + 1) % length key)) [
    | none ↦ none
    | some (rest, end) ↦ some (bit_xor d k ∷ rest, end)
  ]
]

-- The second half of `Read`, once the length is known: the data is unmasked from the position at
-- which the length was.
unfoldable pub read_body : Connection → ℕ → ℕ → List ℕ → Option (Connection × Result (List ℕ))
read_body c size len stream = elim (read_full len stream) [
  | err e ↦ some (record c { incoming = [] }, err e)
  | ok (masked, rest) ↦ elim (obfuscate masked c.key c.key_pos) [
    | none ↦ none
    | some (plain, pos) ↦ some (record c { incoming = rest; key_pos = pos }, ok (take size plain))
  ]
]

-- `Read` into a buffer of `size` bytes: the bytes that it is filled with.
unfoldable pub read : Connection → ℕ → Option (Connection × Result (List ℕ))
read c size = elim (read_full 4 c.incoming) [
  | err e ↦ some (record c { incoming = [] }, err e)
  | ok (len_buf, rest) ↦ elim (obfuscate len_buf c.key c.key_pos) [
    | none ↦ none
    | some (plain, _) ↦
        if ltb 65535 (be_value plain)
        then some (record c { incoming = rest }, err "invalid packet length")
        else read_body c size (be_value plain) rest
  ]
]

-- `Write`, where the stream below takes the packet or fails with an error. The position moves on in
-- either case.
unfoldable pub write : Connection → List ℕ → Option String → Option (Connection × Result ℕ)
write c b failure = elim (obfuscate (be_bytes 4 (length b % 2 ^ 32) ++ b) c.key c.key_pos) [
  | none ↦ none
  | some (packet, pos) ↦ elim failure [
    | some e ↦ some (record c { key_pos = pos }, err e)
    | none ↦ some (record c { key_pos = pos; outgoing = c.outgoing ++ packet }, ok (length b))
  ]
]
