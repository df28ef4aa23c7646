-- ===== src/Protocol/Typed.antt =====
-- What is read from a buffer of bytes has its Go types, and is written back as it stood there.
use hydravpn.Base.{
  ℕ, zero, suc, ◌+◌, ◌-◌, ◌^◌, ◌≤◌, ◌<◌, ◌≡◌, refl, sym, ap, ◌∙◌, List, [], ◌∷◌, ◌++◌, arith, ltb,
  length, get_or, length-drop, All-drop, Bool-cases, Result-cases, inl, inr, Result, ok, err,
}
use hydravpn.Base.Bytes.{
  IsByte, IsBytes, IsArray, be_bytes, be_value, be_value-lt, be_bytes-be_value,
}
use hydravpn.Base.Int.{to_uint64, to_int64, to_uint64-to_int64, to_int64-IsInt64}
use hydravpn.Base.Slices.{slice, length-slice, All-slice, slice-append-slice}
use hydravpn.Protocol.{
  Packet, IsHandshakeInit, IsHandshakeResponse, header_size, unmarshal_packet,
  marshal_handshake_init, unmarshal_handshake_init, marshal_handshake_response,
  unmarshal_handshake_response,
}
use hydravpn.Protocol.RoundTrip.{IsWire, unmarshal_packet-IsAccepted}

-- What holds of a value that is returned without an error.
abbrev pub OkIs {ℓ κ} : {A : Type ℓ} → (A → Type κ) → Result A → Type κ
OkIs P (ok a) = P a
OkIs P (err e) = Unit

-- A packet whose fields have their Go types, with the header and the length that are accepted.
pub record IsTyped (p : Packet) : Type 0 where
  pub wire : IsWire p
  pub packet_type : IsByte p.header.packet_type
  pub payload : IsBytes p.payload

get_or-IsByte : (i : ℕ) (bs : List ℕ) → IsBytes bs → IsByte (get_or bs i 0)
get_or-IsByte i [] h = omega arith
get_or-IsByte zero (b ∷ bs) h = h.0
get_or-IsByte (suc i) (b ∷ bs) h = get_or-IsByte i bs h.1

slice-IsArray :
    (lo hi n : ℕ) (buf : List ℕ)
    → lo + n ≡ hi
    → hi ≤ length buf
    → IsBytes buf
    → IsArray n (slice lo hi buf)
slice-IsArray lo hi n buf e long bytes = record {
  size = omega (arith, length-slice lo hi buf (omega arith) long);
  bytes = All-slice IsByte lo hi buf bytes;
}

slice-value-lt :
    (lo hi n : ℕ) (buf : List ℕ)
    → lo + n ≡ hi
    → hi ≤ length buf
    → IsBytes buf
    → be_value (slice lo hi buf) < 256 ^ n
slice-value-lt lo hi n buf e long bytes =
    let a = slice-IsArray lo hi n buf e long bytes in
    rw (← a.size) (be_value-lt (slice lo hi buf) a.bytes)

unmarshal_packet-IsTyped : (buf : List ℕ) → IsBytes buf → OkIs IsTyped (unmarshal_packet buf)
unmarshal_packet-IsTyped buf bytes = elim (Result-cases (unmarshal_packet buf)) [
  | inl (e, h) ↦ rw h tt
  | inr (p, h) ↦
      let a = unmarshal_packet-IsAccepted buf {p = p} h in
      let session = slice-value-lt 4 12 8 buf refl (omega arith) bytes in
      let len = slice-value-lt 12 14 2 buf refl (omega arith) bytes in
      rw (h, a.packet)
        (record {
          wire = record {
            magic = refl;
            version = refl;
            session = omega (arith, session);
            small = omega (arith, len);
            len = length-drop header_size buf;
          };
          packet_type = get_or-IsByte 3 buf bytes;
          payload = All-drop IsByte header_size buf bytes;
        })
]

unmarshal_init-IsHandshakeInit :
    (buf : List ℕ) → IsBytes buf → OkIs IsHandshakeInit (unmarshal_handshake_init buf)
unfolding unmarshal_handshake_init
unmarshal_init-IsHandshakeInit buf bytes = elim (Bool-cases (ltb (length buf) 72)) [
  | inl e ↦ rw e tt
  | inr e ↦
      let long : 72 ≤ length buf = ground (arith, e) in
      rw e (record {
        key = slice-IsArray 0 32 32 buf refl (omega arith) bytes;
        time =
            to_int64-IsInt64 (be_value (slice 32 40 buf))
              (omega (arith, slice-value-lt 32 40 8 buf refl (omega arith) bytes));
        padding = slice-IsArray 40 72 32 buf refl (omega arith) bytes;
      })
]

unmarshal_response-IsHandshakeResponse :
    (buf : List ℕ) → IsBytes buf → OkIs IsHandshakeResponse (unmarshal_handshake_response buf)
unfolding unmarshal_handshake_response
unmarshal_response-IsHandshakeResponse buf bytes = elim (Bool-cases (ltb (length buf) 81)) [
  | inl e ↦ rw e tt
  | inr e ↦
      let long : 81 ≤ length buf = ground (arith, e) in
      rw e (record {
        key = slice-IsArray 0 32 32 buf refl (omega arith) bytes;
        session = omega (arith, slice-value-lt 32 40 8 buf refl (omega arith) bytes);
        assigned = slice-IsArray 40 44 4 buf refl (omega arith) bytes;
        server = slice-IsArray 44 48 4 buf refl (omega arith) bytes;
        mask = get_or-IsByte 48 buf bytes;
        padding = slice-IsArray 49 81 32 buf refl (omega arith) bytes;
      })
]

-- What is read without an error from a buffer of bytes, by any of the three functions, has its Go
-- types: bytes are below 256, arrays have their sizes, words their widths, a packet the magic, the
-- version and the length of its payload.
pub unmarshal-IsTyped :
    (buf : List ℕ)
    → IsBytes buf
    → OkIs IsTyped (unmarshal_packet buf)
      × OkIs IsHandshakeInit (unmarshal_handshake_init buf)
      × OkIs IsHandshakeResponse (unmarshal_handshake_response buf)
unmarshal-IsTyped buf bytes = (
  unmarshal_packet-IsTyped buf bytes,
  unmarshal_init-IsHandshakeInit buf bytes,
  unmarshal_response-IsHandshakeResponse buf bytes,
)

slice_one : (i j : ℕ) (bs : List ℕ) → suc i ≡ j → j ≤ length bs → slice i j bs ≡ get_or bs i 0 ∷ []
slice_one zero j [] e h = absurd (omega arith)
slice_one zero j (b ∷ bs) e h = let one : j - 0 ≡ suc 0 = omega arith in rw one refl
slice_one (suc i) j [] e h = absurd (omega arith)
slice_one (suc i) j (b ∷ bs) e h =
    let back : j - suc i ≡ suc i - i = omega arith in
    rw back (slice_one i (suc i) bs refl (omega arith))

word_back :
    (lo hi : ℕ) (buf : List ℕ)
    → lo + 8 ≡ hi
    → hi ≤ length buf
    → IsBytes buf
    → be_bytes 8 (be_value (slice lo hi buf)) ≡ slice lo hi buf
word_back lo hi buf e long bytes =
    let a = slice-IsArray lo hi 8 buf e long bytes in
    be_bytes-be_value 8 (slice lo hi buf) a.size a.bytes

init_back :
    (buf : List ℕ)
    → IsBytes buf
    → OkIs (λ h. marshal_handshake_init h ≡ slice 0 72 buf) (unmarshal_handshake_init buf)
unfolding unmarshal_handshake_init marshal_handshake_init
init_back buf bytes = elim (Bool-cases (ltb (length buf) 72)) [
  | inl e ↦ rw e tt
  | inr e ↦
      let long : 72 ≤ length buf = ground (arith, e) in
      let time : be_bytes 8 (to_uint64 (to_int64 (be_value (slice 32 40 buf)))) ≡ slice 32 40 buf =
        ap (be_bytes 8) (
          to_uint64-to_int64 (be_value (slice 32 40 buf))
            (omega (arith, slice-value-lt 32 40 8 buf refl (omega arith) bytes)))
        ∙ word_back 32 40 buf refl (omega arith) bytes in
      rw (e, time)
        (ap (◌++◌ (slice 0 32 buf)) (slice-append-slice 32 40 72 buf (omega arith) (omega arith))
          ∙ slice-append-slice 0 32 72 buf (omega arith) (omega arith))
]

response_back :
    (buf : List ℕ)
    → IsBytes buf
    → OkIs (λ h. marshal_handshake_response h ≡ slice 0 81 buf) (unmarshal_handshake_response buf)
unfolding unmarshal_handshake_response marshal_handshake_response
response_back buf bytes = elim (Bool-cases (ltb (length buf) 81)) [
  | inl e ↦ rw e tt
  | inr e ↦
      let long : 81 ≤ length buf = ground (arith, e) in
      let id = word_back 32 40 buf refl (omega arith) bytes in
      let mask : slice 48 49 buf ≡ get_or buf 48 0 ∷ [] = slice_one 48 49 buf refl (omega arith) in
      let tail : get_or buf 48 0 ∷ slice 49 81 buf ≡ slice 48 81 buf =
        ap (λ xs. xs ++ slice 49 81 buf) (sym mask)
        ∙ slice-append-slice 48 49 81 buf (omega arith) (omega arith) in
      rw (e, id, tail)
        (ap (λ xs. slice 0 32 buf ++ (slice 32 40 buf ++ (slice 40 44 buf ++ xs)))
            (slice-append-slice 44 48 81 buf (omega arith) (omega arith))
          ∙ ap (λ xs. slice 0 32 buf ++ (slice 32 40 buf ++ xs))
              (slice-append-slice 40 44 81 buf (omega arith) (omega arith))
          ∙ ap (λ xs. slice 0 32 buf ++ xs)
              (slice-append-slice 32 40 81 buf (omega arith) (omega arith))
          ∙ slice-append-slice 0 32 81 buf (omega arith) (omega arith))
]

-- A handshake message that is read from a buffer of bytes is written back as the first 72 bytes of the
-- buffer, or the first 81 for a response: nothing of them is lost, and what follows is ignored.
pub marshal-unmarshal_handshakes :
    (buf : List ℕ)
    → IsBytes buf
    → OkIs (λ h. marshal_handshake_init h ≡ slice 0 72 buf) (unmarshal_handshake_init buf)
      × OkIs (λ h. marshal_handshake_response h ≡ slice 0 81 buf) (unmarshal_handshake_response buf)
marshal-unmarshal_handshakes buf bytes = (init_back buf bytes, response_back buf bytes)
