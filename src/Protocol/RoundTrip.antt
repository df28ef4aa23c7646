-- ===== src/Protocol/RoundTrip.antt =====
-- Round trips of `Marshal` and `UnmarshalPacket`.
use hydravpn.Base.{
  ℕ, ◌+◌, ◌-◌, ◌^◌, ◌≤◌, ◌<◌, ◌≡◌, refl, sym, ap, ◌∙◌, List, [], ◌∷◌, ◌++◌, arith, length, drop,
  get_or, length-append, length-drop, take-append-drop, take_all, drop-append, ok,
}
use hydravpn.Base.Bytes.{
  IsByte, IsBytes, be_bytes, be_value, length-be_bytes, be_value-be_bytes, be_bytes-be_value,
}
use hydravpn.Base.Slices.{
  slice, drop-drop, slice_past, slice_prefix, drop_past, length-slice, All-slice,
}
use hydravpn.Protocol.{
  Packet, header_size, magic_byte1, magic_byte2, protocol_version, new_packet, marshal,
  unmarshal_packet,
}

-- A header that `UnmarshalPacket` accepts, in range, whose length field is the payload's length.
pub record IsWire (p : Packet) : Type 0 where
  pub magic : p.header.magic ≡ (magic_byte1, magic_byte2)
  pub version : p.header.version ≡ protocol_version
  pub session : p.header.session_id < 2 ^ 64
  pub small : p.header.len < 2 ^ 16
  pub len : length p.payload ≡ p.header.len

pub length-marshal : (p : Packet) → length (marshal p) ≡ 14 + length p.payload
unfolding marshal
length-marshal p = omega (
  arith,
  length-append (be_bytes 8 p.header.session_id) (be_bytes 2 p.header.len ++ p.payload),
  length-append (be_bytes 2 p.header.len) p.payload,
  length-be_bytes 8 p.header.session_id,
  length-be_bytes 2 p.header.len,
)

-- The three variable parts of a marshalled packet, at the offsets at which they are read.
marshal-session :
    (p : Packet)
    → p.header.session_id < 2 ^ 64
    → be_value (slice 4 12 (marshal p)) ≡ p.header.session_id
unfolding marshal
marshal-session p h =
    ap be_value (slice_prefix 8 (be_bytes 8 p.header.session_id) _ (length-be_bytes 8 _))
    ∙ be_value-be_bytes 8 p.header.session_id (omega arith)

pub marshal-len :
    (p : Packet) → p.header.len < 2 ^ 16 → be_value (slice 12 14 (marshal p)) ≡ p.header.len
unfolding marshal
marshal-len p h =
    ap be_value (
      slice_past 8 10 0 2 (be_bytes 8 p.header.session_id) _
        (omega (arith, length-be_bytes 8 p.header.session_id))
        (omega (arith, length-be_bytes 8 p.header.session_id))
      ∙ slice_prefix 2 (be_bytes 2 p.header.len) _ (length-be_bytes 2 _))
    ∙ be_value-be_bytes 2 p.header.len (omega arith)

marshal-payload : (p : Packet) → drop 14 (marshal p) ≡ p.payload
unfolding marshal
marshal-payload p =
    drop_past 10 2 (be_bytes 8 p.header.session_id) _
      (omega (arith, length-be_bytes 8 p.header.session_id))
    ∙ drop-append 2 (be_bytes 2 p.header.len) _ (length-be_bytes 2 _)

pub marshal_head :
    (p : Packet)
    → (get_or (marshal p) 0 0 ≡ p.header.magic.0)
      × (get_or (marshal p) 1 0 ≡ p.header.magic.1)
      × (get_or (marshal p) 2 0 ≡ p.header.version)
      × (get_or (marshal p) 3 0 ≡ p.header.packet_type)
unfolding marshal
marshal_head p = (refl, refl, refl, refl)

-- Every packet of this form is read back from its bytes exactly as it was.
pub unmarshal_packet-marshal : (p : Packet) → IsWire p → unmarshal_packet (marshal p) ≡ ok p
unfolding unmarshal_packet
unmarshal_packet-marshal p w = ground (
  arith,
  marshal_head p,
  length-marshal p,
  marshal-session p w.session,
  marshal-len p w.small,
  marshal-payload p,
  take_all p.header.len p.payload (omega arith),
)

-- What `NewPacket` builds from a session id in range and a payload whose length fits the field.
pub new_packet-IsWire :
    (packet_type session_id : ℕ) (payload : List ℕ)
    → session_id < 2 ^ 64
    → length payload < 2 ^ 16
    → IsWire (new_packet packet_type session_id payload)
unfolding new_packet
new_packet-IsWire packet_type session_id payload h l = record {
  magic = refl;
  version = refl;
  session = h;
  small = omega arith;
  len = omega arith;
}

-- The packet that stands in a buffer.
abbrev pub read_packet : List ℕ → Packet
read_packet buf = record {
  header = record {
    magic = (magic_byte1, magic_byte2);
    version = protocol_version;
    packet_type = get_or buf 3 0;
    session_id = be_value (slice 4 12 buf);
    len = length buf - header_size;
  };
  payload = drop header_size buf;
}

-- A buffer that is accepted has a full header, the magic, the version, and exactly as many payload
-- bytes as its length field says; the packet holds what stands at the offsets.
pub record IsAccepted (buf : List ℕ) (p : Packet) : Type 0 where
  pub size : header_size ≤ length buf
  pub magic0 : get_or buf 0 0 ≡ magic_byte1
  pub magic1 : get_or buf 1 0 ≡ magic_byte2
  pub version : get_or buf 2 0 ≡ protocol_version
  pub len : be_value (slice 12 14 buf) + header_size ≡ length buf
  pub packet : p ≡ read_packet buf

pub unmarshal_packet-IsAccepted :
    (buf : List ℕ) {p : Packet} → unmarshal_packet buf ≡ ok p → IsAccepted buf p
unfolding unmarshal_packet
unmarshal_packet-IsAccepted buf h = ground (
  arith,
  length-drop header_size buf,
  take_all (be_value (slice 12 14 buf)) (drop header_size buf),
)

pub IsAccepted-unmarshal_packet :
    (buf : List ℕ) {p : Packet} → IsAccepted buf p → unmarshal_packet buf ≡ ok p
unfolding unmarshal_packet
IsAccepted-unmarshal_packet buf a = ground (
  arith,
  length-drop header_size buf,
  take_all (be_value (slice 12 14 buf)) (drop header_size buf),
)

-- The first four bytes stand before the rest.
four-append-drop :
    (buf : List ℕ)
    → 4 ≤ length buf
    → get_or buf 0 0 ∷ get_or buf 1 0 ∷ get_or buf 2 0 ∷ get_or buf 3 0 ∷ drop 4 buf ≡ buf
four-append-drop [] h = absurd (omega arith)
four-append-drop (a ∷ []) h = absurd (omega arith)
four-append-drop (a ∷ b ∷ []) h = absurd (omega arith)
four-append-drop (a ∷ b ∷ c ∷ []) h = absurd (omega arith)
four-append-drop (a ∷ b ∷ c ∷ d ∷ rest) h = refl

-- The three parts after them.
parts-append : (buf : List ℕ) → slice 4 12 buf ++ (slice 12 14 buf ++ drop 14 buf) ≡ drop 4 buf
parts-append buf =
    ap (◌++◌ (slice 4 12 buf)) (
      ap (◌++◌ (slice 12 14 buf)) (sym (drop-drop 12 2 buf))
      ∙ take-append-drop 2 (drop 12 buf)
      ∙ sym (drop-drop 4 8 buf))
    ∙ take-append-drop 8 (drop 4 buf)

-- A buffer of bytes that is accepted is the marshalled form of the packet read from it: nothing of
-- it is lost, and no two buffers are read as the same packet.
pub marshal-unmarshal_packet :
    (buf : List ℕ) {p : Packet} → IsBytes buf → unmarshal_packet buf ≡ ok p → marshal p ≡ buf
unfolding marshal
marshal-unmarshal_packet buf {p} bytes h =
    let a = unmarshal_packet-IsAccepted buf h in
    let sid : be_bytes 8 (be_value (slice 4 12 buf)) ≡ slice 4 12 buf =
      be_bytes-be_value 8 (slice 4 12 buf) (length-slice 4 12 buf (omega arith) (omega arith))
        (All-slice IsByte 4 12 buf bytes) in
    let field : be_bytes 2 (length buf - 14) ≡ slice 12 14 buf =
      ap (be_bytes 2) (omega arith)
      ∙ be_bytes-be_value 2 (slice 12 14 buf) (length-slice 12 14 buf (omega arith) (omega arith))
          (All-slice IsByte 12 14 buf bytes) in
    rw (a.packet, sid, field, parts-append buf)
      (rw (a.magic0, a.magic1, a.version) at (four-append-drop buf (omega arith)))
