-- ===== src/Protocol/Reject.antt =====
-- What `UnmarshalPacket` refuses, and with which error.
use hydravpn.Base.{
  ℕ, ◌+◌, ◌^◌, ◌≤◌, ◌<◌, ◌≡◌, ◌≢◌, ◌⊎◌, inl, inr, refl, List, arith, length, dec_lt, ℕ_discrete,
  get_or, ◌++◌, append_assoc, length-append, Result, ok, err,
}
use hydravpn.Base.Bytes.{be_value}
use hydravpn.Base.Slices.{slice}
use hydravpn.Protocol.{
  Packet, header_size, magic_byte1, magic_byte2, protocol_version, new_packet, marshal,
  unmarshal_packet,
}
use hydravpn.Protocol.RoundTrip.{
  IsWire, IsAccepted, read_packet, IsAccepted-unmarshal_packet, length-marshal, marshal_head,
  marshal-len,
}

-- The verdicts on a buffer, in the order of the checks: a short buffer first, then the magic, the
-- version and the length; with none of these faults the buffer is accepted.
pub data Verdict (buf : List ℕ) (r : Result Packet) : Type 0 where
  too_short : length buf < header_size → r ≡ err "packet too short" → Verdict buf r
  bad_magic :
      header_size ≤ length buf
      → (get_or buf 0 0 ≢ magic_byte1) ⊎ (get_or buf 1 0 ≢ magic_byte2)
      → r ≡ err "invalid magic bytes"
      → Verdict buf r
  bad_version :
      header_size ≤ length buf
      → get_or buf 0 0 ≡ magic_byte1
      → get_or buf 1 0 ≡ magic_byte2
      → get_or buf 2 0 ≢ protocol_version
      → r ≡ err "unsupported protocol version"
      → Verdict buf r
  bad_length :
      header_size ≤ length buf
      → get_or buf 0 0 ≡ magic_byte1
      → get_or buf 1 0 ≡ magic_byte2
      → get_or buf 2 0 ≡ protocol_version
      → be_value (slice 12 14 buf) + header_size ≢ length buf
      → r ≡ err "payload length mismatch"
      → Verdict buf r
  accepted : (p : Packet) → IsAccepted buf p → r ≡ ok p → Verdict buf r

after_version :
    (buf : List ℕ)
    → header_size ≤ length buf
    → get_or buf 0 0 ≡ magic_byte1
    → get_or buf 1 0 ≡ magic_byte2
    → get_or buf 2 0 ≡ protocol_version
    → Verdict buf (unmarshal_packet buf)
after_version buf h m n v =
    elim (ℕ_discrete (be_value (slice 12 14 buf) + header_size) (length buf)) [
      | yes l ↦
          let a : IsAccepted buf (read_packet buf) = record {
            size = h;
            magic0 = m;
            magic1 = n;
            version = v;
            len = l;
            packet = refl;
          } in
          accepted (read_packet buf) a (IsAccepted-unmarshal_packet buf a)
      | no l ↦ bad_length h m n v l (unfold unmarshal_packet in ground arith)
    ]

after_magic :
    (buf : List ℕ)
    → header_size ≤ length buf
    → get_or buf 0 0 ≡ magic_byte1
    → get_or buf 1 0 ≡ magic_byte2
    → Verdict buf (unmarshal_packet buf)
after_magic buf h m n = elim (ℕ_discrete (get_or buf 2 0) protocol_version) [
  | yes v ↦ after_version buf h m n v
  | no v ↦ bad_version h m n v (unfold unmarshal_packet in ground arith)
]

after_size : (buf : List ℕ) → header_size ≤ length buf → Verdict buf (unmarshal_packet buf)
after_size buf h = elim (ℕ_discrete (get_or buf 0 0) magic_byte1) [
  | yes m ↦ elim (ℕ_discrete (get_or buf 1 0) magic_byte2) [
    | yes n ↦ after_magic buf h m n
    | no n ↦ bad_magic h (inr n) (unfold unmarshal_packet in ground arith)
  ]
  | no m ↦ bad_magic h (inl m) (unfold unmarshal_packet in ground arith)
]

-- `UnmarshalPacket` gives exactly the verdict of the first check that fails, and the packet that
-- stands in the buffer where none fails.
pub unmarshal_packet-Verdict : (buf : List ℕ) → Verdict buf (unmarshal_packet buf)
unmarshal_packet-Verdict buf = elim (dec_lt (length buf) header_size) [
  | yes short ↦ too_short short (unfold unmarshal_packet in ground arith)
  | no full ↦ after_size buf (omega arith)
]

-- A payload of 2 ^ 16 bytes or more is sent with a length field that has wrapped, and the receiver
-- refuses the packet.
pub unmarshal_packet_oversized :
    (packet_type session_id : ℕ) (payload : List ℕ)
    → 2 ^ 16 ≤ length payload
    → unmarshal_packet (marshal (new_packet packet_type session_id payload))
      ≡ err "payload length mismatch"
unfolding unmarshal_packet new_packet
unmarshal_packet_oversized packet_type session_id payload h =
    let p = new_packet packet_type session_id payload in
    ground (arith, marshal_head p, length-marshal p, marshal-len p (omega arith))

-- A packet with the magic, the version and the length of its payload is refused as soon as other bytes
-- follow it in the same buffer, as they may where a byte stream joins two writes.
pub unmarshal_packet_joined :
    (p : Packet) (rest : List ℕ)
    → IsWire p
    → 0 < length rest
    → unmarshal_packet (marshal p ++ rest) ≡ err "payload length mismatch"
unmarshal_packet_joined p rest w h =
    let q : Packet = record p { payload = p.payload ++ rest } in
    let joined : marshal p ++ rest ≡ marshal q =
      unfold marshal in rw (append_assoc, append_assoc) refl in
    rw joined (
      unfold unmarshal_packet in
      ground (
        arith,
        marshal_head q,
        length-marshal q,
        length-append p.payload rest,
        marshal-len q w.small,
        w.len,
        w.magic,
        w.version,
      ))
