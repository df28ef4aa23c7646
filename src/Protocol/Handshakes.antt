-- ===== src/Protocol/Handshakes.antt =====
-- Round trips of the two handshake messages.
use hydravpn.Base.{
  ℕ, ◌+◌, ◌≡◌, refl, ap, ◌∙◌, List, ◌∷◌, ◌++◌, arith, false, ltb, length, get_or, length-append,
  append_assoc, ok,
}
use hydravpn.Base.Bytes.{be_bytes, be_value, length-be_bytes, be_value-be_bytes}
use hydravpn.Base.Slices.{slice, slice_past, slice_prefix, get_or_past}
use hydravpn.Base.Int.{to_uint64, to_uint64-lt, to_int64-to_uint64}
use hydravpn.Protocol.{
  HandshakeInit, HandshakeResponse, IsHandshakeInit, IsHandshakeResponse, marshal_handshake_init,
  unmarshal_handshake_init, marshal_handshake_response, unmarshal_handshake_response,
}

-- The field that follows `xs` in a buffer, as it is read by its offsets.
slice_field :
    (lo hi : ℕ) (xs ys zs : List ℕ)
    → length xs ≡ lo
    → lo + length ys ≡ hi
    → slice lo hi (xs ++ (ys ++ zs)) ≡ ys
slice_field lo hi xs ys zs p q =
    slice_past lo hi 0 (length ys) xs (ys ++ zs) (omega arith) (omega arith)
    ∙ slice_prefix (length ys) ys zs refl

pub length-init : (h : HandshakeInit) → IsHandshakeInit h → length (marshal_handshake_init h) ≡ 72
unfolding marshal_handshake_init
length-init h v =
    let time = be_bytes 8 (to_uint64 h.timestamp) in
    omega (
      arith,
      length-be_bytes 8 (to_uint64 h.timestamp),
      length-append h.client_public_key (time ++ h.random_padding),
      length-append time h.random_padding,
    )

-- A handshake init is read back from its bytes, whatever follows them.
pub unmarshal-marshal_handshake_init :
    (h : HandshakeInit) (rest : List ℕ)
    → IsHandshakeInit h
    → unmarshal_handshake_init (marshal_handshake_init h ++ rest) ≡ ok h
unfolding unmarshal_handshake_init
unmarshal-marshal_handshake_init h rest v =
    let key = h.client_public_key in
    let time = be_bytes 8 (to_uint64 h.timestamp) in
    let pad = h.random_padding in
    let len : length time ≡ 8 = length-be_bytes 8 _ in
    let split : marshal_handshake_init h ++ rest ≡ key ++ (time ++ (pad ++ rest)) =
      unfold marshal_handshake_init in rw (append_assoc, append_assoc) in
    let third : slice 40 72 (key ++ (time ++ (pad ++ rest))) ≡ pad =
      slice_past 40 72 8 40 key (time ++ (pad ++ rest)) (omega arith) (omega arith)
      ∙ slice_field 8 40 time pad rest len (omega arith) in
    ground (
      arith,
      split,
      length-append (marshal_handshake_init h) rest,
      length-init h v,
      slice_prefix 32 key (time ++ (pad ++ rest)) v.key.size,
      slice_field 32 40 key time (pad ++ rest) v.key.size,
      third,
      be_value-be_bytes 8 (to_uint64 h.timestamp),
      to_uint64-lt h.timestamp,
      to_int64-to_uint64 h.timestamp v.time,
    )

length-response :
    (h : HandshakeResponse) → IsHandshakeResponse h → length (marshal_handshake_response h) ≡ 81
unfolding marshal_handshake_response
length-response h v =
    let id = be_bytes 8 h.session_id in
    let tail = h.subnet ∷ h.random_padding in
    omega (
      arith,
      length-be_bytes 8 h.session_id,
      length-append h.server_public_key (id ++ (h.assigned_ip ++ (h.server_ip ++ tail))),
      length-append id (h.assigned_ip ++ (h.server_ip ++ tail)),
      length-append h.assigned_ip (h.server_ip ++ tail),
      length-append h.server_ip tail,
    )

-- The fields of a handshake response behind the key and the session id, at their offsets there.
response_tail :
    (asg srv pad rest : List ℕ) (mask : ℕ)
    → length asg ≡ 4
    → length srv ≡ 4
    → length pad ≡ 32
    → let buf = asg ++ (srv ++ (mask ∷ (pad ++ rest))) in
      (slice 0 4 buf ≡ asg)
      × (slice 4 8 buf ≡ srv)
      × (get_or buf 8 0 ≡ mask)
      × (slice 9 41 buf ≡ pad)
response_tail asg srv pad rest mask a b c = (
  slice_prefix 4 asg _ a,
  slice_field 4 8 asg srv _ a (omega arith),
  get_or_past 8 4 asg _ (omega arith) ∙ get_or_past 4 0 srv _ (omega arith),
  slice_past 9 41 5 37 asg (srv ++ (mask ∷ (pad ++ rest))) (omega arith) (omega arith)
      ∙ slice_past 5 37 1 33 srv (mask ∷ (pad ++ rest)) (omega arith) (omega arith)
      ∙ slice_prefix 32 pad rest c,
)

-- The same behind the key and the session id.
response_fields :
    (key id tail : List ℕ)
    → length key ≡ 32
    → length id ≡ 8
    → let buf = key ++ (id ++ tail) in
      (slice 0 32 buf ≡ key)
      × (slice 32 40 buf ≡ id)
      × (slice 40 44 buf ≡ slice 0 4 tail)
      × (slice 44 48 buf ≡ slice 4 8 tail)
      × (get_or buf 48 0 ≡ get_or tail 8 0)
      × (slice 49 81 buf ≡ slice 9 41 tail)
response_fields key id tail a b = (
  slice_prefix 32 key (id ++ tail) a,
  slice_field 32 40 key id tail a (omega arith),
  past 40 44 0 4 (omega arith) (omega arith),
  past 44 48 4 8 (omega arith) (omega arith),
  get_or_past 48 16 key _ (omega arith) ∙ get_or_past 16 8 id tail (omega arith),
  past 49 81 9 41 (omega arith) (omega arith),
)
  where
    past :
        (lo hi lo' hi' : ℕ)
        → 40 + lo' ≡ lo
        → 40 + hi' ≡ hi
        → slice lo hi (key ++ (id ++ tail)) ≡ slice lo' hi' tail
    past lo hi lo' hi' p q =
        slice_past lo hi (8 + lo') (8 + hi') key (id ++ tail) (omega arith) (omega arith)
        ∙ slice_past (8 + lo') (8 + hi') lo' hi' id tail (omega arith) (omega arith)

-- A handshake response is read back from its bytes, whatever follows them.
pub unmarshal-marshal_handshake_response :
    (h : HandshakeResponse) (rest : List ℕ)
    → IsHandshakeResponse h
    → unmarshal_handshake_response (marshal_handshake_response h ++ rest) ≡ ok h
unfolding unmarshal_handshake_response
unmarshal-marshal_handshake_response h rest v =
    let key = h.server_public_key in
    let id = be_bytes 8 h.session_id in
    let tail = h.assigned_ip ++ (h.server_ip ++ (h.subnet ∷ (h.random_padding ++ rest))) in
    let split : marshal_handshake_response h ++ rest ≡ key ++ (id ++ tail) =
      unfold marshal_handshake_response in
      rw (append_assoc, append_assoc, append_assoc, append_assoc) in
    let long : ltb (length (key ++ (id ++ tail))) 81 ≡ false = ground (
      arith,
      ap length split,
      length-append (marshal_handshake_response h) rest,
      length-response h v,
    ) in
    let f = response_fields key id tail v.key.size (length-be_bytes 8 _) in
    let g =
      response_tail h.assigned_ip h.server_ip h.random_padding rest h.subnet v.assigned.size
        v.server.size v.padding.size in
    let value : be_value id ≡ h.session_id = be_value-be_bytes 8 h.session_id (omega arith) in
    rw (split, long, f.0, f.1, f.2, f.3, f.4, f.5, g.0, g.1, g.2, g.3, value)

-- A handshake init and a handshake response whose fields have their Go types are read back from their
-- bytes, whatever bytes follow.
pub unmarshal-marshal_handshakes :
    (h : HandshakeInit) (k : HandshakeResponse) (rest : List ℕ)
    → IsHandshakeInit h
    → IsHandshakeResponse k
    → (unmarshal_handshake_init (marshal_handshake_init h ++ rest) ≡ ok h)
      × (unmarshal_handshake_response (marshal_handshake_response k ++ rest) ≡ ok k)
unmarshal-marshal_handshakes h k rest v w =
    (unmarshal-marshal_handshake_init h rest v, unmarshal-marshal_handshake_response k rest w)
