-- ===== src/Protocol.antt =====
-- pkg/protocol/protocol.go: the packet format and the two handshake messages. A packet on the wire
-- is magic(2), version(1), type(1), session id(8), length(2) and the payload; a [n]byte array is a
-- list whose length and range `IsArray` states. `make` and the writes into disjoint parts of the
-- buffer are the concatenation of those parts.
pub mod PacketType
pub mod RoundTrip
pub mod Reject
pub mod Handshakes
pub mod Framed
pub mod Typed
pub mod Tests
use hydravpn.Base.{
  ℕ, ◌-◌, ◌%◌, ◌^◌, ◌<◌, ◌≡◌, Bool, not, ◌||◌, List, ◌∷◌, ◌++◌, ltb, ◌==◌, length, drop, take,
  get_or, Result, ok, ◌>>=◌, ◌>>◌, fail_if,
}
use hydravpn.Base.Bytes.{be_bytes, be_value, IsByte, IsBytes, IsArray}
use hydravpn.Base.Slices.{slice}
use hydravpn.Base.Int.{ℤ, to_uint64, to_int64, IsInt64}

abbrev pub magic_byte1 : ℕ
magic_byte1 = 0x48

abbrev pub magic_byte2 : ℕ
magic_byte2 = 0x56

abbrev pub protocol_version : ℕ
protocol_version = 1

abbrev pub header_size : ℕ
header_size = 14

-- `Magic [2]byte` is a pair.
pub record PacketHeader : Type 0 where
  pub magic : ℕ × ℕ
  pub version : ℕ
  pub packet_type : ℕ
  pub session_id : ℕ
  pub len : ℕ

pub record Packet : Type 0 where
  pub header : PacketHeader
  pub payload : List ℕ

pub record HandshakeInit : Type 0 where
  pub client_public_key : List ℕ
  pub timestamp : ℤ
  pub random_padding : List ℕ

pub record HandshakeResponse : Type 0 where
  pub server_public_key : List ℕ
  pub session_id : ℕ
  pub assigned_ip : List ℕ
  pub server_ip : List ℕ
  pub subnet : ℕ
  pub random_padding : List ℕ

-- The values of the Go types.
pub record IsHandshakeInit (h : HandshakeInit) : Type 0 where
  pub key : IsArray 32 h.client_public_key
  pub time : IsInt64 h.timestamp
  pub padding : IsArray 32 h.random_padding

pub record IsHandshakeResponse (h : HandshakeResponse) : Type 0 where
  pub key : IsArray 32 h.server_public_key
  pub session : h.session_id < 2 ^ 64
  pub assigned : IsArray 4 h.assigned_ip
  pub server : IsArray 4 h.server_ip
  pub mask : IsByte h.subnet
  pub padding : IsArray 32 h.random_padding

-- `uint16(len(payload))` keeps the low 16 bits of the length.
unfoldable pub new_packet : ℕ → ℕ → List ℕ → Packet
new_packet packet_type session_id payload = record {
  header = record {
    magic = (magic_byte1, magic_byte2);
    version = protocol_version;
    packet_type = packet_type;
    session_id = session_id;
    len = length payload % 2 ^ 16;
  };
  payload = payload;
}

unfoldable pub marshal : Packet → List ℕ
marshal p =
    h.magic.0
    ∷ h.magic.1
    ∷ h.version
    ∷ h.packet_type
    ∷ (be_bytes 8 h.session_id ++ (be_bytes 2 h.len ++ p.payload))
  where
    open p use {header as h}

unfoldable pub unmarshal_packet : List ℕ → Result Packet
unmarshal_packet buf = do
  fail_if (ltb (length buf) header_size) "packet too short"
  let magic0 = get_or buf 0 0
  let magic1 = get_or buf 1 0
  fail_if (not (magic0 == magic_byte1) || not (magic1 == magic_byte2)) "invalid magic bytes"
  let version = get_or buf 2 0
  fail_if (not (version == protocol_version)) "unsupported protocol version"
  let packet_type = get_or buf 3 0
  let session_id = be_value (slice 4 12 buf)
  let len = be_value (slice 12 14 buf)
  fail_if (not (len == length buf - header_size)) "payload length mismatch"
  ok (record {
    header = record {
      magic = (magic0, magic1);
      version = version;
      packet_type = packet_type;
      session_id = session_id;
      len = len;
    };
    payload = take len (drop header_size buf);
  })

unfoldable pub marshal_handshake_init : HandshakeInit → List ℕ
marshal_handshake_init h =
    h.client_public_key ++ (be_bytes 8 (to_uint64 h.timestamp) ++ h.random_padding)

unfoldable pub unmarshal_handshake_init : List ℕ → Result HandshakeInit
unmarshal_handshake_init buf = do
  fail_if (ltb (length buf) 72) "handshake init too short"
  ok (record {
    client_public_key = slice 0 32 buf;
    timestamp = to_int64 (be_value (slice 32 40 buf));
    random_padding = slice 40 72 buf;
  })

unfoldable pub marshal_handshake_response : HandshakeResponse → List ℕ
marshal_handshake_response h =
    h.server_public_key
    ++ (be_bytes 8 h.session_id
        ++ (h.assigned_ip ++ (h.server_ip ++ (h.subnet ∷ h.random_padding))))

unfoldable pub unmarshal_handshake_response : List ℕ → Result HandshakeResponse
unmarshal_handshake_response buf = do
  fail_if (ltb (length buf) 81) "handshake response too short"
  ok (record {
    server_public_key = slice 0 32 buf;
    session_id = be_value (slice 32 40 buf);
    assigned_ip = slice 40 44 buf;
    server_ip = slice 44 48 buf;
    subnet = get_or buf 48 0;
    random_padding = slice 49 81 buf;
  })
