-- ===== src/Protocol/Framed.antt =====
-- The handshake messages inside their packets.
use hydravpn.Base.{
  ℕ, ◌^◌, ◌<◌, ◌≡◌, ap, sym, ◌∙◌, List, [], ◌∷◌, ◌++◌, arith, length, length-append, append-nil, ok,
}
use hydravpn.Base.Bytes.{be_bytes, length-be_bytes}
use hydravpn.Protocol.{
  HandshakeInit, HandshakeResponse, IsHandshakeInit, IsHandshakeResponse, new_packet, marshal,
  unmarshal_packet, marshal_handshake_init, unmarshal_handshake_init, marshal_handshake_response,
  unmarshal_handshake_response,
}
use hydravpn.Protocol.RoundTrip.{unmarshal_packet-marshal, new_packet-IsWire}
use hydravpn.Protocol.Handshakes.{
  length-init, unmarshal-marshal_handshake_init, unmarshal-marshal_handshake_response,
}

-- What `NewPacket` makes of a payload of less than 2^16 bytes is read back.
pub unmarshal-new_packet :
    (packet_type session_id : ℕ) (payload : List ℕ)
    → session_id < 2 ^ 64
    → length payload < 2 ^ 16
    → unmarshal_packet (marshal (new_packet packet_type session_id payload))
      ≡ ok (new_packet packet_type session_id payload)
unmarshal-new_packet packet_type session_id payload h l =
    unmarshal_packet-marshal (new_packet packet_type session_id payload)
      (new_packet-IsWire packet_type session_id payload h l)

length-response :
    (h : HandshakeResponse) → IsHandshakeResponse h → length (marshal_handshake_response h) ≡ 81
unfolding marshal_handshake_response
length-response h v =
    let tail = h.assigned_ip ++ (h.server_ip ++ (h.subnet ∷ h.random_padding)) in
    omega (
      arith,
      v.key.size,
      v.assigned.size,
      v.server.size,
      v.padding.size,
      length-be_bytes 8 h.session_id,
      length-append h.server_public_key (be_bytes 8 h.session_id ++ tail),
      length-append (be_bytes 8 h.session_id) tail,
      length-append h.assigned_ip (h.server_ip ++ (h.subnet ∷ h.random_padding)),
      length-append h.server_ip (h.subnet ∷ h.random_padding),
    )

pub framed_init :
    (packet_type session_id : ℕ) (h : HandshakeInit)
    → session_id < 2 ^ 64
    → IsHandshakeInit h
    → let packet = new_packet packet_type session_id (marshal_handshake_init h) in
      (unmarshal_packet (marshal packet) ≡ ok packet)
      × (unmarshal_handshake_init packet.payload ≡ ok h)
unfolding new_packet
framed_init packet_type session_id h small v = (
  unmarshal-new_packet packet_type session_id (marshal_handshake_init h) small
      (omega (arith, length-init h v)),
  ap unmarshal_handshake_init (sym (append-nil (marshal_handshake_init h)))
      ∙ unmarshal-marshal_handshake_init h [] v,
)

pub framed_response :
    (packet_type session_id : ℕ) (h : HandshakeResponse)
    → session_id < 2 ^ 64
    → IsHandshakeResponse h
    → let packet = new_packet packet_type session_id (marshal_handshake_response h) in
      (unmarshal_packet (marshal packet) ≡ ok packet)
      × (unmarshal_handshake_response packet.payload ≡ ok h)
unfolding new_packet
framed_response packet_type session_id h small v = (
  unmarshal-new_packet packet_type session_id (marshal_handshake_response h) small
      (omega (arith, length-response h v)),
  ap unmarshal_handshake_response (sym (append-nil (marshal_handshake_response h)))
      ∙ unmarshal-marshal_handshake_response h [] v,
)
