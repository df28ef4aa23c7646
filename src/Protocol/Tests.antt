-- ===== src/Protocol/Tests.antt =====
-- Tests of pkg/protocol/protocol.go at concrete packets.
use hydravpn.Base.{ℕ, ◌≡◌, refl, List, [], ◌∷◌, ◌++◌, arith, replicate, ok, err}
use hydravpn.Base.Bytes.{IsArray, IsBytes, be_bytes, be_value, le_bytes}
use hydravpn.Base.Int.{pos}
use hydravpn.Protocol.{
  Packet, HandshakeInit, HandshakeResponse, new_packet, marshal, unmarshal_packet,
  marshal_handshake_init, unmarshal_handshake_init, marshal_handshake_response,
  unmarshal_handshake_response, IsHandshakeInit, IsHandshakeResponse,
}
use hydravpn.Protocol.PacketType
use hydravpn.Protocol.RoundTrip.{
  new_packet-IsWire, unmarshal_packet-marshal, marshal-unmarshal_packet,
}
use hydravpn.Protocol.Reject.{Verdict, unmarshal_packet-Verdict, unmarshal_packet_joined}
use hydravpn.Protocol.Handshakes.{unmarshal-marshal_handshakes}
use hydravpn.Protocol.Typed.{OkIs, IsTyped, unmarshal-IsTyped}

abbrev sample : Packet
unfolding new_packet
sample = new_packet PacketType.transfer 258 (7 ∷ 8 ∷ [])

abbrev wire : List ℕ
wire = 72 ∷ 86 ∷ 1 ∷ 3 ∷ 0 ∷ 0 ∷ 0 ∷ 0 ∷ 0 ∷ 0 ∷ 1 ∷ 2 ∷ 0 ∷ 2 ∷ 7 ∷ 8 ∷ []

sample_bytes : marshal sample ≡ wire
unfolding marshal new_packet be_bytes
sample_bytes = refl

wire_reads : unmarshal_packet wire ≡ ok sample
unfolding unmarshal_packet new_packet be_value
wire_reads = refl

wrong_version : unmarshal_packet (72 ∷ 86 ∷ 2 ∷ replicate 11 0) ≡ err "unsupported protocol version"
unfolding unmarshal_packet
wrong_version = refl

unmarshal_packet-marshal_example : unmarshal_packet (marshal sample) ≡ ok sample
unfolding new_packet
unmarshal_packet-marshal_example =
    unmarshal_packet-marshal sample
      (new_packet-IsWire PacketType.transfer 258 (7 ∷ 8 ∷ []) (omega arith) (omega arith))

marshal-unmarshal_packet_example : marshal sample ≡ wire
unfolding new_packet
marshal-unmarshal_packet_example = marshal-unmarshal_packet wire (omega arith) wire_reads

unmarshal_packet-Verdict_example : Verdict wire (unmarshal_packet wire)
unmarshal_packet-Verdict_example = unmarshal_packet-Verdict wire

unmarshal_packet_joined_example :
    unmarshal_packet (marshal sample ++ wire) ≡ err "payload length mismatch"
unfolding new_packet
unmarshal_packet_joined_example =
    unmarshal_packet_joined sample wire
      (new_packet-IsWire PacketType.transfer 258 (7 ∷ 8 ∷ []) (omega arith) (omega arith))
      (omega arith)

abbrev key : List ℕ
key = replicate 32 9

key-IsArray : IsArray 32 key
key-IsArray = omega arith

abbrev init : HandshakeInit
init = record { client_public_key = key; timestamp = pos 1700000000; random_padding = key }

abbrev response : HandshakeResponse
response = record {
  server_public_key = key;
  session_id = 77;
  assigned_ip = 10 ∷ 8 ∷ 0 ∷ 2 ∷ [];
  server_ip = 10 ∷ 8 ∷ 0 ∷ 1 ∷ [];
  subnet = 24;
  random_padding = key;
}

unmarshal-marshal_handshakes_example :
    (unmarshal_handshake_init (marshal_handshake_init init ++ (1 ∷ [])) ≡ ok init)
    × (unmarshal_handshake_response (marshal_handshake_response response ++ (1 ∷ [])) ≡ ok response)
unmarshal-marshal_handshakes_example =
    unmarshal-marshal_handshakes init response (1 ∷ [])
      (record { key = key-IsArray; time = omega arith; padding = key-IsArray })
      (record {
        key = key-IsArray;
        session = omega arith;
        assigned = omega arith;
        server = omega arith;
        mask = omega arith;
        padding = key-IsArray;
      })

-- A keep-alive packet with 70 bytes behind its header: 84 bytes.
abbrev long_packet : List ℕ
long_packet = marshal (new_packet PacketType.keep_alive 5 (replicate 70 1))

long_packet-IsBytes : IsBytes long_packet
unfolding marshal new_packet be_bytes le_bytes
long_packet-IsBytes = omega arith

unmarshal-IsTyped_example :
    OkIs IsTyped (unmarshal_packet long_packet)
    × OkIs IsHandshakeInit (unmarshal_handshake_init long_packet)
    × OkIs IsHandshakeResponse (unmarshal_handshake_response long_packet)
unmarshal-IsTyped_example = unmarshal-IsTyped long_packet long_packet-IsBytes
