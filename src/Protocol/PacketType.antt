-- ===== src/Protocol/PacketType.antt =====
-- The packet types of pkg/protocol/protocol.go.
use hydravpn.Base.{ℕ, Bool, ◌||◌, ◌==◌}

abbrev pub handshake_init : ℕ
handshake_init = 0x01

abbrev pub handshake_response : ℕ
handshake_response = 0x02

abbrev pub transfer : ℕ
transfer = 0x03

abbrev pub keep_alive : ℕ
keep_alive = 0x04

abbrev pub disconnect : ℕ
disconnect = 0x05

-- `IsValidPacketType`
unfoldable pub is_valid : ℕ → Bool
is_valid t =
    t == handshake_init
    || t == handshake_response
    || t == transfer
    || t == keep_alive
    || t == disconnect
