-- ===== src/Transport.antt =====
pub mod Kind
pub mod Network
pub mod Quic
pub mod Obfs
pub mod WebSocket
pub mod Any
