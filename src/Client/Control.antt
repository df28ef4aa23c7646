-- ===== src/Client/Control.antt =====
-- The packets without a payload, from a client to its server: a keep-alive and a disconnect.
use hydravpn.Base.{ℕ, ◌≡◌, refl, true, List, [], ◌∷◌, arith, some, ok, if◌then◌else◌}
use hydravpn.Protocol.{new_packet, marshal, unmarshal_packet}
use hydravpn.Protocol.PacketType
use hydravpn.Protocol.Framed.{unmarshal-new_packet}
use hydravpn.Crypto.Library.{Primitives}
use hydravpn.Server.{
  ClientSession, Server, write_conn, close_conn, find_live, store, serve, serve_packet,
}
use hydravpn.Server.Keep.{IsServer}
use hydravpn.Server.Leave.{IsLeft, Ends, serve-IsLeft}
use hydravpn.Server.Leave
use hydravpn.Client.{Client, receive, keep_alive, disconnect}
use hydravpn.Client as C
use hydravpn.Client.Tunnel.{IsTunnel}

module _ {Aead : Type 0} (lib : Primitives Aead) where
  bare :
      (c : Client Aead) (x : ClientSession Aead) (packet_type : ℕ)
      → IsTunnel c x
      → unmarshal_packet (marshal (new_packet packet_type c.session_id []))
        ≡ ok (new_packet packet_type c.session_id [])
  bare c x packet_type tunnel =
      unmarshal-new_packet packet_type c.session_id [] (omega (arith, tunnel.same_id, tunnel.small))
        (omega arith)

  -- A client that is one end of a tunnel disconnects. It sends one packet, closes the connection, and its
  -- TUN device if it has one; the sound server, whose handler for it runs, on reading the packet closes
  -- the connection and sends nothing; no handler and no table entry are left for the client, its address
  -- is free, and the other handlers stay.
  pub disconnect-IsLeft :
      (s : Server Aead) (x : ClientSession Aead) (c : Client Aead) (now : ℕ)
      → IsTunnel c x
      → c.has_conn ≡ true
      → find_live s.live x.conn ≡ some x
      → IsServer s
      → (bytes : List ℕ) × ((disconnect c).1
          ≡ C.write_conn bytes ∷ C.close_conn ∷ (if c.has_tun then C.close_tun ∷ [] else []))
        × ((serve lib s x (ok bytes) now).1 ≡ close_conn x.conn ∷ [])
        × IsLeft s (serve lib s x (ok bytes) now).0 x
  unfolding disconnect new_packet
  disconnect-IsLeft s x c now tunnel conn found v =
      let packet = new_packet PacketType.disconnect c.session_id [] in
      let (closed, left) = serve-IsLeft lib s x (ok (marshal packet)) now found v (
        Leave.disconnected (marshal packet) packet refl (bare c x PacketType.disconnect tunnel)
          refl) in
      (marshal packet, rw conn refl, closed, left)

  -- A connected client that is one end of a tunnel sends a keep-alive, and goes on. The server answers
  -- with one packet on the client's connection and only notes the time; the client reads the answer,
  -- writes nothing, and stays as it is.
  pub keep_alive_answered :
      (s : Server Aead) (x : ClientSession Aead) (c : Client Aead) (now : ℕ)
      → IsTunnel c x
      → c.connected ≡ true
      → (bytes answer : List ℕ) × (keep_alive c true ≡ (C.write_conn bytes ∷ [], true))
        × (serve lib s x (ok bytes) now
            ≡ (store s (record x { last_seen = now }), write_conn x.conn answer ∷ []))
        × (receive lib c (ok answer) ≡ some (c, [], true))
  unfolding keep_alive serve serve_packet receive new_packet
  keep_alive_answered s x c now tunnel connected =
      let sent = marshal (new_packet PacketType.keep_alive c.session_id []) in
      let answer = marshal (new_packet PacketType.keep_alive x.id []) in
      let read = bare c x PacketType.keep_alive tunnel in
      let read_answer =
        unmarshal-new_packet PacketType.keep_alive x.id [] tunnel.small (omega arith) in
      (sent, answer, rw connected refl, rw (read, serve) refl, rw (read_answer, receive) refl)
