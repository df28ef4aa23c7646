-- ===== src/Transport/Any.antt =====
-- The three transports behind the interface `Transport`, as the client and the server choose one.
pub mod Open
pub mod Tests
use hydravpn.Base.{ℕ, ◌==◌, List, [], ◌∷◌, Option, none, Result, ok, err, String, if◌then◌else◌}
use hydravpn.Crypto.{Random}
use hydravpn.Transport.Kind
use hydravpn.Transport.Network.{Network, Event}
use hydravpn.Transport.Quic.{QuicTransport, QuicConnection, new_quic_transport}
use hydravpn.Transport.Quic
use hydravpn.Transport.Obfs.{Connection}
use hydravpn.Transport.Obfs.Dial.{ObfuscatedTransport, ObfuscatedListener, new_obfuscated_transport}
use hydravpn.Transport.Obfs.Dial as Obfuscated
use hydravpn.Transport.WebSocket.Dial as WebSocket

pub data Transport : Type 0 where
  over_quic : QuicTransport → Transport
  over_web_socket : Transport
  over_obfuscated : ObfuscatedTransport → Transport

-- The switch of `New` in the client and in the server: any other number gives a WebSocket.
unfoldable pub new_transport : ℕ → Random → Transport
new_transport kind random =
    if kind == Kind.quic
    then over_quic (new_quic_transport none)
    else if kind == Kind.web_socket
    then over_web_socket
    else if kind == Kind.obfuscated
    then over_obfuscated (new_obfuscated_transport none random)
    else over_web_socket

unfoldable pub transport_name : Transport → String
transport_name (over_quic t) = "quic"
transport_name over_web_socket = "websocket"
transport_name (over_obfuscated t) = "obfuscated"

-- A connection, by the numbers under which the libraries know it.
pub data Conn : Type 0 where
  quic_conn : QuicConnection → Conn
  web_socket_conn : ℕ → Conn
  obfuscated_conn : ℕ → Connection → Conn

module _ (network : Network) where
  -- `Dial` of the interface; `incoming` is what will arrive on an obfuscated connection.
  unfoldable pub dial : Transport → List ℕ → List ℕ → List Event × Result Conn
  dial (over_quic t) address incoming =
      let (events, result) = Quic.dial network t address in
      (events, elim result [ err e ↦ err e | ok c ↦ ok (quic_conn c) ])
  dial over_web_socket address incoming =
      let (events, result) = WebSocket.dial network address in
      (events, elim result [ err e ↦ err e | ok c ↦ ok (web_socket_conn c) ])
  dial (over_obfuscated t) address incoming =
      let (events, result) = Obfuscated.dial network t address incoming in
      (events, elim result [ err e ↦ err e | ok (conn, c) ↦ ok (obfuscated_conn conn c) ])

  -- Whether `Listen` succeeds, or its error.
  unfoldable pub listen : Transport → List ℕ → Result (Unit {0})
  listen (over_quic t) address = elim (Quic.listen network t address) [
    | err e ↦ err e
    | ok _ ↦ ok tt
  ]
  listen over_web_socket address = elim (WebSocket.listen network address) [
    | err e ↦ err e
    | ok _ ↦ ok tt
  ]
  listen (over_obfuscated t) address = elim (Obfuscated.listen network t address) [
    | err e ↦ err e
    | ok _ ↦ ok tt
  ]

-- The listeners that accept by a call of their library; a WebSocket listener takes its connections
-- from a channel.
pub data Listener : Type 0 where
  quic_listener : Listener
  obfuscated_listener : ObfuscatedListener → Listener

-- `Accept`, on what the libraries' calls return.
unfoldable pub accept : Listener → Result ℕ → (ℕ → Result ℕ) → List ℕ → List Event × Result Conn
accept quic_listener accepted accept_stream incoming =
    let (events, result) = Quic.accept accepted accept_stream in
    (events, elim result [ err e ↦ err e | ok c ↦ ok (quic_conn c) ])
accept (obfuscated_listener l) accepted accept_stream incoming =
    let (events, result) = Obfuscated.accept l accepted incoming in
    (events, elim result [ err e ↦ err e | ok (conn, c) ↦ ok (obfuscated_conn conn c) ])

unfoldable pub close : Conn → List Event
close (quic_conn c) = Quic.close c
close (web_socket_conn conn) = WebSocket.close conn
close (obfuscated_conn conn c) = Obfuscated.close conn

-- The number of the connection below.
abbrev pub number : Conn → ℕ
number (quic_conn c) = c.conn
number (web_socket_conn conn) = conn
number (obfuscated_conn conn c) = conn
