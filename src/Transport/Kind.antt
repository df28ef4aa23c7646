-- ===== src/Transport/Kind.antt =====
-- pkg/transport/transport.go: the kinds of transport and their names. `Dial`, `Listen` and the rest
-- of the interface are the operations of the modules beside this one.
use hydravpn.Base.{ℕ, ◌==◌, String, if◌then◌else◌}

-- `TransportType` is an int; the named constants are 0, 1 and 2.
abbrev pub quic : ℕ
quic = 0

abbrev pub web_socket : ℕ
web_socket = 1

abbrev pub obfuscated : ℕ
obfuscated = 2

unfoldable pub name : ℕ → String
name t =
    if t == quic
    then "quic"
    else if t == web_socket
    then "websocket"
    else if t == obfuscated
    then "obfuscated"
    else "unknown"
