-- ===== src/Transport/Any/Tests.antt =====
-- Tests of the transports on a network that refuses TLS.
use hydravpn.Base.{◌≡◌, refl, true, false, [], ◌∷◌, ok, err}
use hydravpn.Base.Bytes.{bytes_eq}
use hydravpn.Base.Codes.{codes}
use hydravpn.Transport.Network.{Network, opened}
use hydravpn.Transport.Any.{over_web_socket, dial, web_socket_conn}
use hydravpn.Transport.Any.Open.{IsTidy, dial-IsTidy}
use hydravpn.Transport.WebSocket.Dial as WebSocket

-- Only "ws://h/hydra" can be dialed, and a QUIC connection whose streams fail.
abbrev pub plain : Network
plain = record {
  quic_dial = λ address. ok 4;
  quic_open_stream = λ conn. err "timeout";
  quic_listen = λ config address. ok 1;
  web_socket_dial = λ url. elim (bytes_eq url (codes "ws://h/hydra")) [
    | true ↦ ok 9
    | false ↦ err "bad handshake"
  ];
  tls_dial = λ address. err "first record does not look like a TLS handshake";
  tcp_listen = λ address. ok 1;
}

fell_back : dial plain over_web_socket (codes "h") [] ≡ (opened 9 ∷ [], ok (web_socket_conn 9))
unfolding dial WebSocket.dial WebSocket.url bytes_eq
fell_back = refl

dial-IsTidy_example : IsTidy (dial plain over_web_socket (codes "h") [])
dial-IsTidy_example = dial-IsTidy plain over_web_socket (codes "h") []
