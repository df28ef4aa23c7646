-- ===== src/Transport/Any/Open.antt =====
-- What the transports leave open.
use hydravpn.Base.{
  ℕ, ◌≡◌, ◌⊎◌, refl, List, [], ◌∷◌, ◌++◌, arith, Result-cases, Result, ok, err, inl, inr,
}
use hydravpn.Base.Codes.{codes}
use hydravpn.Transport.Network.{Network, Event, opened, without, left_open}
use hydravpn.Transport.Any.{
  Transport, over_quic, over_web_socket, over_obfuscated, Conn, Listener, quic_listener,
  obfuscated_listener, accept, dial, close, number,
}
use hydravpn.Transport.Quic.{with_stream}
use hydravpn.Transport.Quic
use hydravpn.Transport.Obfs.Dial as Obfuscated
use hydravpn.Transport.WebSocket.Dial as WebSocket

-- A call that has left open, of what it opened, exactly the connection that it returns, and whose
-- connection leaves nothing open once it is closed.
abbrev pub IsTidy : List Event × Result Conn → Type 0
IsTidy (events, err e) = left_open [] events ≡ []
IsTidy (events, ok c) =
    (left_open [] events ≡ number c ∷ []) × (left_open [] (events ++ close c) ≡ [])

module _ (network : Network) where
  web_socket_dial_cases :
      (address : List ℕ)
      → (WebSocket.dial network address ≡ ([], err "websocket dial failed"))
        ⊎ ((conn : ℕ) × (WebSocket.dial network address ≡ (opened conn ∷ [], ok conn)))
  unfolding WebSocket.dial
  web_socket_dial_cases address =
      elim (Result-cases (network.web_socket_dial (WebSocket.url (codes "wss") address))) [
        | inr (conn, h) ↦ inr (conn, rw (h, WebSocket.dial) refl)
        | inl (_, h) ↦
            elim (Result-cases (network.web_socket_dial (WebSocket.url (codes "ws") address))) [
              | inr (conn, g) ↦ inr (conn, rw (h, WebSocket.dial) (rw (g, WebSocket.dial) refl))
              | inl (_, g) ↦ inl (rw (h, WebSocket.dial) (rw (g, WebSocket.dial) refl))
            ]
      ]

  -- Whatever the libraries answer, a dial of a transport that fails leaves nothing open, and one that
  -- succeeds leaves open only the connection that it returns, which `Close` closes.
  pub dial-IsTidy :
      (t : Transport) (address incoming : List ℕ) → IsTidy (dial network t address incoming)
  unfolding left_open without dial close Quic.dial Quic.close Obfuscated.dial Obfuscated.close
      WebSocket.close with_stream
  dial-IsTidy (over_quic t) address incoming = elim (Result-cases (network.quic_dial address)) [
    | inl (e, h) ↦ rw (h, Quic.dial) refl
    | inr (conn, h) ↦ elim (Result-cases (network.quic_open_stream conn)) [
      | inl (e, g) ↦ rw (h, g, Quic.dial) (ground arith)
      | inr (stream, g) ↦ rw (h, g, Quic.dial) (refl, ground arith)
    ]
  ]
  dial-IsTidy over_web_socket address incoming = elim (web_socket_dial_cases address) [
    | inl h ↦ rw h refl
    | inr (conn, h) ↦ rw h (refl, ground arith)
  ]
  dial-IsTidy (over_obfuscated t) address incoming =
      elim (Result-cases (network.tls_dial address)) [
        | inl (e, h) ↦ rw (h, Obfuscated.dial) refl
        | inr (conn, h) ↦ rw (h, Obfuscated.dial) (refl, ground arith)
      ]

-- The same for an accept of a QUIC or an obfuscated listener.
pub accept-IsTidy :
    (l : Listener) (accepted : Result ℕ) (accept_stream : ℕ → Result ℕ) (incoming : List ℕ)
    → IsTidy (accept l accepted accept_stream incoming)
unfolding left_open without accept close Quic.accept Quic.close Obfuscated.accept Obfuscated.close
accept-IsTidy quic_listener (err e) accept_stream incoming = refl
accept-IsTidy quic_listener (ok conn) accept_stream incoming =
    elim (Result-cases (accept_stream conn)) [
      | inl (e, h) ↦ rw (h, Quic.accept) (ground arith)
      | inr (stream, h) ↦ rw (h, Quic.accept) (refl, ground arith)
    ]
accept-IsTidy (obfuscated_listener l) (err e) accept_stream incoming = refl
accept-IsTidy (obfuscated_listener l) (ok conn) accept_stream incoming = (refl, ground arith)
