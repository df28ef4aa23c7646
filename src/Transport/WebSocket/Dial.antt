-- ===== src/Transport/WebSocket/Dial.antt =====
-- How a WebSocket connection is made: with TLS, and without it where that fails.
use hydravpn.Base.{ℕ, List, [], ◌∷◌, ◌++◌, Result, ok, err}
use hydravpn.Base.Codes.{codes}
use hydravpn.Transport.Network.{Network, Event, opened, closed}

unfoldable pub url : List ℕ → List ℕ → List ℕ
url scheme address = scheme ++ codes "://" ++ address ++ codes "/hydra"

module _ (network : Network) where
  unfoldable pub dial : List ℕ → List Event × Result ℕ
  unfolding url
  dial address = elim (network.web_socket_dial (url (codes "wss") address)) [
    | ok conn ↦ (opened conn ∷ [], ok conn)
    | err _ ↦ elim (network.web_socket_dial (url (codes "ws") address)) [
      | ok conn ↦ (opened conn ∷ [], ok conn)
      | err _ ↦ ([], err "websocket dial failed")
    ]
  ]

  -- `Listen` binds the address without TLS.
  unfoldable pub listen : List ℕ → Result ℕ
  listen address = elim (network.tcp_listen address) [
    | err e ↦ err "tcp listen failed"
    | ok listener ↦ ok listener
  ]

unfoldable pub close : ℕ → List Event
close conn = closed conn ∷ []
