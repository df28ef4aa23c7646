-- ===== src/Transport/Quic.antt =====
-- pkg/transport/quic.go: a connection is one stream of a QUIC connection of quic-go.
use hydravpn.Base.{ℕ, Bool, true, List, [], ◌∷◌, Option, none, some, Result, ok, err, String}
use hydravpn.Transport.Network.{
  Network, TlsConfig, Event, opened, opened_stream, closed_stream, closed,
}

-- `quic.Config`, with its times in nanoseconds.
pub record QuicConfig : Type 0 where
  pub max_idle_timeout : ℕ
  pub keep_alive_period : ℕ
  pub enable_datagrams : Bool

pub record QuicTransport : Type 0 where
  pub tls_config : TlsConfig
  pub quic_config : QuicConfig

pub record QuicConnection : Type 0 where
  pub stream : ℕ
  pub conn : ℕ

-- `NewQUICTransport`; without a configuration it makes one with no certificate.
unfoldable pub new_quic_transport : Option TlsConfig → QuicTransport
new_quic_transport tls_config = record {
  tls_config = elim tls_config [
    | none ↦ record { insecure_skip_verify = true; next_protos = "hydravpn" ∷ []; certificates = 0 }
    | some config ↦ config
  ];
  quic_config = record {
    max_idle_timeout = 30000000000;
    keep_alive_period = 10000000000;
    enable_datagrams = true;
  };
}

-- A stream of a connection is opened, or the connection is closed.
unfoldable pub with_stream : ℕ → Result ℕ → String → List Event × Result QuicConnection
with_stream conn (err e) text = (closed conn ∷ [], err text)
with_stream conn (ok stream) text =
    (opened_stream conn stream ∷ [], ok (record { stream = stream; conn = conn }))

module _ (network : Network) where
  unfoldable pub dial : QuicTransport → List ℕ → List Event × Result QuicConnection
  dial t address = elim (network.quic_dial address) [
    | err e ↦ ([], err "quic dial failed")
    | ok conn ↦
        let (events, result) =
          with_stream conn (network.quic_open_stream conn) "failed to open QUIC stream" in
        (opened conn ∷ events, result)
  ]

  unfoldable pub listen : QuicTransport → List ℕ → Result ℕ
  listen t address = elim (network.quic_listen t.tls_config address) [
    | err e ↦ err "quic listen failed"
    | ok listener ↦ ok listener
  ]

-- `Accept`, on what the library's two calls return; their errors are passed on.
unfoldable pub accept : Result ℕ → (ℕ → Result ℕ) → List Event × Result QuicConnection
accept (err e) accept_stream = ([], err e)
accept (ok conn) accept_stream = elim (accept_stream conn) [
  | err e ↦ (opened conn ∷ closed conn ∷ [], err e)
  | ok stream ↦
      (opened conn ∷ opened_stream conn stream ∷ [], ok (record { stream = stream; conn = conn }))
]

unfoldable pub close : QuicConnection → List Event
close c = closed_stream c.conn c.stream ∷ closed c.conn ∷ []
