-- ===== src/Transport/Network.antt =====
-- The network below the transports: what the libraries' calls return, what is opened and closed on
-- it, and the part of `crypto/tls` that the transports rest on. Connections and streams are numbered.
use hydravpn.Base.{ℕ, Bool, List, [], ◌∷◌, ◌==◌, Result, ok, err, String, if◌then◌else◌}

-- `tls.Config`, with the number of its certificates.
pub record TlsConfig : Type 0 where
  pub insecure_skip_verify : Bool
  pub next_protos : List String
  pub certificates : ℕ

-- What the libraries answer to the calls of a dial and a listen, by the address or the URL.
pub record Network : Type 0 where
  pub quic_dial : List ℕ → Result ℕ
  pub quic_open_stream : ℕ → Result ℕ
  pub quic_listen : TlsConfig → List ℕ → Result ℕ
  pub web_socket_dial : List ℕ → Result ℕ
  pub tls_dial : List ℕ → Result ℕ
  pub tcp_listen : List ℕ → Result ℕ

-- `tls.Listen`: a configuration without a certificate is refused before the address is bound.
unfoldable pub tls_listen : Network → TlsConfig → List ℕ → Result ℕ
tls_listen network config address =
    if config.certificates == 0
    then err "tls: neither Certificates, GetCertificate, nor GetConfigForClient set in Config"
    else network.tcp_listen address

pub data Event : Type 0 where
  opened : ℕ → Event
  opened_stream : ℕ → ℕ → Event
  closed_stream : ℕ → ℕ → Event
  closed : ℕ → Event

-- A successful call has opened a connection.
unfoldable pub opening : Result ℕ → List Event
opening (ok conn) = opened conn ∷ []
opening (err e) = []

unfoldable pub without : List ℕ → ℕ → List ℕ
without [] c = []
without (d ∷ rest) c = if d == c then without rest c else d ∷ without rest c

-- The connections that a list of events, oldest first, leaves open, besides those open before it.
unfoldable pub left_open : List ℕ → List Event → List ℕ
left_open before [] = before
left_open before (opened c ∷ events) = left_open (c ∷ before) events
left_open before (closed c ∷ events) = left_open (without before c) events
left_open before (opened_stream c s ∷ events) = left_open before events
left_open before (closed_stream c s ∷ events) = left_open before events
