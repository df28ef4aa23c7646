-- ===== src/Transport/Obfs/Dial.antt =====
-- `ObfuscatedTransport`: its key, and the TLS connections and listeners that it makes.
use hydravpn.Base.{ℕ, true, List, [], ◌∷◌, replicate, Option, none, some, Result, ok, err}
use hydravpn.Crypto.{Random}
use hydravpn.Transport.Network.{Network, TlsConfig, Event, opened, closed, tls_listen}
use hydravpn.Transport.Obfs.{Connection}

pub record ObfuscatedTransport : Type 0 where
  pub tls_config : TlsConfig
  pub key : List ℕ

pub record ObfuscatedListener : Type 0 where
  pub listener : ℕ
  pub key : List ℕ

-- `NewObfuscatedTransport`, on the draw of 32 random bytes; a failed draw leaves the key at zero.
unfoldable pub new_obfuscated_transport : Option TlsConfig → Random → ObfuscatedTransport
new_obfuscated_transport tls_config random = record {
  tls_config = elim tls_config [
    | none ↦ record { insecure_skip_verify = true; next_protos = []; certificates = 0 }
    | some config ↦ config
  ];
  key = elim random [ none ↦ replicate 32 0 | some bytes ↦ bytes ];
}

unfoldable pub set_key : ObfuscatedTransport → List ℕ → ObfuscatedTransport
set_key t key = record t { key = key }

-- The connection that masks a TLS connection on which `incoming` will arrive.
unfoldable pub connection : List ℕ → List ℕ → Connection
connection key incoming = record { key = key; key_pos = 0; incoming = incoming; outgoing = [] }

module _ (network : Network) where
  unfoldable pub dial : ObfuscatedTransport → List ℕ → List ℕ → List Event × Result (ℕ × Connection)
  unfolding connection
  dial t address incoming = elim (network.tls_dial address) [
    | err e ↦ ([], err "obfuscated dial failed")
    | ok conn ↦ (opened conn ∷ [], ok (conn, connection t.key incoming))
  ]

  unfoldable pub listen : ObfuscatedTransport → List ℕ → Result ObfuscatedListener
  listen t address = elim (tls_listen network t.tls_config address) [
    | err e ↦ err "obfuscated listen failed"
    | ok listener ↦ ok (record { listener = listener; key = t.key })
  ]

-- `Accept`, on what the TLS listener's call returns, whose error is passed on.
unfoldable pub accept :
    ObfuscatedListener → Result ℕ → List ℕ → List Event × Result (ℕ × Connection)
unfolding connection
accept l (err e) incoming = ([], err e)
accept l (ok conn) incoming = (opened conn ∷ [], ok (conn, connection l.key incoming))

unfoldable pub close : ℕ → List Event
close conn = closed conn ∷ []
