-- ===== src/Cmd.antt =====
-- cmd/hydra/main.go: the command line. Arguments are lists of character codes, without the name of the
-- program. What a command prints is left out.
pub mod Flags
pub mod Transports
pub mod Runs
pub mod Tests
use hydravpn.Base.{
  ℕ, Bool, true, false, ◌||◌, List, [], ◌∷◌, ◌++◌, Option, none, some, Result, ok, err,
  if◌then◌else◌,
}
use hydravpn.Base.Int.{ℤ}
use hydravpn.Base.Bytes.{bytes_eq}
use hydravpn.Base.Codes.{codes}
use hydravpn.Crypto.{KeyPair, Random, generate_key_pair}
use hydravpn.Crypto.Library.{Primitives}
use hydravpn.Transport.Kind
use hydravpn.Transport.Network.{Network}
use hydravpn.Transport.Any.{Transport, new_transport, listen, dial}
use hydravpn.Server.Life.{Life, start}
use hydravpn.Client.{Client, Effect, connect, disconnect}
use Flags.{Flags as Values, Parsed, parsed, help, failed, parse, lookup}

unfoldable pub parse_transport : List ℕ → ℕ
parse_transport t =
    if bytes_eq t (codes "quic")
    then Kind.quic
    else if bytes_eq t (codes "websocket") || bytes_eq t (codes "ws")
    then Kind.web_socket
    else if bytes_eq t (codes "obfuscated") || bytes_eq t (codes "obfs")
    then Kind.obfuscated
    else Kind.web_socket

-- The switch of `main`.
pub data Command : Type 0 where
  run_server : List (List ℕ) → Command
  run_client : List (List ℕ) → Command
  version : Command
  usage : Command
  unknown : List ℕ → Command
  missing : Command

unfoldable pub command_of : List (List ℕ) → Command
command_of [] = missing
command_of (command ∷ args) =
    if bytes_eq command (codes "server")
    then run_server args
    else if bytes_eq command (codes "client")
    then run_client args
    else if bytes_eq command (codes "version")
    then version
    else if bytes_eq command (codes "help")
    then usage
    else unknown command

abbrev pub server_flags : Values
server_flags = (codes "listen", codes ":8443") ∷ (codes "transport", codes "websocket") ∷ []

abbrev pub client_flags : Values
client_flags =
    (codes "server", codes "127.0.0.1:8443") ∷ (codes "transport", codes "websocket") ∷ []

-- A server's configuration: `DefaultConfig` of pkg/server with what the options say.
pub record ServerConfig : Type 0 where
  pub listen_addr : List ℕ
  pub transport_type : ℕ
  pub enable_nat : Bool

abbrev pub default_server_config : ServerConfig
default_server_config = record {
  listen_addr = codes ":8443";
  transport_type = Kind.web_socket;
  enable_nat = true;
}

-- A client's, with the delay of a reconnect in seconds.
pub record ClientConfig : Type 0 where
  pub server_addr : List ℕ
  pub transport_type : ℕ
  pub auto_reconnect : Bool
  pub reconnect_delay : ℕ

abbrev pub default_client_config : ClientConfig
default_client_config = record {
  server_addr = codes "127.0.0.1:8443";
  transport_type = Kind.web_socket;
  auto_reconnect = true;
  reconnect_delay = 5;
}

-- What `runServer` and `runClient` make of their options.
abbrev pub server_config : Values → ServerConfig
server_config flags = record default_server_config {
  listen_addr = lookup flags (codes "listen");
  transport_type = parse_transport (lookup flags (codes "transport"));
}

abbrev pub client_config : Values → ClientConfig
client_config flags = record default_client_config {
  server_addr = lookup flags (codes "server");
  transport_type = parse_transport (lookup flags (codes "transport"));
  auto_reconnect = false;
}

-- `New` of pkg/client, on a key pair that was made.
unfoldable pub new_client : {Aead : Type 0} → ClientConfig → KeyPair → Client Aead
new_client config key_pair = record {
  server_addr = config.server_addr;
  auto_reconnect = config.auto_reconnect;
  key_pair = key_pair;
  has_conn = false;
  crypto_session = none;
  has_tun = false;
  session_id = 0;
  assigned_ip = [];
  server_ip = [];
  connected = false;
  cancelled = false;
}

-- What a command comes to: it exits with a code, or it waits for an interrupt.
pub data Outcome (A : Type 0) : Type 0 where
  exits : ℕ → Outcome A
  waits : A → Outcome A

abbrev pub succeeds {ℓ} : {A : Type ℓ} → Result A → Bool
succeeds (ok a) = true
succeeds (err e) = false

module _ {Aead : Type 0} (lib : Primitives Aead) (network : Network) where
  -- `New` and `Start` of the server: a transport, and a server whose life has begun. The draws are for
  -- the key pair and for the transport's key.
  unfoldable pub start_server :
      ServerConfig → Random → Random → Bool → Outcome (Transport × Life Aead)
  start_server config key_random transport_random has_tun =
      elim (generate_key_pair lib key_random) [
        | err e ↦ exits 1
        | ok key_pair ↦
            let transport = new_transport config.transport_type transport_random in
            let (life, result) =
              start key_pair has_tun (succeeds (listen network transport config.listen_addr)) in
            elim result [ err e ↦ exits 1 | ok _ ↦ waits (transport, life) ]
      ]

  -- `runServer` up to its wait.
  unfoldable pub run_server_args :
      List (List ℕ) → Random → Random → Bool → Outcome (Transport × Life Aead)
  unfolding start_server
  run_server_args args key_random transport_random has_tun = elim (parse server_flags args) [
    | help ↦ exits 0
    | failed ↦ exits 2
    | parsed flags ↦ start_server (server_config flags) key_random transport_random has_tun
  ]

  -- `Connect` of the client over its transport: what it sends, and whether it is connected.
  unfoldable pub connect_over :
      Transport
      → Client Aead
      → List ℕ
      → ℤ
      → Random
      → Bool
      → Result (List ℕ)
      → Bool
      → Client Aead × List Effect × Result (Unit {0})
  connect_over transport c incoming time padding writable input tun_made =
      connect lib c (succeeds (dial network transport c.server_addr incoming).1) time padding
        writable input tun_made

  -- `runClient` from its configuration to its wait: the client and its connection. `log.Fatalf` exits
  -- without the deferred calls.
  unfoldable pub start_client :
      ClientConfig
      → Random
      → Random
      → List ℕ
      → ℤ
      → Random
      → Bool
      → Result (List ℕ)
      → Bool
      → List Effect × Outcome (Client Aead)
  start_client config key_random transport_random incoming time padding writable input tun_made =
      elim (generate_key_pair lib key_random) [
        | err e ↦ ([], exits 1)
        | ok key_pair ↦
            let (c, out, result) =
              connect_over (new_transport config.transport_type transport_random)
                (new_client config key_pair) incoming time padding writable input tun_made in
            (out, elim result [ err e ↦ exits 1 | ok _ ↦ waits c ])
      ]

  -- `runClient` up to its wait.
  unfoldable pub run_client_args :
      List (List ℕ)
      → Random
      → Random
      → List ℕ
      → ℤ
      → Random
      → Bool
      → Result (List ℕ)
      → Bool
      → List Effect × Outcome (Client Aead)
  unfolding start_client
  run_client_args args key_random transport_random incoming time padding writable input tun_made =
      elim (parse client_flags args) [
        | help ↦ ([], exits 0)
        | failed ↦ ([], exits 2)
        | parsed flags ↦
            start_client (client_config flags) key_random transport_random incoming time padding
              writable input tun_made
      ]
