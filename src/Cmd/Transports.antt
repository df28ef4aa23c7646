-- ===== src/Cmd/Transports.antt =====
-- The names of the transports on the command line, and a server under each of them.
use hydravpn.Base.{
  ℕ, zero, suc, ◌≡◌, ◌<◌, refl, Bool, true, false, List, arith, Result-cases, All, inl, inr, ok,
}
use hydravpn.Base.Codes.{codes}
use hydravpn.Base.Bytes.{bytes_eq}
use hydravpn.Crypto.{KeyPair, Random, generate_key_pair}
use hydravpn.Crypto.Library.{Primitives}
use hydravpn.Transport.Kind
use hydravpn.Transport.Network.{Network, tls_listen}
use hydravpn.Transport.Any.{new_transport, transport_name, listen}
use hydravpn.Transport.Obfs.Dial as Obfuscated
use hydravpn.Server.Life.{start}
use hydravpn.Cmd.{
  parse_transport, server_flags, ServerConfig, server_config, exits, waits, succeeds, start_server,
  run_server_args,
}
use hydravpn.Cmd.Flags.Render.{Written, render, assign_all, IsOf, parse-render}

parse_transport-lt : (word : List ℕ) → parse_transport word < 3
unfolding parse_transport
parse_transport-lt word = ground arith

-- A word on the command line gives one of the three kinds; the word that is a kind's name gives that
-- kind; and the transport that the client and the server make for a kind has its name.
pub parse_transport-name :
    (word : List ℕ) (kind : ℕ) (random : Random)
    → kind < 3
    → (parse_transport word < 3)
      × (parse_transport (codes (Kind.name kind)) ≡ kind)
      × (transport_name (new_transport kind random) ≡ Kind.name kind)
unfolding parse_transport Kind.name new_transport transport_name bytes_eq
parse_transport-name word zero random h = (parse_transport-lt word, refl, refl)
parse_transport-name word (suc zero) random h = (parse_transport-lt word, refl, refl)
parse_transport-name word (suc (suc zero)) random h = (parse_transport-lt word, refl, refl)
parse_transport-name word (suc (suc (suc kind))) random h = absurd (omega arith)

module _ {Aead : Type 0} (lib : Primitives Aead) (network : Network) where
  listen_refused :
      (random : Random) (address : List ℕ)
      → succeeds (listen network (new_transport Kind.obfuscated random) address) ≡ false
  unfolding listen new_transport Obfuscated.listen Obfuscated.new_obfuscated_transport tls_listen
  listen_refused random address = refl

  start_server-refused :
      (config : ServerConfig) (key_random transport_random : Random) (has_tun : Bool)
      → config.transport_type ≡ Kind.obfuscated
      → start_server lib network config key_random transport_random has_tun ≡ exits 1
  unfolding start_server start
  start_server-refused config key_random transport_random has_tun obfs =
      elim (Result-cases (generate_key_pair lib key_random)) [
        | inl (e, h) ↦ rw (h, start_server) refl
        | inr (key_pair, h) ↦
            rw (h, obfs, listen_refused transport_random config.listen_addr, start_server) refl
      ]

  start_server-waits :
      (config : ServerConfig) (key_random transport_random : Random) (has_tun : Bool)
      {key_pair : KeyPair}
      → generate_key_pair lib key_random ≡ ok key_pair
      → listen network (new_transport config.transport_type transport_random) config.listen_addr
        ≡ ok tt
      → start_server lib network config key_random transport_random has_tun
        ≡ waits
            (new_transport config.transport_type transport_random, (start key_pair has_tun true).0)
  unfolding start_server start
  start_server-waits config key_random transport_random has_tun made bound =
      rw (made, bound, start_server) (rw bound refl)

  -- The defect: a server that is told to use the obfuscated transport never runs: `New` makes the
  -- transport without a certificate, with which `tls.Listen` refuses to listen, so `Start` fails and
  -- the program exits with 1, whatever the network and the other options.
  pub run_server-refused :
      (os : List Written) (key_random transport_random : Random) (has_tun : Bool)
      → All (IsOf server_flags) os
      → (server_config (assign_all server_flags os)).transport_type ≡ Kind.obfuscated
      → run_server_args lib network (render os) key_random transport_random has_tun ≡ exits 1
  unfolding run_server_args
  run_server-refused os key_random transport_random has_tun v obfs =
      rw (parse-render server_flags os v, run_server_args)
        (start_server-refused (server_config (assign_all server_flags os)) key_random
          transport_random has_tun obfs)

  -- Where the transport of the kind that the options name can listen on the address that they name,
  -- and a key pair is made, the server runs, with its accept loop, and its TUN loop if there is a TUN
  -- device.
  pub run_server-waits :
      (os : List Written) (key_random transport_random : Random) (has_tun : Bool)
      {key_pair : KeyPair}
      → All (IsOf server_flags) os
      → generate_key_pair lib key_random ≡ ok key_pair
      → listen network
          (new_transport
            (server_config (assign_all server_flags os)).transport_type
            transport_random)
          (server_config (assign_all server_flags os)).listen_addr
        ≡ ok tt
      → run_server_args lib network (render os) key_random transport_random has_tun
        ≡ waits (
          new_transport
              (server_config (assign_all server_flags os)).transport_type
              transport_random,
          (start key_pair has_tun true).0,
        )
  unfolding run_server_args
  run_server-waits os key_random transport_random has_tun {key_pair} v made bound =
      rw (parse-render server_flags os v, run_server_args)
        (start_server-waits (server_config (assign_all server_flags os)) key_random transport_random
          has_tun {key_pair = key_pair} made bound)
