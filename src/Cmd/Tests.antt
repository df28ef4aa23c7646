-- ===== src/Cmd/Tests.antt =====
-- Tests of the command line.
use hydravpn.Base.{ℕ, ◌≡◌, refl, true, false, List, [], ◌∷◌, none, some, ok}
use hydravpn.Base.Bytes.{bytes_eq, be_bytes, be_value, le_bytes, read_full}
use hydravpn.Base.Codes.{codes}
use hydravpn.Base.Int.{pos}
use hydravpn.Protocol.{
  marshal, unmarshal_packet, new_packet, marshal_handshake_response, unmarshal_handshake_response,
}
use hydravpn.Crypto.{clamp, generate_key_pair, compute_shared_secret, derive_session_keys}
use hydravpn.Crypto.Toy.{toy, random_a, random_b}
use hydravpn.Transport.Network.{Network}
use hydravpn.Transport.Any.{new_transport, dial}
use hydravpn.Transport.Any.Tests.{plain}
use hydravpn.Transport.WebSocket.Dial as WebSocket
use hydravpn.Server.{new_server, response_bytes}
use hydravpn.Server.Tests as Server
use hydravpn.Client.{
  Client, connect, perform_handshake, finish_handshake, read_response, server_host, host_before,
  disconnect,
}
use hydravpn.Client.Goroutines.{spawn, new_world, here}
use hydravpn.Client.Goroutines.Manual.{closes_conn, opens_tun, closes_tun}
use hydravpn.Client.Tests as ClientTests
use hydravpn.Cmd.{
  command_of, run_server, parse_transport, exits, waits, run_server_args, run_client_args,
  start_client, connect_over, new_client,
}
use hydravpn.Cmd.Flags.{
  parse, parse_one, token_of, flag_token, double_dash, split_value, lookup, assign, defines,
}
use hydravpn.Cmd.Flags.Render.{Written, render}
use hydravpn.Cmd.Transports.{run_server-refused}
use hydravpn.Cmd.Runs.{run_client-closes}

dispatched :
    command_of (codes "server" ∷ codes "--listen" ∷ codes ":1" ∷ [])
    ≡ run_server (codes "--listen" ∷ codes ":1" ∷ [])
unfolding command_of bytes_eq
dispatched = refl

-- "--transport=obfs -listen :1"
abbrev obfuscated : List Written
obfuscated =
    record { name = codes "transport"; value = codes "obfs"; double = true; joined = true }
    ∷ record { name = codes "listen"; value = codes ":1"; double = false; joined = false }
    ∷ []

obfuscated_args : render obfuscated ≡ codes "--transport=obfs" ∷ codes "-listen" ∷ codes ":1" ∷ []
obfuscated_args = refl

run_server-refused_example :
    run_server_args toy plain (render obfuscated) (some random_b) none true ≡ exits 1
unfolding defines bytes_eq assign lookup parse_transport
run_server-refused_example =
    run_server-refused toy plain obfuscated (some random_b) none true
      ((refl, refl), ((refl, refl), tt)) refl

-- "-server h:80", on a network that connects.
abbrev open_network : Network
open_network = record plain { web_socket_dial = λ url. ok 9 }

abbrev manual : Client (List ℕ)
manual = record ClientTests.client { auto_reconnect = false }

client_runs :
    run_client_args toy open_network
      (codes "-server" ∷ codes "h:80" ∷ [])
      (some random_a)
      none
      []
      (pos 1700)
      (some Server.padding)
      true
      (ok (response_bytes toy Server.start Server.first none))
      true
    ≡ (ClientTests.started, waits manual)
unfolding run_client_args start_client connect_over new_client parse parse_one token_of flag_token
    double_dash split_value lookup assign defines parse_transport generate_key_pair new_transport
    dial WebSocket.dial connect perform_handshake finish_handshake read_response server_host
    host_before response_bytes unmarshal_packet marshal new_packet be_bytes be_value le_bytes
    marshal_handshake_response unmarshal_handshake_response compute_shared_secret
    derive_session_keys bytes_eq read_full clamp new_server
client_runs = refl

run_client-closes_example :
    ((spawn ClientTests.started (new_world manual)).reconnects ≡ 0)
    × (closes_conn (disconnect (spawn ClientTests.started (new_world manual)).client).1 ≡ true)
    × (opens_tun ClientTests.started ≡ true
        → closes_tun (disconnect (spawn ClientTests.started (new_world manual)).client).1 ≡ true)
run_client-closes_example =
    run_client-closes toy open_network (codes "-server" ∷ codes "h:80" ∷ []) (some random_a) none []
      (pos 1700) (some Server.padding) true (ok (response_bytes toy Server.start Server.first none))
      true {c = manual} {out = ClientTests.started} client_runs here
