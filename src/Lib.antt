-- ===== src/Lib.antt =====
-- HydraVPN, a point-to-point VPN: a client sends the packets of its TUN device through an encrypted
-- session over one of several transports to a server, which hands them to its own TUN device, lends
-- each client an address of 10.8.0.0/24, and routes packets for that address back.
--
-- The parts, and the files that model them:
--
-- - Base: lists, bytes, words, slices and Go's (value, error) results, on native numbers.
-- - Protocol, on pkg/protocol/protocol.go. A packet or a message is a record with the fields of the
--   Go struct; marshal and unmarshal_packet, and the two handshake messages' functions, stand in
--   Protocol.antt. Protocol/PacketType has the packet types, Protocol/RoundTrip, Reject and
--   Handshakes what is proved of the formats, and Protocol/Framed the messages inside packets.
-- - Crypto, on pkg/crypto/crypto.go: key pairs, the shared secret, the keys of a session, and
--   Encrypt and Decrypt on a session's counters. curve25519, hkdf and chacha20poly1305 are the
--   parameter Primitives of Crypto/Library, with what their documentation says; Crypto/Toy is a
--   transparent instance of it for tests. The random source is an argument of each draw.
-- - Transport, on pkg/transport. Transport/Obfs is ObfuscatedConnection over a byte stream, with
--   its key position; Transport/WebSocket the read buffer of WebSocketConnection over the messages
--   that the WebSocket library delivers, and WebSocketListener with its two channels, under any
--   order of its handlers, Accept and Close; Transport/Quic the connections of QUICTransport;
--   Obfs/Dial and WebSocket/Dial how connections are made. Transport/Kind has the names of the
--   transports, Transport/Any the three behind the interface Transport, and Transport/Network what
--   the libraries below answer.
-- - Server, on pkg/server/server.go. Server/IpPool is IPPool. Server.antt has the state of the
--   server, and one function for what a goroutine does between two points at which another may run:
--   accept_session is handleConnection up to its loop, serve one round of that loop, close_session
--   its deferred cleanup, and route one round of tunReadLoop. Server/Interleaving has the runs of
--   the server, in which these steps come in any order, and Server/Apart what such a step leaves of
--   another session. Server/Life has the goroutines from Start to the end of Stop, with their
--   checks of the context and the wait group; Life/Runs their steps. Server/Stages divides a
--   handshake and a cleanup further, where a lock is given up or a call may wait, and has the runs
--   of these stages.
-- - Client, on pkg/client/client.go: connect, perform_handshake, one round of each of the loops
--   (send, receive, keep_alive), handle_disconnect and disconnect. Client/Tunnel, Opening,
--   Transfer, Conversation and Control put the client against the server, byte for byte: the
--   handshake, the whole of Connect, one packet, any number of packets, and the control packets;
--   Client/Flow has the messages on the way over a WebSocket connection, and any order of what the
--   two ends do. Client/Goroutines counts the loops of a client over a step relation, of one that
--   reconnects and, in Goroutines/Manual, of one that does not. Client/Attempt is Connect in
--   stages, between which a Disconnect may come, and Client/Ends what the loops of one connection
--   do after a Disconnect.
-- - Tun, on pkg/tun/tun.go: the system commands, as values, that configure the interface, set and
--   remove the default route and the DNS servers, and the parsing of what they print. Tun/Routes
--   has what the commands do to the default route of macOS, Tun/Table what they do to the routing
--   table of Linux, and Tun/Servers what they do to the DNS servers.
-- - Cmd, on cmd/hydra/main.go: the dispatch, the two commands up to their wait for an interrupt,
--   and the options, with Go's flag package in Cmd/Flags.
--
-- How the model corresponds to the code. A method that changes its receiver returns the new state.
-- What leaves a component is a list of effects. An error is a value with the outermost text of the
-- code's message. A panic is none. Words wrap as in Go, with the modulus written out. The session
-- table of the server maps an id to the connection whose session object it points to; the objects
-- are kept with the running handlers, so that the two pointers to one session see the same state,
-- and a later session of the same id takes over the table entry as in the code. Log output is left
-- out.
--
-- Bounds. The search of Allocate is recursion on its number of rounds, which the code computes from
-- the size of the subnet. read_all, a driver for proofs and not code, has fuel; what it needs is
-- part of the statement on it. All else is structural. A packet from a TUN device is at most 2048
-- bytes long, the size of the code's buffers.
--
-- Not modelled: what quic-go, gorilla/websocket and net/http do beneath a call; how the system
-- executes the commands of pkg/tun/tun.go, and the water package beneath it; what the program prints;
-- the timers; a tunnel over the byte stream of QUIC, whose reads may join packets or cut them; the
-- interleavings inside one connection attempt of the client, but for its stages in Client/Goroutines
-- and Client/Attempt; two writes to one connection at the same time, which come one after the other
-- here. Server/Life takes a handshake of a client as one step, which Server/Stages divides.
pub mod Base
pub mod Protocol
pub mod Crypto
pub mod Transport
pub mod Server
pub mod Client
pub mod Tun
pub mod Cmd
