-- ===== src/Server/Stages.antt =====
-- `handleConnection` in the stages between which another goroutine may run: the address pool and the
-- session table have a lock each, and a write or a read may wait. Server/Interleaving takes a whole
-- handshake, and the cleanup of a session, as one step.
pub mod Table
pub mod Sound
pub mod Serve
pub mod Moves
pub mod Steps
pub mod Addresses
pub mod Tests
use hydravpn.Base.{
  ℕ, ◌≡◌, Bool, true, false, List, [], ◌∷◌, ◌++◌, ◌==◌, Option, none, some, Result, ok, err,
  if◌then◌else◌,
}
use hydravpn.Base.Bytes.{be_value}
use hydravpn.Protocol.{Packet, unmarshal_packet}
use hydravpn.Protocol.PacketType
use hydravpn.Crypto.{KeyPair, Random}
use hydravpn.Crypto.Library.{Primitives}
use hydravpn.Server.{
  ClientSession, Server, Effect, write_conn, close_conn, delete_id, find_live, remove_live,
  new_server, handshake_keys, response_bytes, serve_packet, route,
}
use hydravpn.Server.IpPool.{allocate, release}
use hydravpn.Server.Life.Handlers.{phase_of, set_phase, remove_handler}

-- A handler waits for its first packet; has an address and a session object; has put the object into
-- the table; has sent its response and is in its loop; has taken the object out of the table.
pub data Stage : Type 0 where
  reading : Stage
  made : Stage
  listed : Stage
  answered : Stage
  unlisted : Stage

-- The server's `live` holds the session objects of all handlers that have one.
pub record Stages (Aead : Type 0) : Type 0 where
  pub server : Server Aead
  pub handlers : List (ℕ × Stage)

module _ {Aead : Type 0} where
  -- The session in the table, and out of it, each under the table's lock.
  unfoldable pub list_session : Server Aead → ClientSession Aead → Server Aead
  list_session s x = record s { sessions = (x.id, x.conn) ∷ delete_id s.sessions x.id }

  unfoldable pub unlist_session : Server Aead → ClientSession Aead → Server Aead
  unlist_session s x = record s { sessions = delete_id s.sessions x.id }

  -- The address goes back to the pool; the object has no handler any more.
  unfoldable pub free_session : Server Aead → ClientSession Aead → Server Aead
  free_session s x = record s {
    live = remove_live s.live x.conn;
    ip_pool = release s.ip_pool x.assigned_ip;
  }

  -- A connection gets a handler.
  unfoldable pub start_handler : Stages Aead → ℕ → Stages Aead
  start_handler w conn = record w { handlers = (conn, reading) ∷ w.handlers }

  -- A handler without a session returns.
  unfoldable pub refuse : Stages Aead → ℕ → Stages Aead × List Effect
  refuse w conn = (record w { handlers = remove_handler w.handlers conn }, close_conn conn ∷ [])

  unfoldable pub publish : Stages Aead → ClientSession Aead → Stages Aead
  publish w x = record w {
    server = list_session w.server x;
    handlers = set_phase w.handlers x.conn listed;
  }

  unfoldable pub unlist : Stages Aead → ClientSession Aead → Stages Aead
  unlist w x = record w {
    server = unlist_session w.server x;
    handlers = set_phase w.handlers x.conn unlisted;
  }

  unfoldable pub free : Stages Aead → ClientSession Aead → Stages Aead × List Effect
  free w x = (
    record { server = free_session w.server x; handlers = remove_handler w.handlers x.conn },
    close_conn x.conn ∷ [],
  )

-- A server without handlers.
abbrev pub new_stages : {Aead : Type 0} → KeyPair → Bool → Stages Aead
new_stages key_pair has_tun = record { server = new_server key_pair has_tun; handlers = [] }

module _ {Aead : Type 0} (lib : Primitives Aead) where
  -- The first packet is read: the keys, the session id and the address, which is taken under the pool's
  -- lock. `none` is a panic.
  unfoldable pub make :
      Stages Aead → ℕ → Result (List ℕ) → ℕ → Random → Option (Stages Aead × List Effect)
  unfolding refuse
  make w conn input now id_bytes = elim (handshake_keys lib w.server.key_pair input) [
    | err e ↦ some (refuse w conn)
    | ok keys ↦ elim (allocate w.server.ip_pool) [
      | none ↦ none
      | some (pool, result) ↦ elim result [
        | err e ↦ some (refuse (record w { server = record w.server { ip_pool = pool } }) conn)
        | ok ip ↦
            let session : ClientSession Aead = record {
              id = elim id_bytes [ none ↦ 0 | some bytes ↦ be_value bytes ];
              conn = conn;
              crypto_session = keys;
              assigned_ip = ip;
              last_seen = now;
            } in
            some (
              record {
                server = record w.server { ip_pool = pool; live = session ∷ w.server.live };
                handlers = set_phase w.handlers conn made;
              },
              [],
            )
      ]
    ]
  ]

  -- The response is written, or the handler returns, which begins with its deferred cleanup.
  unfoldable pub answer :
      Stages Aead → ClientSession Aead → Random → Bool → Stages Aead × List Effect
  unfolding unlist
  answer w x padding writable =
      if writable
      then (
        record w { handlers = set_phase w.handlers x.conn answered },
        write_conn x.conn (response_bytes lib w.server x padding) ∷ [],
      )
      else (unlist w x, [])

  -- One round of the loop; `none` where the handler returns.
  unfoldable pub serve_open :
      Server Aead → ClientSession Aead → Result (List ℕ) → ℕ → Option (Server Aead × List Effect)
  serve_open s x input now = elim input [
    | err e ↦ none
    | ok buf ↦ elim (unmarshal_packet buf) [
      | err e ↦ some (s, [])
      | ok packet ↦
          if packet.header.packet_type == PacketType.disconnect
          then none
          else some (serve_packet lib s (record x { last_seen = now }) packet)
    ]
  ]

  unfoldable pub serve_stage :
      Stages Aead → ClientSession Aead → Result (List ℕ) → ℕ → Stages Aead × List Effect
  unfolding unlist
  serve_stage w x input now = elim (serve_open w.server x input now) [
    | none ↦ (unlist w x, [])
    | some (s, out) ↦ (record w { server = s }, out)
  ]

  -- The stages of the handlers, and the packets from the TUN device, in any order.
  pub data Step (w : Stages Aead) : Stages Aead → List Effect → Type 0 where
    connects : (conn : ℕ) → phase_of w.handlers conn ≡ none → Step w (start_handler w conn) []
    makes :
        (conn : ℕ) (input : Result (List ℕ)) (now : ℕ) (id_bytes : Random) {m : Stages Aead}
        {out : List Effect}
        → phase_of w.handlers conn ≡ some reading
        → make w conn input now id_bytes ≡ some (m, out)
        → Step w m out
    publishes :
        (x : ClientSession Aead)
        → phase_of w.handlers x.conn ≡ some made
        → find_live w.server.live x.conn ≡ some x
        → Step w (publish w x) []
    answers :
        (x : ClientSession Aead) (padding : Random) (writable : Bool)
        → phase_of w.handlers x.conn ≡ some listed
        → find_live w.server.live x.conn ≡ some x
        → Step w (answer w x padding writable).0 (answer w x padding writable).1
    rounds :
        (x : ClientSession Aead) (input : Result (List ℕ)) (now : ℕ)
        → phase_of w.handlers x.conn ≡ some answered
        → find_live w.server.live x.conn ≡ some x
        → Step w (serve_stage w x input now).0 (serve_stage w x input now).1
    stops :
        (x : ClientSession Aead)
        → phase_of w.handlers x.conn ≡ some answered
        → find_live w.server.live x.conn ≡ some x
        → Step w (unlist w x) []
    frees :
        (x : ClientSession Aead)
        → phase_of w.handlers x.conn ≡ some unlisted
        → find_live w.server.live x.conn ≡ some x
        → Step w (free w x).0 (free w x).1
    routes :
        (buf : List ℕ) (random : ℕ → Random)
        → Step w
            (record w { server = (route lib w.server buf random).0 })
            (route lib w.server buf random).1

  -- A run, with all that has left the server, oldest first.
  pub data Reach (w : Stages Aead) : Stages Aead → List Effect → Type 0 where
    here : Reach w w []
    next :
        {m n : Stages Aead} {sent out : List Effect}
        → Reach w m sent
        → Step m n out
        → Reach w n (sent ++ out)
