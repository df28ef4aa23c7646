-- ===== src/Server/Life.antt =====
-- The life of a server, from `Start` to the end of `Stop`: where each of its goroutines stands, and
-- what each does when it is next scheduled. The server's own data is `Server`.
pub mod Handlers
pub mod Runs
pub mod Sound
pub mod Steps
pub mod Wired
pub mod Next
pub mod Stop
pub mod Silent
pub mod Tests
use hydravpn.Base.{
  ℕ, suc, ◌+◌, ◌-◌, Bool, true, false, List, [], ◌∷◌, Option, none, some, Result, ok, err,
  if◌then◌else◌,
}
use hydravpn.Crypto.{KeyPair, Random}
use hydravpn.Crypto.Library.{Primitives}
use hydravpn.Server.{
  ClientSession, Server, Effect, new_server, find_live, close_session, accept_session, serve, route,
}
use Handlers.{Phase, handshaking, checking, waiting, set_phase, remove_handler}

-- `acceptLoop` and `tunReadLoop`: before the check of the context, in the call that waits, returned.
pub data LoopState : Type 0 where
  at_check : LoopState
  in_call : LoopState
  returned : LoopState

-- `s.listener` and `s.tunDevice`: nil, open or closed.
pub data Handle : Type 0 where
  absent : Handle
  open_handle : Handle
  closed : Handle

-- `if h != nil { h.Close() }`
unfoldable pub close_handle : Handle → Handle
close_handle absent = absent
close_handle open_handle = closed
close_handle closed = closed

-- `cancelled` says that the context is done; `wg` is the counter of the wait group.
pub record Life (Aead : Type 0) : Type 0 where
  pub server : Server Aead
  pub cancelled : Bool
  pub listener : Handle
  pub tun_device : Handle
  pub accepting : LoopState
  pub routing : LoopState
  pub handlers : List (ℕ × Phase)
  pub wg : ℕ

-- `select { case <-s.ctx.Done(): return; default: }`
unfoldable pub after_check : Bool → LoopState
after_check cancelled = if cancelled then returned else in_call

-- `if err != nil { if s.ctx.Err() != nil { return }; continue }`
unfoldable pub after_error : Bool → LoopState
after_error cancelled = if cancelled then returned else at_check

-- The deferred `wg.Done()` of a goroutine that returns.
unfoldable pub done_if : Bool → ℕ → ℕ
done_if returns wg = if returns then wg - 1 else wg

module _ {Aead : Type 0} where
  -- `Start`, on whether the TUN device can be made and whether the transport listens.
  unfoldable pub start : KeyPair → Bool → Bool → Life Aead × Result (Unit {0})
  start key_pair has_tun listens = (
    record {
      server = new_server key_pair has_tun;
      cancelled = false;
      listener = if listens then open_handle else absent;
      tun_device = if has_tun then open_handle else absent;
      accepting = if listens then at_check else returned;
      routing = if has_tun then at_check else returned;
      handlers = [];
      wg = (if has_tun then 1 else 0) + (if listens then 1 else 0);
    },
    if listens then ok tt else err "failed to start listener",
  )

  -- `Stop` up to its wait.
  unfoldable pub stop : Life Aead → Life Aead
  unfolding close_handle
  stop l = record l {
    cancelled = true;
    listener = close_handle l.listener;
    tun_device = close_handle l.tun_device;
  }

  unfoldable pub accept_check : Life Aead → Life Aead
  accept_check l = record l { accepting = after_check l.cancelled; wg = done_if l.cancelled l.wg }

  -- `Accept` has returned: a connection gets a handler.
  unfoldable pub accept_return : Life Aead → Result ℕ → Life Aead
  accept_return l (err e) = record l {
    accepting = after_error l.cancelled;
    wg = done_if l.cancelled l.wg;
  }
  accept_return l (ok conn) = record l {
    accepting = at_check;
    handlers = (conn, handshaking) ∷ l.handlers;
    wg = suc l.wg;
  }

  unfoldable pub tun_check : Life Aead → Life Aead
  tun_check l = record l { routing = after_check l.cancelled; wg = done_if l.cancelled l.wg }

  -- A handler returns: its deferred calls have left the server as given.
  unfoldable pub handler_returns : Life Aead → Server Aead → ℕ → Life Aead
  handler_returns l server conn = record l {
    server = server;
    handlers = remove_handler l.handlers conn;
    wg = l.wg - 1;
  }

  -- The check at the top of a handler's loop.
  unfoldable pub handler_check : Life Aead → ClientSession Aead → Life Aead × List Effect
  handler_check l x =
      if l.cancelled
      then (handler_returns l (close_session l.server x).0 x.conn, (close_session l.server x).1)
      else (record l { handlers = set_phase l.handlers x.conn waiting }, [])

  -- The handler of a connection goes on at the top of its loop, or returns if its session has ended.
  unfoldable pub go_on : Life Aead → Server Aead → ℕ → Life Aead
  go_on l server conn = elim (find_live server.live conn) [
    | none ↦ handler_returns l server conn
    | some _ ↦ record l { server = server; handlers = set_phase l.handlers conn checking }
  ]

module _ {Aead : Type 0} (lib : Primitives Aead) where
  -- The TUN device's `Read` has returned.
  unfoldable pub tun_return : Life Aead → Result (List ℕ) → (ℕ → Random) → Life Aead × List Effect
  tun_return l (err e) random =
      (record l { routing = after_error l.cancelled; wg = done_if l.cancelled l.wg }, [])
  tun_return l (ok buf) random =
      let (server, out) = route lib l.server buf random in
      (record l { server = server; routing = at_check }, out)

  -- The first read of a handler has returned. The handshake that follows is one step here, which
  -- Server/Stages divides. `none` is a panic.
  unfoldable pub first_read :
      Life Aead
      → ℕ
      → Result (List ℕ)
      → ℕ
      → Random
      → Random
      → Bool
      → Option (Life Aead × List Effect)
  first_read l conn input now id_bytes padding writable =
      elim (accept_session lib l.server conn input now id_bytes padding writable) [
        | none ↦ none
        | some (server, out) ↦ some (go_on l server conn, out)
      ]

  -- The read in a handler's loop has returned.
  unfoldable pub round :
      Life Aead → ClientSession Aead → Result (List ℕ) → ℕ → Life Aead × List Effect
  round l x input now =
      let (server, out) = serve lib l.server x input now in (go_on l server x.conn, out)
