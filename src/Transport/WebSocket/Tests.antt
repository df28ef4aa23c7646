-- ===== src/Transport/WebSocket/Tests.antt =====
-- Tests of pkg/transport/websocket.go: two messages, read five bytes at a time.
use hydravpn.Base.{◌≡◌, refl, true, false, [], ◌∷◌, arith, some, ok}
use hydravpn.Transport.WebSocket.{Connection, read}
use hydravpn.Transport.WebSocket.Messages.{
  Refines, take_front, queue, read-Refines, read_all, read_all_lem,
}
use hydravpn.Transport.WebSocket.Listener.{WebSocketListener, Reach, here, next, new_listener}
use hydravpn.Transport.WebSocket.Listener.{upgrades, handles, accepts, closes}
use hydravpn.Transport.WebSocket.Listener
use hydravpn.Transport.WebSocket.Listener.Sound.{IsSound, Reach-IsSound}

abbrev two : Connection
two = record {
  read_buf = [];
  incoming = (1 ∷ 2 ∷ 3 ∷ 4 ∷ 5 ∷ 6 ∷ 7 ∷ []) ∷ [] ∷ (8 ∷ []) ∷ [];
  failure = "EOF";
  outgoing = [];
}

first_read : read two 5 ≡ (
  record two { read_buf = 6 ∷ 7 ∷ []; incoming = [] ∷ (8 ∷ []) ∷ [] },
  ok (1 ∷ 2 ∷ 3 ∷ 4 ∷ 5 ∷ []),
)
unfolding read
first_read = refl

all_read : read_all 13 5 two ≡ (1 ∷ 2 ∷ 3 ∷ 4 ∷ 5 ∷ 6 ∷ 7 ∷ 8 ∷ [], some "EOF")
unfolding read_all read
all_read = refl

read-Refines_example : Refines two 5 (take_front 5 (queue two))
read-Refines_example = read-Refines two 5

read_all_lem_example : read_all 13 5 two ≡ (1 ∷ 2 ∷ 3 ∷ 4 ∷ 5 ∷ 6 ∷ 7 ∷ 8 ∷ [], some "EOF")
read_all_lem_example = read_all_lem 13 5 two (omega arith) (omega arith)

-- Of two connections `Accept` returns one; the other comes to its select when the listener is closed.
abbrev handed_over : WebSocketListener
handed_over = record {
  handlers = [];
  conn_chan = [];
  closed = true;
  upgraded = 5 ∷ 4 ∷ [];
  sent = 4 ∷ [];
  accepted = 4 ∷ [];
  dropped = 5 ∷ [];
}

handed_over-Reach : Reach new_listener handed_over
unfolding Listener.handle Listener.accept Listener.close Listener.select Listener.drop_conn
    Listener.send_conn Listener.take_conn Listener.remove_one
handed_over-Reach =
    next
      (next
        (next
          (next (next (next here (upgrades 4 refl)) (upgrades 5 refl))
            (handles 4 false (omega arith) refl))
          (accepts true refl))
        (closes (ok 0) refl))
      (handles 5 false (omega arith) refl)

Reach-IsSound_example : IsSound handed_over
Reach-IsSound_example = Reach-IsSound handed_over-Reach
