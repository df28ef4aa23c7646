-- ===== src/Transport/WebSocket.antt =====
-- pkg/transport/websocket.go: the connection that serves messages through a byte-oriented `Read`,
-- and the listener that hands accepted connections over a channel. The WebSocket library is the
-- list of messages that arrive, and the error with which it then answers.
pub mod Dial
pub mod Messages
pub mod Listener
pub mod Tests
use hydravpn.Base.{
  ℕ, List, [], ◌∷◌, ◌++◌, ltb, min, length, take, drop, Option, none, some, Result, ok, err, String,
  if◌then◌else◌,
}

pub record Connection : Type 0 where
  pub read_buf : List ℕ
  pub incoming : List (List ℕ)
  pub failure : String
  pub outgoing : List (List ℕ)

-- `Read` where nothing is buffered: the next message, of which the buffer keeps what does not fit.
unfoldable pub read_message : Connection → ℕ → List (List ℕ) → Connection × Result (List ℕ)
read_message c size [] = (c, err c.failure)
read_message c size (message ∷ rest) =
    let n = min size (length message) in
    (
      record c {
        incoming = rest;
        read_buf = if ltb n (length message) then drop n message else c.read_buf;
      },
      ok (take n message),
    )

-- `Read` into a buffer of `size` bytes: the bytes that it is filled with.
unfoldable pub read : Connection → ℕ → Connection × Result (List ℕ)
unfolding read_message
read c size =
    let n = min size (length c.read_buf) in
    if ltb 0 (length c.read_buf)
    then (record c { read_buf = drop n c.read_buf }, ok (take n c.read_buf))
    else read_message c size c.incoming

-- `Write`, where the library takes the message or fails with an error.
unfoldable pub write : Connection → List ℕ → Option String → Connection × Result ℕ
write c b (some e) = (c, err e)
write c b none = (record c { outgoing = c.outgoing ++ (b ∷ []) }, ok (length b))
