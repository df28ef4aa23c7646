-- ===== src/Client/Ends.antt =====
-- The end of a client: what its loops still do once `Disconnect` has cancelled the context, closed the
-- connection and the TUN device, and waits for the wait group. Each loop is at the check of its
-- context, in the read that follows, or has returned.
pub mod Wait
pub mod Tests
use hydravpn.Base.{
  ℕ, ◌+◌, ◌≡◌, Bool, true, false, not, ◌||◌, List, [], Option, some, Result, ok, err, if◌then◌else◌,
}
use hydravpn.Crypto.{Random}
use hydravpn.Crypto.Library.{Primitives}
use hydravpn.Client.{Client, Effect, send, receive, keep_alive, disconnect}
use hydravpn.Client.Goroutines.Manual.{closes_conn, closes_tun}

pub data Place : Type 0 where
  ended : Place
  checking : Place
  reading : Place

-- The keep-alive loop waits at its `select` as long as it runs. The two reads are of the client's connection
-- and TUN device, of which it is kept whether they are closed.
pub record Loops (Aead : Type 0) : Type 0 where
  pub client : Client Aead
  pub conn_closed : Bool
  pub tun_closed : Bool
  pub tun_read : Place
  pub receiving : Place
  pub keeping_alive : Bool

-- The check of the context, which is also the start of a loop.
unfoldable pub check : {Aead : Type 0} → Client Aead → Place
check c = if c.cancelled then ended else reading

unfoldable pub after_round : Bool → Place
after_round more = if more then checking else ended

-- `Disconnect` up to its wait, beside the loops.
unfoldable pub disconnect_loops : {Aead : Type 0} → Loops Aead → Loops Aead
disconnect_loops w =
    let (c, out) = disconnect w.client in
    record w {
      client = c;
      conn_closed = closes_conn out || w.conn_closed;
      tun_closed = closes_tun out || w.tun_closed;
    }

module _ {Aead : Type 0} (lib : Primitives Aead) where
  -- A round of `tunReadLoop` on the result of its read: an error ends the loop only if the context is
  -- done.
  unfoldable pub tun_read_returns :
      Client Aead → Result (List ℕ) → Random → Bool → Option (Client Aead × List Effect × Bool)
  tun_read_returns c (err e) random writable = some (c, [], not c.cancelled)
  tun_read_returns c (ok buf) random writable = send lib c buf random writable

  -- What the loops do: any result may come from a read that has begun before the `Disconnect`.
  pub data Step (w m : Loops Aead) : Type 0 where
    tun_read_checks : w.tun_read ≡ checking → m ≡ record w { tun_read = check w.client } → Step w m
    tun_reads :
        (input : Result (List ℕ)) (random : Random) (writable : Bool) {c' : Client Aead}
        {out : List Effect} {more : Bool}
        → w.tun_read ≡ reading
        → tun_read_returns w.client input random writable ≡ some (c', out, more)
        → m ≡ record w { client = c'; tun_read = after_round more }
        → Step w m
    receive_checks : w.receiving ≡ checking → m ≡ record w { receiving = check w.client } → Step w m
    receives :
        (input : Result (List ℕ)) {c' : Client Aead} {out : List Effect} {more : Bool}
        → w.receiving ≡ reading
        → receive lib w.client input ≡ some (c', out, more)
        → m ≡ record w { client = c'; receiving = after_round more }
        → Step w m
    keep_alive_ticks :
        (writable : Bool)
        → w.keeping_alive ≡ true
        → m ≡ record w { keeping_alive = (keep_alive w.client writable).1 }
        → Step w m
    keep_alive_stops :
        w.keeping_alive ≡ true
        → w.client.cancelled ≡ true
        → m ≡ record w { keeping_alive = false }
        → Step w m

  -- Runs with their numbers of steps.
  pub data Run (start : Loops Aead) : ℕ → Loops Aead → Type 0 where
    here : Run start 0 start
    next : {n : ℕ} {w m : Loops Aead} → Run start n w → Step w m → Run start (n + 1) m

-- How many steps a loop has at most before it: one after the check of a done context, two in a read.
abbrev pub place_weight : Place → ℕ
place_weight ended = 0
place_weight checking = 1
place_weight reading = 2

abbrev pub alive : Bool → ℕ
alive true = 1
alive false = 0

abbrev pub weight : {Aead : Type 0} → Loops Aead → ℕ
weight w = place_weight w.tun_read + place_weight w.receiving + alive w.keeping_alive

-- The counter of the wait group.
abbrev pub running : Place → ℕ
running ended = 0
running _ = 1

abbrev pub waiting : {Aead : Type 0} → Loops Aead → ℕ
waiting w = running w.tun_read + running w.receiving + alive w.keeping_alive

-- The state in which `Disconnect` leaves the client.
abbrev pub IsOver : {Aead : Type 0} → Client Aead → Type 0
IsOver c = (c.cancelled ≡ true) × (c.connected ≡ false)
