-- ===== src/Client/Ends/Tests.antt =====
-- Runs of the loops after a `Disconnect`, under the transparent primitives.
use hydravpn.Base.{ℕ, ◌+◌, ◌≤◌, ◌≡◌, refl, true, false, List, [], ◌⊎◌, inr, ok}
use hydravpn.Crypto.Toy.{toy}
use hydravpn.Protocol.{unmarshal_packet}
use hydravpn.Client.{disconnect, receive, keep_alive}
use hydravpn.Client.Tests.{idle}
use hydravpn.Client.Ends.{
  Loops, disconnect_loops, reading, ended, check, after_round, Step, receives, receive_checks,
  keep_alive_ticks, Run, here, next, waiting,
}
use hydravpn.Client.Ends.Wait.{IsOwn, Run-IsEnded}

abbrev before : Loops (List ℕ)
before = record {
  client = record idle { connected = true };
  conn_closed = false;
  tun_closed = false;
  tun_read = reading;
  receiving = reading;
  keeping_alive = true;
}

abbrev after : Loops (List ℕ)
after = record {
  client = record idle { cancelled = true };
  conn_closed = true;
  tun_closed = true;
  tun_read = reading;
  receiving = ended;
  keeping_alive = false;
}

-- The receive loop reads an empty packet and then sees that the context is done; the ticker ticks.
run : Run toy (disconnect_loops before) 3 after
unfolding disconnect_loops disconnect receive check after_round keep_alive unmarshal_packet
run =
    next (next (next here (receives (ok []) refl refl refl)) (receive_checks refl refl))
      (keep_alive_ticks true refl refl)

Run-IsEnded_example :
    (3 + waiting after ≤ 5)
    × (((n : Loops (List ℕ)) × (s : Step toy after n) × IsOwn toy s) ⊎ (waiting after ≡ 0))
    × (after.client.connected ≡ false)
Run-IsEnded_example = Run-IsEnded toy before refl (inr refl) run
