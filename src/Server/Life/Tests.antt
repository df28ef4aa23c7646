-- ===== src/Server/Life/Tests.antt =====
-- Tests of a server's life: a client connects, and the server is stopped while it is silent.
use hydravpn.Base.{ℕ, ◌<◌, ◌≡◌, refl, List, [], ◌∷◌, ◌++◌, true, false, some, ok}
use hydravpn.Base.Int.{pos}
use hydravpn.Crypto.Toy.{toy, pair_a, pair_b}
use hydravpn.Server.{Effect, write_conn, response_bytes, find_live}
use hydravpn.Server.Tests as Examples
use hydravpn.Server.Tests.{padding, one_client, accepted}
use hydravpn.Client.{init_bytes}
use hydravpn.Server.Life.{
  Life, at_check, open_handle, start, stop, accept_check, accept_return, tun_check, handler_check,
  go_on, first_read, after_check, done_if,
}
use hydravpn.Server.Life.Handlers.{checking, waiting, phase_of, set_phase}
use hydravpn.Server.Life.Runs.{
  Run, here, next, stops, accept_checks, accept_returns, tun_checks, first_reads, handler_checks,
}
use hydravpn.Server.Life.Sound.{IsLife, start-IsLife}
use hydravpn.Server.Life.Steps.{first_read_of, Run-IsLife}
use hydravpn.Server.Life.Silent.{SilentRun, SilentRun-waiting}
use hydravpn.Server.Life.Silent

abbrev started : Life (List ℕ)
started = (start pair_b true true).0

-- The client's handshake has been answered.
abbrev answered : Life (List ℕ)
answered = record {
  server = one_client;
  cancelled = false;
  listener = open_handle;
  tun_device = open_handle;
  accepting = at_check;
  routing = at_check;
  handlers = (1, checking) ∷ [];
  wg = 3;
}

abbrev response : List Effect
response = write_conn 1 (response_bytes toy Examples.start Examples.first (some padding)) ∷ []

first_answered :
    first_read toy
      (accept_return (accept_check started) (ok 1))
      1
      (ok (init_bytes pair_a (pos 1700) (some padding)))
      100
      (some (0 ∷ 0 ∷ 0 ∷ 0 ∷ 0 ∷ 0 ∷ 0 ∷ 5 ∷ []))
      (some padding)
      true
    ≡ some (answered, response)
unfolding start accept_check accept_return go_on after_check done_if find_live set_phase
first_answered =
    first_read_of toy (accept_return (accept_check started) (ok 1)) 1
      (ok (init_bytes pair_a (pos 1700) (some padding))) 100
      (some (0 ∷ 0 ∷ 0 ∷ 0 ∷ 0 ∷ 0 ∷ 0 ∷ 5 ∷ [])) (some padding) true accepted

-- The handler waits for the client's next packet.
abbrev quiet : Life (List ℕ)
quiet = (handler_check answered Examples.first).0

to_quiet : Run toy started quiet ((([] ++ []) ++ []) ++ response ++ []) 4
unfolding start accept_check accept_return after_check handler_check phase_of find_live
to_quiet =
    next
      (next (next (next here (accept_checks refl)) (accept_returns (ok 1) refl refl)) (
        first_reads 1 (ok (init_bytes pair_a (pos 1700) (some padding))) 100
          (some (0 ∷ 0 ∷ 0 ∷ 0 ∷ 0 ∷ 0 ∷ 0 ∷ 5 ∷ [])) (some padding) true refl first_answered))
      (handler_checks Examples.first refl refl)

quiet-IsLife : IsLife quiet
quiet-IsLife = Run-IsLife toy to_quiet (start-IsLife pair_b true true)

SilentRun-waiting_example :
    (phase_of (tun_check (stop quiet)).handlers 1 ≡ some waiting)
    × (0 < (tun_check (stop quiet)).wg)
    × IsLife (tun_check (stop quiet))
unfolding handler_check stop phase_of set_phase
SilentRun-waiting_example =
    SilentRun-waiting toy 1 {l = quiet}
      (Silent.next (Silent.next Silent.here (stops refl) tt) (tun_checks refl) tt) quiet-IsLife refl
