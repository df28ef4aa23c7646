-- ===== src/Server/Life/Runs.antt =====
-- The runs of a server's goroutines: whichever goroutine is scheduled, and whatever its call returns.
use hydravpn.Base.{ℕ, ◌+◌, ◌≡◌, ◌++◌, Bool, false, List, [], none, some, Result, ok, err}
use hydravpn.Crypto.{Random}
use hydravpn.Crypto.Library.{Primitives}
use hydravpn.Server.{ClientSession, Effect, find_live}
use hydravpn.Server.Life.{
  Life, at_check, in_call, stop, accept_check, accept_return, tun_check, tun_return, handler_check,
  first_read, round,
}
use hydravpn.Server.Life.Handlers.{Phase, handshaking, checking, waiting, phase_of}

-- A connection that the listener returns is no running handler's.
abbrev pub IsNew : List (ℕ × Phase) → Result ℕ → Type 0
IsNew hs (err e) = Unit {0}
IsNew hs (ok conn) = phase_of hs conn ≡ none

module _ {Aead : Type 0} (lib : Primitives Aead) where
  -- One scheduled piece of a goroutine, with what leaves the server. `Stop` is called once.
  pub data Step (l : Life Aead) : Life Aead → List Effect → Type 0 where
    stops : l.cancelled ≡ false → Step l (stop l) []
    accept_checks : l.accepting ≡ at_check → Step l (accept_check l) []
    accept_returns :
        (result : Result ℕ)
        → l.accepting ≡ in_call
        → IsNew l.handlers result
        → Step l (accept_return l result) []
    tun_checks : l.routing ≡ at_check → Step l (tun_check l) []
    tun_returns :
        (result : Result (List ℕ)) (random : ℕ → Random)
        → l.routing ≡ in_call
        → Step l (tun_return lib l result random).0 (tun_return lib l result random).1
    first_reads :
        (conn : ℕ) (input : Result (List ℕ)) (now : ℕ) (id_bytes padding : Random) (writable : Bool)
        {m : Life Aead} {out : List Effect}
        → phase_of l.handlers conn ≡ some handshaking
        → first_read lib l conn input now id_bytes padding writable ≡ some (m, out)
        → Step l m out
    handler_checks :
        (x : ClientSession Aead)
        → phase_of l.handlers x.conn ≡ some checking
        → find_live l.server.live x.conn ≡ some x
        → Step l (handler_check l x).0 (handler_check l x).1
    rounds :
        (x : ClientSession Aead) (input : Result (List ℕ)) (now : ℕ)
        → phase_of l.handlers x.conn ≡ some waiting
        → find_live l.server.live x.conn ≡ some x
        → Step l (round lib l x input now).0 (round lib l x input now).1

  -- A run of some number of steps, with all that has left the server, oldest first.
  pub data Run (l : Life Aead) : Life Aead → List Effect → ℕ → Type 0 where
    here : Run l l [] 0
    next :
        {m n : Life Aead} {sent out : List Effect} {steps : ℕ}
        → Run l m sent steps
        → Step m n out
        → Run l n (sent ++ out) (steps + 1)
