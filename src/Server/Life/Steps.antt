-- ===== src/Server/Life/Steps.antt =====
-- The steps of the goroutines of a server keep what is true between them.
use hydravpn.Base.{
  ℕ, ◌+◌, ◌≡◌, ◌≢◌, refl, ap, sym, ◌∙◌, subst, Bool, List, arith, if_cases, Option, none, some,
  Result, ok, err,
}
use hydravpn.Crypto.{Random}
use hydravpn.Crypto.Library.{Primitives}
use hydravpn.Server.{Server, Effect, find_live, close_session, accept_session, serve, route}
use hydravpn.Server.Keep.{IsServer, serve-IsServer, route-IsServer, close_session-IsServer}
use hydravpn.Server.Accept.{accept_session-IsServer}
use hydravpn.Server.Leave.{close_session-IsLeft}
use hydravpn.Server.Others.{found_any, is_live, serve-others, route-is_live, accept_session-others}
use hydravpn.Server.Life.{
  Life, at_check, in_call, stop, accept_check, accept_return, tun_check, tun_return, handler_check,
  go_on, first_read, round, after_check, after_error, done_if,
}
use hydravpn.Server.Life.Handlers.{handshaking, checking, waiting, phase_of, total}
use hydravpn.Server.Life.Runs.{
  Step, Run, stops, accept_checks, accept_returns, tun_checks, tun_returns, first_reads,
  handler_checks, rounds, here, next,
}
use hydravpn.Server.Life.Sound.{
  in_loop, running, one, IsLife, returns_counted, handler_returns-IsLife, moves-IsLife,
  go_on-IsLife, handshaking-find_live, loops-IsLife, opens-IsLife,
}

module _ {Aead : Type 0} (lib : Primitives Aead) where
  pub first_read_of :
      (l : Life Aead) (conn : ℕ) (input : Result (List ℕ)) (now : ℕ) (id_bytes padding : Random)
      (writable : Bool) {server : Server Aead} {out : List Effect}
      → accept_session lib l.server conn input now id_bytes padding writable ≡ some (server, out)
      → first_read lib l conn input now id_bytes padding writable ≡ some (go_on l server conn, out)
  unfolding first_read
  first_read_of l conn input now id_bytes padding writable e = rw (e, first_read) refl

  -- The first read of a handler does not panic.
  pub first_read_lem :
      (l : Life Aead) (conn : ℕ) (input : Result (List ℕ)) (now : ℕ) (id_bytes padding : Random)
      (writable : Bool)
      → phase_of l.handlers conn ≡ some handshaking
      → IsLife l
      → (server : Server Aead) × (out : List Effect) × (accept_session lib l.server conn input now
            id_bytes padding writable
          ≡ some (server, out))
        × (first_read lib l conn input now id_bytes padding writable
            ≡ some (go_on l server conn, out))
        × IsServer server
  first_read_lem l conn input now id_bytes padding writable h v =
      let free : find_live l.server.live conn ≡ none =
        handshaking-find_live l conn v (ap in_loop h) in
      let (server, out, e, kept) =
        accept_session-IsServer lib l.server conn input now id_bytes padding writable free
          v.server in
      (server, out, e, first_read_of l conn input now id_bytes padding writable e, kept)

  pub first_read_result :
      (l m : Life Aead) (conn : ℕ) (input : Result (List ℕ)) (now : ℕ) (id_bytes padding : Random)
      (writable : Bool) {out : List Effect}
      → phase_of l.handlers conn ≡ some handshaking
      → first_read lib l conn input now id_bytes padding writable ≡ some (m, out)
      → IsLife l
      → (server : Server Aead) × (accept_session lib l.server conn input now id_bytes padding
            writable
          ≡ some (server, out))
        × (m ≡ go_on l server conn)
        × IsServer server
  first_read_result l m conn input now id_bytes padding writable {out} h e v =
      let (server, out', accepted, first, kept) =
        first_read_lem l conn input now id_bytes padding writable h v in
      let both : ◌≡◌ {A = Option (Life Aead × List Effect)} (some (m, out))
          (some (go_on l server conn, out')) =
        sym e ∙ first in
      let sent : out ≡ out' = cc in
      (server, accepted ∙ ap (λ o. some (server, o)) (sym sent), cc, kept)

  pub Step-IsLife : {l m : Life Aead} {out : List Effect} → Step lib l m out → IsLife l → IsLife m
  unfolding stop accept_check accept_return tun_check tun_return handler_check first_read round
      after_check after_error
  Step-IsLife {l} {m} {out} (stops h) v = record {
    server = v.server;
    handlers = v.handlers;
    in_step = v.in_step;
    counted = v.counted;
  }
  Step-IsLife {l} {m} {out} (accept_checks h) v =
      loops-IsLife l l.server (after_check l.cancelled) l.routing (done_if l.cancelled l.wg)
        v.server (λ d. refl)
        (omega (
          arith,
          returns_counted l.cancelled l.wg (running l.routing + total one l.handlers) l.accepting
              in_call (ap running h) refl (omega (arith, v.counted)),
        ))
        v
  Step-IsLife {l} {m} {out} (accept_returns (err e) h new) v =
      loops-IsLife l l.server (after_error l.cancelled) l.routing (done_if l.cancelled l.wg)
        v.server (λ d. refl)
        (omega (
          arith,
          returns_counted l.cancelled l.wg (running l.routing + total one l.handlers) l.accepting
              at_check (ap running h) refl (omega (arith, v.counted)),
        ))
        v
  Step-IsLife {l} {m} {out} (accept_returns (ok conn) h new) v = opens-IsLife l conn h new v
  Step-IsLife {l} {m} {out} (tun_checks h) v =
      loops-IsLife l l.server l.accepting (after_check l.cancelled) (done_if l.cancelled l.wg)
        v.server (λ d. refl)
        (omega (
          arith,
          returns_counted l.cancelled l.wg (running l.accepting + total one l.handlers) l.routing
              in_call (ap running h) refl (omega (arith, v.counted)),
        ))
        v
  Step-IsLife {l} {m} {out} (tun_returns (err e) random h) v =
      loops-IsLife l l.server l.accepting (after_error l.cancelled) (done_if l.cancelled l.wg)
        v.server (λ d. refl)
        (omega (
          arith,
          returns_counted l.cancelled l.wg (running l.accepting + total one l.handlers) l.routing
              at_check (ap running h) refl (omega (arith, v.counted)),
        ))
        v
  Step-IsLife {l} {m} {out} (tun_returns (ok buf) random h) v =
      loops-IsLife l (route lib l.server buf random).0 l.accepting at_check l.wg
        (route-IsServer lib l.server buf random v.server) (route-is_live lib l.server buf random)
        (omega (arith, v.counted, ap running h)) v
  Step-IsLife {l} {m} {out} (first_reads conn input now id_bytes padding writable h e) v =
      let (server, accepted, result, kept) =
        first_read_result l m conn input now id_bytes padding writable h e v in
      let free : find_live l.server.live conn ≡ none =
        handshaking-find_live l conn v (ap in_loop h) in
      let others : (d : ℕ) → conn ≢ d → is_live server d ≡ is_live l.server d = λ d other.
        ap found_any (
          accept_session-others lib l.server conn input now id_bytes padding writable d accepted
            other free v.server) in
      subst IsLife (sym result) (go_on-IsLife l server conn {q = handshaking} h others kept v)
  Step-IsLife {l} {m} {out} (handler_checks x h found) v =
      let left = close_session-IsLeft l.server x found v.server in
      if_cases (λ (r : Life Aead × List Effect). IsLife r.0) l.cancelled
        (λ e.
          handler_returns-IsLife l (close_session l.server x).0 x.conn {q = checking} h
            (ap found_any left.gone) (λ d other. ap found_any (left.others d other))
            (close_session-IsServer l.server x x found refl refl v.server) v)
        (λ e.
          moves-IsLife l l.server x.conn waiting {q = checking} h (ap found_any found)
            (λ d other. refl) v.server v)
  Step-IsLife {l} {m} {out} (rounds x input now h found) v =
      go_on-IsLife l (serve lib l.server x input now).0 x.conn {q = waiting} h
        (λ d other. ap found_any (serve-others lib l.server x input now d found other v.server))
        (serve-IsServer lib l.server x input now found v.server) v

  pub Run-IsLife :
      {l m : Life Aead} {sent : List Effect} {steps : ℕ}
      → Run lib l m sent steps
      → IsLife l
      → IsLife m
  Run-IsLife here v = v
  Run-IsLife (next r s) v = Step-IsLife s (Run-IsLife r v)
