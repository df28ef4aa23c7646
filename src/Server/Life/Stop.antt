-- ===== src/Server/Life/Stop.antt =====
-- How a server stops: `Stop` waits until its goroutines have returned.
use hydravpn.Base.{ℕ, false, ◌+◌, ◌≡◌, false, []}
use hydravpn.Server.{Server}
use hydravpn.Server.Life.{Life, LoopState, at_check, in_call, returned}
use hydravpn.Server.Life.Handlers.{Phase, handshaking, checking, waiting, total}
use hydravpn.Server.IpPool.{contains}

-- How far a goroutine is from its return at most, once the context is done.
abbrev pub loop_weight : ℕ → LoopState → ℕ
loop_weight busy at_check = 1
loop_weight busy in_call = busy
loop_weight busy returned = 0

abbrev pub phase_weight : Phase → ℕ
phase_weight handshaking = 3
phase_weight checking = 1
phase_weight waiting = 2

abbrev pub weight : {Aead : Type 0} → Life Aead → ℕ
weight l = loop_weight 5 l.accepting + loop_weight 2 l.routing + total phase_weight l.handlers

-- All goroutines have returned, no session is left, and no address is lent.
pub record IsDone {Aead : Type 0} (l : Life Aead) : Type 0 where
  pub waited : l.wg ≡ 0
  pub accepting : l.accepting ≡ returned
  pub routing : l.routing ≡ returned
  pub handlers : l.handlers ≡ []
  pub sessions : l.server.sessions ≡ []
  pub live : l.server.live ≡ []
  pub free : (a : ℕ) → contains l.server.ip_pool.used a ≡ false
