-- ===== src/Server/Stages/Moves.antt =====
-- A handler that changes its stage, or comes or goes: what is true between the steps stays so.
use hydravpn.Base.{
  ℕ, ◌≡◌, ◌≢◌, refl, ap, sym, ◌∙◌, false, ◌∷◌, arith, ◌==◌, ==_iff, Bool-cases, All, All-imp, inl,
  inr, none, some,
}
use hydravpn.Server.{ClientSession, Server, find_live}
use hydravpn.Server.IpPool.{IpPool as Pool, contains}
use hydravpn.Server.IpPool.Invariant.{IsAllocated}
use hydravpn.Server.Sessions.{PointsTo}
use hydravpn.Server.Keep.{IsServer}
use hydravpn.Server.Others.{is_live}
use hydravpn.Server.Life.Handlers.{
  phase_of, set_phase, remove_handler, phase_of-set_phase, phase_of-remove_handler,
  set_phase-DistinctHandlers, remove_handler-DistinctHandlers,
}
use hydravpn.Server.Stages.{Stage, reading, made, Stages, start_handler, refuse, free}
use hydravpn.Server.Stages.Table.{
  has_session, in_table, InTable, outside, moves-InTable, returns-InTable,
}
use hydravpn.Server.Stages.Sound.{IsStages}

module _ {Aead : Type 0} where
  pub moves-IsStages :
      (w : Stages Aead) (server : Server Aead) (c : ℕ) (p : Stage) {q : Stage}
      → phase_of w.handlers c ≡ some q
      → is_live server c ≡ has_session (some p)
      → ((d : ℕ) → c ≢ d → is_live server d ≡ is_live w.server d)
      → IsServer server
      → All (InTable (set_phase w.handlers c p)) server.sessions
      → IsStages w
      → IsStages (record { server = server; handlers = set_phase w.handlers c p })
  moves-IsStages w server c p {q} at now others sound table v = record {
    server = sound;
    handlers = set_phase-DistinctHandlers w.handlers c p v.handlers;
    in_step = λ d.
        let after = phase_of-set_phase w.handlers c d p {q = q} at in
        elim (Bool-cases (c == d)) [
          | inl e ↦
              let same : c ≡ d = (==_iff c d).0 e in
              rw (after, e) (ap (is_live server) (sym same) ∙ now)
          | inr e ↦ rw (after, e) (others d (ground arith) ∙ v.in_step d)
        ];
    listed = table;
  }

  pub returns-IsStages :
      (w : Stages Aead) (server : Server Aead) (c : ℕ)
      → is_live server c ≡ false
      → ((d : ℕ) → c ≢ d → is_live server d ≡ is_live w.server d)
      → IsServer server
      → All (InTable (remove_handler w.handlers c)) server.sessions
      → IsStages w
      → IsStages (record { server = server; handlers = remove_handler w.handlers c })
  returns-IsStages w server c gone others sound table v = record {
    server = sound;
    handlers = remove_handler-DistinctHandlers w.handlers c v.handlers;
    in_step = λ d.
        let after = phase_of-remove_handler w.handlers c d v.handlers in
        elim (Bool-cases (c == d)) [
          | inl e ↦
              let same : c ≡ d = (==_iff c d).0 e in
              rw (after, e) (ap (is_live server) (sym same) ∙ gone)
          | inr e ↦ rw (after, e) (others d (ground arith) ∙ v.in_step d)
        ];
    listed = table;
  }

  pub start_handler-IsStages :
      (w : Stages Aead) (c : ℕ)
      → phase_of w.handlers c ≡ none
      → IsStages w
      → IsStages (start_handler w c)
  unfolding start_handler phase_of
  start_handler-IsStages w c free v = record {
    server = v.server;
    handlers = (free, v.handlers);
    in_step = λ d. elim (Bool-cases (c == d)) [
      | inl e ↦
          let same : c ≡ d = (==_iff c d).0 e in
          rw e (ap (is_live w.server) (sym same) ∙ v.in_step c ∙ ap has_session free)
      | inr e ↦ rw e (v.in_step d)
    ];
    listed =
        All-imp (InTable w.handlers) w.server.sessions
          (λ entry in_it. rw (outside w.handlers c entry.1 (ap in_table free) in_it) in_it)
          v.listed;
  }

  pub refuse-IsStages :
      (w : Stages Aead) (c : ℕ)
      → phase_of w.handlers c ≡ some reading
      → IsStages w
      → IsStages (refuse w c).0
  unfolding refuse
  refuse-IsStages w c at v =
      returns-IsStages w w.server c (v.in_step c ∙ ap has_session at) (λ d other. refl) v.server
        (returns-InTable w.handlers c w.server.sessions {q = reading} at refl v.handlers v.listed) v

  -- A new session object with an address that was free.
  pub made-IsStages :
      (w : Stages Aead) (pool : Pool) (x : ClientSession Aead)
      → phase_of w.handlers x.conn ≡ some reading
      → IsAllocated w.server.ip_pool pool x.assigned_ip
      → IsStages w
      → IsStages (record {
        server = record w.server { ip_pool = pool; live = x ∷ w.server.live };
        handlers = set_phase w.handlers x.conn made;
      })
  unfolding find_live contains
  made-IsStages w pool x at a v =
      let s = v.server in
      let free : is_live w.server x.conn ≡ false = v.in_step x.conn ∙ ap has_session at in
      let new : find_live w.server.live x.conn ≡ none = ground (arith, free) in
      let server : Server Aead = record w.server { ip_pool = pool; live = x ∷ w.server.live } in
      let sound : IsServer server = record {
        pool = a.pool;
        same_base = a.same_base ∙ s.same_base;
        same_size = a.same_size ∙ s.same_size;
        conns = (new, s.conns);
        addresses = (sym (s.used x.assigned_ip) ∙ a.fresh, s.addresses);
        used = λ b. ap (λ xs. contains xs b) a.used ∙ ground (arith, s.used b);
        table =
            All-imp (PointsTo w.server.live) w.server.sessions
              (λ entry (y, found, ids). (y, ground (arith, new, found), ids)) s.table;
      } in
      moves-IsStages w server x.conn made {q = reading} at (ground arith)
        (λ d other. ground (arith, other)) sound
        (moves-InTable w.handlers x.conn made w.server.sessions {q = reading} at refl v.listed) v
