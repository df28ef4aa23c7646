-- ===== src/Server/Stages/Steps.antt =====
-- Every step of the stages keeps what is true between them.
use hydravpn.Base.{
  ℕ, ◌≡◌, refl, ap, ◌∙◌, subst, Bool, true, false, List, arith, Option-cases, Result-cases, inl,
  inr, Option, none, some, Result,
}
use hydravpn.Base.Bytes.{be_value}
use hydravpn.Crypto.{Random}
use hydravpn.Crypto.Library.{Primitives}
use hydravpn.Server.{ClientSession, Effect, find_live, delete_id, handshake_keys}
use hydravpn.Server.IpPool.Invariant.{allocate_lem, allocate_total}
use hydravpn.Server.Sessions.{find_live-remove_live}
use hydravpn.Server.Keep.{route-IsServer}
use hydravpn.Server.Others.{found_any, route-is_live}
use hydravpn.Server.Life.Handlers.{phase_of, set_phase, phase_of-set_phase}
use hydravpn.Server.Stages.{
  Stage, reading, made, listed, answered, unlisted, Stages, list_session, unlist_session,
  free_session, publish, unlist, free, make, answer, serve_open, serve_stage, Step, connects, makes,
  publishes, answers, rounds, stops, frees, routes,
}
use hydravpn.Server.Stages.Table.{
  in_table, InTable, returns-InTable, enters-InTable, leaves-InTable, All-delete_id,
}
use hydravpn.Server.Stages.Sound.{
  IsStages, list_session-IsServer, unlist_session-IsServer, free_session-IsServer,
}
use hydravpn.Server.Stages.Serve.{
  GoesOn, IsStored-IsServer, IsStored-is_live, IsStored-sessions, serve_open-GoesOn, route-sessions,
}
use hydravpn.Server.Stages.Moves.{
  moves-IsStages, returns-IsStages, start_handler-IsStages, refuse-IsStages, made-IsStages,
}

module _ {Aead : Type 0} where
  publish-IsStages :
      (w : Stages Aead) (x : ClientSession Aead)
      → phase_of w.handlers x.conn ≡ some made
      → find_live w.server.live x.conn ≡ some x
      → IsStages w
      → IsStages (publish w x)
  unfolding publish list_session
  publish-IsStages w x at found v =
      let inside : in_table (phase_of (set_phase w.handlers x.conn listed) x.conn) ≡ true =
        ap in_table {y = some listed}
          (phase_of-set_phase w.handlers x.conn x.conn listed {q = made} at ∙ ground arith) in
      moves-IsStages w (list_session w.server x) x.conn listed {q = made} at (ap found_any found)
        (λ d other. refl) (list_session-IsServer w.server x found v.server)
        (
          inside,
          enters-InTable w.handlers x.conn listed (delete_id w.server.sessions x.id) {q = made} at
              refl (All-delete_id (InTable w.handlers) w.server.sessions x.id v.listed),
        )
        v

  unlist-IsStages :
      (w : Stages Aead) (x : ClientSession Aead) {q : Stage}
      → phase_of w.handlers x.conn ≡ some q
      → find_live w.server.live x.conn ≡ some x
      → IsStages w
      → IsStages (unlist w x)
  unfolding unlist unlist_session
  unlist-IsStages w x {q} at found v =
      moves-IsStages w (unlist_session w.server x) x.conn unlisted {q = q} at (ap found_any found)
        (λ d other. refl) (unlist_session-IsServer w.server x v.server)
        (leaves-InTable w.server.live w.handlers x unlisted w.server.sessions {q = q} found at
          v.server.table v.listed)
        v

  free-IsStages :
      (w : Stages Aead) (x : ClientSession Aead)
      → phase_of w.handlers x.conn ≡ some unlisted
      → find_live w.server.live x.conn ≡ some x
      → IsStages w
      → IsStages (free w x).0
  unfolding free free_session
  free-IsStages w x at found v =
      let removed = λ (d : ℕ). find_live-remove_live w.server.live x.conn d v.server.conns in
      returns-IsStages w (free_session w.server x) x.conn
        (ap found_any {y = none} (removed x.conn ∙ ground arith))
        (λ d other. ap found_any (removed d ∙ ground (arith, other)))
        (free_session-IsServer w.server w.handlers x found (ap in_table at) v.listed v.server)
        (returns-InTable w.handlers x.conn w.server.sessions {q = unlisted} at refl v.handlers
          v.listed)
        v

-- What a stage leaves where it does not panic.
abbrev pub Keeps : {Aead : Type 0} → Option (Stages Aead × List Effect) → Type 0
Keeps none = Unit {0}
Keeps (some (m, out)) = IsStages m

module _ {Aead : Type 0} (lib : Primitives Aead) where
  make-Keeps :
      (w : Stages Aead) (conn : ℕ) (input : Result (List ℕ)) (now : ℕ) (id_bytes : Random)
      → phase_of w.handlers conn ≡ some reading
      → IsStages w
      → Keeps (make lib w conn input now id_bytes)
  unfolding make
  make-Keeps w conn input now id_bytes at v =
      elim (Result-cases (handshake_keys lib w.server.key_pair input)) [
        | inl (e, h) ↦ rw (h, make) (refuse-IsStages w conn at v)
        | inr (keys, h) ↦ elim (allocate_total w.server.ip_pool v.server.pool.subnet) [
          | inr g ↦ rw (h, g, make) (refuse-IsStages w conn at v)
          | inl (pool, ip, g) ↦
              let session : ClientSession Aead = record {
                id = elim id_bytes [ none ↦ 0 | some bytes ↦ be_value bytes ];
                conn = conn;
                crypto_session = keys;
                assigned_ip = ip;
                last_seen = now;
              } in
              let lent = allocate_lem w.server.ip_pool {q = pool} {ip = ip} v.server.pool g in
              rw (h, g, make) (made-IsStages w pool session at lent v)
        ]
      ]

  answer-IsStages :
      (w : Stages Aead) (x : ClientSession Aead) (padding : Random) (writable : Bool)
      → phase_of w.handlers x.conn ≡ some listed
      → find_live w.server.live x.conn ≡ some x
      → IsStages w
      → IsStages (answer lib w x padding writable).0
  unfolding answer
  answer-IsStages w x padding true at found v =
      moves-IsStages w w.server x.conn answered {q = listed} at (ap found_any found)
        (λ d other. refl) v.server
        (enters-InTable w.handlers x.conn answered w.server.sessions {q = listed} at refl v.listed)
        v
  answer-IsStages w x padding false at found v = unlist-IsStages w x {q = listed} at found v

  serve_stage-IsStages :
      (w : Stages Aead) (x : ClientSession Aead) (input : Result (List ℕ)) (now : ℕ)
      → phase_of w.handlers x.conn ≡ some answered
      → find_live w.server.live x.conn ≡ some x
      → IsStages w
      → IsStages (serve_stage lib w x input now).0
  unfolding serve_stage
  serve_stage-IsStages w x input now at found v =
      elim (Option-cases (serve_open lib w.server x input now)) [
        | inl e ↦ rw (e, serve_stage) (unlist-IsStages w x {q = answered} at found v)
        | inr ((s, out), e) ↦
            let kept = subst (GoesOn w.server x) e (serve_open-GoesOn lib w.server x input now) in
            rw (e, serve_stage)
              (record {
                server = IsStored-IsServer w.server s x found v.server kept;
                handlers = v.handlers;
                in_step = λ d. IsStored-is_live w.server s x d found kept ∙ v.in_step d;
                listed = rw (IsStored-sessions w.server s x kept) v.listed;
              })
      ]

  -- Every step of the stages keeps what is true between them.
  pub Step-IsStages :
      {w m : Stages Aead} {out : List Effect} → Step lib w m out → IsStages w → IsStages m
  Step-IsStages {w} (connects conn free) v = start_handler-IsStages w conn free v
  Step-IsStages {w} (makes conn input now id_bytes at e) v =
      subst Keeps e (make-Keeps w conn input now id_bytes at v)
  Step-IsStages {w} (publishes x at found) v = publish-IsStages w x at found v
  Step-IsStages {w} (answers x padding writable at found) v =
      answer-IsStages w x padding writable at found v
  Step-IsStages {w} (rounds x input now at found) v = serve_stage-IsStages w x input now at found v
  Step-IsStages {w} (stops x at found) v = unlist-IsStages w x {q = answered} at found v
  Step-IsStages {w} (frees x at found) v = free-IsStages w x at found v
  Step-IsStages {w} (routes buf random) v = record {
    server = route-IsServer lib w.server buf random v.server;
    handlers = v.handlers;
    in_step = λ d. route-is_live lib w.server buf random d ∙ v.in_step d;
    listed = rw (route-sessions lib w.server buf random) v.listed;
  }
