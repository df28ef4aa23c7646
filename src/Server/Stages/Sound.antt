-- ===== src/Server/Stages/Sound.antt =====
-- What the stages keep true, whichever goroutine runs next.
use hydravpn.Base.{ℕ, ◌≡◌, refl, sym, ◌∙◌, false, List, [], ◌∷◌, All, some}
use hydravpn.Server.{ClientSession, Server, find_live, remove_live}
use hydravpn.Server.IpPool.{release, max_hosts}
use hydravpn.Server.IpPool.Invariant.{release_lem}
use hydravpn.Server.Sessions.{
  PointsTo, find_live-remove_live, contains-remove_live, remove_live-Distinct,
  remove_live-DistinctConns,
}
use hydravpn.Server.Keep.{IsServer}
use hydravpn.Server.Others.{is_live}
use hydravpn.Server.Life.Handlers.{phase_of, DistinctHandlers}
use hydravpn.Server.Stages.{Stage, Stages, list_session, unlist_session, free_session}
use hydravpn.Server.Stages.Table.{has_session, in_table, InTable, outside, All-delete_id}

pub record IsStages {Aead : Type 0} (w : Stages Aead) : Type 0 where
  pub server : IsServer w.server
  pub handlers : DistinctHandlers w.handlers
  pub in_step : (c : ℕ) → is_live w.server c ≡ has_session (phase_of w.handlers c)
  pub listed : All (InTable w.handlers) w.server.sessions

module _ {Aead : Type 0} where
  pub list_session-IsServer :
      (s : Server Aead) (x : ClientSession Aead)
      → find_live s.live x.conn ≡ some x
      → IsServer s
      → IsServer (list_session s x)
  unfolding list_session max_hosts
  list_session-IsServer s x found v = record {
    pool = v.pool;
    same_base = v.same_base;
    same_size = v.same_size;
    conns = v.conns;
    addresses = v.addresses;
    used = v.used;
    table = ((x, found, refl), All-delete_id (PointsTo s.live) s.sessions x.id v.table);
  }

  pub unlist_session-IsServer :
      (s : Server Aead) (x : ClientSession Aead) → IsServer s → IsServer (unlist_session s x)
  unfolding unlist_session max_hosts
  unlist_session-IsServer s x v = record {
    pool = v.pool;
    same_base = v.same_base;
    same_size = v.same_size;
    conns = v.conns;
    addresses = v.addresses;
    used = v.used;
    table = All-delete_id (PointsTo s.live) s.sessions x.id v.table;
  }

  -- The object and the address of a session that is not in the table.
  pub free_session-IsServer :
      (s : Server Aead) (hs : List (ℕ × Stage)) (x : ClientSession Aead)
      → find_live s.live x.conn ≡ some x
      → in_table (phase_of hs x.conn) ≡ false
      → All (InTable hs) s.sessions
      → IsServer s
      → IsServer (free_session s x)
  unfolding free_session release max_hosts
  free_session-IsServer s hs x found out table v =
      let (pool, freed) = release_lem s.ip_pool x.assigned_ip v.pool in
      record {
        pool = pool;
        same_base = v.same_base;
        same_size = v.same_size;
        conns = remove_live-DistinctConns s.live x.conn v.conns;
        addresses = remove_live-Distinct s.live x.conn v.addresses;
        used = λ a.
            freed a
            ∙ rw (v.used a) (sym (contains-remove_live s.live x.conn a {x = x} v.addresses found));
        table = free_table s.sessions v.table table;
      }
    where
      free_table :
          (table : List (ℕ × ℕ))
          → All (PointsTo s.live) table
          → All (InTable hs) table
          → All (PointsTo (remove_live s.live x.conn)) table
      free_table [] points h = tt
      free_table ((id, c) ∷ table) points h =
          let (y, at, ids) = points.0 in
          let other = outside hs x.conn c out h.0 in
          let removed = find_live-remove_live s.live x.conn c v.conns in
          ((y, removed ∙ rw other at, ids), free_table table points.1 h.1)
