-- ===== src/Server/Accept.antt =====
-- What `handleConnection` does up to its loop.
use hydravpn.Base.{
  ℕ, ◌≡◌, refl, sym, ap, ◌∙◌, Bool, List, [], ◌∷◌, arith, Bool-cases, Result-cases, inl, inr, none,
  some, Option, Result, ok, err, if◌then◌else◌,
}
use hydravpn.Base.{String}
use hydravpn.Base.Bytes.{be_value}
use hydravpn.Crypto.{Session, Random}
use hydravpn.Crypto.Library.{Primitives}
use hydravpn.Server.{
  ClientSession, Server, Effect, close_conn, write_conn, find_live, delete_id, close_session,
  handshake_keys, response_bytes, accept_session,
}
use hydravpn.Server.IpPool.{IpPool as Pool, contains, allocate}
use hydravpn.Server.IpPool.Invariant.{IsPool, IsAllocated, allocate_lem, allocate_total}
use hydravpn.Server.Sessions.{open-PointsTo}
use hydravpn.Server.Keep.{IsServer, close_session-IsServer}

module _ {Aead : Type 0} where
  -- The state with a new session under an address that was free.
  abbrev pub opened : Server Aead → Pool → ClientSession Aead → Server Aead
  opened s pool x = record s {
    sessions = (x.id, x.conn) ∷ delete_id s.sessions x.id;
    live = x ∷ s.live;
    ip_pool = pool;
  }

  pub opened-IsServer :
      (s : Server Aead) (pool : Pool) (x : ClientSession Aead)
      → IsServer s
      → find_live s.live x.conn ≡ none
      → IsAllocated s.ip_pool pool x.assigned_ip
      → IsServer (opened s pool x)
  unfolding find_live contains
  opened-IsServer s pool x v free a = record {
    pool = a.pool;
    same_base = a.same_base ∙ v.same_base;
    same_size = a.same_size ∙ v.same_size;
    conns = (free, v.conns);
    addresses = (sym (v.used x.assigned_ip) ∙ a.fresh, v.addresses);
    used = λ b. ap (λ xs. contains xs b) a.used ∙ ground (arith, v.used b);
    table = ((x, ground arith, refl), open-PointsTo s.live x s.sessions free v.table);
  }

  pub opened-found :
      (s : Server Aead) (pool : Pool) (x : ClientSession Aead)
      → find_live (opened s pool x).live x.conn ≡ some x
  unfolding find_live
  opened-found s pool x = ground arith

module _ {Aead : Type 0} (lib : Primitives Aead) where
  abbrev pub session_id : Random → ℕ
  session_id id_bytes = elim id_bytes [ none ↦ 0 | some bytes ↦ be_value bytes ]

  -- The three ends of a handshake on a well-formed server: refused, with the state as it was; no address
  -- left, with the state as it was; a session under the address that the pool gave.
  pub data Accepted (s : Server Aead) (conn : ℕ) (input : Result (List ℕ)) (now : ℕ)
      (id_bytes padding : Random) (writable : Bool) (outcome : Option (Server Aead × List Effect))
      : Type 0 where
    refused :
        (e : String)
        → handshake_keys lib s.key_pair input ≡ err e
        → outcome ≡ some (s, close_conn conn ∷ [])
        → Accepted s conn input now id_bytes padding writable outcome
    exhausted :
        allocate s.ip_pool ≡ some (s.ip_pool, err "IP pool exhausted")
        → outcome ≡ some (s, close_conn conn ∷ [])
        → Accepted s conn input now id_bytes padding writable outcome
    established :
        (keys : Session Aead) (pool : Pool) (x : ClientSession Aead)
        → handshake_keys lib s.key_pair input ≡ ok keys
        → allocate s.ip_pool ≡ some (pool, ok x.assigned_ip)
        → (x.conn ≡ conn)
          × (x.crypto_session ≡ keys)
          × (x.id ≡ session_id id_bytes)
          × (x.last_seen ≡ now)
        → outcome
          ≡ some (
              if writable
              then (opened s pool x, write_conn conn (response_bytes lib s x padding) ∷ [])
              else close_session (opened s pool x) x)
        → Accepted s conn input now id_bytes padding writable outcome

  -- On a well-formed address pool a handshake does not panic, and ends in one of the three ways.
  pub accept_session-Accepted :
      (s : Server Aead) (conn : ℕ) (input : Result (List ℕ)) (now : ℕ) (id_bytes padding : Random)
      (writable : Bool)
      → IsPool s.ip_pool
      → Accepted s conn input now id_bytes padding writable
          (accept_session lib s conn input now id_bytes padding writable)
  unfolding accept_session
  accept_session-Accepted s conn input now id_bytes padding writable v =
      elim (Result-cases (handshake_keys lib s.key_pair input)) [
        | inl (e, h) ↦ refused e h (rw (h, accept_session) refl)
        | inr (keys, h) ↦ elim (allocate_total s.ip_pool v.subnet) [
          | inr g ↦ exhausted g (rw (h, g, accept_session) refl)
          | inl (pool, ip, g) ↦
              established keys pool
                (record {
                  id = session_id id_bytes;
                  conn = conn;
                  crypto_session = keys;
                  assigned_ip = ip;
                  last_seen = now;
                })
                h g (refl, refl, refl, refl) (rw (h, g, accept_session) refl)
        ]
      ]

  -- A handshake on a new connection does not panic and keeps the server's state.
  pub accept_session-IsServer :
      (s : Server Aead) (conn : ℕ) (input : Result (List ℕ)) (now : ℕ) (id_bytes padding : Random)
      (writable : Bool)
      → find_live s.live conn ≡ none
      → IsServer s
      → (m : Server Aead) × (out : List Effect) × (accept_session lib s conn input now id_bytes
            padding writable
          ≡ some (m, out))
        × IsServer m
  accept_session-IsServer s conn input now id_bytes padding writable free v =
      elim (accept_session-Accepted s conn input now id_bytes padding writable v.pool) [
        | refused e h outcome ↦ (s, _, outcome, v)
        | exhausted h outcome ↦ (s, _, outcome, v)
        | established keys pool x h g (c, _, _, _) outcome ↦
            let fresh : find_live s.live x.conn ≡ none = ap (find_live s.live) c ∙ free in
            let kept : IsServer (opened s pool x) =
              opened-IsServer s pool x v fresh (allocate_lem s.ip_pool v.pool g) in
            let found = opened-found s pool x in
            let (after, out) =
              if writable
              then (opened s pool x, write_conn conn (response_bytes lib s x padding) ∷ [])
              else close_session (opened s pool x) x in
            let ended : IsServer (close_session (opened s pool x) x).0 =
              close_session-IsServer (opened s pool x) x x found refl refl kept in
            (
              after,
              out,
              outcome,
              elim (Bool-cases writable) [ inl w ↦ rw w kept | inr w ↦ rw w ended ],
            )
      ]
