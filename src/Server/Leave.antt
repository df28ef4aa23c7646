-- ===== src/Server/Leave.antt =====
-- How a session ends.
use hydravpn.Base.{
  ℕ, ◌≡◌, ◌≢◌, inl, inr, refl, ap, sym, ◌∙◌, false, List, [], ◌∷◌, arith, ◌==◌, ==_iff, Bool-cases,
  All, none, some, Result, ok, err, String,
}
use hydravpn.Protocol.{Packet, unmarshal_packet}
use hydravpn.Protocol.PacketType
use hydravpn.Crypto.Library.{Primitives}
use hydravpn.Server.{
  ClientSession, Server, close_conn, find_live, remove_live, store, close_session, serve_packet,
  serve,
}
use hydravpn.Server.IpPool.{contains}
use hydravpn.Server.IpPool.Invariant.{release_lem}
use hydravpn.Server.Sessions.{PointsTo, find_live-store_live, find_live-remove_live}
use hydravpn.Server.Keep.{IsServer, close_session-IsServer, store-IsServer, store-found}
use hydravpn.Server.Route.{has_entry}

-- The session `x` has ended: no handler has its connection, no table entry is for it, its address is
-- free, and the handlers of all other connections are as they were.
pub record IsLeft {Aead : Type 0} (s m : Server Aead) (x : ClientSession Aead) : Type 0 where
  pub gone : find_live m.live x.conn ≡ none
  pub unlisted : has_entry m.sessions x.conn ≡ false
  pub free : contains m.ip_pool.used x.assigned_ip ≡ false
  pub others : (d : ℕ) → x.conn ≢ d → find_live m.live d ≡ find_live s.live d

module _ {Aead : Type 0} where
  unlisted_lem :
      (live : List (ClientSession Aead)) (table : List (ℕ × ℕ)) (c : ℕ)
      → find_live live c ≡ none
      → All (PointsTo live) table
      → has_entry table c ≡ false
  unlisted_lem live [] c h v = refl
  unlisted_lem live ((id, d) ∷ table) c h v = elim (Bool-cases (d == c)) [
    | inl e ↦
        let (y, at, _) = v.0 in
        let at_c : find_live live c ≡ some y = ap (find_live live) (sym ((==_iff d c).0 e)) ∙ at in
        absurd cc
    | inr e ↦ rw e (unlisted_lem live table c h v.1)
  ]

  pub close_session-IsLeft :
      (s : Server Aead) (x : ClientSession Aead)
      → find_live s.live x.conn ≡ some x
      → IsServer s
      → IsLeft s (close_session s x).0 x
  unfolding close_session
  close_session-IsLeft s x found v =
      let kept : IsServer (close_session s x).0 = close_session-IsServer s x x found refl refl v in
      let gone : find_live (remove_live s.live x.conn) x.conn ≡ none =
        find_live-remove_live s.live x.conn x.conn v.conns ∙ ground arith in
      record {
        gone = gone;
        unlisted =
            unlisted_lem (close_session s x).0.live (close_session s x).0.sessions x.conn gone
              kept.table;
        free = (release_lem s.ip_pool x.assigned_ip v.pool).1 x.assigned_ip ∙ ground arith;
        others = λ d h. find_live-remove_live s.live x.conn d v.conns ∙ ground (arith, h);
      }

-- What ends a session: a read that fails, or a disconnect packet.
pub data Ends (input : Result (List ℕ)) : Type 0 where
  read_failed : (e : String) → input ≡ err e → Ends input
  disconnected :
      (buf : List ℕ) (packet : Packet)
      → input ≡ ok buf
      → unmarshal_packet buf ≡ ok packet
      → packet.header.packet_type ≡ PacketType.disconnect
      → Ends input

module _ {Aead : Type 0} (lib : Primitives Aead) where
  -- A handler on a sound server whose read fails or gives a disconnect packet ends its session: the
  -- connection is closed and nothing else is sent, no handler and no table entry are left for it, its
  -- address is free, and the handlers of all other connections stay.
  pub serve-IsLeft :
      (s : Server Aead) (x : ClientSession Aead) (input : Result (List ℕ)) (now : ℕ)
      → find_live s.live x.conn ≡ some x
      → IsServer s
      → Ends input
      → ((serve lib s x input now).1 ≡ close_conn x.conn ∷ [])
        × IsLeft s (serve lib s x input now).0 x
  unfolding serve serve_packet close_session
  serve-IsLeft s x input now found v (read_failed e h) =
      rw (h, serve) (refl, close_session-IsLeft s x found v)
  serve-IsLeft s x input now found v (disconnected buf packet h read t) =
      let x' : ClientSession Aead = record x { last_seen = now } in
      let left =
        close_session-IsLeft (store s x') x' (store-found s x' x found)
          (store-IsServer s x' x found refl refl v) in
      rw (h, read, t, serve_packet, serve)
        (
          refl,
          record {
            gone = left.gone;
            unlisted = left.unlisted;
            free = left.free;
            others = λ d h.
                left.others d h
                ∙ find_live-store_live s.live x' d {x = x} found
                ∙ ground (arith, h);
          },
        )
