-- ===== src/Server/Apart.antt =====
-- What the steps of the other goroutines leave of a session: its object, its table entry, and what is
-- written to its connection.
pub mod Rounds
pub mod Steps
use hydravpn.Base.{
  ℕ, ◌≡◌, ◌≢◌, inl, inr, refl, ap, sym, ◌∙◌, subst, Bool, true, false, List, [], ◌∷◌, arith, ltb,
  ◌==◌, ◌||◌, ==_iff, All, Bool-cases, Option-cases, Result-cases, length, Option, none, some,
  some_same, Result, ok, err, if◌then◌else◌,
}
use hydravpn.Base.Bytes.{be_value}
use hydravpn.Base.Slices.{slice}
use hydravpn.Protocol.{Packet, unmarshal_packet}
use hydravpn.Protocol.PacketType
use hydravpn.Crypto.{Random, encrypt, decrypt}
use hydravpn.Crypto.Library.{Primitives}
use hydravpn.Server.{
  ClientSession, Server, Effect, write_conn, write_tun, close_conn, delete_id, find_live, store,
  response_bytes, close_session, accept_session, serve_transfer, serve_packet, serve, route_to,
  route,
}
use hydravpn.Server.IpPool.{IpPool as Pool}
use hydravpn.Server.IpPool.Invariant.{allocate_lem}
use hydravpn.Server.Sessions.{DistinctConns, PointsTo, find_live-conn}
use hydravpn.Server.Keep.{IsServer, store-IsServer, store-found}
use hydravpn.Server.Accept.{
  refused, exhausted, established, opened, opened-found, session_id, accept_session-Accepted,
  opened-IsServer,
}
use hydravpn.Server.Route.{has_entry}
use hydravpn.Server.Others.{store-others, opened-others, closed-others}
use hydravpn.Server.Interleaving.{Step, accepts, serves, stops, routes}

-- What effects write to a connection.
abbrev pub messages_to : ℕ → List Effect → List (List ℕ)
messages_to conn [] = []
messages_to conn (Effect.write_conn c bytes ∷ out) =
    let rest = messages_to conn out in if c == conn then bytes ∷ rest else rest
messages_to conn (_ ∷ out) = messages_to conn out

pub record IsUntouched {Aead : Type 0} (s m : Server Aead) (out : List Effect)
    (x : ClientSession Aead) : Type 0 where
  pub found : find_live m.live x.conn ≡ some x
  pub listed : has_entry m.sessions x.conn ≡ true
  pub same_tun : m.has_tun ≡ s.has_tun
  pub silent : messages_to x.conn out ≡ []

-- A session of a running handler that is in the table.
abbrev pub IsListed : {Aead : Type 0} → Server Aead → ClientSession Aead → Type 0
IsListed s x = (find_live s.live x.conn ≡ some x) × (has_entry s.sessions x.conn ≡ true)

module _ {Aead : Type 0} where
  -- A handler's cleanup deletes the entries of its id only.
  delete_id-has_entry :
      (live : List (ClientSession Aead)) (table : List (ℕ × ℕ)) (id : ℕ) (x : ClientSession Aead)
      → find_live live x.conn ≡ some x
      → id ≢ x.id
      → All (PointsTo live) table
      → has_entry (delete_id table id) x.conn ≡ has_entry table x.conn
  unfolding delete_id
  delete_id-has_entry live [] id x found other v = refl
  delete_id-has_entry live ((k, c) ∷ table) id x found other v =
      let rest = delete_id-has_entry live table id x found other v.1 in
      let (y, at, same_id) = v.0 in
      elim (Bool-cases (k == id)) [
        | inr e ↦ rw (e, rest) refl
        | inl e ↦ elim (Bool-cases (c == x.conn)) [
          | inr f ↦ rw (e, f, rest) refl
          | inl f ↦
              let at_x : find_live live x.conn ≡ some y =
                ap (find_live live) (sym ((==_iff c x.conn).0 f)) ∙ at in
              let same : y ≡ x = some_same at_x found in
              absurd (other (sym ((==_iff k id).0 e) ∙ sym same_id ∙ ap (λ z. z.id) same))
        ]
      ]

  pub unchanged :
      (s : Server Aead) (out : List Effect) (x : ClientSession Aead)
      → IsListed s x
      → messages_to x.conn out ≡ []
      → IsUntouched s s out x
  unchanged s out x (found, listed) silent = record {
    found = found;
    listed = listed;
    same_tun = refl;
    silent = silent;
  }

  pub stored :
      (s : Server Aead) (y' y : ClientSession Aead) (out : List Effect) (x : ClientSession Aead)
      → find_live s.live y'.conn ≡ some y
      → y'.conn ≢ x.conn
      → IsListed s x
      → messages_to x.conn out ≡ []
      → IsUntouched s (store s y') out x
  stored s y' y out x at other (found, listed) silent = record {
    found = store-others s y' y x.conn at other ∙ found;
    listed = listed;
    same_tun = refl;
    silent = silent;
  }

  pub closed :
      (s : Server Aead) (y x : ClientSession Aead)
      → IsServer s
      → y.conn ≢ x.conn
      → y.id ≢ x.id
      → IsListed s x
      → IsUntouched s (close_session s y).0 (close_session s y).1 x
  unfolding close_session
  closed s y x v other other_id (found, listed) = record {
    found = closed-others s y x.conn v.conns other ∙ found;
    listed = delete_id-has_entry s.live s.sessions y.id x found other_id v.table ∙ listed;
    same_tun = refl;
    silent = refl;
  }

  pub new_session :
      (s : Server Aead) (pool : Pool) (y : ClientSession Aead) (out : List Effect)
      (x : ClientSession Aead)
      → IsServer s
      → y.conn ≢ x.conn
      → y.id ≢ x.id
      → IsListed s x
      → messages_to x.conn out ≡ []
      → IsUntouched s (opened s pool y) out x
  new_session s pool y out x v other other_id (found, listed) silent = record {
    found = opened-others s pool y x.conn other ∙ found;
    listed =
        let kept : has_entry (delete_id s.sessions y.id) x.conn ≡ true =
          delete_id-has_entry s.live s.sessions y.id x found other_id v.table ∙ listed in
        ground (arith, other, kept);
    same_tun = refl;
    silent = silent;
  }

  -- A step after one that writes nothing.
  pub then-IsUntouched :
      {s m n : Server Aead} {out : List Effect} {x : ClientSession Aead}
      → IsUntouched s m [] x
      → IsUntouched m n out x
      → IsUntouched s n out x
  then-IsUntouched a b = record {
    found = b.found;
    listed = b.listed;
    same_tun = b.same_tun ∙ a.same_tun;
    silent = b.silent;
  }
