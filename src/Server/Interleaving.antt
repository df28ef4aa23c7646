-- ===== src/Server/Interleaving.antt =====
-- The server under any interleaving of its goroutines: each step is one handshake, one round of a
-- handler's loop, its end when the server stops, or one packet from the TUN device.
use hydravpn.Base.{
  ◌≢◌, ◌⊎◌, inl, inr, ℕ_discrete, ℕ, ◌+◌, ◌≤◌, ◌≡◌, refl, sym, ap, ◌∙◌, ◌++◌, subst, true, Bool,
  List, [], arith, none, some, Option, Result,
}
use hydravpn.Crypto.{KeyPair, Random}
use hydravpn.Crypto.Library.{Primitives}
use hydravpn.Server.{
  ClientSession, Server, Effect, subnet_base, new_server, find_live, close_session, accept_session,
  serve, route,
}
use hydravpn.Server.IpPool.{contains, max_hosts, new_ip_pool}
use hydravpn.Server.IpPool.Invariant.{IsLent, All-contains, new_ip_pool-IsPool}
use hydravpn.Server.Sessions.{ips, same_address, find_live-contains}
use hydravpn.Server.Keep.{IsServer, serve-IsServer, route-IsServer, close_session-IsServer}
use hydravpn.Server.Accept.{accept_session-IsServer}

module _ {Aead : Type 0} where
  pub new_server-IsServer :
      (key_pair : KeyPair) (has_tun : Bool) → IsServer (new_server {Aead = Aead} key_pair has_tun)
  unfolding new_server new_ip_pool max_hosts
  new_server-IsServer key_pair has_tun = record {
    pool = new_ip_pool-IsPool subnet_base 24 32 (omega arith);
    same_base = refl;
    same_size = refl;
    conns = tt;
    addresses = tt;
    used = λ a. refl;
    table = tt;
  }

  -- The addresses of the sessions of a sound server.
  pub IsServer-addresses :
      {s : Server Aead}
      → IsServer s
      → (c d : ℕ) {x y : ClientSession Aead} → find_live s.live c ≡ some x
      → find_live s.live d ≡ some y
      → ((x.assigned_ip ≢ y.assigned_ip) ⊎ (c ≡ d))
        × (subnet_base + 2 ≤ x.assigned_ip)
        × (x.assigned_ip ≤ subnet_base + 254)
        × ((a : ℕ) → contains s.ip_pool.used a ≡ contains (ips s.live) a)
  IsServer-addresses {s} v c d {x} {y} h k =
      let used : contains s.ip_pool.used x.assigned_ip ≡ true =
        v.used x.assigned_ip ∙ find_live-contains s.live c {x = x} h in
      let (low, high) =
        All-contains (IsLent s.ip_pool) s.ip_pool.used x.assigned_ip v.pool.within used in
      (
        elim (ℕ_discrete x.assigned_ip y.assigned_ip) [
          | yes e ↦ inr (same_address s.live c d {x = x} {y = y} v.addresses h k e)
          | no n ↦ inl n
        ],
        omega (arith, v.same_base),
        omega (arith, v.same_base, v.same_size),
        v.used,
      )

module _ {Aead : Type 0} (lib : Primitives Aead) where
  pub data Step (s m : Server Aead) (out : List Effect) : Type 0 where
    accepts :
        (conn : ℕ) (input : Result (List ℕ)) (now : ℕ) (id_bytes padding : Random) (writable : Bool)
        → find_live s.live conn ≡ none
        → accept_session lib s conn input now id_bytes padding writable ≡ some (m, out)
        → Step s m out
    serves :
        (x : ClientSession Aead) (input : Result (List ℕ)) (now : ℕ)
        → find_live s.live x.conn ≡ some x
        → serve lib s x input now ≡ (m, out)
        → Step s m out
    stops :
        (x : ClientSession Aead)
        → find_live s.live x.conn ≡ some x
        → close_session s x ≡ (m, out)
        → Step s m out
    routes : (buf : List ℕ) (random : ℕ → Random) → route lib s buf random ≡ (m, out) → Step s m out

  -- A run, with all that has left the server, oldest first.
  pub data Reach (s : Server Aead) : Server Aead → List Effect → Type 0 where
    here : Reach s s []
    next :
        {m n : Server Aead} {sent out : List Effect}
        → Reach s m sent
        → Step m n out
        → Reach s n (sent ++ out)

  pub Step-IsServer :
      {s m : Server Aead} {out : List Effect} → Step s m out → IsServer s → IsServer m
  Step-IsServer {s} {m} {out} (accepts conn input now id_bytes padding writable free e) v =
      let (m', out', e', kept) =
        accept_session-IsServer lib s conn input now id_bytes padding writable free v in
      let both : ◌≡◌ {A = Option (Server Aead × List Effect)} (some (m', out')) (some (m, out)) =
        sym e' ∙ e in
      let same : m' ≡ m = cc in subst IsServer same kept
  Step-IsServer {s} {m} {out} (serves x input now found e) v =
      subst IsServer (ap (λ r. r.0) e) (serve-IsServer lib s x input now found v)
  Step-IsServer {s} {m} {out} (stops x found e) v =
      subst IsServer (ap (λ r. r.0) e) (close_session-IsServer s x x found refl refl v)
  Step-IsServer {s} {m} {out} (routes buf random e) v =
      subst IsServer (ap (λ r. r.0) e) (route-IsServer lib s buf random v)

  -- So it is after any interleaving.
  pub Reach-IsServer :
      (key_pair : KeyPair) (has_tun : Bool) {m : Server Aead} {sent : List Effect}
      → Reach (new_server key_pair has_tun) m sent
      → IsServer m
  Reach-IsServer key_pair has_tun here = new_server-IsServer key_pair has_tun
  Reach-IsServer key_pair has_tun (next r s) = Step-IsServer s (Reach-IsServer key_pair has_tun r)

  -- After any interleaving, of any two running handlers the addresses differ or they are one; a running
  -- handler's address is a host from 10.8.0.2 to 10.8.0.254; and the addresses in use are exactly those of
  -- the running handlers.
  pub Reach-addresses :
      (key_pair : KeyPair) (has_tun : Bool) {m : Server Aead} {sent : List Effect} (c d : ℕ)
      {x y : ClientSession Aead}
      → Reach (new_server key_pair has_tun) m sent
      → find_live m.live c ≡ some x
      → find_live m.live d ≡ some y
      → ((x.assigned_ip ≢ y.assigned_ip) ⊎ (c ≡ d))
        × (subnet_base + 2 ≤ x.assigned_ip)
        × (x.assigned_ip ≤ subnet_base + 254)
        × ((a : ℕ) → contains m.ip_pool.used a ≡ contains (ips m.live) a)
  Reach-addresses key_pair has_tun c d {x} {y} r h k =
      IsServer-addresses (Reach-IsServer key_pair has_tun r) c d {x = x} {y = y} h k
