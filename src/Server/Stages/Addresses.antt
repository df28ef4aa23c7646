-- ===== src/Server/Stages/Addresses.antt =====
-- The addresses of the sessions under any interleaving of the stages.
use hydravpn.Base.{
  ◌≢◌, ◌⊎◌, inl, inr, ℕ, ◌+◌, ◌≤◌, ◌≡◌, refl, sym, ap, ◌∙◌, true, Bool, List, [], ◌∷◌, arith, All,
  ==_iff, ◌==◌, Bool-cases, some,
}
use hydravpn.Crypto.{KeyPair}
use hydravpn.Crypto.Library.{Primitives}
use hydravpn.Server.{ClientSession, Effect, subnet_base, new_server, find_live}
use hydravpn.Server.IpPool.{contains}
use hydravpn.Server.Sessions.{ips}
use hydravpn.Server.Route.{has_entry}
use hydravpn.Server.Interleaving.{new_server-IsServer, IsServer-addresses}
use hydravpn.Server.Life.Handlers.{phase_of}
use hydravpn.Server.Stages.{Stage, Stages, new_stages, Reach, here, next}
use hydravpn.Server.Stages.Table.{in_table, InTable}
use hydravpn.Server.Stages.Sound.{IsStages}
use hydravpn.Server.Stages.Steps.{Step-IsStages}

has_entry-InTable :
    (hs : List (ℕ × Stage)) (table : List (ℕ × ℕ)) (c : ℕ)
    → All (InTable hs) table
    → has_entry table c ≡ true
    → in_table (phase_of hs c) ≡ true
has_entry-InTable hs [] c h at = cc
has_entry-InTable hs ((id, d) ∷ table) c h at = elim (Bool-cases (d == c)) [
  | inl e ↦
      let same : d ≡ c = (==_iff d c).0 e in ap (λ b. in_table (phase_of hs b)) (sym same) ∙ h.0
  | inr e ↦ has_entry-InTable hs table c h.1 (ground arith)
]

module _ {Aead : Type 0} (lib : Primitives Aead) where
  new_stages-IsStages :
      (key_pair : KeyPair) (has_tun : Bool) → IsStages {Aead = Aead} (new_stages key_pair has_tun)
  unfolding new_server phase_of find_live
  new_stages-IsStages key_pair has_tun = record {
    server = new_server-IsServer key_pair has_tun;
    handlers = tt;
    in_step = λ c. refl;
    listed = tt;
  }

  pub Reach-IsStages :
      (key_pair : KeyPair) (has_tun : Bool) {m : Stages Aead} {sent : List Effect}
      → Reach lib (new_stages key_pair has_tun) m sent
      → IsStages m
  Reach-IsStages key_pair has_tun here = new_stages-IsStages key_pair has_tun
  Reach-IsStages key_pair has_tun (next r s) =
      Step-IsStages lib s (Reach-IsStages key_pair has_tun r)

  -- After any interleaving of the stages of the handlers and packets from the TUN device, of any two
  -- sessions, half made or half closed ones included, the addresses differ or they are of one
  -- connection; an address is a host from 10.8.0.2 to 10.8.0.254; the addresses in use are exactly those
  -- of the sessions; and a connection that stands in the table has a handler whose session has been
  -- put into it and not yet been taken out.
  pub Reach-staged_addresses :
      (key_pair : KeyPair) (has_tun : Bool) {m : Stages Aead} {sent : List Effect} (c d : ℕ)
      {x y : ClientSession Aead}
      → Reach lib (new_stages key_pair has_tun) m sent
      → find_live m.server.live c ≡ some x
      → find_live m.server.live d ≡ some y
      → ((x.assigned_ip ≢ y.assigned_ip) ⊎ (c ≡ d))
        × (subnet_base + 2 ≤ x.assigned_ip)
        × (x.assigned_ip ≤ subnet_base + 254)
        × ((a : ℕ) → contains m.server.ip_pool.used a ≡ contains (ips m.server.live) a)
        × ((b : ℕ) → has_entry m.server.sessions b ≡ true → in_table (phase_of m.handlers b) ≡ true)
  Reach-staged_addresses key_pair has_tun {m} c d {x} {y} r h k =
      let w : IsStages m = Reach-IsStages key_pair has_tun r in
      let (distinct, low, high, used) = IsServer-addresses w.server c d {x = x} {y = y} h k in
      (
        distinct,
        low,
        high,
        used,
        λ b listed. has_entry-InTable m.handlers m.server.sessions b w.listed listed,
      )
