-- ===== src/Server/IpPool/Tests.antt =====
-- Tests of `IPPool` on small subnets.
use hydravpn.Base.{
  ℕ, ◌+◌, ◌*◌, ◌^◌, ◌≤◌, ◌≡◌, ◌↔◌, refl, true, false, [], ◌∷◌, arith, none, some, ok, err,
}
use hydravpn.Server.IpPool.{
  IpPool, contains, max_hosts, candidate, scan, allocate, release, new_ip_pool,
}
use hydravpn.Server.IpPool.Scan.{IsSubnet}
use hydravpn.Server.IpPool.Invariant.{IsPool, IsAllocated, allocate_lem}
use hydravpn.Server.IpPool.Exhausted.{
  IsSearched, allocate-exhausted_iff, allocate-release_exhausted,
}

abbrev subnet_base : ℕ
subnet_base = 10 * 2 ^ 24 + 8 * 2 ^ 16

-- A /29: hosts 2 to 6 may be lent.
abbrev fresh : IpPool
fresh = record { base = subnet_base; ones = 29; bits = 32; used = []; next_host = 2 }

abbrev full : IpPool
full = record fresh {
  used =
      (subnet_base + 6)
      ∷ (subnet_base + 5)
      ∷ (subnet_base + 4)
      ∷ (subnet_base + 3)
      ∷ (subnet_base + 2)
      ∷ [];
  next_host = 7;
}

first :
    allocate fresh
    ≡ some (record fresh { used = (subnet_base + 2) ∷ []; next_host = 3 }, ok (subnet_base + 2))
unfolding allocate max_hosts scan candidate contains
first = refl

overlooked :
    allocate (release full (subnet_base + 6))
    ≡ some (release full (subnet_base + 6), err "IP pool exhausted")
unfolding allocate max_hosts scan candidate contains release
overlooked = refl

single_address : allocate (new_ip_pool subnet_base 32 32) ≡ none
unfolding allocate max_hosts new_ip_pool
single_address = refl

fresh-IsSubnet : IsSubnet fresh
unfolding max_hosts
fresh-IsSubnet = omega arith

full-IsSubnet : IsSubnet full
unfolding max_hosts
full-IsSubnet = omega arith

fresh-IsPool : IsPool fresh
fresh-IsPool = record { subnet = fresh-IsSubnet; within = tt; distinct = tt }

abbrev one_lent : IpPool
one_lent = record fresh { used = (subnet_base + 2) ∷ []; next_host = 3 }

allocate_lem_example : IsAllocated fresh one_lent (subnet_base + 2)
allocate_lem_example = allocate_lem fresh {q = one_lent} fresh-IsPool first

allocate-exhausted_iff_example : (allocate fresh ≡ some (fresh, err "IP pool exhausted")) ↔ (
    (h : ℕ)
    → 2 ≤ h
    → h + 2 ≤ max_hosts fresh
    → IsSearched 2 h
    → contains [] (subnet_base + h) ≡ true)
allocate-exhausted_iff_example = allocate-exhausted_iff fresh fresh-IsSubnet

all_lent : (k : ℕ) → 2 ≤ k → k + 2 ≤ max_hosts full → contains full.used (subnet_base + k) ≡ true
unfolding contains max_hosts
all_lent k lo hi = ground arith

allocate-release_exhausted_example :
    (contains (release full (subnet_base + 6)).used (subnet_base + 6) ≡ false)
    × (allocate (release full (subnet_base + 6))
        ≡ some (release full (subnet_base + 6), err "IP pool exhausted"))
allocate-release_exhausted_example =
    allocate-release_exhausted full 6 full-IsSubnet refl (omega arith) all_lent
