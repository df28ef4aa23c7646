-- ===== src/Server/IpPool/Invariant.antt =====
-- What the pool keeps true, and what `Allocate` and `Release` do to it.
use hydravpn.Base.{
  ℕ, ◌+◌, ◌-◌, ◌≤◌, ◌≡◌, ◌⊎◌, inl, inr, refl, sym, ap, ◌∙◌, true, false, ◌||◌, ==_iff, List, [],
  ◌∷◌, arith, ◌==◌, All, Bool-cases, Option-cases, Option, some, Result, ok, err, String,
  if◌then◌else◌,
}
use mathlib.Core.Path.{subst₂}
use hydravpn.Server.IpPool.{
  IpPool, contains, remove, u32, max_hosts, scan, allocate, release, new_ip_pool,
}
use hydravpn.Server.IpPool.Scan.{
  IsSubnet, candidate_bounds, address_lem, scan-some, allocate-none, allocate-some,
}

pub not_both :
    {p q : IpPool} {ip : ℕ} {e : String}
    → ◌≡◌ {A = Option (IpPool × Result ℕ)} (some (p, ok ip)) (some (q, err e))
    → ⊥
not_both h = cc

pub contains-remove :
    (xs : List ℕ) (a b : ℕ) → contains (remove xs a) b ≡ (if a == b then false else contains xs b)
unfolding contains remove
contains-remove [] a b = ground arith
contains-remove (x ∷ xs) a b = ground (arith, contains-remove xs a b)

-- No address stands twice.
abbrev pub Distinct : List ℕ → Type 0
Distinct [] = Unit {0}
Distinct (x ∷ xs) = (contains xs x ≡ false) × Distinct xs

remove-Distinct : (xs : List ℕ) (a : ℕ) → Distinct xs → Distinct (remove xs a)
unfolding remove
remove-Distinct [] a d = tt
remove-Distinct (x ∷ xs) a d = ground (arith, remove-Distinct xs a d.1, contains-remove xs a x)

remove-All {ℓ} : (P : ℕ → Type ℓ) (xs : List ℕ) (a : ℕ) → All P xs → All P (remove xs a)
unfolding remove
remove-All P [] a h = tt
remove-All P (x ∷ xs) a h = elim (Bool-cases (x == a)) [
  | inl e ↦ rw e (remove-All P xs a h.1)
  | inr e ↦ rw e (h.0, remove-All P xs a h.1)
]

pub All-contains {ℓ} :
    (P : ℕ → Type ℓ) (xs : List ℕ) (a : ℕ) → All P xs → contains xs a ≡ true → P a
unfolding contains
All-contains P [] a h e = cc
All-contains P (x ∷ xs) a h e = elim (Bool-cases (x == a)) [
  | inl q ↦ rw (← (==_iff x a).0 q) h.0
  | inr q ↦ All-contains P xs a h.1 (rw⁻¹ (ap (λ b. b || contains xs a) q) e)
]

-- A host address of the subnet that may be lent.
abbrev pub IsLent : IpPool → ℕ → Type 0
IsLent p ip = (p.base + 2 ≤ ip) × (ip + 2 ≤ p.base + max_hosts p)

pub record IsPool (p : IpPool) : Type 0 where
  pub subnet : IsSubnet p
  pub within : All (IsLent p) p.used
  pub distinct : Distinct p.used

pub new_ip_pool-IsPool :
    (base ones bits : ℕ)
    → IsSubnet (new_ip_pool base ones bits)
    → IsPool (new_ip_pool base ones bits)
unfolding new_ip_pool
new_ip_pool-IsPool base ones bits v = record { subnet = v; within = tt; distinct = tt }

pub release-IsSubnet : (p : IpPool) (ip : ℕ) → IsSubnet p → IsSubnet (release p ip)
unfolding release max_hosts
release-IsSubnet p ip v = record {
  enough = v.enough;
  bounded = v.bounded;
  half = v.half;
  next_low = v.next_low;
  next_high = v.next_high;
}

-- Releasing an address of a well-formed pool frees it and no other, and keeps the pool well formed.
pub release_lem :
    (p : IpPool) (ip : ℕ)
    → IsPool p
    → IsPool (release p ip)
      × ((a : ℕ) → contains (release p ip).used a ≡ (if ip == a then false else contains p.used a))
unfolding release max_hosts
release_lem p ip v = (
  record {
    subnet = release-IsSubnet p ip v.subnet;
    within = remove-All (IsLent p) p.used ip v.within;
    distinct = remove-Distinct p.used ip v.distinct;
  },
  contains-remove p.used ip,
)

extend-IsPool :
    (p : IpPool) (host ip : ℕ)
    → IsPool p
    → 2 ≤ host
    → host + 2 ≤ max_hosts p
    → ip ≡ p.base + host
    → contains p.used ip ≡ false
    → IsPool (record p { used = ip ∷ p.used; next_host = u32 (host + 1) })
unfolding max_hosts
extend-IsPool p host ip v lo hi e free =
    let next : u32 (host + 1) ≡ host + 1 = omega (arith, v.subnet.half) in
    record {
      subnet = record {
        enough = v.subnet.enough;
        bounded = v.subnet.bounded;
        half = v.subnet.half;
        next_low = rw next (omega arith);
        next_high = rw next (omega arith);
      };
      within = ((omega arith, omega arith), v.within);
      distinct = (free, v.distinct);
    }

-- A successful `Allocate`: the address was free and may be lent, it is marked as used and nothing
-- else is, and the pool stays well formed and on the same subnet.
pub record IsAllocated (p q : IpPool) (ip : ℕ) : Type 0 where
  pub fresh : contains p.used ip ≡ false
  pub lent : IsLent p ip
  pub used : q.used ≡ ip ∷ p.used
  pub pool : IsPool q
  pub same_base : q.base ≡ p.base
  pub same_size : max_hosts q ≡ max_hosts p

found-IsAllocated :
    (p : IpPool) (host ip : ℕ)
    → IsPool p
    → scan p (max_hosts p - 2) 0 ≡ some (host, ip)
    → IsAllocated p (record p { used = ip ∷ p.used; next_host = u32 (host + 1) }) ip
found-IsAllocated p host ip v h =
    let (j, _, below, e, f, free) = scan-some p (max_hosts p - 2) 0 {host = host} {ip = ip} h in
    let (lo, hi) = candidate_bounds p j v.subnet (omega (arith, v.subnet.enough)) in
    let at : ip ≡ p.base + host =
      f ∙ address_lem p j v.subnet (omega (arith, v.subnet.enough)) ∙ ap (◌+◌ p.base) (sym e) in
    let low : 2 ≤ host = rw e lo in
    let high : host + 2 ≤ max_hosts p = rw e hi in
    record {
      fresh = free;
      lent = (omega arith, omega arith);
      used = refl;
      pool = extend-IsPool p host ip v low high at free;
      same_base = refl;
      same_size = unfold max_hosts in refl;
    }

IsAllocated-result :
    {p q r : IpPool} {ip ip' : ℕ}
    → IsAllocated p r ip
    → ◌≡◌ {A = Option (IpPool × Result ℕ)} (some (r, ok ip)) (some (q, ok ip'))
    → IsAllocated p q ip'
IsAllocated-result {p} {q} {r} {ip} {ip'} a h =
    let pools : r ≡ q = cc in
    let ips : ip ≡ ip' = cc in subst₂ (λ x y. IsAllocated p x y) pools ips a

-- A successful `Allocate` on a well-formed pool hands out an address that was free and may be lent,
-- marks exactly it as used, and leaves the pool well formed and on the same subnet.
pub allocate_lem :
    (p : IpPool) {q : IpPool} {ip : ℕ}
    → IsPool p
    → allocate p ≡ some (q, ok ip)
    → IsAllocated p q ip
allocate_lem p {q} {ip} v h = elim (Option-cases (scan p (max_hosts p - 2) 0)) [
  | inl e ↦ absurd (not_both (sym h ∙ allocate-none p v.subnet e))
  | inr ((host, found), e) ↦
      IsAllocated-result (found-IsAllocated p host found v e) (sym (allocate-some p v.subnet e) ∙ h)
]

-- In a subnet `Allocate` does not panic: it hands out an address or reports an exhausted pool, and
-- then the pool is as it was.
pub allocate_total :
    (p : IpPool)
    → IsSubnet p
    → ((q : IpPool) × (ip : ℕ) × (allocate p ≡ some (q, ok ip)))
      ⊎ (allocate p ≡ some (p, err "IP pool exhausted"))
allocate_total p v = elim (Option-cases (scan p (max_hosts p - 2) 0)) [
  | inl e ↦ inr (allocate-none p v e)
  | inr ((host, ip), e) ↦ inl (_, ip, allocate-some p v e)
]
