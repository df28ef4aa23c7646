-- ===== src/Server/IpPool/Scan.antt =====
-- The search of `Allocate`, over any number of rounds, and which hosts its candidates are.
use native.Mathlib.Nat.{mod-eq_of_lt, mod-eq-sub-mod}
use hydravpn.Base.{
  ℕ, zero, suc, ◌+◌, ◌-◌, ◌*◌, ◌%◌, ◌^◌, ◌≤◌, ◌<◌, ◌≡◌, inl, inr, refl, true, false, ◌∷◌, arith,
  ltb, ◌==◌, Bool-cases, none, some, ok, err, if◌then◌else◌, dec_lt, ℕ_discrete,
}
use hydravpn.Server.IpPool.{IpPool, contains, u32, max_hosts, candidate, scan, allocate}

-- A subnet of at least 4 and at most 2 ^ 31 addresses, whose numbers do not wrap, and a next host
-- that is a host of it or the broadcast address.
pub record IsSubnet (p : IpPool) : Type 0 where
  pub enough : 4 ≤ max_hosts p
  pub bounded : p.base + max_hosts p ≤ 2 ^ 32
  pub half : max_hosts p ≤ 2 ^ 31
  pub next_low : 2 ≤ p.next_host
  pub next_high : p.next_host < max_hosts p

-- A remainder by m of a number below 2 * m.
mod_once : (n m : ℕ) → n < 2 * m → n % m ≡ (if ltb n m then n else n - m)
mod_once n m h = elim (dec_lt n m) [
  | yes lt ↦ ground (arith, mod-eq_of_lt lt)
  | no ge ↦
      let below : n - m < m = omega arith in
      ground (arith, mod-eq-sub-mod {n = n} {m = m} (omega arith), mod-eq_of_lt below)
]

-- The i-th candidate, without the arithmetic of uint32 and without a remainder.
abbrev pub nth_host : ℕ → ℕ → ℕ → ℕ
nth_host m next i =
    if ltb (next + i) (m - 1)
    then next + i
    else if ltb (next + i - (m - 1)) 2
    then 2
    else next + i - (m - 1)

pub candidate_lem :
    (p : IpPool) (i : ℕ)
    → IsSubnet p
    → i + 2 < max_hosts p
    → candidate p i ≡ nth_host (max_hosts p) p.next_host i
unfolding candidate
candidate_lem p i v h =
    let m = max_hosts p in
    let left : u32 (p.next_host + i) ≡ p.next_host + i = omega arith in
    let right : u32 (m + 2 ^ 32 - 1) ≡ m - 1 = omega arith in
    rw (left, right, mod_once (p.next_host + i) (m - 1) (omega arith)) (ground arith)

-- Every candidate is a host that may be lent: not the network, the server's or the broadcast
-- address.
pub candidate_bounds :
    (p : IpPool) (i : ℕ)
    → IsSubnet p
    → i + 2 < max_hosts p
    → (2 ≤ candidate p i) × (candidate p i + 2 ≤ max_hosts p)
candidate_bounds p i v h = rw (candidate_lem p i v h) (ground arith)

-- The address of a candidate does not wrap.
pub address_lem :
    (p : IpPool) (i : ℕ)
    → IsSubnet p
    → i + 2 < max_hosts p
    → u32 (p.base + candidate p i) ≡ p.base + candidate p i
address_lem p i v h = omega (arith, candidate_bounds p i v h)

-- A search that finds nothing has found every candidate in use.
pub scan-none :
    (p : IpPool) (rounds i j : ℕ)
    → scan p rounds i ≡ none
    → i ≤ j
    → j < i + rounds
    → contains p.used (u32 (p.base + candidate p j)) ≡ true
unfolding scan
scan-none p zero i j h lo hi = absurd (omega arith)
scan-none p (suc rounds) i j h lo hi = elim (ℕ_discrete i j) [
  | yes e ↦ ground arith
  | no ne ↦ scan-none p rounds (i + 1) j (ground arith) (omega arith) (omega arith)
]

-- And one that finds every candidate in use finds nothing.
pub none-scan :
    (p : IpPool) (rounds i : ℕ)
    → ((j : ℕ) → i ≤ j → j < i + rounds → contains p.used (u32 (p.base + candidate p j)) ≡ true)
    → scan p rounds i ≡ none
unfolding scan
none-scan p zero i h = refl
none-scan p (suc rounds) i h =
    rw (h i (omega arith) (omega arith))
      (none-scan p rounds (i + 1) (λ j lo hi. h j (omega arith) (omega arith)))

-- What a search finds is a candidate that is not in use.
pub scan-some :
    (p : IpPool) (rounds i : ℕ) {host ip : ℕ}
    → scan p rounds i ≡ some (host, ip)
    → (j : ℕ) × (i ≤ j)
      × (j < i + rounds)
      × (host ≡ candidate p j)
      × (ip ≡ u32 (p.base + candidate p j))
      × (contains p.used ip ≡ false)
unfolding scan
scan-some p zero i h = cc
scan-some p (suc rounds) i {host} {ip} h =
    elim (Bool-cases (contains p.used (u32 (p.base + candidate p i)))) [
      | inl taken ↦
          let (j, lo, hi, e, f, g) =
            scan-some p rounds (i + 1) {host = host} {ip = ip} (ground arith) in
          (j, omega arith, omega arith, e, f, g)
      | inr free ↦ (i, omega arith, omega arith, ground arith, ground arith, ground arith)
    ]

rounds : (p : IpPool) → IsSubnet p → u32 (max_hosts p + 2 ^ 32 - 2) ≡ max_hosts p - 2
rounds p v = omega arith

-- `Allocate` in a subnet, by the result of its search.
pub allocate-none :
    (p : IpPool)
    → IsSubnet p
    → scan p (max_hosts p - 2) 0 ≡ none
    → allocate p ≡ some (p, err "IP pool exhausted")
unfolding allocate
allocate-none p v h =
    let many : (max_hosts p == 1) ≡ false = ground arith in rw (many, rounds p v, h, allocate) refl

pub allocate-some :
    (p : IpPool) {host ip : ℕ}
    → IsSubnet p
    → scan p (max_hosts p - 2) 0 ≡ some (host, ip)
    → allocate p ≡ some (record p { used = ip ∷ p.used; next_host = u32 (host + 1) }, ok ip)
unfolding allocate
allocate-some p v h =
    let many : (max_hosts p == 1) ≡ false = ground arith in rw (many, rounds p v, h, allocate) refl
