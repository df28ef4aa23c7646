-- ===== src/Server/IpPool.antt =====
-- `IPPool` of pkg/server/server.go: which addresses of the subnet are lent to clients. An IPv4
-- address is its 32-bit number. The keys of `used` are the addresses: their text, which is what the
-- code uses, determines them. Each method runs under the pool's lock.
pub mod Scan
pub mod Invariant
pub mod Exhausted
pub mod Tests
use hydravpn.Base.{
  ℕ, zero, suc, ◌+◌, ◌-◌, ◌%◌, ◌^◌, Bool, true, false, ◌||◌, List, [], ◌∷◌, ltb, ◌==◌, Option, none,
  some, Result, ok, err, if◌then◌else◌,
}

pub record IpPool : Type 0 where
  pub base : ℕ
  pub ones : ℕ
  pub bits : ℕ
  pub used : List ℕ
  pub next_host : ℕ

unfoldable pub contains : List ℕ → ℕ → Bool
contains [] a = false
contains (x ∷ xs) a = x == a || contains xs a

-- `delete` on a map.
unfoldable pub remove : List ℕ → ℕ → List ℕ
remove [] a = []
remove (x ∷ xs) a = if x == a then remove xs a else x ∷ remove xs a

-- `NewIPPool` on the subnet `base/ones` of `bits`-bit addresses.
unfoldable pub new_ip_pool : ℕ → ℕ → ℕ → IpPool
new_ip_pool base ones bits = record {
  base = base;
  ones = ones;
  bits = bits;
  used = [];
  next_host = 2;
}

abbrev pub u32 : ℕ → ℕ
u32 n = n % 2 ^ 32

-- `uint32(1 << (bits - ones))`
unfoldable pub max_hosts : IpPool → ℕ
max_hosts p = u32 (2 ^ (p.bits - p.ones))

-- `hostNum` in round i. The modulus is not 0.
unfoldable pub candidate : IpPool → ℕ → ℕ
candidate p i =
    let host = u32 (p.next_host + i) % u32 (max_hosts p + 2 ^ 32 - 1) in
    if ltb host 2 then 2 else host

-- The rounds from i on: the first candidate that is not in use, with its address.
unfoldable pub scan : IpPool → ℕ → ℕ → Option (ℕ × ℕ)
scan p zero i = none
scan p (suc rounds) i =
    let rest = scan p rounds (i + 1) in
    let host = candidate p i in
    let ip = u32 (p.base + host) in if contains p.used ip then rest else some (host, ip)

-- `Allocate`. With one address in the subnet the modulus is 0, and the first round panics: `none`.
unfoldable pub allocate : IpPool → Option (IpPool × Result ℕ)
allocate p = if max_hosts p == 1 then none else elim (scan p (u32 (max_hosts p + 2 ^ 32 - 2)) 0) [
  | none ↦ some (p, err "IP pool exhausted")
  | some (host, ip) ↦ some (record p { used = ip ∷ p.used; next_host = u32 (host + 1) }, ok ip)
]

unfoldable pub release : IpPool → ℕ → IpPool
unfolding remove
release p ip = record p { used = remove p.used ip }
