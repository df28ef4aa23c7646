-- ===== src/Server/IpPool/Exhausted.antt =====
-- When `Allocate` gives up: the search leaves out one host of the subnet.
use hydravpn.Base.{
  ℕ, suc, ◌+◌, ◌-◌, ◌≤◌, ◌<◌, ◌≡◌, ◌≢◌, ◌⊎◌, ◌↔◌, inl, inr, sym, ◌∙◌, true, false, arith, leb, ◌==◌,
  Option-cases, none, some, err, if◌then◌else◌,
}
use hydravpn.Server.IpPool.{IpPool, contains, max_hosts, candidate, scan, allocate, release}
use hydravpn.Server.IpPool.Invariant.{not_both, contains-remove, release-IsSubnet}
use hydravpn.Server.IpPool.Scan.{
  IsSubnet, nth_host, candidate_lem, candidate_bounds, address_lem, scan-none, none-scan,
  allocate-none, allocate-some,
}

-- The hosts that the search visits: all but the one just before the next host, unless that is 2.
abbrev pub IsSearched : ℕ → ℕ → Type 0
IsSearched next h = (h ≡ 2) ⊎ (suc h ≢ next)

-- The round in which a host is visited.
index_of : ℕ → ℕ → ℕ → ℕ
index_of m next h =
    if leb next h then h - next else if suc h == next then m - 4 else h + (m - 1) - next

nth_host-index_of :
    (m next h : ℕ)
    → 2 ≤ next
    → next < m
    → 2 ≤ h
    → h + 2 ≤ m
    → IsSearched next h
    → (nth_host m next (index_of m next h) ≡ h) × (index_of m next h + 2 < m)
unfolding index_of
nth_host-index_of m next h a b c d (inl e) = ground arith
nth_host-index_of m next h a b c d (inr e) = ground arith

nth_host-IsSearched : (m next i : ℕ) → next < m → i + 2 < m → IsSearched next (nth_host m next i)
nth_host-IsSearched m next i b h = ground arith

-- The whole search finds nothing exactly if every host that it visits is in use.
pub scan-none_iff :
    (p : IpPool)
    → IsSubnet p
    → (scan p (max_hosts p - 2) 0 ≡ none) ↔ (
        (h : ℕ)
        → 2 ≤ h
        → h + 2 ≤ max_hosts p
        → IsSearched p.next_host h
        → contains p.used (p.base + h) ≡ true)
scan-none_iff p v = (
  (λ none_free h lo hi searched.
      let m = max_hosts p in
      let j = index_of m p.next_host h in
      let (at, below) = nth_host-index_of m p.next_host h v.next_low v.next_high lo hi searched in
      let host : candidate p j ≡ h = candidate_lem p j v below ∙ at in
      rw (← host, ← address_lem p j v below)
        (scan-none p (m - 2) 0 j none_free (omega arith) (omega arith))),
  (λ taken. none-scan p (max_hosts p - 2) 0 λ j lo hi.
      let below : j + 2 < max_hosts p = omega arith in
      let (low, high) = candidate_bounds p j v below in
      rw (address_lem p j v below) (
        taken (candidate p j) low high (
          rw (candidate_lem p j v below)
            (nth_host-IsSearched (max_hosts p) p.next_host j v.next_high below)))),
)

-- `Allocate` reports an exhausted pool, and changes nothing, exactly if every host that it visits
-- is in use. A host it does not visit may be free.
pub allocate-exhausted_iff :
    (p : IpPool)
    → IsSubnet p
    → (allocate p ≡ some (p, err "IP pool exhausted")) ↔ (
        (h : ℕ)
        → 2 ≤ h
        → h + 2 ≤ max_hosts p
        → IsSearched p.next_host h
        → contains p.used (p.base + h) ≡ true)
allocate-exhausted_iff p v = (
  (λ exhausted. elim (Option-cases (scan p (max_hosts p - 2) 0)) [
    | inl e ↦ (scan-none_iff p v).0 e
    | inr ((host, ip), e) ↦ absurd (not_both (sym (allocate-some p v e) ∙ exhausted))
  ]),
  (λ taken. allocate-none p v ((scan-none_iff p v).1 taken)),
)

-- The defect: in a full pool the address of the host just before the next host, from 3 on, is
-- released, and the next `Allocate` still reports an exhausted pool, although that address is free.
pub allocate-release_exhausted :
    (p : IpPool) (h : ℕ)
    → IsSubnet p
    → suc h ≡ p.next_host
    → 3 ≤ h
    → ((k : ℕ) → 2 ≤ k → k + 2 ≤ max_hosts p → contains p.used (p.base + k) ≡ true)
    → let q = release p (p.base + h) in
      (contains q.used (p.base + h) ≡ false) × (allocate q ≡ some (q, err "IP pool exhausted"))
unfolding release max_hosts
allocate-release_exhausted p h v next big full =
    let ip = p.base + h in
    (
      contains-remove p.used ip ip ∙ ground arith,
      (allocate-exhausted_iff (release p ip) (release-IsSubnet p ip v)).1
          λ k lo hi searched. contains-remove p.used ip (p.base + k) ∙ ground (arith, full k lo hi),
    )
