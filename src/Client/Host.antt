-- ===== src/Client/Host.antt =====
-- The address that `Connect` leaves out of the VPN's routes: the server's address without its port.
use hydravpn.Base.{
  ℕ, zero, suc, ◌+◌, ◌≤◌, ◌≡◌, ◌≢◌, refl, sym, subst, false, true, List, [], ◌∷◌, ◌++◌, arith, ltb,
  ◌==◌, length, get_or, All, length-append, take-append,
}
use hydravpn.Base.Slices.{get_or_past}
use hydravpn.Client.{host_before, server_host}

abbrev pub colon : ℕ
colon = 58

abbrev pub NoColon : List ℕ → Type 0
NoColon = All λ b. b ≢ colon

get_or-NoColon : (xs : List ℕ) (i : ℕ) → NoColon xs → get_or xs i 0 ≢ colon
get_or-NoColon [] i h = omega arith
get_or-NoColon (x ∷ xs) zero h = h.0
get_or-NoColon (x ∷ xs) (suc i) h = get_or-NoColon xs i h.1

host_before-last :
    (host port : List ℕ) (k : ℕ)
    → NoColon port
    → host_before (host ++ colon ∷ port) (suc (length host + k)) ≡ host
unfolding host_before
host_before-last host port zero h =
    let here = get_or_past (length host + 0) 0 host (colon ∷ port) refl in
    let cut = take-append (length host) host (colon ∷ port) refl in
    let whole : length host + 0 ≡ length host = omega arith in rw here (rw whole cut)
host_before-last host port (suc k) h =
    let after = get_or_past (length host + suc k) (suc k) host (colon ∷ port) refl in
    let other : (get_or port k 0 == 58) ≡ false = ground (arith, get_or-NoColon port k h) in
    let next : length host + suc k ≡ suc (length host + k) = omega arith in
    rw (after, other)
      (subst (λ n. host_before (host ++ colon ∷ port) n ≡ host) (sym next)
        (host_before-last host port k h))

host_before-NoColon : (addr : List ℕ) (n : ℕ) → NoColon addr → host_before addr n ≡ addr
unfolding host_before
host_before-NoColon addr zero h = refl
host_before-NoColon addr (suc n) h =
    ground (arith, get_or-NoColon addr n h, host_before-NoColon addr n h)

-- An address of a host, a colon and a port without a colon, of at least two characters, gives the host,
-- whatever colons the host has.
pub server_host_port :
    (host port : List ℕ)
    → NoColon port
    → 1 ≤ length host + length port
    → server_host (host ++ colon ∷ port) ≡ host
unfolding server_host
server_host_port host port h long =
    let size : length (host ++ colon ∷ port) ≡ suc (length host + length port) =
      omega (arith, length-append host (colon ∷ port)) in
    let enough : ltb 1 (length (host ++ colon ∷ port)) ≡ true = ground (arith, size) in
    rw enough (
      subst (λ n. host_before (host ++ colon ∷ port) n ≡ host) (sym size)
        (host_before-last host port (length port) h))

-- An address without a colon stays.
pub server_host-NoColon : (addr : List ℕ) → NoColon addr → server_host addr ≡ addr
unfolding server_host
server_host-NoColon addr h = ground (arith, host_before-NoColon addr (length addr) h)
