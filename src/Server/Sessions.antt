-- ===== src/Server/Sessions.antt =====
-- The session objects of the running handlers and the session table, as collections.
use hydravpn.Base.{
  ℕ, ◌≡◌, refl, ◌∙◌, true, false, List, [], ◌∷◌, arith, ◌==◌, ==_iff, Bool-cases, All, inl, inr,
  none, some, if◌then◌else◌,
}
use hydravpn.Server.{ClientSession, find_live, store_live, remove_live, delete_id}
use hydravpn.Server.IpPool.{contains}
use hydravpn.Server.IpPool.Invariant.{Distinct}

module _ {Aead : Type 0} where
  abbrev pub ips : List (ClientSession Aead) → List ℕ
  ips [] = []
  ips (x ∷ xs) = x.assigned_ip ∷ ips xs

  -- No two handlers have the same connection.
  abbrev pub DistinctConns : List (ClientSession Aead) → Type 0
  DistinctConns [] = Unit {0}
  DistinctConns (x ∷ xs) = (find_live xs x.conn ≡ none) × DistinctConns xs

  pub find_live-conn :
      (xs : List (ClientSession Aead)) (c : ℕ) {x : ClientSession Aead}
      → find_live xs c ≡ some x
      → x.conn ≡ c
  unfolding find_live
  find_live-conn [] c h = cc
  find_live-conn (y ∷ xs) c {x} h = ground (arith, find_live-conn xs c {x = x})

  pub find_live-store_live :
      (xs : List (ClientSession Aead)) (x' : ClientSession Aead) (c : ℕ) {x : ClientSession Aead}
      → find_live xs x'.conn ≡ some x
      → find_live (store_live xs x') c ≡ (if x'.conn == c then some x' else find_live xs c)
  unfolding find_live store_live
  find_live-store_live [] x' c h = cc
  find_live-store_live (y ∷ xs) x' c {x} h = ground (arith, find_live-store_live xs x' c {x = x})

  pub ips-store_live :
      (xs : List (ClientSession Aead)) (x' : ClientSession Aead) {x : ClientSession Aead}
      → find_live xs x'.conn ≡ some x
      → x'.assigned_ip ≡ x.assigned_ip
      → ips (store_live xs x') ≡ ips xs
  unfolding find_live store_live
  ips-store_live [] x' h e = refl
  ips-store_live (y ∷ xs) x' {x} h e = ground (arith, ips-store_live xs x' {x = x})

  pub store_live-none :
      (xs : List (ClientSession Aead)) (x' : ClientSession Aead) (c : ℕ)
      → find_live xs c ≡ none
      → find_live (store_live xs x') c ≡ none
  unfolding find_live store_live
  store_live-none [] x' c h = refl
  store_live-none (y ∷ xs) x' c h = ground (arith, store_live-none xs x' c)

  pub store_live-DistinctConns :
      (xs : List (ClientSession Aead)) (x' : ClientSession Aead)
      → DistinctConns xs
      → DistinctConns (store_live xs x')
  unfolding store_live find_live
  store_live-DistinctConns [] x' d = tt
  store_live-DistinctConns (y ∷ xs) x' d = elim (Bool-cases (y.conn == x'.conn)) [
    | inl e ↦
        let same : y.conn ≡ x'.conn = (==_iff y.conn x'.conn).0 e in rw e (rw (← same) d.0, d.1)
    | inr e ↦ rw e (store_live-none xs x' y.conn d.0, store_live-DistinctConns xs x' d.1)
  ]

  pub find_live-remove_live :
      (xs : List (ClientSession Aead)) (c d : ℕ)
      → DistinctConns xs
      → find_live (remove_live xs c) d ≡ (if c == d then none else find_live xs d)
  unfolding find_live remove_live
  find_live-remove_live [] c d v = ground arith
  find_live-remove_live (y ∷ xs) c d v = ground (arith, find_live-remove_live xs c d v.1)

  pub find_live-contains :
      (xs : List (ClientSession Aead)) (c : ℕ) {x : ClientSession Aead}
      → find_live xs c ≡ some x
      → contains (ips xs) x.assigned_ip ≡ true
  unfolding find_live contains
  find_live-contains [] c h = cc
  find_live-contains (y ∷ xs) c {x} h = ground (arith, find_live-contains xs c {x = x})

  -- Handlers with one address are one handler.
  pub same_address :
      (xs : List (ClientSession Aead)) (c d : ℕ) {x y : ClientSession Aead}
      → Distinct (ips xs)
      → find_live xs c ≡ some x
      → find_live xs d ≡ some y
      → x.assigned_ip ≡ y.assigned_ip
      → c ≡ d
  unfolding find_live contains
  same_address [] c d v h k e = cc
  same_address (z ∷ xs) c d {x} {y} v h k e = ground (
    arith,
    same_address xs c d {x = x} {y = y} v.1,
    find_live-contains xs c {x = x},
    find_live-contains xs d {x = y},
  )

  pub contains-remove_live :
      (xs : List (ClientSession Aead)) (c a : ℕ) {x : ClientSession Aead}
      → Distinct (ips xs)
      → find_live xs c ≡ some x
      → contains (ips (remove_live xs c)) a
        ≡ (if x.assigned_ip == a then false else contains (ips xs) a)
  unfolding find_live remove_live contains
  contains-remove_live [] c a v h = cc
  contains-remove_live (y ∷ xs) c a {x} v h =
      ground (arith, contains-remove_live xs c a {x = x} v.1, find_live-contains xs c {x = x})

  remove_live-absent :
      (xs : List (ClientSession Aead)) (c a : ℕ)
      → contains (ips xs) a ≡ false
      → contains (ips (remove_live xs c)) a ≡ false
  unfolding contains remove_live
  remove_live-absent [] c a h = refl
  remove_live-absent (y ∷ xs) c a h = ground (arith, remove_live-absent xs c a)

  pub remove_live-Distinct :
      (xs : List (ClientSession Aead)) (c : ℕ)
      → Distinct (ips xs)
      → Distinct (ips (remove_live xs c))
  unfolding find_live remove_live contains
  remove_live-Distinct [] c v = tt
  remove_live-Distinct (y ∷ xs) c v = elim (Bool-cases (y.conn == c)) [
    | inl e ↦ rw e v.1
    | inr e ↦ rw e (remove_live-absent xs c y.assigned_ip v.0, remove_live-Distinct xs c v.1)
  ]

  pub remove_live-DistinctConns :
      (xs : List (ClientSession Aead)) (c : ℕ) → DistinctConns xs → DistinctConns (remove_live xs c)
  unfolding find_live remove_live
  remove_live-DistinctConns [] c v = tt
  remove_live-DistinctConns (y ∷ xs) c v = elim (Bool-cases (y.conn == c)) [
    | inl e ↦ rw e v.1
    | inr e ↦
        rw e (
          ground (arith, find_live-remove_live xs c y.conn v.1),
          remove_live-DistinctConns xs c v.1,
        )
  ]

-- The table entries point to live session objects with their id.
module _ {Aead : Type 0} where
  abbrev pub PointsTo : List (ClientSession Aead) → ℕ × ℕ → Type 0
  PointsTo live entry =
      (x : ClientSession Aead) × (find_live live entry.1 ≡ some x) × (x.id ≡ entry.0)

  All-PointsTo :
      (live live' : List (ClientSession Aead)) (table : List (ℕ × ℕ))
      → ((entry : ℕ × ℕ) → PointsTo live entry → PointsTo live' entry)
      → All (PointsTo live) table
      → All (PointsTo live') table
  All-PointsTo live live' [] f h = tt
  All-PointsTo live live' (entry ∷ table) f h = (f entry h.0, All-PointsTo live live' table f h.1)

  pub store_live-PointsTo :
      (live : List (ClientSession Aead)) (x' x : ClientSession Aead) (table : List (ℕ × ℕ))
      → find_live live x'.conn ≡ some x
      → x'.id ≡ x.id
      → All (PointsTo live) table
      → All (PointsTo (store_live live x')) table
  store_live-PointsTo live x' x table found same h =
      All-PointsTo live (store_live live x') table
        (λ (id, c) (y, at, e).
          let stored = find_live-store_live live x' c {x = x} found in
          elim (Bool-cases (x'.conn == c)) [
            | inl q ↦
                let conns : x'.conn ≡ c = (==_iff x'.conn c).0 q in
                let found_at : find_live live c ≡ some x = rw (← conns) found in
                (x', stored ∙ rw q refl, cc)
            | inr q ↦ (y, stored ∙ rw q at, e)
          ])
        h

  -- An entry of another id is for another connection.
  pub other_conn :
      (live : List (ClientSession Aead)) (x y : ClientSession Aead) (id c : ℕ)
      → find_live live x.conn ≡ some x
      → find_live live c ≡ some y
      → y.id ≡ id
      → (id == x.id) ≡ false
      → (x.conn == c) ≡ false
  other_conn live x y id c found at e q = elim (Bool-cases (x.conn == c)) [
    | inl s ↦
        let conns : x.conn ≡ c = (==_iff x.conn c).0 s in
        let found_at : find_live live c ≡ some x = rw (← conns) found in
        let ids : id ≡ x.id = cc in ground (arith, ids)
    | inr s ↦ s
  ]

  pub delete_id-PointsTo :
      (live : List (ClientSession Aead)) (x : ClientSession Aead) (table : List (ℕ × ℕ))
      → DistinctConns live
      → find_live live x.conn ≡ some x
      → All (PointsTo live) table
      → All (PointsTo (remove_live live x.conn)) (delete_id table x.id)
  unfolding delete_id
  delete_id-PointsTo live x [] v found h = tt
  delete_id-PointsTo live x ((id, c) ∷ table) v found h = elim (Bool-cases (id == x.id)) [
    | inl q ↦ rw q (delete_id-PointsTo live x table v found h.1)
    | inr q ↦
        let (y, at, e) = h.0 in
        let removed = find_live-remove_live live x.conn c v in
        rw q (
          (y, removed ∙ rw (other_conn live x y id c found at e q) at, e),
          delete_id-PointsTo live x table v found h.1,
        )
  ]

  -- A new entry takes the place of those of its id.
  pub open-PointsTo :
      (live : List (ClientSession Aead)) (x : ClientSession Aead) (table : List (ℕ × ℕ))
      → find_live live x.conn ≡ none
      → All (PointsTo live) table
      → All (PointsTo (x ∷ live)) (delete_id table x.id)
  unfolding delete_id find_live
  open-PointsTo live x [] free h = tt
  open-PointsTo live x ((id, c) ∷ table) free h = elim (Bool-cases (id == x.id)) [
    | inl q ↦ rw q (open-PointsTo live x table free h.1)
    | inr q ↦
        let (y, at, e) = h.0 in
        rw q ((y, ground (arith, free, at), e), open-PointsTo live x table free h.1)
  ]
