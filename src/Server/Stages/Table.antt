-- ===== src/Server/Stages/Table.antt =====
-- Which handlers have a session, and whose sessions stand in the table.
use hydravpn.Base.{
  ℕ, ◌≡◌, ap, ◌∙◌, Bool, true, false, List, [], ◌∷◌, ◌==◌, ==_iff, Bool-cases, All, All-imp, Option,
  none, some, inl, inr, refl,
}
use hydravpn.Server.{ClientSession, find_live, delete_id}
use hydravpn.Server.Sessions.{PointsTo, other_conn}
use hydravpn.Server.Life.Handlers.{
  phase_of, set_phase, remove_handler, DistinctHandlers, phase_of-set_phase,
  phase_of-remove_handler,
}
use hydravpn.Server.Stages.{Stage, reading, made, listed, answered, unlisted}

-- From the allocation of its address to its release a handler has a session.
abbrev pub has_session : Option Stage → Bool
has_session none = false
has_session (some reading) = false
has_session (some made) = true
has_session (some listed) = true
has_session (some answered) = true
has_session (some unlisted) = true

-- The table holds the sessions of the handlers between the two locks on it.
abbrev pub in_table : Option Stage → Bool
in_table none = false
in_table (some reading) = false
in_table (some made) = false
in_table (some listed) = true
in_table (some answered) = true
in_table (some unlisted) = false

abbrev pub InTable : List (ℕ × Stage) → ℕ × ℕ → Type 0
InTable hs entry = in_table (phase_of hs entry.1) ≡ true

-- An entry of the table is for no handler that is outside of it.
pub outside :
    (hs : List (ℕ × Stage)) (c d : ℕ)
    → in_table (phase_of hs c) ≡ false
    → in_table (phase_of hs d) ≡ true
    → (c == d) ≡ false
outside hs c d out at = elim (Bool-cases (c == d)) [
  | inl e ↦ let same : c ≡ d = (==_iff c d).0 e in cc
  | inr e ↦ e
]

-- A handler that was outside of the table goes on, or returns.
pub moves-InTable :
    (hs : List (ℕ × Stage)) (c : ℕ) (p : Stage) (table : List (ℕ × ℕ)) {q : Stage}
    → phase_of hs c ≡ some q
    → in_table (some q) ≡ false
    → All (InTable hs) table
    → All (InTable (set_phase hs c p)) table
moves-InTable hs c p table {q} at out h =
    All-imp (InTable hs) table
      (λ entry in_it.
        let other = outside hs c entry.1 (ap in_table at ∙ out) in_it in
        ap in_table (phase_of-set_phase hs c entry.1 p {q = q} at ∙ rw other refl) ∙ in_it)
      h

pub returns-InTable :
    (hs : List (ℕ × Stage)) (c : ℕ) (table : List (ℕ × ℕ)) {q : Stage}
    → phase_of hs c ≡ some q
    → in_table (some q) ≡ false
    → DistinctHandlers hs
    → All (InTable hs) table
    → All (InTable (remove_handler hs c)) table
returns-InTable hs c table {q} at out v h =
    All-imp (InTable hs) table
      (λ entry in_it.
        let other = outside hs c entry.1 (ap in_table at ∙ out) in_it in
        ap in_table (phase_of-remove_handler hs c entry.1 v ∙ rw other refl) ∙ in_it)
      h

-- A handler that stays in the table, or comes into it.
pub enters-InTable :
    (hs : List (ℕ × Stage)) (c : ℕ) (p : Stage) (table : List (ℕ × ℕ)) {q : Stage}
    → phase_of hs c ≡ some q
    → in_table (some p) ≡ true
    → All (InTable hs) table
    → All (InTable (set_phase hs c p)) table
enters-InTable hs c p table {q} at inside h =
    All-imp (InTable hs) table
      (λ entry in_it.
        let after = phase_of-set_phase hs c entry.1 p {q = q} at in
        elim (Bool-cases (c == entry.1)) [
          | inl e ↦ ap in_table {y = some p} (after ∙ rw e refl) ∙ inside
          | inr e ↦ ap in_table (after ∙ rw e refl) ∙ in_it
        ])
      h

pub All-delete_id :
    (P : ℕ × ℕ → Type 0) (table : List (ℕ × ℕ)) (id : ℕ) → All P table → All P (delete_id table id)
unfolding delete_id
All-delete_id P [] id h = tt
All-delete_id P ((k, c) ∷ table) id h = elim (Bool-cases (k == id)) [
  | inl e ↦ rw e (All-delete_id P table id h.1)
  | inr e ↦ rw e (h.0, All-delete_id P table id h.1)
]

module _ {Aead : Type 0} where
  -- Without the entries of its id a handler is outside of the table.
  pub leaves-InTable :
      (live : List (ClientSession Aead)) (hs : List (ℕ × Stage)) (x : ClientSession Aead)
      (p : Stage) (table : List (ℕ × ℕ)) {q : Stage}
      → find_live live x.conn ≡ some x
      → phase_of hs x.conn ≡ some q
      → All (PointsTo live) table
      → All (InTable hs) table
      → All (InTable (set_phase hs x.conn p)) (delete_id table x.id)
  unfolding delete_id
  leaves-InTable live hs x p [] found at points h = tt
  leaves-InTable live hs x p ((id, c) ∷ table) {q} found at points h =
      let after = leaves-InTable live hs x p table {q = q} found at points.1 h.1 in
      elim (Bool-cases (id == x.id)) [
        | inl e ↦ rw e after
        | inr e ↦
            let (y, at_c, ids) = points.0 in
            let other = other_conn live x y id c found at_c ids e in
            rw e (
              ap in_table (phase_of-set_phase hs x.conn c p {q = q} at ∙ rw other refl) ∙ h.0,
              after,
            )
      ]
