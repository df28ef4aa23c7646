-- ===== src/Transport/WebSocket/Messages.antt =====
-- `Read` against a queue of messages.
use native.Mathlib.Nat.{le_refl}
use hydravpn.Base.{
  ℕ, zero, suc, ◌+◌, ◌<◌, ◌≡◌, inl, inr, refl, sym, ap, ◌∙◌, true, false, List, [], ◌∷◌, ◌++◌,
  append_assoc, arith, ltb, leb, min, length, dec_le, take_all, Bool-cases, take, drop,
  length-append, length-drop, take-append-drop, Option, none, some, ok, err, String, if◌then◌else◌,
}
use hydravpn.Transport.WebSocket.{Connection, read_message, read}

-- The messages of which bytes are still to be read; the first may be the rest of one.
abbrev pub queue : Connection → List (List ℕ)
queue c = if ltb 0 (length c.read_buf) then c.read_buf ∷ c.incoming else c.incoming

-- What a read of `size` bytes from a queue of messages is meant to do: it takes bytes of the first
-- message only, and the message leaves the queue when all of it is read.
abbrev pub take_front : ℕ → List (List ℕ) → Option (List ℕ × List (List ℕ))
take_front size [] = none
take_front size (m ∷ ms) = some (take size m, if leb (length m) size then ms else drop size m ∷ ms)

-- `Read` does on the connection what the specification does on its queue, and reports the library's
-- error, with the connection as it was, when the queue is empty.
pub data Refines (c : Connection) (size : ℕ) (spec : Option (List ℕ × List (List ℕ))) : Type 0 where
  serves :
      (bytes : List ℕ) (rest : List (List ℕ))
      → spec ≡ some (bytes, rest)
      → (read c size).1 ≡ ok bytes
      → queue (read c size).0 ≡ rest
      → Refines c size spec
  fails : spec ≡ none → read c size ≡ (c, err c.failure) → Refines c size spec

-- Copying as many bytes as there are, or as there is room for.
take-min : (size : ℕ) (xs : List ℕ) → take (min size (length xs)) xs ≡ take size xs
take-min size xs = elim (dec_le size (length xs)) [
  | yes fits ↦ ap (λ n. take n xs) (omega arith)
  | no over ↦
      ap (λ n. take n xs) (omega arith)
      ∙ take_all (length xs) xs (le_refl _)
      ∙ sym (take_all size xs (omega arith))
]

drop-min :
    (size : ℕ) (xs : List ℕ)
    → ltb (min size (length xs)) (length xs) ≡ true
    → (leb (length xs) size ≡ false) × (drop (min size (length xs)) xs ≡ drop size xs)
drop-min size xs h =
    let n : min size (length xs) ≡ size = ground arith in (ground arith, ap (λ k. drop k xs) n)

buffered-Refines :
    (c : Connection) (size : ℕ)
    → ltb 0 (length c.read_buf) ≡ true
    → Refines c size (take_front size (c.read_buf ∷ c.incoming))
unfolding read
buffered-Refines c size h =
    let n = min size (length c.read_buf) in
    let step : read c size ≡ (record c { read_buf = drop n c.read_buf }, ok (take n c.read_buf)) =
      rw h in
    serves (take size c.read_buf) _ refl (ap (λ r. r.1) step ∙ ap ok (take-min size c.read_buf)) (
      ap (λ r. queue r.0) step ∙ ground (arith, length-drop n c.read_buf, drop-min size c.read_buf))

message-Refines :
    (c : Connection) (size : ℕ) (ms : List (List ℕ))
    → ltb 0 (length c.read_buf) ≡ false
    → c.incoming ≡ ms
    → Refines c size (take_front size ms)
unfolding read
message-Refines c size [] h e = fails refl (rw h (ap (read_message c size) e))
message-Refines c size (m ∷ ms) h e =
    let n = min size (length m) in
    let buf = if ltb n (length m) then drop n m else c.read_buf in
    let step : read c size ≡ (record c { incoming = ms; read_buf = buf }, ok (take n m)) =
      rw h (ap (read_message c size) e) in
    serves (take size m) _ refl (ap (λ r. r.1) step ∙ ap ok (take-min size m))
      (ap (λ r. queue r.0) step ∙ ground (arith, length-drop n m, drop-min size m))

-- `Read` on any connection, with a buffer of any size, refines the queue of messages.
pub read-Refines : (c : Connection) (size : ℕ) → Refines c size (take_front size (queue c))
read-Refines c size = elim (Bool-cases (ltb 0 (length c.read_buf))) [
  | inl full ↦ rw full (buffered-Refines c size full)
  | inr empty ↦ rw empty (message-Refines c size c.incoming empty refl)
]

-- Reading until the library reports its error, for a number of reads at most: all bytes read, and
-- the error if it came.
unfoldable pub read_all : ℕ → ℕ → Connection → List ℕ × Option String
read_all zero size c = ([], none)
read_all (suc fuel) size c =
    let (c', result) = read c size in
    elim result [
      | err e ↦ ([], some e)
      | ok bytes ↦ let (rest, e) = read_all fuel size c' in (bytes ++ rest, e)
    ]

abbrev pub bytes_of : List (List ℕ) → List ℕ
bytes_of [] = []
bytes_of (m ∷ ms) = m ++ bytes_of ms

-- What is left to read, counted so that each read of a byte or of an empty message lessens it.
abbrev pub left : List (List ℕ) → ℕ
left ms = length (bytes_of ms) + length ms

take_front_lem :
    (size : ℕ) (q : List (List ℕ)) {bytes : List ℕ} {rest : List (List ℕ)}
    → 0 < size
    → take_front size q ≡ some (bytes, rest)
    → (bytes ++ bytes_of rest ≡ bytes_of q) × (left rest < left q)
take_front_lem size [] pos h = cc
take_front_lem size (m ∷ ms) {bytes} {rest} pos h = elim (dec_le (length m) size) [
  | yes whole ↦
      let b : take size m ≡ bytes = ground arith in
      let r : ms ≡ rest = ground arith in
      (
        rw (← b, ← r, take_all size m whole),
        rw (← r) (omega (arith, length-append m (bytes_of ms))),
      )
  | no part ↦
      let b : take size m ≡ bytes = ground arith in
      let r : drop size m ∷ ms ≡ rest = ground arith in
      (
        rw (← b, ← r, ← append_assoc, take-append-drop),
        rw (← r) (
            omega (
              arith,
              length-append (drop size m) (bytes_of ms),
              length-append m (bytes_of ms),
              length-drop size m,
            )),
      )
]

take_front-none : (size : ℕ) (q : List (List ℕ)) → take_front size q ≡ none → q ≡ []
take_front-none size [] h = refl
take_front-none size (m ∷ ms) h = cc

read-failure : (c : Connection) (size : ℕ) → (read c size).0.failure ≡ c.failure
unfolding read
read-failure c size = elim (Bool-cases (ltb 0 (length c.read_buf))) [
  | inl full ↦ rw full
  | inr empty ↦ rw empty (message c.incoming)
]
  where
    message : (ms : List (List ℕ)) → (read_message c size ms).0.failure ≡ c.failure
    message [] = refl
    message (m ∷ ms) = refl

-- Reads into a buffer that is not empty return, one after the other, exactly the bytes of the
-- messages that have arrived, in order, and then the library's error; it takes no more reads than
-- there are bytes and messages, and one.
pub read_all_lem :
    (fuel size : ℕ) (c : Connection)
    → 0 < size
    → left (queue c) < fuel
    → read_all fuel size c ≡ (bytes_of (queue c), some c.failure)
unfolding read_all
read_all_lem zero size c pos h = absurd (omega arith)
read_all_lem (suc fuel) size c pos h =
    after (read-Refines c size) (λ lt. read_all_lem fuel size (read c size).0 pos lt)
  where
    after :
        Refines c size (take_front size (queue c))
        → (left (queue (read c size).0) < fuel
            → read_all fuel size (read c size).0
              ≡ (bytes_of (queue (read c size).0), some (read c size).0.failure))
        → read_all (suc fuel) size c ≡ (bytes_of (queue c), some c.failure)
    after (serves bytes rest e r q) ih =
        let (whole, less) = take_front_lem size (queue c) {bytes = bytes} {rest = rest} pos e in
        rw (r, ih (rw q (omega arith)), q, read-failure c size, whole, read_all) refl
    after (fails e r) ih =
        rw (r, read_all)
          (ap (λ q. (bytes_of q, some c.failure)) (sym (take_front-none size (queue c) e)))
