-- ===== src/Transport/Obfs/Exchange.antt =====
-- A packet that one connection writes and another, with the same key, reads.
use hydravpn.Base.{
  ℕ, ◌+◌, ◌%◌, ◌^◌, ◌≤◌, ◌<◌, ◌≡◌, ◌↔◌, refl, sym, ap, ap₂, ◌∙◌, subst, some_same, [], true, false,
  List, ◌++◌, arith, ltb, length, take, take_all, length-append, append_assoc, Option, none, some,
  Result, ok, err, String,
}
use hydravpn.Base.Bytes.{
  IsBytes, be_bytes, be_value, read_full, length-be_bytes, be_bytes-IsBytes, be_value-be_bytes,
  read_full-append,
}
use hydravpn.Transport.Obfs.{Connection, read_body, read, write}
use hydravpn.Transport.Obfs.Mask.{
  mask, obfuscate-mask, length-mask, mask-append, mask-mask, mask-mask_iff, KeyAgrees,
}

ok_same : {a b : ℕ} → ◌≡◌ {A = Result ℕ} (ok a) (ok b) → a ≡ b
ok_same h = cc

-- The position is inside the key, and the key consists of bytes.
pub record IsReady (c : Connection) : Type 0 where
  pub inside : c.key_pos < length c.key
  pub bytes : IsBytes c.key

-- The packet on the wire.
abbrev pub packet : List ℕ → List ℕ → ℕ → List ℕ
packet b key pos = mask (be_bytes 4 (length b % 2 ^ 32) ++ b) key pos

-- What the reader makes of the data: it was masked from four bytes further on than it is unmasked.
abbrev pub garbled : List ℕ → List ℕ → ℕ → List ℕ
garbled b key pos = mask (mask b key (pos + 4)) key pos

-- A write masks the length and the data, sends them, and moves the position on past both; if the
-- stream fails, nothing is sent and the position has moved all the same.
pub write_lem :
    (c : Connection) (b : List ℕ)
    → IsReady c
    → let pos = (c.key_pos + (4 + length b)) % length c.key in
      (write c b none
        ≡ some (
          record c { key_pos = pos; outgoing = c.outgoing ++ packet b c.key c.key_pos },
          ok (length b),
        ))
      × ((e : String) → write c b (some e) ≡ some (record c { key_pos = pos }, err e))
unfolding write
write_lem c b r =
    let prefix = be_bytes 4 (length b % 2 ^ 32) in
    let len : length (prefix ++ b) ≡ 4 + length b =
      omega (arith, length-append prefix b, length-be_bytes 4 (length b % 2 ^ 32)) in
    let step = obfuscate-mask (prefix ++ b) c.key c.key_pos r.inside in
    (rw (step, write) (rw len), (λ e. rw (step, write) (rw len)))

-- The packet is its masked length followed by its masked data.
packet_parts :
    (b key : List ℕ) (pos : ℕ)
    → packet b key pos ≡ mask (be_bytes 4 (length b % 2 ^ 32)) key pos ++ mask b key (pos + 4)
packet_parts b key pos =
    mask-append (be_bytes 4 (length b % 2 ^ 32)) b key pos
    ∙ ap (λ n. mask (be_bytes 4 (length b % 2 ^ 32)) key pos ++ mask b key (pos + n))
        (length-be_bytes 4 (length b % 2 ^ 32))

read_body_lem :
    (c : Connection) (size : ℕ) (masked rest : List ℕ)
    → IsReady c
    → read_body c size (length masked) (masked ++ rest)
      ≡ some (
        record c { incoming = rest; key_pos = (c.key_pos + length masked) % length c.key },
        ok (take size (mask masked c.key c.key_pos)),
      )
unfolding read_body
read_body_lem c size masked rest r =
    let full = read_full-append (length masked) masked rest refl in
    let step = obfuscate-mask masked c.key c.key_pos r.inside in rw (full, step, read_body)

read_data :
    {c d : Connection} {xs ys : List ℕ}
    → ◌≡◌ {A = Option (Connection × Result (List ℕ))} (some (c, ok xs)) (some (d, ok ys))
    → xs ≡ ys
read_data h = cc

-- The length that the reader recovers from such a packet.
read_header :
    (c : Connection) (b rest : List ℕ)
    → IsReady c
    → length b < 2 ^ 32
    → c.incoming ≡ packet b c.key c.key_pos ++ rest
    → let prefix = be_bytes 4 (length b % 2 ^ 32) in
      (read_full 4 c.incoming
        ≡ ok (mask prefix c.key c.key_pos, mask b c.key (c.key_pos + 4) ++ rest))
      × (mask (mask prefix c.key c.key_pos) c.key c.key_pos ≡ prefix)
      × (be_value prefix ≡ length b)
read_header c b rest r small sent =
    let prefix = be_bytes 4 (length b % 2 ^ 32) in
    let front = mask prefix c.key c.key_pos in
    let masked = mask b c.key (c.key_pos + 4) in
    let split : c.incoming ≡ front ++ (masked ++ rest) =
      sent
      ∙ ap (λ xs. xs ++ rest) (packet_parts b c.key c.key_pos)
      ∙ append_assoc front masked rest in
    (
      rw split (
          read_full-append 4 front (masked ++ rest)
            (length-mask prefix c.key c.key_pos ∙ length-be_bytes 4 (length b % 2 ^ 32))),
      mask-mask prefix c.key c.key_pos (be_bytes-IsBytes 4 (length b % 2 ^ 32)) r.bytes,
      be_value-be_bytes 4 (length b % 2 ^ 32) (omega arith) ∙ omega arith,
    )

-- A reader at the writer's position takes the whole packet off the stream and recovers its length.
-- It then unmasks the data from the position at which the length began, not from behind it, and
-- moves on past the data only. A packet of more than 65535 bytes is refused.
pub read-write :
    (c : Connection) (size : ℕ) (b rest : List ℕ)
    → IsReady c
    → IsBytes b
    → length b ≤ 65535
    → c.incoming ≡ packet b c.key c.key_pos ++ rest
    → read c size
      ≡ some (
        record c { incoming = rest; key_pos = (c.key_pos + length b) % length c.key },
        ok (take size (garbled b c.key c.key_pos)),
      )
unfolding read
read-write c size b rest r bytes small sent =
    let key = c.key in
    let pos = c.key_pos in
    let masked = mask b key (pos + 4) in
    let (header, plain, value) = read_header c b rest r (omega arith) sent in
    let size_lem = length-mask b key (pos + 4) in
    let fits : ltb 65535 (length b) ≡ false = ground arith in
    rw
      (
        header,
        obfuscate-mask (mask (be_bytes 4 (length b % 2 ^ 32)) key pos) key pos r.inside,
        plain,
        value,
        fits,
        ← size_lem,
        read_body_lem c size masked rest r,
        read,
      )
      refl

-- A packet whose length field says more than 65535 is refused behind its header, and the position
-- stays.
pub read-write_oversized :
    (c : Connection) (size : ℕ) (b rest : List ℕ)
    → IsReady c
    → 65535 < length b
    → length b < 2 ^ 32
    → c.incoming ≡ packet b c.key c.key_pos ++ rest
    → read c size
      ≡ some (
        record c { incoming = mask b c.key (c.key_pos + 4) ++ rest },
        err "invalid packet length",
      )
unfolding read
read-write_oversized c size b rest r big small sent =
    let (header, plain, value) = read_header c b rest r small sent in
    let over : ltb 65535 (length b) ≡ true = ground arith in
    rw
      (
        header,
        obfuscate-mask (mask (be_bytes 4 (length b % 2 ^ 32)) c.key c.key_pos) c.key c.key_pos
            r.inside,
        plain,
        value,
        over,
        read,
      )
      refl

read-packet_iff :
    (c : Connection) (size : ℕ) (b rest : List ℕ)
    → IsReady c
    → IsBytes b
    → length b ≤ 65535
    → length b ≤ size
    → c.incoming ≡ packet b c.key c.key_pos ++ rest
    → ((c' : Connection) × (read c size ≡ some (c', ok b)))
      ↔ KeyAgrees c.key (c.key_pos + 4) c.key_pos (length b)
read-packet_iff c size b rest r bytes small room sent =
    let result = read-write c size b rest r bytes small sent in
    let same = mask-mask_iff b c.key (c.key_pos + 4) c.key_pos bytes r.bytes in
    let whole : take size (garbled b c.key c.key_pos) ≡ garbled b c.key c.key_pos =
      take_all size (garbled b c.key c.key_pos) (
        omega (
          arith,
          length-mask (mask b c.key (c.key_pos + 4)) c.key c.key_pos,
          length-mask b c.key (c.key_pos + 4),
        )) in
    let after : Connection = record c {
      incoming = rest;
      key_pos = (c.key_pos + length b) % length c.key;
    } in
    (
      (λ found. same.0 (sym whole ∙ read_data (sym result ∙ found.1))),
      (λ agrees. (after, result ∙ ap (λ d. some (after, ok d)) (whole ∙ same.1 agrees))),
    )

-- One connection writes data, as the first that it sends, and the write succeeds; another, with the same
-- key and key position, has what was sent as the first of what arrives, and reads into a buffer that is
-- large enough. The data has at most 65535 bytes. The write reports all of it; and the read gives back
-- the data exactly if the key repeats itself four bytes further on, for as long as the data is.
pub read-write_iff :
    (c d : Connection) (size : ℕ) (b rest : List ℕ) {c' : Connection} {n : ℕ}
    → IsReady c
    → IsBytes b
    → length b ≤ 65535
    → length b ≤ size
    → c.outgoing ≡ []
    → write c b none ≡ some (c', ok n)
    → d.key ≡ c.key
    → d.key_pos ≡ c.key_pos
    → d.incoming ≡ c'.outgoing ++ rest
    → (n ≡ length b)
      × (((d' : Connection) × (read d size ≡ some (d', ok b)))
          ↔ KeyAgrees c.key (c.key_pos + 4) c.key_pos (length b))
read-write_iff c d size b rest {c'} {n} r bytes small room first wrote same_key same_pos arrives =
    let outcome : ◌≡◌ {A = Option (Connection × Result ℕ)} (some (_, ok (length b)))
        (some (c', ok n)) =
      sym (write_lem c b r).0 ∙ wrote in
    let both = some_same refl outcome in
    let count : length b ≡ n = ok_same (ap (λ t. t.1) both) in
    let sent : packet b c.key c.key_pos ≡ c'.outgoing =
      ap (λ xs. xs ++ packet b c.key c.key_pos) (sym first) ∙ ap (λ t. t.0.outgoing) both in
    let ready : IsReady d = record {
      inside = omega (arith, same_pos, ap length same_key, r.inside);
      bytes = subst IsBytes (sym same_key) r.bytes;
    } in
    let wire : d.incoming ≡ packet b d.key d.key_pos ++ rest =
      arrives
      ∙ ap (λ xs. xs ++ rest) (sym sent)
      ∙ ap₂ (λ k p. packet b k p ++ rest) (sym same_key) (sym same_pos) in
    (
      sym count,
      subst
          (λ (t : List ℕ × ℕ).
            ((d' : Connection) × (read d size ≡ some (d', ok b)))
            ↔ KeyAgrees t.0 (t.1 + 4) t.1 (length b))
          (λ i. (same_key i, same_pos i))
          (read-packet_iff d size b rest ready bytes small room wire),
    )
