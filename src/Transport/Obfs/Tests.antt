-- ===== src/Transport/Obfs/Tests.antt =====
-- Tests of pkg/transport/obfs.go: a one-byte message under two keys.
use hydravpn.Base.{ℕ, ◌≡◌, ◌↔◌, refl, List, [], ◌∷◌, ◌++◌, arith, replicate, length, none, some, ok}
use hydravpn.Base.Bytes.{be_bytes, be_value, read_full}
use hydravpn.Transport.Obfs.{Connection, obfuscate, read_body, read, write}
use hydravpn.Transport.Obfs.Mask.{KeyAgrees}
use hydravpn.Transport.Obfs.Exchange.{IsReady, packet, read-write_iff}

abbrev sender : Connection
sender = record { key = 1 ∷ 2 ∷ 3 ∷ 4 ∷ 5 ∷ []; key_pos = 0; incoming = []; outgoing = [] }

abbrev wire : List ℕ
wire = 1 ∷ 2 ∷ 3 ∷ 5 ∷ 5 ∷ []

abbrev receiver : Connection
receiver = record sender { incoming = wire }

wrote : write sender (0 ∷ []) none ≡ some (record sender { outgoing = wire }, ok 1)
unfolding write obfuscate be_bytes
wrote = refl

-- Byte 0 of the data is masked by the fifth key byte and unmasked by the first: 0 arrives as 4.
garbles : read receiver 4096 ≡ some (record sender { key_pos = 1 }, ok (4 ∷ []))
unfolding read read_body read_full obfuscate be_value
garbles = refl

sender-IsReady : IsReady sender
sender-IsReady = record { inside = omega arith; bytes = omega arith }

read-write_iff_example :
    (1 ≡ length {A = ℕ} (0 ∷ []))
    × (((d : Connection) × (read receiver 4096 ≡ some (d, ok (0 ∷ []))))
        ↔ KeyAgrees sender.key 4 0 1)
read-write_iff_example =
    read-write_iff sender receiver 4096 (0 ∷ []) [] sender-IsReady (omega arith) (omega arith)
      (omega arith) refl wrote refl refl refl

-- Under this key no read gives the byte back.
never_arrives : ¬ ((c : Connection) × (read receiver 4096 ≡ some (c, ok (0 ∷ []))))
never_arrives found = omega (arith, read-write_iff_example.1.0 found 0 (omega arith))

abbrev big : List ℕ
big = replicate 65536 0

abbrev flooded : Connection
flooded = record sender { incoming = packet big sender.key 0 ++ [] }
