-- ===== src/Journal/Records.antt =====
-- include/exsim/journal.hpp: what a scan reads of the records that were written.
use exchange_sim.Base.{
  ℕ, zero, suc, ◌+◌, ◌^◌, ◌<◌, ◌≤◌, ◌≡◌, refl, ap, ◌∙◌, some, List, [], ◌∷◌, ◌++◌, length, drop,
  take, map, All, arith, length-append,
}
use exchange_sim.Domain.{Command, MsgType}
use exchange_sim.Wire.Bytes.{values, to_le, to_price, read_le-to_le, length-to_le}
use exchange_sim.Wire.RoundTrip.{IsWide, carried, decode-encode}
use exchange_sim.Wire.Framing.{length-by_type}
use exchange_sim.Wire.{
  encode, encoded_size, decode, good, write_header, write_new_order, write_cancel, write_modify,
}
use exchange_sim.Journal.{
  RecordMeta, JournalStatus, JournalScan, Round, ScanResult, read_meta, write_meta, meta_size,
  crc_of, covered, decoded_record, checked_record, read_payload, read_record, pass_on, advance,
  scan_loop, write_record,
}

-- The fields of the command and those that the journal adds are as wide as in the source.
pub record IsRecordable (c : Command) : Type 0 where
  pub wide : IsWide c
  pub ts : c.ts < values 8
  pub owner : c.owner < values 4

-- What a record brings back of a command: what its message carries, and the time and the owner.
abbrev pub journaled : Command → Command
journaled c = record (carried c) { ts = c.ts; owner = c.owner }

-- The records of a list of commands, in front of the bytes that follow.
unfoldable pub write_records : List Command → List ℕ → List ℕ
write_records [] rest = rest
write_records (c ∷ cs) rest = write_record c (write_records cs rest)

pub crc_bound : (p : List ℕ) → crc_of p < values 4
unfolding crc_of
crc_bound p = omega arith

pub encode-append :
    (t : MsgType) (c : Command) (rest : List ℕ)
    → encode (record c { type = t }) rest ≡ encode (record c { type = t }) [] ++ rest
unfolding encode write_new_order write_cancel write_modify write_header to_price to_le
encode-append MsgType.new_order c rest = refl
encode-append MsgType.cancel c rest = refl
encode-append MsgType.modify c rest = refl

pub take_message :
    (t : MsgType) (c : Command) (rest : List ℕ)
    → take (encoded_size (record c { type = t })) (encode (record c { type = t }) rest)
      ≡ encode (record c { type = t }) []
unfolding encode write_new_order write_cancel write_modify write_header to_price to_le take
take_message MsgType.new_order c rest = refl
take_message MsgType.cancel c rest = refl
take_message MsgType.modify c rest = refl

pub length-encode :
    (c : Command) (rest : List ℕ) → length (encode c rest) ≡ encoded_size c + length rest
length-encode c rest =
    ap length (encode-append c.type c rest)
    ∙ omega (arith, length-append (encode c []) rest, length-by_type c.type c)

pub length-write_meta :
    (m : RecordMeta) (rest : List ℕ) → length (write_meta m rest) ≡ 24 + length rest
unfolding write_meta
length-write_meta m rest =
    rw
      (
        length-to_le 4 m.len _,
        length-to_le 4 m.crc _,
        length-to_le 8 m.ts _,
        length-to_le 4 m.owner _,
        length-to_le 4 m.reserved rest,
      )
      (omega arith)

pub read_meta-write_meta :
    (m : RecordMeta) (rest : List ℕ)
    → m.len < values 4
    → m.crc < values 4
    → m.ts < values 8
    → m.owner < values 4
    → m.reserved < values 4
    → read_meta (write_meta m rest) ≡ (m, rest)
unfolding read_meta write_meta
read_meta-write_meta m rest a b c d e =
    rw
      (
        read_le-to_le 4 m.len _ a,
        read_le-to_le 4 m.crc _ b,
        read_le-to_le 8 m.ts _ c,
        read_le-to_le 4 m.owner _ d,
        read_le-to_le 4 m.reserved rest e,
      )
      refl

pub drop_record :
    (t : MsgType) (c : Command) (rest : List ℕ)
    → drop
        (meta_size + encoded_size (record c { type = t }))
        (write_record (record c { type = t }) rest)
      ≡ rest
unfolding write_record write_meta encode write_new_order write_cancel write_modify write_header
    to_price to_le drop
drop_record MsgType.new_order c rest = refl
drop_record MsgType.cancel c rest = refl
drop_record MsgType.modify c rest = refl

pub size_range :
    (t : MsgType) (c : Command)
    → (16 ≤ encoded_size (record c { type = t })) × (encoded_size (record c { type = t }) ≤ 48)
size_range t c = ground arith

pub length-write_record :
    (c : Command) (rest : List ℕ)
    → length (write_record c rest) ≡ meta_size + (encoded_size c + length rest)
unfolding write_record
length-write_record c rest =
    length-write_meta _ (encode c rest) ∙ omega (arith, length-encode c rest)

-- The tests of a round on a whole record pass.
pub read_record-whole :
    (p : List ℕ) → 24 ≤ length p → read_record p ≡ read_payload (read_meta p).0 (read_meta p).1
unfolding read_record
read_record-whole p h = ground (arith, h)

read_payload-whole :
    (m : RecordMeta) (p : List ℕ)
    → 16 ≤ m.len
    → m.len ≤ 48
    → m.len ≤ length p
    → read_payload m p ≡ checked_record m (take m.len p)
unfolding read_payload
read_payload-whole m p a b h = ground (arith, a, b, h)

checked_record-same :
    (m : RecordMeta) (p : List ℕ)
    → crc_of (covered m.ts m.owner p) ≡ m.crc
    → checked_record m p ≡ decoded_record m (decode p)
unfolding checked_record
checked_record-same m p h = ground (arith, h)

decoded_record-good :
    (m : RecordMeta) (c : Command)
    → decoded_record m (good m.len c) ≡ Round.entry m.len (record c { ts = m.ts; owner = m.owner })
unfolding decoded_record
decoded_record-good m c = ground arith

-- A record is read as it was written, whatever follows it.
pub read_record-write_record :
    (c : Command) (rest : List ℕ)
    → IsRecordable c
    → read_record (write_record c rest) ≡ Round.entry (encoded_size c) (journaled c)
unfolding write_record
read_record-write_record c rest w =
    let m : RecordMeta = record {
      len = encoded_size c;
      crc = crc_of (covered c.ts c.owner (encode c []));
      ts = c.ts;
      owner = c.owner;
      reserved = 0;
    } in
    let r = size_range c.type c in
    let e =
      read_meta-write_meta m (encode c rest) (omega (arith, r.1)) (crc_bound _) w.ts w.owner
        (omega arith) in
    read_record-whole (write_meta m (encode c rest))
      (omega (arith, length-write_meta m (encode c rest)))
    ∙ ap (λ (x : RecordMeta × List ℕ). read_payload x.0 x.1) e
    ∙ read_payload-whole m (encode c rest) r.0 r.1 (omega (arith, length-encode c rest))
    ∙ ap (checked_record m) (take_message c.type c rest)
    ∙ checked_record-same m (encode c []) refl
    ∙ ap (decoded_record m) (decode-encode c [] w.wide)
    ∙ decoded_record-good m (carried c)

-- The bytes of the records of a list of commands.
unfoldable pub size_of : List Command → ℕ
size_of [] = 0
size_of (c ∷ cs) = meta_size + encoded_size c + size_of cs

pub length-size_of : (cs : List Command) → length cs ≤ size_of cs
unfolding size_of
length-size_of [] = omega arith
length-size_of (c ∷ cs) = omega (arith, length-size_of cs)

pub length-write_records :
    (cs : List Command) (rest : List ℕ) → length (write_records cs rest) ≡ size_of cs + length rest
unfolding write_records size_of
length-write_records [] rest = omega arith
length-write_records (c ∷ cs) rest =
    omega (arith, length-write_record c (write_records cs rest), length-write_records cs rest)

pub scan_loop-entry :
    (fuel : ℕ) (p : List ℕ) (s : JournalScan) (n : ℕ) (c : Command)
    → read_record p ≡ Round.entry n c
    → scan_loop (suc fuel) p s ≡ pass_on c (scan_loop fuel (drop (meta_size + n) p) (advance n s))
unfolding scan_loop
scan_loop-entry fuel p s n c e = ground (arith, e)

pub scan_loop-stop :
    (fuel : ℕ) (p : List ℕ) (s : JournalScan) (st : JournalStatus)
    → read_record p ≡ Round.stop st
    → scan_loop (suc fuel) p s ≡ some (ScanResult.scanned [] (record s { status = st }))
unfolding scan_loop
scan_loop-stop fuel p s st e = ground (arith, e)

-- The loop over written records and a tail at which it stops.
pub scan_loop-write_records :
    (cs : List Command) (tail : List ℕ) (st : JournalStatus) (fuel : ℕ) (s : JournalScan)
    → All IsRecordable cs
    → read_record tail ≡ Round.stop st
    → size_of cs < fuel
    → s.records + length cs < 2 ^ 64
    → s.valid_bytes + size_of cs < 2 ^ 64
    → scan_loop fuel (write_records cs tail) s
      ≡ some (
          ScanResult.scanned (map journaled cs) (record {
            records = s.records + length cs;
            valid_bytes = s.valid_bytes + size_of cs;
            status = st;
          }))
unfolding write_records size_of
scan_loop-write_records cs tail st zero s w e h a b = absurd (omega arith)
scan_loop-write_records [] tail st (suc fuel) s w e h a b =
    ground (arith, scan_loop-stop fuel tail s st e)
scan_loop-write_records (c ∷ cs) tail st (suc fuel) s w e h a b =
    let p = write_records cs tail in
    let s' = advance (encoded_size c) s in
    let i =
      scan_loop-write_records cs tail st fuel s' w.1 e (omega arith) (omega arith) (omega arith) in
    let x : s'.records + length cs ≡ s.records + length (c ∷ cs) = omega arith in
    let y : s'.valid_bytes + size_of cs ≡ s.valid_bytes + size_of (c ∷ cs) = omega arith in
    scan_loop-entry fuel (write_record c p) s (encoded_size c) (journaled c)
      (read_record-write_record c p w.0)
    ∙ ap (λ (q : List ℕ). pass_on (journaled c) (scan_loop fuel q s')) (drop_record c.type c p)
    ∙ ap (pass_on (journaled c)) i
    ∙ ap
        (λ (n : ℕ × ℕ). some (
          ScanResult.scanned (map journaled (c ∷ cs))
            (record { records = n.0; valid_bytes = n.1; status = st })))
        (ap (λ (n : ℕ). (n, s'.valid_bytes + size_of cs)) x
          ∙ ap (λ (n : ℕ). (s.records + length (c ∷ cs), n)) y)
