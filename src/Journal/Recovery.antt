-- ===== src/Journal/Recovery.antt =====
-- include/exsim/journal.hpp: a record cut short by a crash, and what recovery keeps of the file.
use exchange_sim.Base.{
  ℕ, zero, suc, ◌+◌, ◌-◌, ◌*◌, ◌^◌, ◌<◌, ◌≤◌, ◌≡◌, refl, sym, ap, ◌∙◌, some, List, [], ◌∷◌, ◌++◌,
  length, take, map, All, arith, length-append, ltb, Bool-cases, inl, inr,
}
use exchange_sim.Domain.{Command}
use exchange_sim.Wire.Bytes.{read_le}
use exchange_sim.Wire.{encode, encoded_size}
use exchange_sim.Journal.Records.{
  IsRecordable, journaled, length-write_record, read_meta-write_meta, read_record-whole, size_range,
  crc_bound,
}
use exchange_sim.Journal.Scan.{journal_of, length-journal_of, journal_scan-append_each}
use exchange_sim.Journal.{
  RecordMeta, JournalStatus, JournalScan, Round, ScanResult, read_meta, crc_of, covered,
  read_payload, read_record, journal_scan, write_record, reopen, recover,
}

take_append : (xs ys : List ℕ) → take (length xs) (xs ++ ys) ≡ xs
unfolding take
take_append [] ys = refl
take_append (x ∷ xs) ys = ap (λ (zs : List ℕ). x ∷ zs) (take_append xs ys)

read_le-append :
    (k : ℕ) (p z : List ℕ)
    → k ≤ length p
    → (read_le k (p ++ z) ≡ ((read_le k p).0, (read_le k p).1 ++ z))
      × (length (read_le k p).1 ≡ length p - k)
unfolding read_le
read_le-append zero p z h = (refl, omega arith)
read_le-append (suc k) [] z h = absurd (omega arith)
read_le-append (suc k) (b ∷ p) z h =
    let i = read_le-append k p z (omega arith) in
    (ap (λ (r : ℕ × List ℕ). (b + 256 * r.0, r.1)) i.0, omega (arith, i.1))

-- A read of the front of a record gives the same as a read of the record, with less behind.
read_meta-append :
    (p z : List ℕ)
    → 24 ≤ length p
    → (read_meta (p ++ z) ≡ ((read_meta p).0, (read_meta p).1 ++ z))
      × (length (read_meta p).1 ≡ length p - 24)
unfolding read_meta
read_meta-append p z h =
    let a = read_le 4 p in
    let b = read_le 4 a.1 in
    let c = read_le 8 b.1 in
    let d = read_le 4 c.1 in
    let ea = read_le-append 4 p z (omega (arith, h)) in
    let eb = read_le-append 4 a.1 z (omega (arith, h, ea.1)) in
    let ec = read_le-append 8 b.1 z (omega (arith, h, ea.1, eb.1)) in
    let ed = read_le-append 4 c.1 z (omega (arith, h, ea.1, eb.1, ec.1)) in
    let ee = read_le-append 4 d.1 z (omega (arith, h, ea.1, eb.1, ec.1, ed.1)) in
    (rw (ea.0, eb.0, ec.0, ed.0, ee.0) refl, omega (arith, h, ea.1, eb.1, ec.1, ed.1, ee.1))

read_payload-torn :
    (m : RecordMeta) (p : List ℕ)
    → 16 ≤ m.len
    → m.len ≤ 48
    → length p < m.len
    → read_payload m p ≡ Round.stop JournalStatus.torn_tail
unfolding read_payload
read_payload-torn m p a b h = ground (arith, a, b, h)

read_record-short :
    (p : List ℕ) → 0 < length p → length p < 24 → read_record p ≡ Round.stop JournalStatus.torn_tail
unfolding read_record
read_record-short p a b = ground (arith, a, b)

meta_of : Command → RecordMeta
meta_of c = record {
  len = encoded_size c;
  crc = crc_of (covered c.ts c.owner (encode c []));
  ts = c.ts;
  owner = c.owner;
  reserved = 0;
}

read_meta-write_record :
    (c : Command) → IsRecordable c → (read_meta (write_record c [])).0 ≡ meta_of c
unfolding write_record meta_of
read_meta-write_record c w =
    ap (λ (r : RecordMeta × List ℕ). r.0)
      (read_meta-write_meta (meta_of c) (encode c []) (omega (arith, (size_range c.type c).1))
        (crc_bound _) w.ts w.owner (omega arith))

-- A record cut short behind its first byte reads as a torn tail, wherever it is cut.
pub read_record_cut :
    (c : Command) (p : List ℕ) (x : ℕ) (q : List ℕ)
    → IsRecordable c
    → 0 < length p
    → p ++ x ∷ q ≡ write_record c []
    → read_record p ≡ Round.stop JournalStatus.torn_tail
unfolding meta_of
read_record_cut c p x q w h e = elim (Bool-cases (ltb (length p) 24)) [
  | inl t ↦ read_record-short p h (ground (arith, t))
  | inr f ↦
      let l : 24 ≤ length p = ground (arith, f) in
      let a = read_meta-append p (x ∷ q) l in
      let r = size_range c.type c in
      let m : (read_meta p).0 ≡ meta_of c =
        sym (ap (λ (y : RecordMeta × List ℕ). y.0) a.0)
        ∙ ap (λ (y : List ℕ). (read_meta y).0) e
        ∙ read_meta-write_record c w in
      let n : length (p ++ x ∷ q) ≡ 24 + (encoded_size c + 0) =
        ap length e ∙ length-write_record c [] in
      read_record-whole p l
      ∙ ap (λ (y : RecordMeta). read_payload y (read_meta p).1) m
      ∙ read_payload-torn (meta_of c) (read_meta p).1 r.0 r.1
          (omega (arith, a.1, n, l, length-append p (x ∷ q)))
]

reopen-valid :
    (file : List ℕ) (cs : List Command) (s : JournalScan)
    → 8 ≤ s.valid_bytes
    → reopen file (some (ScanResult.scanned cs s))
      ≡ some (record { file = take s.valid_bytes file; records = 0 })
unfolding reopen
reopen-valid file cs s h = ground (arith, h)

recover-reopen : (file : List ℕ) → recover file ≡ reopen file (journal_scan file)
unfolding recover
recover-reopen file = refl

-- A crash in the middle of the write of a record: recovery cuts the journal back to the records that
-- were written before, all of them, and appends behind them. The fields of the commands are as wide
-- as in the source, and the file is shorter than 2^64 bytes.
pub recover-torn :
    (cs : List Command) (c : Command) (p : List ℕ) (x : ℕ) (q : List ℕ)
    → All IsRecordable cs
    → IsRecordable c
    → length (journal_of cs) < 2 ^ 64
    → 0 < length p
    → p ++ x ∷ q ≡ write_record c []
    → recover (journal_of cs ++ p) ≡ some (record { file = journal_of cs; records = 0 })
recover-torn cs c p x q w v b h e =
    let s : JournalScan = record {
      records = length cs;
      valid_bytes = length (journal_of cs);
      status = JournalStatus.torn_tail;
    } in
    let t =
      journal_scan-append_each cs p JournalStatus.torn_tail w b (read_record_cut c p x q v h e) in
    recover-reopen (journal_of cs ++ p)
    ∙ ap (reopen (journal_of cs ++ p)) t
    ∙ reopen-valid (journal_of cs ++ p) (map journaled cs) s (omega (arith, length-journal_of cs))
    ∙ ap (λ (f : List ℕ). some (record { file = f; records = 0 })) (take_append (journal_of cs) p)
