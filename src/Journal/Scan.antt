-- ===== src/Journal/Scan.antt =====
-- include/exsim/journal.hpp: the scan of a journal, from its header to the end of the file.
use exchange_sim.Base.{
  ℕ, zero, suc, ◌+◌, ◌^◌, ◌<◌, ◌≤◌, ◌≡◌, ◌≢◌, refl, sym, ap, ◌∙◌, Option, some, none, List, [], ◌∷◌,
  ◌++◌, length, drop, map, All, arith, length-append, length-drop, append_assoc,
}
use exchange_sim.Domain.{Command, MsgType}
use exchange_sim.Wire.Bytes.{to_le, to_price, read_le}
use exchange_sim.Wire.{encode, write_header, write_new_order, write_cancel, write_modify}
use exchange_sim.Journal.Records.{
  IsRecordable, journaled, write_records, size_of, length-size_of, length-write_records,
  scan_loop-write_records, scan_loop-stop, scan_loop-entry,
}
use exchange_sim.Journal.{
  JournalStatus, JournalScan, JournalWriter, Round, ScanResult, write_meta, meta_size, read_record,
  pass_on, advance, scan_loop, write_journal_header, is_journal, journal_scan, create, append,
  write_record,
}

unfoldable pub append_each : List Command → JournalWriter → JournalWriter
append_each [] w = w
append_each (c ∷ cs) w = append_each cs (append c w)

write_record-append :
    (t : MsgType) (c : Command) (rest : List ℕ)
    → write_record (record c { type = t }) rest ≡ write_record (record c { type = t }) [] ++ rest
unfolding write_record write_meta encode write_new_order write_cancel write_modify write_header
    to_price to_le
write_record-append MsgType.new_order c rest = refl
write_record-append MsgType.cancel c rest = refl
write_record-append MsgType.modify c rest = refl

file-append : (c : Command) (w : JournalWriter) → (append c w).file ≡ w.file ++ write_record c []
unfolding append
file-append c w = refl

file-append_each :
    (cs : List Command) (w : JournalWriter) (tail : List ℕ)
    → (append_each cs w).file ++ tail ≡ w.file ++ write_records cs tail
unfolding append_each write_records
file-append_each [] w tail = refl
file-append_each (c ∷ cs) w tail =
    let rest = write_records cs tail in
    file-append_each cs (append c w) tail
    ∙ ap (λ (f : List ℕ). f ++ rest) (file-append c w)
    ∙ append_assoc w.file (write_record c []) rest
    ∙ ap (λ (f : List ℕ). w.file ++ f) (sym (write_record-append c.type c rest))

-- The file that a writer makes.
abbrev pub journal_of : List Command → List ℕ
journal_of cs = (append_each cs create).file

created : (rest : List ℕ) → create.file ++ rest ≡ write_journal_header rest
unfolding create write_journal_header to_le
created rest = refl

file_eq :
    (cs : List Command) (tail : List ℕ)
    → journal_of cs ++ tail ≡ write_journal_header (write_records cs tail)
file_eq cs tail = file-append_each cs create tail ∙ created (write_records cs tail)

length-header : (rest : List ℕ) → length (write_journal_header rest) ≡ 8 + length rest
unfolding write_journal_header to_le
length-header rest = omega arith

pub length-journal_of : (cs : List Command) → length (journal_of cs) ≡ 8 + size_of cs
length-journal_of cs = omega (
  arith,
  length-append (journal_of cs) [],
  ap length (file_eq cs []),
  length-header (write_records cs []),
  length-write_records cs [],
)

scan-header :
    (rest : List ℕ)
    → journal_scan (write_journal_header rest)
      ≡ scan_loop
          (length (write_journal_header rest) + 1)
          rest
          (record { records = 0; valid_bytes = 8; status = JournalStatus.clean })
unfolding journal_scan is_journal write_journal_header to_le read_le drop
scan-header rest = ground arith

entry_length : (p : List ℕ) (n : ℕ) (c : Command) → read_record p ≡ Round.entry n c → 24 ≤ length p
unfolding read_record
entry_length p n c e = ground (arith, e)

some-≢-none : {r : ScanResult} → some r ≢ none
some-≢-none = λ e. cc

pass_on-ends : (c : Command) (r : Option ScanResult) → r ≢ none → pass_on c r ≢ none
pass_on-ends c none h = h
pass_on-ends c (some (ScanResult.scanned cs s)) h = λ e. cc
pass_on-ends c (some ScanResult.not_a_journal) h = λ e. cc

round-ends :
    (fuel : ℕ) (p : List ℕ) (s : JournalScan) (r : Round)
    → read_record p ≡ r
    → ((n : ℕ) → 24 ≤ length p → scan_loop fuel (drop (meta_size + n) p) (advance n s) ≢ none)
    → scan_loop (suc fuel) p s ≢ none
round-ends fuel p s (Round.stop st) e f = λ q. some-≢-none (sym (scan_loop-stop fuel p s st e) ∙ q)
round-ends fuel p s (Round.entry n c) e f =
    λ q. pass_on-ends c _ (f n (entry_length p n c e)) (sym (scan_loop-entry fuel p s n c e) ∙ q)

-- The loop ends with a result when the fuel exceeds the bytes.
scan_loop-ends :
    (fuel : ℕ) (p : List ℕ) (s : JournalScan) → length p < fuel → scan_loop fuel p s ≢ none
unfolding scan_loop
scan_loop-ends zero p s h = absurd (omega arith)
scan_loop-ends (suc fuel) p s h = round-ends fuel p s (read_record p) refl (λ n l.
    scan_loop-ends fuel (drop (meta_size + n) p) (advance n s)
      (omega (arith, h, l, length-drop (meta_size + n) p)))

-- The scan of a file ends, whatever the bytes of the file.
pub journal_scan_ends : (file : List ℕ) → journal_scan file ≢ none
unfolding journal_scan
journal_scan_ends file = ground (
  arith,
  length-drop 8 file,
  scan_loop-ends (length file + 1) (drop 8 file)
      (record { records = 0; valid_bytes = 8; status = JournalStatus.clean }),
)

-- What a writer appended to a new journal is scanned back whole and in order, with the time and the
-- owner of each command, whatever end of the file `st` the bytes that follow the records read as, and
-- the valid bytes are those of the writer's file. The fields of the commands are as wide as in the
-- source, and the file is shorter than 2^64 bytes.
pub journal_scan-append_each :
    (cs : List Command) (tail : List ℕ) (st : JournalStatus)
    → All IsRecordable cs
    → length (journal_of cs) < 2 ^ 64
    → read_record tail ≡ Round.stop st
    → journal_scan (journal_of cs ++ tail)
      ≡ some (
          ScanResult.scanned
            (map journaled cs)
            (record { records = length cs; valid_bytes = length (journal_of cs); status = st }))
journal_scan-append_each cs tail st w b e =
    let p = write_records cs tail in
    let n = length-journal_of cs in
    let l = length-size_of cs in
    let x : 0 + length cs ≡ length cs = omega arith in
    let y : 8 + size_of cs ≡ length (journal_of cs) = omega (arith, n) in
    ap journal_scan (file_eq cs tail)
    ∙ scan-header p
    ∙ scan_loop-write_records cs tail st (length (write_journal_header p) + 1) _ w e
        (omega (arith, length-header p, length-write_records cs tail)) (omega (arith, n, l, b))
        (omega (arith, n, b))
    ∙ ap
        (λ (k : ℕ). some (
          ScanResult.scanned (map journaled cs)
            (record { records = k; valid_bytes = 8 + size_of cs; status = st })))
        x
    ∙ ap
        (λ (k : ℕ). some (
          ScanResult.scanned (map journaled cs)
            (record { records = length cs; valid_bytes = k; status = st })))
        y
