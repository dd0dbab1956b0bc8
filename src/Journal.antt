-- ===== src/Journal.antt =====
-- include/exsim/journal.hpp: the journal of the sequenced commands. A file is the list of its bytes,
-- and its reads and writes succeed. The loop over the records runs on as much fuel as the file has
-- bytes and one more; `none` is the end of the fuel.
pub mod Records
pub mod Scan
pub mod Recovery
pub mod Tests
use exchange_sim.Base.{
  ℕ, zero, suc, ◌+◌, ◌-◌, ◌*◌, ◌/◌, ◌%◌, ◌^◌, ltb, ◌==◌, if◌then◌else◌, not, ◌||◌, ◌&&◌, bit_xor,
  Bool, true, false, Option, none, some, List, [], ◌∷◌, ◌++◌, length, drop, take,
}
use exchange_sim.Domain.{Command}
use exchange_sim.Wire.Bytes.{to_le, read_le}
use exchange_sim.Wire.{
  DecodeStatus, DecodeResult, decode, encode, encoded_size, header_size, new_order_size,
}

-- An entry of the table of `Crc32c`: one step of its inner loop, `k` times.
unfoldable pub table_entry : ℕ → ℕ → ℕ
table_entry zero c = c
table_entry (suc k) c = table_entry k (if c % 2 == 1 then bit_xor 0x82F63B78 (c / 2) else c / 2)

unfoldable pub crc_loop : List ℕ → ℕ → ℕ
crc_loop [] c = c
crc_loop (b ∷ bs) c = crc_loop bs (bit_xor (table_entry 8 (bit_xor c b % 256)) (c / 256))

-- `Crc32c::of`; `~c` of a 32-bit word.
unfoldable pub crc_of : List ℕ → ℕ
crc_of p = 4294967295 - crc_loop p 4294967295

pub data JournalStatus : Type 0 where
  clean torn_tail corrupt : JournalStatus

pub record JournalScan : Type 0 where
  pub records : ℕ
  pub valid_bytes : ℕ
  pub status : JournalStatus

abbrev pub journal_header_bytes : ℕ
journal_header_bytes = 8

abbrev pub max_message_size : ℕ
max_message_size = new_order_size

pub record RecordMeta : Type 0 where
  pub len : ℕ
  pub crc : ℕ
  pub ts : ℕ
  pub owner : ℕ
  pub reserved : ℕ

abbrev pub meta_size : ℕ
meta_size = 24

-- `fread` and `fwrite` of a `RecordMeta`, with the bytes behind it.
unfoldable pub read_meta : List ℕ → RecordMeta × List ℕ
read_meta p =
    let a = read_le 4 p in
    let b = read_le 4 a.1 in
    let c = read_le 8 b.1 in
    let d = read_le 4 c.1 in
    let e = read_le 4 d.1 in
    (record { len = a.0; crc = b.0; ts = c.0; owner = d.0; reserved = e.0 }, e.1)

unfoldable pub write_meta : RecordMeta → List ℕ → List ℕ
write_meta m rest =
    to_le 4 m.len (to_le 4 m.crc (to_le 8 m.ts (to_le 4 m.owner (to_le 4 m.reserved rest))))

-- What the CRC covers: the time, the owner and the payload.
unfoldable pub covered : ℕ → ℕ → List ℕ → List ℕ
covered ts owner payload = to_le 8 ts (to_le 4 owner payload)

-- One round of the loop of `journal_scan`: it breaks, or gives the command of a record of `len` bytes
-- of payload.
pub data Round : Type 0 where
  stop : JournalStatus → Round
  entry : ℕ → Command → Round

unfoldable pub decoded_record : RecordMeta → DecodeResult → Round
decoded_record m r = elim r.status [
  | DecodeStatus.ok ↦ elim r.out [
    | none ↦ stop corrupt
    | some c ↦
        if r.consumed == m.len
        then entry m.len (record c { ts = m.ts; owner = m.owner })
        else stop corrupt
  ]
  | DecodeStatus.malformed ↦ stop corrupt
  | DecodeStatus.incomplete ↦ stop corrupt
]

unfoldable pub checked_record : RecordMeta → List ℕ → Round
checked_record m payload =
    if not (crc_of (covered m.ts m.owner payload) == m.crc)
    then stop corrupt
    else decoded_record m (decode payload)

unfoldable pub read_payload : RecordMeta → List ℕ → Round
read_payload m p =
    if ltb m.len header_size || ltb max_message_size m.len
    then stop corrupt
    else if ltb (length p) m.len
    then stop torn_tail
    else checked_record m (take m.len p)

unfoldable pub read_record : List ℕ → Round
read_record p =
    if length p == 0
    then stop clean
    else if ltb (length p) meta_size
    then stop torn_tail
    else let m = read_meta p in read_payload m.0 m.1

-- What `journal_scan` returns, with the commands that it passed on; or it throws, as the file is no
-- journal.
pub data ScanResult : Type 0 where
  scanned : List Command → JournalScan → ScanResult
  not_a_journal : ScanResult

-- `f(c)` before what the loop passes on after it.
abbrev pub pass_on : Command → Option ScanResult → Option ScanResult
pass_on c (some (scanned cs s)) = some (scanned (c ∷ cs) s)
pass_on c (some not_a_journal) = some not_a_journal
pass_on c none = none

abbrev pub advance : ℕ → JournalScan → JournalScan
advance n s = record s {
  records = (s.records + 1) % 2 ^ 64;
  valid_bytes = (s.valid_bytes + (meta_size + n)) % 2 ^ 64;
}

unfoldable pub scan_loop : ℕ → List ℕ → JournalScan → Option ScanResult
scan_loop zero p s = none
scan_loop (suc fuel) p s = elim (read_record p) [
  | stop st ↦ some (scanned [] (record s { status = st }))
  | entry n c ↦ pass_on c (scan_loop fuel (drop (meta_size + n) p) (advance n s))
]

-- The header of the file: "EXJR" and the version, in 32 bits.
unfoldable pub write_journal_header : List ℕ → List ℕ
write_journal_header rest = 69 ∷ 88 ∷ 74 ∷ 82 ∷ to_le 4 1 rest

unfoldable pub is_journal : List ℕ → Bool
is_journal (a ∷ b ∷ c ∷ d ∷ p) =
    (a == 69 && (b == 88 && (c == 74 && d == 82))) && (read_le 4 p).0 == 1
is_journal _ = false

unfoldable pub journal_scan : List ℕ → Option ScanResult
journal_scan file =
    if ltb (length file) journal_header_bytes
    then some (scanned [] (record { records = 0; valid_bytes = 0; status = torn_tail }))
    else if not (is_journal file)
    then some not_a_journal
    else scan_loop (length file + 1) (drop journal_header_bytes file)
        (record { records = 0; valid_bytes = journal_header_bytes; status = clean })

-- A writer, with the file that it writes to the end of.
pub record JournalWriter : Type 0 where
  pub file : List ℕ
  pub records : ℕ

unfoldable pub create : JournalWriter
create = record { file = write_journal_header []; records = 0 }

-- The bytes of a record, in front of what follows.
unfoldable pub write_record : Command → List ℕ → List ℕ
write_record c rest =
    write_meta
      (record {
        len = encoded_size c;
        crc = crc_of (covered c.ts c.owner (encode c []));
        ts = c.ts;
        owner = c.owner;
        reserved = 0;
      })
      (encode c rest)

unfoldable pub append : Command → JournalWriter → JournalWriter
append c w = record { file = w.file ++ write_record c []; records = (w.records + 1) % 2 ^ 64 }

-- `recover`, on what its scan returns: `none` is where it throws.
unfoldable pub reopen : List ℕ → Option ScanResult → Option JournalWriter
reopen file (some (scanned cs s)) =
    if ltb s.valid_bytes journal_header_bytes
    then some create
    else some (record { file = take s.valid_bytes file; records = 0 })
reopen file (some not_a_journal) = none
reopen file none = none

unfoldable pub recover : List ℕ → Option JournalWriter
recover file = reopen file (journal_scan file)
