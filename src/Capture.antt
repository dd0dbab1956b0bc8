-- ===== src/Capture.antt =====
-- include/exsim/md.hpp: the reader of a capture of market data, which is the list of its bytes, and
-- where a replay of it starts. The loop over the records runs on as much fuel as the capture has
-- bytes and one more.
pub mod Loading
pub mod Seeds
pub mod Tests
use exchange_sim.Base.{
  ℕ, zero, suc, ◌+◌, ◌*◌, ◌%◌, ◌^◌, ltb, ◌==◌, if◌then◌else◌, not, ◌||◌, ◌&&◌, Bool, true, false,
  Option, none, some, List, [], ◌∷◌, length, drop, get_or,
}
use exchange_sim.Base.Int.{ℤ, pos}
use exchange_sim.Wire.Bytes.{read_le, read_price}

pub data Kind : Type 0 where
  diff trade snapshot : Kind

unfoldable pub to_kind : ℕ → Option Kind
to_kind k =
    if k == 1
    then some diff
    else if k == 2
    then some trade
    else if k == 3
    then some snapshot
    else none

pub record LevelUpdate : Type 0 where
  pub px : ℤ
  pub qty : ℕ

-- A record, with the bytes of the capture from its levels on.
pub record Record : Type 0 where
  pub kind : Kind
  pub rx_ns : ℕ
  pub first_id : ℕ
  pub last_id : ℕ
  pub n_bids : ℕ
  pub n_asks : ℕ
  pub levels : List ℕ
  pub trade_px : ℤ
  pub trade_qty : ℕ
  pub buyer_is_maker : Bool

abbrev pub blank : Kind → ℕ → Record
blank k rx = record {
  kind = k;
  rx_ns = rx;
  first_id = 0;
  last_id = 0;
  n_bids = 0;
  n_asks = 0;
  levels = [];
  trade_px = pos 0;
  trade_qty = 0;
  buyer_is_maker = false;
}

abbrev pub level_size : ℕ
level_size = 16

unfoldable pub level : ℕ → Record → LevelUpdate
level i r =
    let p = read_price (drop (i * level_size) r.levels) in
    record { px = p.0; qty = (read_le 8 p.1).0 }

unfoldable pub bid : ℕ → Record → LevelUpdate
bid i r = level i r

unfoldable pub ask : ℕ → Record → LevelUpdate
ask i r = level (r.n_bids + i) r

-- `check`, which throws (`none`) on a record of another length.
unfoldable pub checked : ℕ → ℕ → Record → Option Record
checked len want r = if len == want then some r else none

-- The cases of the switch of `parse`: `q` is what stands behind the time.
unfoldable pub parse_diff : ℕ → ℕ → List ℕ → Option Record
parse_diff rx len q =
    let a = read_le 8 q in
    let b = read_le 8 a.1 in
    let c = read_le 4 b.1 in
    let d = read_le 4 c.1 in
    checked len (12 + 24 + (c.0 + d.0) * level_size) (record (blank Kind.diff rx) {
      first_id = a.0;
      last_id = b.0;
      n_bids = c.0;
      n_asks = d.0;
      levels = d.1;
    })

unfoldable pub parse_snapshot : ℕ → ℕ → List ℕ → Option Record
parse_snapshot rx len q =
    let b = read_le 8 q in
    let c = read_le 4 b.1 in
    let d = read_le 4 c.1 in
    checked len (12 + 16 + (c.0 + d.0) * level_size)
      (record (blank Kind.snapshot rx) { last_id = b.0; n_bids = c.0; n_asks = d.0; levels = d.1 })

unfoldable pub parse_trade : ℕ → ℕ → List ℕ → Option Record
parse_trade rx len q =
    let a = read_price q in
    let b = read_le 8 a.1 in
    checked len (12 + 24) (record (blank Kind.trade rx) {
      trade_px = a.0;
      trade_qty = b.0;
      buyer_is_maker = not ((read_le 1 b.1).0 == 0);
    })

-- `parse`, on the bytes of the capture from the record on.
unfoldable pub parse : ℕ → List ℕ → Option Record
parse len p =
    let rx = read_le 8 (drop 4 p) in
    elim (to_kind (read_le 1 p).0) [
      | none ↦ none
      | some k ↦ elim k [
        | diff ↦ parse_diff rx.0 len rx.1
        | snapshot ↦ parse_snapshot rx.0 len rx.1
        | trade ↦ parse_trade rx.0 len rx.1
      ]
    ]

-- The end of the constructor's loop: with all records, by an exception, or without fuel.
pub data Loaded : Type 0 where
  loaded : List Record → Loaded
  throws out_of_fuel : Loaded

-- `records_.push_back` before what the loop reads after it.
abbrev pub push_front : Record → Loaded → Loaded
push_front r (loaded rs) = loaded (r ∷ rs)
push_front r throws = throws
push_front r out_of_fuel = out_of_fuel

unfoldable pub load_loop : ℕ → List ℕ → Loaded
load_loop zero p = out_of_fuel
load_loop (suc fuel) p =
    let l = read_le 4 p in
    elim (ltb (length p) 4) [
      | true ↦ loaded []
      | false ↦ elim (ltb (length p) (4 + l.0) || ltb l.0 12) [
        | true ↦ throws
        | false ↦ elim (parse l.0 l.1) [
          | none ↦ throws
          | some r ↦ push_front r (load_loop fuel (drop (4 + l.0) p))
        ]
      ]
    ]

unfoldable pub is_capture : List ℕ → Bool
is_capture (a ∷ b ∷ c ∷ d ∷ p) =
    (a == 69 && (b == 88 && (c == 77 && d == 68))) && (read_le 4 p).0 == 1
is_capture _ = false

-- The constructor of `Capture`, on the bytes of the file.
unfoldable pub load : List ℕ → Loaded
load buf =
    if ltb (length buf) 16 || not (is_capture buf)
    then throws
    else load_loop (length buf + 1) (drop 16 buf)

-- The ids of the first and the last update of the record at an index.
unfoldable pub first_at : List Record → ℕ → ℕ
first_at recs i = (get_or recs i (blank Kind.diff 0)).first_id

unfoldable pub last_at : List Record → ℕ → ℕ
last_at recs i = (get_or recs i (blank Kind.diff 0)).last_id

-- The update that a replay from a snapshot wants first.
unfoldable pub wanted : List Record → ℕ → ℕ
wanted recs s = (last_at recs s + 1) % 2 ^ 64

-- The inner loop of `find_seed`.
unfoldable pub seed_diff : List Record → ℕ → List ℕ → Option ℕ
seed_diff recs want [] = none
seed_diff recs want (d ∷ ds) =
    let rest = seed_diff recs want ds in
    if ltb (last_at recs d) want then rest else if ltb want (first_at recs d) then none else some d

unfoldable pub seed_loop : List Record → List ℕ → List ℕ → Option (ℕ × ℕ)
seed_loop recs diffs [] = none
seed_loop recs diffs (s ∷ snaps) = elim (seed_diff recs (wanted recs s) diffs) [
  | some d ↦ some (s, d)
  | none ↦ seed_loop recs diffs snaps
]

unfoldable pub find_seed : List Record → List ℕ → List ℕ → ℕ → Option (ℕ × ℕ)
find_seed recs diffs snaps from_diff_pos = seed_loop recs (drop from_diff_pos diffs) snaps
