-- ===== src/OrderBook/Sweep.antt =====
-- include/exsim/order_book.hpp: `sweep` and `fillable`. The inner loops walk the queue of a level and
-- have fuel for one more round than the store has slots; the outer loops walk the levels and have fuel
-- for one more round than there are levels. `none` stands for a loop that has not ended by then.
use exchange_sim.Base.{
  ℕ, suc, zero, ◌+◌, ◌-◌, ltb, leb, ◌==◌, if◌then◌else◌, not, ◌&&◌, Bool, true, false, Option, none,
  some, ◌∷◌,
}
use exchange_sim.Base.Int.{ℤ, pos, sub_ℕ, ltb_ℤ, pos_part}
use exchange_sim.Domain.{
  Side, Stp, Reason, Sink, opposite, trade_event, canceled_event, stp_decrement_event,
}
use exchange_sim.OrderStore.{k_nil}
use exchange_sim.OrderStore.Records
use exchange_sim.PriceBitmap
use exchange_sim.OrderIndex
use exchange_sim.OrderBook.{Book, level, put_level, sub_qty, crosses, price_at}

-- What stays fixed while an incoming order matches.
pub record Taker : Type 0 where
  pub id : ℕ
  pub owner : ℕ
  pub side : Side
  pub limit : ℕ
  pub stp : Stp

-- What the loops change: `qty`, `stp_stop`, the book and the sink.
pub record Taking : Type 0 where
  pub qty : ℕ
  pub stop : Bool
  pub book : Book
  pub sink : Sink

-- The end of a round of the inner loop: `break` or the next round, with the slot in `s`.
pub data Round : Type 0 where
  break : ℕ → Taking → Round
  next_round : ℕ → Taking → Round

unfoldable pub sub_level_qty : ℕ → ℕ → Book → Book
sub_level_qty ix x b = put_level ix (record (level ix b) { qty = sub_qty (level ix b).qty x }) b

-- `ids_.erase_known` and `store_.release` of a maker that is done.
unfoldable pub drop_maker : OrderIndex.Hash → ℕ → Book → Option Book
drop_maker hash s b = elim (OrderIndex.erase_known hash (Records.order s b.store).id s b.ids) [
  | none ↦ none
  | some ids ↦ some (record b { ids = ids; store = Records.free_slot s b.store })
]

-- The resting order is larger: it is decremented.
unfoldable pub decrement_maker : Taker → ℕ → ℕ → Taking → Round
decrement_maker t ix s m =
    let b = m.book in
    let left = (Records.order s b.store).qty - m.qty in
    let b' = sub_level_qty ix m.qty (record b { store = Records.set_qty s left b.store }) in
    break s (record m {
      stop = true;
      book = b';
      sink =
          stp_decrement_event b.symbol (Records.order s b.store).id (opposite t.side)
            (price_at ix b) left
          ∷ m.sink;
    })

-- After the cancel of the maker, with its quantity, in `m`: the slot `nx` is the next one.
unfoldable pub after_cancel : Taker → ℕ → ℕ → Taking → Round
after_cancel t mq nx m = elim t.stp [
  | Stp.decrement_cancel ↦
      if mq == m.qty
      then break nx (record m { stop = true })
      else let left = m.qty - mq in
        next_round nx (record m {
          qty = left;
          sink =
              stp_decrement_event m.book.symbol t.id t.side (price_at t.limit m.book) left ∷ m.sink;
        })
  | _ ↦ next_round nx m
]

unfoldable pub cancel_maker : OrderIndex.Hash → Taker → ℕ → ℕ → Taking → Option Round
cancel_maker hash t ix s m =
    let b = m.book in
    let o = Records.order s b.store in
    elim (drop_maker hash s (sub_level_qty ix o.qty b)) [
      | none ↦ none
      | some b' ↦ some (
          after_cancel t o.qty (Records.next s b.store) (record m {
            book = b';
            sink =
                canceled_event b.symbol o.id (opposite t.side) (price_at ix b) o.qty
                  Reason.self_trade
                ∷ m.sink;
          }))
    ]

unfoldable pub meet_own : OrderIndex.Hash → Taker → ℕ → ℕ → Taking → Option Round
meet_own hash t ix s m = elim t.stp [
  | Stp.cancel_incoming ↦ some (break s (record m { stop = true }))
  | Stp.decrement_cancel ↦ elim (ltb m.qty (Records.order s m.book.store).qty) [
    | true ↦ some (decrement_maker t ix s m)
    | false ↦ cancel_maker hash t ix s m
  ]
  | _ ↦ cancel_maker hash t ix s m
]

unfoldable pub trade_with : OrderIndex.Hash → Taker → ℕ → ℕ → Taking → Option Round
trade_with hash t ix s m =
    let b = m.book in
    let o = Records.order s b.store in
    let fill = if ltb o.qty m.qty then o.qty else m.qty in
    let left = o.qty - fill in
    let qty' = m.qty - fill in
    let b' = sub_level_qty ix fill b in
    let sink' = trade_event b.symbol t.id o.id t.side (price_at ix b) fill left ∷ m.sink in
    elim (left == 0) [
      | false ↦ some (
          break s (record m {
            qty = qty';
            book = record b' { store = Records.set_qty s left b'.store };
            sink = sink';
          }))
      | true ↦ elim (drop_maker hash s b') [
        | none ↦ none
        | some b'' ↦
            let m' : Taking = record m { qty = qty'; book = b''; sink = sink' } in
            let nx = Records.next s b.store in
            some (if qty' == 0 then break nx m' else next_round nx m')
      ]
    ]

abbrev pub is_on : Stp → Bool
is_on Stp.none = false
is_on s = true

unfoldable pub is_own : Taker → ℕ → Book → Bool
is_own t s b = is_on t.stp && (Records.order s b.store).owner == t.owner

unfoldable pub sweep_round : OrderIndex.Hash → Taker → ℕ → ℕ → Taking → Option Round
sweep_round hash t ix s m = elim (is_own t s m.book) [
  | true ↦ meet_own hash t ix s m
  | false ↦ trade_with hash t ix s m
]

-- The inner loop, with the slot that it leaves at the front.
unfoldable pub sweep_queue : OrderIndex.Hash → Taker → ℕ → ℕ → ℕ → Taking → Option (ℕ × Taking)
sweep_queue hash t ix zero s m = none
sweep_queue hash t ix (suc n) s m = elim (s == k_nil) [
  | true ↦ some (s, m)
  | false ↦ elim (sweep_round hash t ix s m) [
    | none ↦ none
    | some (break s' m') ↦ some (s', m')
    | some (next_round s' m') ↦ sweep_queue hash t ix n s' m'
  ]
]

-- The best level of the side that an incoming order matches.
unfoldable pub facing_best : Side → Book → ℕ
facing_best Side.buy b = b.best_ask
facing_best Side.sell b = pos_part b.best_bid

-- The level is empty: the next best one is found.
unfoldable pub next_best : Side → ℕ → Book → Book
next_best Side.buy ix b =
    let bits = PriceBitmap.clear_bit ix b.ask_bits in
    record b { ask_bits = bits; best_ask = PriceBitmap.find_next (pos (ix + 1)) bits }
next_best Side.sell ix b =
    let bits = PriceBitmap.clear_bit ix b.bid_bits in
    record b { bid_bits = bits; best_bid = PriceBitmap.find_prev (sub_ℕ ix 1) bits }

-- The level after the inner loop, with the slot `s` at its front.
unfoldable pub close_level : Side → ℕ → ℕ → Book → Book
close_level side ix s b =
    if s == k_nil
    then next_best side ix (put_level ix (record (level ix b) { head = s; tail = k_nil }) b)
    else put_level ix (record (level ix b) { head = s }) b

unfoldable pub capacity : Book → ℕ
capacity b = b.store.links.cap

unfoldable pub sweep : OrderIndex.Hash → Taker → ℕ → Taking → Option Taking
sweep hash t zero m = none
sweep hash t (suc n) m = elim (not (m.qty == 0) && crosses t.side t.limit m.book) [
  | false ↦ some m
  | true ↦
      let ix = facing_best t.side m.book in
      elim (sweep_queue hash t ix (capacity m.book + 1) (level ix m.book).head m) [
        | none ↦ none
        | some (s, m') ↦
            let m'' : Taking = record m' { book = close_level t.side ix s m'.book } in
            elim m'.stop [ true ↦ some m'' | false ↦ sweep hash t n m'' ]
      ]
]

-- How far the check of a fill-or-kill order has come: decided, or `need` is still missing.
pub data Scan : Type 0 where
  enough short : Scan
  more : ℕ → Scan

unfoldable pub scan_order : Taker → ℕ → Book → ℕ → Scan
scan_order t s b need =
    let q = (Records.order s b.store).qty in
    elim ((Records.order s b.store).owner == t.owner) [
      | true ↦ elim t.stp [
        | Stp.cancel_incoming ↦ short
        | Stp.decrement_cancel ↦ if leb need q then short else more (need - q)
        | _ ↦ more need
      ]
      | false ↦ if leb need q then enough else more (need - q)
    ]

unfoldable pub scan_queue : Taker → ℕ → ℕ → Book → ℕ → Option Scan
scan_queue t zero s b need = none
scan_queue t (suc n) s b need = elim (s == k_nil) [
  | true ↦ some (more need)
  | false ↦ elim (scan_order t s b need) [
    | more need' ↦ scan_queue t n (Records.next s b.store) b need'
    | r ↦ some r
  ]
]

unfoldable pub scan_level : Taker → ℕ → Book → ℕ → Option Scan
scan_level t ix b need = elim t.stp [
  | Stp.none ↦ some (if leb need (level ix b).qty then enough else more (need - (level ix b).qty))
  | _ ↦ scan_queue t (capacity b + 1) (level ix b).head b need
]

-- The condition of the outer loop of `fillable`, at the level `i`.
unfoldable pub in_reach : Side → ℕ → ℤ → Bool
in_reach Side.buy limit i = not (ltb_ℤ (pos limit) i)
in_reach Side.sell limit i = not (ltb_ℤ i (pos limit)) && not (ltb_ℤ i (pos 0))

unfoldable pub level_after : Side → ℕ → Book → ℤ
level_after Side.buy ix b = pos (PriceBitmap.find_next (pos (ix + 1)) b.ask_bits)
level_after Side.sell ix b = PriceBitmap.find_prev (sub_ℕ ix 1) b.bid_bits

unfoldable pub fillable_from : Taker → ℕ → ℤ → Book → ℕ → Option Bool
fillable_from t zero i b need = none
fillable_from t (suc n) i b need = elim (in_reach t.side t.limit i) [
  | false ↦ some false
  | true ↦ elim (scan_level t (pos_part i) b need) [
    | none ↦ none
    | some enough ↦ some true
    | some short ↦ some false
    | some (more need') ↦ fillable_from t n (level_after t.side (pos_part i) b) b need'
  ]
]

unfoldable pub fillable : Taker → ℕ → Book → Option Bool
fillable t qty b =
    fillable_from t (b.n + 1) (elim t.side [ Side.buy ↦ pos b.best_ask | Side.sell ↦ b.best_bid ]) b
      qty
