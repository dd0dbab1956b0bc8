-- ===== src/OrderBook.antt =====
-- include/exsim/order_book.hpp: the state of the book, and the operations on one order of it. The
-- handlers stand in the children. `none` stands for a loop of the index that does not end.
pub mod Sweep
pub mod Commands
pub mod Queries
pub mod Queues
pub mod Tests
use exchange_sim.Base.{
  ℕ, ◌+◌, ◌-◌, ◌%◌, ◌^◌, ltb, leb, ◌==◌, if◌then◌else◌, not, ◌&&◌, ◌||◌, Bool, Option, none, some,
  List, ◌∷◌, get_or, set, replicate,
}
use exchange_sim.Base.Int.{ℤ, pos, negsuc, ◌+ℤ◌, sub_ℕ, ltb_ℤ, pos_part}
use exchange_sim.Domain.{Side, Stp, Reason, BookConfig, Sink, canceled_event}
use exchange_sim.OrderStore.{k_nil}
use exchange_sim.OrderStore.Records
use exchange_sim.PriceBitmap
use exchange_sim.OrderIndex

pub record Level : Type 0 where
  pub qty : ℕ
  pub head : ℕ
  pub tail : ℕ

pub record Book : Type 0 where
  pub symbol : ℕ
  pub min_price : ℤ
  pub n : ℕ
  pub stp : Stp
  pub best_bid : ℤ
  pub best_ask : ℕ
  pub levels : List Level
  pub bid_bits : PriceBitmap.PriceBitmap
  pub ask_bits : PriceBitmap.PriceBitmap
  pub ids : OrderIndex.OrderIndex
  pub store : Records.Store

abbrev pub no_level : Level
no_level = record { qty = 0; head = k_nil; tail = k_nil }

-- The constructor, with those of the parts; `none` is an exception.
unfoldable pub new : ℕ → BookConfig → Option Book
new symbol cfg = elim (PriceBitmap.new cfg.num_levels) [
  | none ↦ none
  | some bits ↦
      if cfg.max_orders == 0 || leb k_nil cfg.max_orders
      then none
      else some (record {
        symbol = symbol;
        min_price = cfg.min_price;
        n = cfg.num_levels;
        stp = cfg.stp;
        best_bid = negsuc 0;
        best_ask = cfg.num_levels;
        levels = replicate cfg.num_levels no_level;
        bid_bits = bits;
        ask_bits = bits;
        ids = OrderIndex.new cfg.max_orders;
        store = Records.new cfg.max_orders;
      })
]

unfoldable pub level : ℕ → Book → Level
level ix b = get_or b.levels ix no_level

unfoldable pub put_level : ℕ → Level → Book → Book
put_level ix lv b = record b { levels = set b.levels ix lv }

unfoldable pub key_of : Book → ℕ → ℕ
key_of b s = (Records.order s b.store).id

-- Sums and differences of 64-bit quantities.
unfoldable pub add_qty : ℕ → ℕ → ℕ
add_qty a x = (a + x) % 2 ^ 64

unfoldable pub sub_qty : ℕ → ℕ → ℕ
sub_qty a x = (a + (2 ^ 64 - x)) % 2 ^ 64

unfoldable pub crosses : Side → ℕ → Book → Bool
crosses Side.buy limit b = leb b.best_ask limit
crosses Side.sell limit b = not (ltb_ℤ b.best_bid (pos limit))

unfoldable pub price_at : ℕ → Book → ℤ
price_at ix b = b.min_price +ℤ pos ix

-- The side's bit of an empty level goes; if it was the best level, the next one is found.
unfoldable pub retire_level : Side → ℕ → Book → Book
retire_level Side.buy ix b =
    let bits = PriceBitmap.clear_bit ix b.bid_bits in
    record b {
      bid_bits = bits;
      best_bid =
          if ix == pos_part b.best_bid && not (ltb_ℤ b.best_bid (pos 0))
          then PriceBitmap.find_prev (sub_ℕ ix 1) bits
          else b.best_bid;
    }
retire_level Side.sell ix b =
    let bits = PriceBitmap.clear_bit ix b.ask_bits in
    record b {
      ask_bits = bits;
      best_ask = if ix == b.best_ask then PriceBitmap.find_next (pos (ix + 1)) bits else b.best_ask;
    }

-- The links around the slot `s` that `unlink` writes.
unfoldable pub unlink_links : ℕ → Level → Records.Store → Level × Records.Store
unlink_links s lv st =
    let n = Records.next s st in
    let p = (Records.order s st).prev in
    let head = if s == lv.head then n else lv.head in
    let st' = if s == lv.head then st else Records.link p n st in
    (
      record {
        qty = sub_qty lv.qty (Records.order s st).qty;
        head = head;
        tail = if s == lv.tail then if head == k_nil then k_nil else p else lv.tail;
      },
      if s == lv.tail then st' else Records.set_prev n p st',
    )

unfoldable pub unlink : ℕ → Book → Book
unlink s b =
    let o = Records.order s b.store in
    let r = unlink_links s (level o.level b) b.store in
    let b' = put_level o.level r.0 (record b { store = r.1 }) in
    if r.0.head == k_nil then retire_level o.side o.level b' else b'

-- The side's bit of the first order at a level, and the best level.
unfoldable pub occupy_level : Side → ℕ → Book → Book
occupy_level Side.buy ix b = record b {
  bid_bits = PriceBitmap.set_bit ix b.bid_bits;
  best_bid = if ltb_ℤ b.best_bid (pos ix) then pos ix else b.best_bid;
}
occupy_level Side.sell ix b = record b {
  ask_bits = PriceBitmap.set_bit ix b.ask_bits;
  best_ask = if ltb ix b.best_ask then ix else b.best_ask;
}

-- The slot `s`, filled in, at the back of the queue of its level.
unfoldable pub append_slot : ℕ → Side → ℕ → ℕ → Book → Book
append_slot s side ix qty b =
    let lv = level ix b in
    let st = Records.set_prev s lv.tail (Records.link s k_nil b.store) in
    if lv.tail == k_nil
    then occupy_level side ix (
        put_level ix (record { qty = add_qty lv.qty qty; head = s; tail = s })
          (record b { store = st }))
    else put_level ix (record { qty = add_qty lv.qty qty; head = lv.head; tail = s })
        (record b { store = Records.link lv.tail s st })

-- The order that comes to rest, as `rest` takes it.
pub record Resting : Type 0 where
  pub id : ℕ
  pub owner : ℕ
  pub side : Side
  pub ix : ℕ
  pub qty : ℕ
  pub ts : ℕ

unfoldable pub rest : OrderIndex.Hash → Resting → Book → Sink → Option (Book × Sink)
rest hash o b sink =
    let r = Records.take_slot b.store in
    if r.0 == k_nil
    then some
        (b, canceled_event b.symbol o.id o.side (price_at o.ix b) o.qty Reason.book_full ∷ sink)
    else let st = Records.init r.0 o.id o.qty o.ix o.owner o.side o.ts r.1 in
      let b' = append_slot r.0 o.side o.ix o.qty (record b { store = st }) in
      elim (OrderIndex.insert hash o.id r.0 b'.ids) [
        | none ↦ none
        | some ids ↦ some (record b' { ids = ids }, sink)
      ]
