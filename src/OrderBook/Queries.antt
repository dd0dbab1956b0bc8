-- ===== src/OrderBook/Queries.antt =====
-- include/exsim/order_book.hpp: the queries and `check_invariants`. A walk of the levels has fuel for
-- one more round than there are levels, a walk of a queue for one more than the store has slots.
use exchange_sim.Base.{
  ℕ, suc, zero, ◌+◌, ltb, leb, ◌==◌, if◌then◌else◌, not, ◌&&◌, ◌||◌, Bool, true, false, Option,
  none, some, List, [], ◌∷◌, ◌++◌,
}
use exchange_sim.Base.Int.{ℤ, pos, negsuc, sub_ℕ, ltb_ℤ, pos_part}
use exchange_sim.Domain.{Side, OrderView}
use exchange_sim.OrderStore.{k_nil}
use exchange_sim.OrderStore.Records
use exchange_sim.PriceBitmap
use exchange_sim.OrderIndex
use exchange_sim.OrderBook.Sweep.{capacity}
use exchange_sim.OrderBook.Commands.{level_index}
use exchange_sim.OrderBook.{Book, level, key_of, price_at, add_qty}

unfoldable pub is_some_bid : Book → Bool
is_some_bid b = not (ltb_ℤ b.best_bid (pos 0))

unfoldable pub best_bid : Book → Option ℤ
best_bid b = if is_some_bid b then some (price_at (pos_part b.best_bid) b) else none

unfoldable pub best_ask : Book → Option ℤ
best_ask b = if ltb b.best_ask b.n then some (price_at b.best_ask b) else none

unfoldable pub best_bid_qty : Book → ℕ
best_bid_qty b = if is_some_bid b then (level (pos_part b.best_bid) b).qty else 0

unfoldable pub best_ask_qty : Book → ℕ
best_ask_qty b = if ltb b.best_ask b.n then (level b.best_ask b).qty else 0

unfoldable pub order_count : Book → ℕ
order_count b = b.store.links.live

unfoldable pub contains : OrderIndex.Hash → ℕ → Book → Bool
contains hash id b = not (OrderIndex.find hash id (key_of b) b.ids == k_nil)

unfoldable pub find_order : OrderIndex.Hash → ℕ → Book → Option OrderView
find_order hash id b =
    let s = OrderIndex.find hash id (key_of b) b.ids in
    let o = Records.order s b.store in
    if s == k_nil
    then none
    else some (record { price = price_at o.level b; qty = o.qty; side = o.side; owner = o.owner })

-- The slots of a queue from `s` on, front first.
unfoldable pub queue_from : ℕ → ℕ → Records.Store → List ℕ
queue_from zero s st = []
queue_from (suc n) s st = elim (s == k_nil) [
  | true ↦ []
  | false ↦ s ∷ queue_from n (Records.next s st) st
]

unfoldable pub queue : ℕ → Book → List ℕ
queue ix b = queue_from (capacity b + 1) (level ix b).head b.store

-- What `visit_level` passes on: the price, the id and the quantity.
unfoldable pub visit_slots : ℤ → List ℕ → Records.Store → List (ℤ × (ℕ × ℕ))
visit_slots p [] st = []
visit_slots p (s ∷ ss) st =
    (p, ((Records.order s st).id, (Records.order s st).qty)) ∷ visit_slots p ss st

unfoldable pub visit_level : ℕ → Book → List (ℤ × (ℕ × ℕ))
visit_level ix b = visit_slots (price_at ix b) (queue ix b) b.store

-- The occupied levels of a side, best first.
unfoldable pub bid_levels : ℕ → ℤ → Book → List ℕ
bid_levels zero i b = []
bid_levels (suc n) (negsuc i) b = []
bid_levels (suc n) (pos i) b = i ∷ bid_levels n (PriceBitmap.find_prev (sub_ℕ i 1) b.bid_bits) b

unfoldable pub ask_levels : ℕ → ℕ → Book → List ℕ
ask_levels zero i b = []
ask_levels (suc n) i b = elim (ltb i b.n) [
  | true ↦ i ∷ ask_levels n (PriceBitmap.find_next (pos (i + 1)) b.ask_bits) b
  | false ↦ []
]

unfoldable pub levels_of : Side → Book → List ℕ
levels_of Side.buy b = bid_levels (b.n + 1) b.best_bid b
levels_of Side.sell b = ask_levels (b.n + 1) b.best_ask b

unfoldable pub visit_levels : List ℕ → Book → List (ℤ × (ℕ × ℕ))
visit_levels [] b = []
visit_levels (i ∷ is) b = visit_level i b ++ visit_levels is b

unfoldable pub for_each_order : Side → Book → List (ℤ × (ℕ × ℕ))
for_each_order side b = visit_levels (levels_of side b) b

unfoldable pub level_sums : List ℕ → Book → List (ℤ × ℕ)
level_sums [] b = []
level_sums (i ∷ is) b = (price_at i b, (level i b).qty) ∷ level_sums is b

unfoldable pub for_each_level : Side → Book → List (ℤ × ℕ)
for_each_level side b = level_sums (levels_of side b) b

unfoldable pub has_bit : Side → ℕ → Book → Bool
has_bit Side.buy i b = PriceBitmap.test i b.bid_bits
has_bit Side.sell i b = PriceBitmap.test i b.ask_bits

unfoldable pub level_qty : Side → ℤ → Book → ℕ
level_qty side p b = elim (level_index p b) [
  | none ↦ 0
  | some i ↦ if has_bit side i b then (level i b).qty else 0
]

unfoldable pub visit_sides : List ℕ → Records.Store → List (ℕ × (ℕ × Side))
visit_sides [] st = []
visit_sides (s ∷ ss) st =
    ((Records.order s st).id, ((Records.order s st).qty, (Records.order s st).side))
    ∷ visit_sides ss st

unfoldable pub for_each_order_at : ℤ → Book → List (ℕ × (ℕ × Side))
for_each_order_at p b = elim (level_index p b) [
  | none ↦ []
  | some i ↦ visit_sides (queue i b) b.store
]

abbrev same_side : Side → Side → Bool
same_side Side.buy Side.buy = true
same_side Side.sell Side.sell = true
same_side _ _ = false

-- What the audit of one order asks.
unfoldable pub order_is_good : OrderIndex.Hash → Side → ℕ → ℕ → ℕ → Book → Bool
order_is_good hash side i last s b =
    let o = Records.order s b.store in
    same_side o.side side
    && o.level == i
    && not (o.qty == 0)
    && (last == k_nil || o.prev == last)
    && OrderIndex.find hash o.id (key_of b) b.ids == s

-- The audit of a queue: the last slot, the sum and the number of orders seen; `none` is a failure.
unfoldable pub audit_queue :
    OrderIndex.Hash → Side → ℕ → Book → ℕ → ℕ → ℕ → ℕ → ℕ → Option (ℕ × (ℕ × ℕ))
audit_queue hash side i b zero s last sum seen = none
audit_queue hash side i b (suc n) s last sum seen = elim (s == k_nil) [
  | true ↦ some (last, (sum, seen))
  | false ↦ elim (order_is_good hash side i last s b && leb (seen + 1) (order_count b)) [
    | false ↦ none
    | true ↦
        audit_queue hash side i b n (Records.next s b.store) s
          (add_qty sum (Records.order s b.store).qty) (seen + 1)
  ]
]

unfoldable pub audit_side : OrderIndex.Hash → Side → ℕ → Book → ℕ → Option ℕ
audit_side hash side i b seen =
    let lv = level i b in
    if lv.head == k_nil
    then none
    else elim (audit_queue hash side i b (order_count b + 2) lv.head k_nil 0 seen) [
      | none ↦ none
      | some (last, (sum, seen')) ↦ if last == lv.tail && sum == lv.qty then some seen' else none
    ]

-- The audit of a level, with the number of orders seen so far.
unfoldable pub audit_level : OrderIndex.Hash → ℕ → Book → ℕ → Option ℕ
audit_level hash i b seen = elim (has_bit Side.buy i b) [
  | true ↦ elim (has_bit Side.sell i b) [ true ↦ none | false ↦ audit_side hash Side.buy i b seen ]
  | false ↦ elim (has_bit Side.sell i b) [
    | true ↦ audit_side hash Side.sell i b seen
    | false ↦
        if (level i b).head == k_nil && (level i b).tail == k_nil && (level i b).qty == 0
        then some seen
        else none
  ]
]

unfoldable pub audit_levels : OrderIndex.Hash → ℕ → ℕ → Book → ℕ → Option ℕ
audit_levels hash zero i b seen = some seen
audit_levels hash (suc n) i b seen = elim (audit_level hash i b seen) [
  | none ↦ none
  | some seen' ↦ audit_levels hash n (i + 1) b seen'
]

unfoldable pub same_int : ℤ → ℤ → Bool
same_int a b = not (ltb_ℤ a b) && not (ltb_ℤ b a)

unfoldable pub bests_are_good : Book → Bool
bests_are_good b =
    same_int b.best_bid (PriceBitmap.find_prev (sub_ℕ b.n 1) b.bid_bits)
    && b.best_ask == PriceBitmap.find_next (pos 0) b.ask_bits
    && not (is_some_bid b && ltb b.best_ask b.n && leb b.best_ask (pos_part b.best_bid))

unfoldable pub check_invariants : OrderIndex.Hash → Book → Bool
check_invariants hash b =
    if bests_are_good b
    then elim (audit_levels hash b.n 0 b 0) [
      | none ↦ false
      | some seen ↦ seen == order_count b && seen == b.ids.size
    ]
    else false
