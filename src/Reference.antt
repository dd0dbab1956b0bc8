-- ===== src/Reference.antt =====
-- include/exsim/reference_book.hpp: the book and its operations.
-- An operation takes the sink and returns it with the new book. `none` stands for the use of a
-- dangling iterator.
pub mod Sides
pub mod Match
pub mod MatchShape
pub mod Sorted
pub mod Valid
pub mod BookSides
pub mod Invariant
pub mod Priority
pub mod Quantity
pub mod Fairness
pub mod Queries
pub mod Audit
pub mod Fate
pub mod Rounds
pub mod Counts
pub mod Fok
pub mod Tests
use exchange_sim.Base.{
  ℕ, ◌+◌, ◌-◌, ◌≤◌, ltb, leb, ◌==◌, if◌then◌else◌, Bool, true, false, not, ◌&&◌, ◌||◌, Option, none,
  some, [], ◌∷◌, length,
}
use exchange_sim.Base.Int.{ℤ, pos, ◌+ℤ◌, ◌-ℤ◌, ltb_ℤ}
use exchange_sim.Base.Assoc.{lookup, erase, count}
use exchange_sim.Domain.{
  Side, OrdType, Tif, Stp, Reason, Command, Sink, BookConfig, OrderView, effective_stp,
  is_post_only, accepted_event, rejected_event, canceled_event, modified_event,
}
use Sides.{
  Order, Levels, Level, Loc, Index, push_back, find_order_at, remove_order, set_qty_at, same_price,
  level_qty,
}
use Match.{Taker, Taking, head_in_range, match_side, fillable}

pub record Book : Type 0 where
  pub symbol : ℕ
  pub min_price : ℤ
  pub max_price : ℤ
  pub capacity : ℕ
  pub stp : Stp
  pub bids : Levels
  pub asks : Levels
  pub index : Index

-- The constructor.
unfoldable pub new : ℕ → BookConfig → Book
new symbol cfg = record {
  symbol = symbol;
  min_price = cfg.min_price;
  max_price = cfg.min_price +ℤ pos cfg.num_levels -ℤ pos 1;
  capacity = cfg.max_orders;
  stp = cfg.stp;
  bids = [];
  asks = [];
  index = [];
}

abbrev pub levels : Side → Book → Levels
levels Side.buy b = b.bids
levels Side.sell b = b.asks

abbrev pub with_levels : Side → Levels → Book → Book
with_levels Side.buy ls b = record b { bids = ls }
with_levels Side.sell ls b = record b { asks = ls }

-- The side that an incoming order of this side matches.
abbrev pub facing : Side → Book → Levels
facing Side.buy b = b.asks
facing Side.sell b = b.bids

abbrev pub with_facing : Side → Levels → Book → Book
with_facing Side.buy ls b = record b { asks = ls }
with_facing Side.sell ls b = record b { bids = ls }

unfoldable pub crosses : Side → ℤ → Book → Bool
crosses s limit b = head_in_range s limit (facing s b)

-- `match`, with `stp_stop` false at the start.
unfoldable pub match : Taker → ℕ → Book → Sink → Book × Taking
match t qty b sink =
    let r =
      match_side t (facing t.side b)
        (record { qty = qty; stop = false; index = b.index; sink = sink }) in
    (with_facing t.side r.0 (record b { index = r.1.index }), r.1)

unfoldable pub rest : ℕ → ℕ → Side → ℤ → ℕ → Book → Sink → Book × Sink
rest id owner s px qty b sink =
    if leb b.capacity (length b.index)
    then (b, canceled_event b.symbol id s px qty Reason.book_full ∷ sink)
    else (
      with_levels s (push_back s px (record { id = id; qty = qty; owner = owner }) (levels s b))
          (record b { index = (id, record { side = s; price = px; it = id }) ∷ b.index }),
      sink,
    )

abbrev pub in_band : ℤ → Book → Bool
in_band p b = not (ltb_ℤ p b.min_price || ltb_ℤ b.max_price p)

-- The limit that an order matches up to; `none` for a price out of the band.
abbrev pub limit_of : OrdType → Side → ℤ → Book → Option ℤ
limit_of OrdType.market Side.buy p b = some b.max_price
limit_of OrdType.market Side.sell p b = some b.min_price
limit_of OrdType.limit s p b = if in_band p b then some p else none

abbrev pub is_market : OrdType → Bool
is_market OrdType.market = true
is_market OrdType.limit = false

abbrev pub is_day : Tif → Bool
is_day Tif.day = true
is_day _ = false

abbrev pub is_fok : Tif → Bool
is_fok Tif.fok = true
is_fok _ = false

-- What `add` does with the quantity that is left when matching ends.
unfoldable pub settle : Command → ℤ → ℤ → Book → Taking → Book × Sink
settle c px limit b m =
    if m.qty == 0
    then (b, m.sink)
    else if m.stop
    then (b, canceled_event b.symbol c.order_id c.side px m.qty Reason.self_trade ∷ m.sink)
    else if is_market c.ord_type || not (is_day c.tif)
    then (b, canceled_event b.symbol c.order_id c.side px m.qty Reason.ioc_expired ∷ m.sink)
    else rest c.order_id c.owner c.side limit m.qty b m.sink

abbrev pub taker_of : Command → ℤ → Book → Taker
taker_of c limit b = record {
  symbol = b.symbol;
  id = c.order_id;
  owner = c.owner;
  side = c.side;
  limit = limit;
  stp = effective_stp c.flags b.stp;
}

-- The price that reports show: 0 for a market order.
abbrev pub shown_price : Command → ℤ
shown_price c = if is_market c.ord_type then pos 0 else c.price

-- `add` from the acceptance on.
unfoldable pub accept : Command → ℤ → Book → Sink → Book × Sink
accept c limit b sink =
    let px = shown_price c in
    let t = taker_of c limit b in
    let sink' = accepted_event b.symbol c.order_id c.side px c.qty ∷ sink in
    if is_fok c.tif && not (fillable t (facing c.side b) c.qty)
    then (b, canceled_event b.symbol c.order_id c.side px c.qty Reason.fok_unfilled ∷ sink')
    else let r = match t c.qty b sink' in settle c px limit r.0 r.1

unfoldable pub add : Command → Book → Sink → Book × Sink
add c b sink =
    if c.order_id == 0
    then (b, rejected_event c Reason.invalid_order_id ∷ sink)
    else if c.qty == 0
    then (b, rejected_event c Reason.invalid_qty ∷ sink)
    else elim (limit_of c.ord_type c.side c.price b) [
      | none ↦ (b, rejected_event c Reason.invalid_price ∷ sink)
      | some limit ↦
          if not (count c.order_id b.index == 0)
          then (b, rejected_event c Reason.duplicate_order_id ∷ sink)
          else if is_post_only c.flags && crosses c.side limit b
          then (b, rejected_event c Reason.would_cross ∷ sink)
          else accept c limit b sink
    ]

-- `remove(loc)` and `index_.erase(it)`.
unfoldable pub remove : Command → Loc → Book → Book
remove c loc b =
    with_levels loc.side (remove_order loc.price loc.it (levels loc.side b))
      (record b { index = erase c.order_id b.index })

unfoldable pub cancel : Command → Book → Sink → Option (Book × Sink)
cancel c b sink = elim (lookup c.order_id b.index) [
  | none ↦ some (b, rejected_event c Reason.unknown_order ∷ sink)
  | some loc ↦ elim (find_order_at loc.price loc.it (levels loc.side b)) [
    | none ↦ none
    | some o ↦ some (
      remove c loc b,
      canceled_event b.symbol c.order_id loc.side loc.price o.qty Reason.user_canceled ∷ sink,
    )
  ]
]

-- The end of `modify`: the order matches at its new price, and rests with what is left.
unfoldable pub reenter : Command → Loc → Order → Book → Sink → Book × Sink
reenter c loc o b sink =
    let t : Taker = record {
      symbol = b.symbol;
      id = c.order_id;
      owner = o.owner;
      side = loc.side;
      limit = c.price;
      stp = b.stp;
    } in
    let r = match t c.qty b sink in
    if r.1.qty == 0
    then (r.0, r.1.sink)
    else if r.1.stop
    then (
      r.0,
      canceled_event b.symbol c.order_id loc.side c.price r.1.qty Reason.self_trade ∷ r.1.sink,
    )
    else rest c.order_id o.owner loc.side c.price r.1.qty r.0 r.1.sink

unfoldable pub modify_order : Command → Loc → Order → Book → Sink → Book × Sink
modify_order c loc o b sink =
    let sink' = modified_event b.symbol c.order_id loc.side c.price c.qty ∷ sink in
    if same_price c.price loc.price && leb c.qty o.qty
    then (with_levels loc.side (set_qty_at loc.price loc.it c.qty (levels loc.side b)) b, sink')
    else reenter c loc o (remove c loc b) sink'

unfoldable pub modify : Command → Book → Sink → Option (Book × Sink)
modify c b sink =
    if c.qty == 0
    then some (b, rejected_event c Reason.invalid_qty ∷ sink)
    else elim (lookup c.order_id b.index) [
      | none ↦ some (b, rejected_event c Reason.unknown_order ∷ sink)
      | some loc ↦
          if in_band c.price b
          then elim (find_order_at loc.price loc.it (levels loc.side b)) [
            | none ↦ none
            | some o ↦ some (modify_order c loc o b sink)
          ]
          else some (b, rejected_event c Reason.invalid_price ∷ sink)
    ]
