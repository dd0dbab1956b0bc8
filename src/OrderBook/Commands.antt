-- ===== src/OrderBook/Commands.antt =====
-- include/exsim/order_book.hpp: `add`, `cancel`, `modify`.
use exchange_sim.Base.{
  ℕ, ◌+◌, ◌-◌, ltb, leb, ◌==◌, if◌then◌else◌, not, ◌&&◌, ◌||◌, Bool, true, false, Option, none,
  some, ◌∷◌,
}
use exchange_sim.Base.Int.{ℤ, pos, negsuc, ◌-ℤ◌}
use exchange_sim.Domain.{
  Side, OrdType, Tif, Reason, Command, Sink, effective_stp, is_post_only, accepted_event,
  rejected_event, canceled_event, modified_event,
}
use exchange_sim.OrderStore.{k_nil}
use exchange_sim.OrderStore.Records
use exchange_sim.OrderIndex
use exchange_sim.OrderBook.Sweep.{Taker, Taking, sweep, fillable}
use exchange_sim.OrderBook.{
  Book, level, put_level, sub_qty, key_of, crosses, price_at, unlink, rest,
}

abbrev pub is_market : OrdType → Bool
is_market OrdType.market = true
is_market OrdType.limit = false

abbrev pub is_day : Tif → Bool
is_day Tif.day = true
is_day _ = false

abbrev pub is_fok : Tif → Bool
is_fok Tif.fok = true
is_fok _ = false

-- The level of a price; `none` out of the band.
unfoldable pub level_index : ℤ → Book → Option ℕ
level_index p b = elim (p -ℤ b.min_price) [
  | pos r ↦ if ltb r b.n then some r else none
  | negsuc r ↦ none
]

-- The level that an order matches up to; `none` for a price out of the band.
unfoldable pub limit_of : OrdType → Side → ℤ → Book → Option ℕ
limit_of OrdType.market Side.buy p b = some (b.n - 1)
limit_of OrdType.market Side.sell p b = some 0
limit_of OrdType.limit side p b = level_index p b

-- `c.type == OrdType::Market ? 0 : c.price`.
abbrev pub shown_price : Command → ℤ
shown_price c = if is_market c.ord_type then pos 0 else c.price

-- The end of `add_side`, with what the sweep has left.
unfoldable pub settle : OrderIndex.Hash → Command → ℕ → Taking → Option (Book × Sink)
settle hash c limit m =
    let b = m.book in
    let px = shown_price c in
    if m.qty == 0
    then some (b, m.sink)
    else if m.stop
    then some (b, canceled_event b.symbol c.order_id c.side px m.qty Reason.self_trade ∷ m.sink)
    else if is_market c.ord_type || not (is_day c.tif)
    then some (b, canceled_event b.symbol c.order_id c.side px m.qty Reason.ioc_expired ∷ m.sink)
    else rest hash
        (record {
          id = c.order_id;
          owner = c.owner;
          side = c.side;
          ix = limit;
          qty = m.qty;
          ts = c.ts;
        })
        b m.sink

unfoldable pub taker_of : Command → ℕ → Book → Taker
taker_of c limit b = record {
  id = c.order_id;
  owner = c.owner;
  side = c.side;
  limit = limit;
  stp = effective_stp c.flags b.stp;
}

-- `fillable` is asked for a fill-or-kill order only.
unfoldable pub may_fill : Command → Taker → Book → Option Bool
may_fill c t b = elim (is_fok c.tif) [ true ↦ fillable t c.qty b | false ↦ some true ]

-- `add_side` from the acceptance on.
unfoldable pub accept : OrderIndex.Hash → Command → ℕ → Book → Sink → Option (Book × Sink)
accept hash c limit b sink =
    let px = shown_price c in
    let t = taker_of c limit b in
    let sink' = accepted_event b.symbol c.order_id c.side px c.qty ∷ sink in
    elim (may_fill c t b) [
      | none ↦ none
      | some false ↦
          some (b, canceled_event b.symbol c.order_id c.side px c.qty Reason.fok_unfilled ∷ sink')
      | some true ↦
          elim (sweep hash t (b.n + 1)
            (record { qty = c.qty; stop = false; book = b; sink = sink' })) [
              | none ↦ none
              | some m ↦ settle hash c limit m
            ]
    ]

unfoldable pub add : OrderIndex.Hash → Command → Book → Sink → Option (Book × Sink)
add hash c b sink = elim (c.order_id == 0) [
  | true ↦ some (b, rejected_event c Reason.invalid_order_id ∷ sink)
  | false ↦ elim (c.qty == 0) [
    | true ↦ some (b, rejected_event c Reason.invalid_qty ∷ sink)
    | false ↦ elim (limit_of c.ord_type c.side c.price b) [
      | none ↦ some (b, rejected_event c Reason.invalid_price ∷ sink)
      | some limit ↦ elim (OrderIndex.find hash c.order_id (key_of b) b.ids == k_nil) [
        | false ↦ some (b, rejected_event c Reason.duplicate_order_id ∷ sink)
        | true ↦ elim (is_post_only c.flags && crosses c.side limit b) [
          | true ↦ some (b, rejected_event c Reason.would_cross ∷ sink)
          | false ↦ accept hash c limit b sink
        ]
      ]
    ]
  ]
]

unfoldable pub cancel : OrderIndex.Hash → Command → Book → Sink → Option (Book × Sink)
cancel hash c b sink = elim (OrderIndex.erase hash c.order_id (key_of b) b.ids) [
  | none ↦ none
  | some (s, ids) ↦
      let b' : Book = record b { ids = ids } in
      let o = Records.order s b.store in
      elim (s == k_nil) [
        | true ↦ some (b', rejected_event c Reason.unknown_order ∷ sink)
        | false ↦
            let b'' = unlink s b' in
            some (
              record b'' { store = Records.free_slot s b''.store },
              canceled_event b.symbol c.order_id o.side (price_at o.level b) o.qty
                    Reason.user_canceled
                  ∷ sink,
            )
      ]
]

-- A smaller quantity at the same price: the order keeps its place.
unfoldable pub amend : ℕ → ℕ → ℕ → Book → Book
amend s ix qty b =
    let q = (Records.order s b.store).qty in
    record (put_level ix (record (level ix b) { qty = sub_qty (level ix b).qty (q - qty) }) b) {
      store = Records.set_qty s qty b.store;
    }

-- The end of `reenter`, with what the sweep has left.
unfoldable pub settle_again : OrderIndex.Hash → Command → Taker → Taking → Option (Book × Sink)
settle_again hash c t m =
    let b = m.book in
    if m.qty == 0
    then some (b, m.sink)
    else if m.stop
    then some (
      b,
      canceled_event b.symbol t.id t.side (price_at t.limit b) m.qty Reason.self_trade ∷ m.sink,
    )
    else rest hash
        (record { id = t.id; owner = t.owner; side = t.side; ix = t.limit; qty = m.qty; ts = c.ts })
        b m.sink

unfoldable pub reenter : OrderIndex.Hash → Command → Taker → Book → Sink → Option (Book × Sink)
reenter hash c t b sink =
    elim (sweep hash t (b.n + 1) (record { qty = c.qty; stop = false; book = b; sink = sink })) [
      | none ↦ none
      | some m ↦ settle_again hash c t m
    ]

-- Another price, or more quantity: the order leaves its queue and comes in again.
unfoldable pub replace : OrderIndex.Hash → Command → ℕ → ℕ → Book → Sink → Option (Book × Sink)
replace hash c s ix b sink =
    let o = Records.order s b.store in
    elim (OrderIndex.erase_known hash c.order_id s b.ids) [
      | none ↦ none
      | some ids ↦
          let b' = unlink s (record b { ids = ids }) in
          let t : Taker = record {
            id = c.order_id;
            owner = o.owner;
            side = o.side;
            limit = ix;
            stp = b.stp;
          } in
          reenter hash c t (record b' { store = Records.free_slot s b'.store })
            (modified_event b.symbol c.order_id o.side c.price c.qty ∷ sink)
    ]

unfoldable pub modify_order : OrderIndex.Hash → Command → ℕ → ℕ → Book → Sink → Option (Book × Sink)
modify_order hash c s ix b sink =
    let o = Records.order s b.store in
    elim (ix == o.level && leb c.qty o.qty) [
      | true ↦
          some (amend s ix c.qty b, modified_event b.symbol c.order_id o.side c.price c.qty ∷ sink)
      | false ↦ replace hash c s ix b sink
    ]

unfoldable pub modify : OrderIndex.Hash → Command → Book → Sink → Option (Book × Sink)
modify hash c b sink =
    let s = OrderIndex.find hash c.order_id (key_of b) b.ids in
    elim (c.qty == 0) [
      | true ↦ some (b, rejected_event c Reason.invalid_qty ∷ sink)
      | false ↦ elim (s == k_nil) [
        | true ↦ some (b, rejected_event c Reason.unknown_order ∷ sink)
        | false ↦ elim (level_index c.price b) [
          | none ↦ some (b, rejected_event c Reason.invalid_price ∷ sink)
          | some ix ↦ modify_order hash c s ix b sink
        ]
      ]
    ]
