-- ===== src/Reference/Invariant.antt =====
-- include/exsim/reference_book.hpp: the operations and the book's invariant.
use exchange_sim.Base.{
  Ends, ℕ, ◌<◌, ◌≡◌, refl, false, not, ◌&&◌, Option, some, arith, Bool-cases, Option-cases, inl,
  inr, ◌==◌, leb,
}
use exchange_sim.Base.Int.{ℤ}
use exchange_sim.Base.Assoc.{lookup, erase, count, count_none, count-erase}
use exchange_sim.Domain.{Side, Sink, Command, BookConfig, opposite}
use exchange_sim.Reference.{
  Book, new, levels, with_levels, facing, match, settle, accept, add, remove, cancel, reenter,
  modify_order, modify, taker_of, limit_of, is_fok, in_band,
}
use exchange_sim.Reference.Sides.{
  Order, Levels, Loc, find_order_at, remove_order, set_qty_at, same_price,
}
use exchange_sim.Reference.Match.{Taker, Taking, fillable}
use exchange_sim.Reference.Counts.{AreAfter, count_at, count_side, find_order_at_lem}
use exchange_sim.Reference.Valid.{Holds-remove, Holds-set_qty, pick}
use exchange_sim.Reference.BookSides.{
  IsValid, from_side, to_own, match-IsValid, match_fresh, match_out, rest-IsValid,
}

-- A book starts valid.
pub new-IsValid : (symbol : ℕ) (cfg : BookConfig) → IsValid (new symbol cfg)
unfolding new lookup count count_side
new-IsValid symbol cfg = record {
  own_sorted = tt;
  facing_sorted = tt;
  own_full = tt;
  facing_full = tt;
  apart = tt;
  counted = λ j. omega arith;
  located = λ j loc e. cc;
  room = omega arith;
}

settle-IsValid :
    (c : Command) (px limit : ℤ) (b : Book) (m : Taking)
    → IsValid b
    → count c.order_id b.index ≡ 0
    → (0 < m.qty → m.stop ≡ false → AreAfter (opposite c.side) limit (facing c.side b))
    → IsValid (settle c px limit b m).0
unfolding settle
settle-IsValid c px limit b m v f a = elim (Bool-cases (m.qty == 0)) [
  | inl e ↦ rw e v
  | inr e ↦ elim (Bool-cases m.stop) [
    | inl g ↦ rw (e, g) v
    | inr g ↦ ground (
      arith,
      rest-IsValid c.order_id c.owner c.side limit m.qty b m.sink v (ground arith) f
          (a (ground arith) g),
    )
  ]
]

accept-IsValid :
    (c : Command) (limit : ℤ) (b : Book) (sink : Sink)
    → IsValid b
    → count c.order_id b.index ≡ 0
    → IsValid (accept c limit b sink).0
unfolding accept
accept-IsValid c limit b sink v f =
    let t = taker_of c limit b in
    elim (Bool-cases (is_fok c.tif && not (fillable t (facing c.side b) c.qty))) [
      | inl e ↦ rw e v
      | inr e ↦ rw e (
          settle-IsValid c _ limit _ _ (match-IsValid t c.qty b _ v)
            (match_fresh t c.qty b _ v c.order_id f) (match_out t c.qty b _ v))
    ]

-- A new order on a valid book leaves a valid book, on every branch: refused, filled, cancelled or
-- resting.
pub add-IsValid : (c : Command) (b : Book) (sink : Sink) → IsValid b → IsValid (add c b sink).0
unfolding add
add-IsValid c b sink v = elim (Option-cases (limit_of c.ord_type c.side c.price b)) [
  | inl e ↦ ground arith
  | inr (limit, e) ↦ ground (arith, accept-IsValid c limit b sink v)
]

pick-levels : (s : Side) (b : Book) → pick Side.buy b.bids b.asks s ≡ levels s b
pick-levels Side.buy b = refl
pick-levels Side.sell b = refl

index-with_levels : (s : Side) (ls : Levels) (b : Book) → (with_levels s ls b).index ≡ b.index
index-with_levels Side.buy ls b = refl
index-with_levels Side.sell ls b = refl

module _ (b : Book) (v : IsValid b) (c : Command) (loc : Loc)
    (e : lookup c.order_id b.index ≡ some loc) where
  -- What the index says of an id is where its order rests.
  found : (loc.it ≡ c.order_id) × (0 < count_at loc.price c.order_id (levels loc.side b))
  found = ground (arith, v.located c.order_id loc e, pick-levels loc.side b)

  found_order : (o : Order) × (find_order_at loc.price loc.it (levels loc.side b) ≡ some o)
  found_order =
      find_order_at_lem loc.side loc.price loc.it (levels loc.side b)
        (from_side loc.side b v).own_sorted (rw found.0 found.1)

  remove-IsValid : IsValid (remove c loc b)
  unfolding remove
  remove-IsValid = rw found.0 (
      to_own loc.side b _ _ (
        Holds-remove loc.side (levels loc.side b) (facing loc.side b) b.index b.capacity
          (from_side loc.side b v) c.order_id loc.price found.1))

  remove_fresh : count c.order_id (remove c loc b).index ≡ 0
  unfolding remove
  remove_fresh =
      let u = v.counted c.order_id in
      ground (
        arith,
        index-with_levels loc.side (remove_order loc.price loc.it (levels loc.side b))
            (record b { index = erase c.order_id b.index }),
        count-erase c.order_id c.order_id b.index,
        count_none c.order_id b.index,
        u,
      )

  set_qty-IsValid :
      0 < c.qty
      → IsValid (with_levels loc.side (set_qty_at loc.price loc.it c.qty (levels loc.side b)) b)
  set_qty-IsValid h = to_own loc.side b _ b.index (
      Holds-set_qty loc.side (levels loc.side b) (facing loc.side b) b.index b.capacity
        (from_side loc.side b v) loc.it loc.price c.qty h)

-- An operation returns, and the book that it returns is valid.
abbrev pub EndsValid : Option (Book × Sink) → Type 0
EndsValid = Ends IsValid

-- A cancel on a valid book dereferences no dangling iterator and ends with a valid book, on every
-- branch.
pub cancel-EndsValid :
    (c : Command) (b : Book) (sink : Sink) → IsValid b → EndsValid (cancel c b sink)
unfolding cancel
cancel-EndsValid c b sink v = elim (Option-cases (lookup c.order_id b.index)) [
  | inl e ↦ rw (e, cancel) v
  | inr (loc, e) ↦
      let (o, eo) = found_order b v c loc e in rw (e, eo, cancel) (remove-IsValid b v c loc e)
]

reenter-IsValid :
    (c : Command) (loc : Loc) (o : Order) (b : Book) (sink : Sink)
    → IsValid b
    → count c.order_id b.index ≡ 0
    → IsValid (reenter c loc o b sink).0
unfolding reenter
reenter-IsValid c loc o b sink v f =
    let t : Taker = record {
      symbol = b.symbol;
      id = c.order_id;
      owner = o.owner;
      side = loc.side;
      limit = c.price;
      stp = b.stp;
    } in
    let w = match-IsValid t c.qty b sink v in
    let r = match t c.qty b sink in
    elim (Bool-cases (r.1.qty == 0)) [
      | inl e ↦ rw e w
      | inr e ↦ elim (Bool-cases r.1.stop) [
        | inl g ↦ rw (e, g) w
        | inr g ↦
            rw (e, g)
              (rest-IsValid c.order_id o.owner loc.side c.price r.1.qty r.0 r.1.sink w
                (ground arith) (match_fresh t c.qty b sink v c.order_id f)
                (match_out t c.qty b sink v (ground arith) g))
      ]
    ]

modify_order-IsValid :
    (c : Command) (loc : Loc) (o : Order) (b : Book) (sink : Sink)
    → IsValid b
    → lookup c.order_id b.index ≡ some loc
    → 0 < c.qty
    → IsValid (modify_order c loc o b sink).0
unfolding modify_order
modify_order-IsValid c loc o b sink v e h =
    elim (Bool-cases (same_price c.price loc.price && leb c.qty o.qty)) [
      | inl f ↦ rw f (set_qty-IsValid b v c loc e h)
      | inr f ↦ rw f (
          reenter-IsValid c loc o (remove c loc b) _ (remove-IsValid b v c loc e)
            (remove_fresh b v c loc e))
    ]

-- A modify on a valid book dereferences no dangling iterator and ends with a valid book, on every
-- branch.
pub modify-EndsValid :
    (c : Command) (b : Book) (sink : Sink) → IsValid b → EndsValid (modify c b sink)
unfolding modify
modify-EndsValid c b sink v = elim (Bool-cases (c.qty == 0)) [
  | inl z ↦ rw z v
  | inr z ↦ elim (Option-cases (lookup c.order_id b.index)) [
    | inl e ↦ rw (z, e) v
    | inr (loc, e) ↦ elim (Bool-cases (in_band c.price b)) [
      | inl i ↦
          let (o, eo) = found_order b v c loc e in
          rw (z, e, i, eo) (modify_order-IsValid c loc o b sink v e (ground arith))
      | inr i ↦ rw (z, e, i) v
    ]
  ]
]
