-- ===== src/Reference/Sides.antt =====
-- include/exsim/reference_book.hpp: the price levels of one side (`std::map` of `std::list`).
-- The levels stand best price first, as the map's comparator orders them. An iterator into a
-- queue is the id of the order that it points at, which the queue holds once.
use exchange_sim.Base.{
  ℕ, ◌+◌, ◌%◌, ◌^◌, ◌==◌, if◌then◌else◌, Bool, Option, none, some, List, [], ◌∷◌, ◌++◌,
}
use exchange_sim.Base.Int.{ℤ, pos_part, neg_part, ltb_ℤ}
use exchange_sim.Domain.{Side}

pub record Order : Type 0 where
  pub id : ℕ
  pub qty : ℕ
  pub owner : ℕ

abbrev pub Queue : Type 0
Queue = List Order

pub record Level : Type 0 where
  pub price : ℤ
  pub queue : Queue

abbrev pub Levels : Type 0
Levels = List Level

pub record Loc : Type 0 where
  pub side : Side
  pub price : ℤ
  pub it : ℕ

abbrev pub Index : Type 0
Index = List (ℕ × Loc)

-- The comparator of a side's map: `std::greater` for bids, `std::less` for asks.
abbrev pub before : Side → ℤ → ℤ → Bool
before Side.buy p q = ltb_ℤ q p
before Side.sell p q = ltb_ℤ p q

abbrev pub same_price : ℤ → ℤ → Bool
same_price p q = pos_part p + neg_part q == pos_part q + neg_part p

-- `bids_[px]` and `push_back`: the level is made where it is missing.
unfoldable pub push_back : Side → ℤ → Order → Levels → Levels
push_back s px o [] = record { price = px; queue = o ∷ [] } ∷ []
push_back s px o (l ∷ ls) =
    if before s px l.price
    then record { price = px; queue = o ∷ [] } ∷ l ∷ ls
    else if before s l.price px
    then l ∷ push_back s px o ls
    else record l { queue = l.queue ++ (o ∷ []) } ∷ ls

-- The order that an iterator points at; `none` is a dangling iterator.
unfoldable pub find_in : ℕ → Queue → Option Order
find_in id [] = none
find_in id (o ∷ q) = if o.id == id then some o else find_in id q

unfoldable pub find_order_at : ℤ → ℕ → Levels → Option Order
unfolding find_in
find_order_at px id [] = none
find_order_at px id (l ∷ ls) =
    if same_price l.price px then find_in id l.queue else find_order_at px id ls

-- `lvl->second.erase(it)`
unfoldable pub erase_from : ℕ → Queue → Queue
erase_from id [] = []
erase_from id (o ∷ q) = if o.id == id then q else o ∷ erase_from id q

-- A level that has no order left is erased from the map.
unfoldable pub keep_level : Level → Queue → Levels → Levels
keep_level l [] ls = ls
keep_level l (o ∷ q) ls = record l { queue = o ∷ q } ∷ ls

-- `erase_from(book)` of `remove`.
unfoldable pub remove_order : ℤ → ℕ → Levels → Levels
unfolding erase_from keep_level
remove_order px id [] = []
remove_order px id (l ∷ ls) =
    if same_price l.price px
    then keep_level l (erase_from id l.queue) ls
    else l ∷ remove_order px id ls

-- `loc.it->qty = qty`
unfoldable pub set_qty_in : ℕ → ℕ → Queue → Queue
set_qty_in id qty [] = []
set_qty_in id qty (o ∷ q) =
    if o.id == id then record o { qty = qty } ∷ q else o ∷ set_qty_in id qty q

unfoldable pub set_qty_at : ℤ → ℕ → ℕ → Levels → Levels
unfolding set_qty_in
set_qty_at px id qty [] = []
set_qty_at px id qty (l ∷ ls) =
    if same_price l.price px
    then record l { queue = set_qty_in id qty l.queue } ∷ ls
    else l ∷ set_qty_at px id qty ls

-- The total of a level, as the 64-bit sum wraps.
unfoldable pub level_qty : Queue → ℕ
level_qty [] = 0
level_qty (o ∷ q) = (o.qty + level_qty q) % 2 ^ 64
