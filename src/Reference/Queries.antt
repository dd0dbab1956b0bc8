-- ===== src/Reference/Queries.antt =====
-- include/exsim/reference_book.hpp: the queries, and the audit that the tests call.
use exchange_sim.Base.{
  ℕ, ◌+◌, ◌==◌, Bool, false, not, ◌&&◌, Option, none, some, List, [], ◌∷◌, ◌++◌, length,
}
use exchange_sim.Base.Int.{ℤ, ltb_ℤ}
use exchange_sim.Base.Assoc.{lookup, count}
use exchange_sim.Domain.{OrderView}
use exchange_sim.Reference.Sides.{Queue, Levels, find_order_at, level_qty}
use exchange_sim.Reference.{Book, levels}

abbrev best_price : Levels → Option ℤ
best_price [] = none
best_price (l ∷ ls) = some l.price

abbrev best_qty : Levels → ℕ
best_qty [] = 0
best_qty (l ∷ ls) = level_qty l.queue

unfoldable pub best_bid : Book → Option ℤ
best_bid b = best_price b.bids

unfoldable pub best_ask : Book → Option ℤ
best_ask b = best_price b.asks

unfoldable pub best_bid_qty : Book → ℕ
best_bid_qty b = best_qty b.bids

unfoldable pub best_ask_qty : Book → ℕ
best_ask_qty b = best_qty b.asks

unfoldable pub order_count : Book → ℕ
order_count b = length b.index

unfoldable pub contains : ℕ → Book → Bool
contains id b = not (count id b.index == 0)

-- `it->second` of a live order; `none` is a dangling iterator, `some none` an unknown id.
unfoldable pub find_order : ℕ → Book → Option (Option OrderView)
find_order id b = elim (lookup id b.index) [
  | none ↦ some none
  | some loc ↦ elim (find_order_at loc.price loc.it (levels loc.side b)) [
    | none ↦ none
    | some o ↦
        some (some (record { price = loc.price; qty = o.qty; side = loc.side; owner = o.owner }))
  ]
]

-- What `for_each_order` hands its visitor, in order.
abbrev visit_level : ℤ → Queue → List (ℤ × ℕ × ℕ)
visit_level px [] = []
visit_level px (o ∷ q) = (px, o.id, o.qty) ∷ visit_level px q

unfoldable pub for_each_order : Levels → List (ℤ × ℕ × ℕ)
for_each_order [] = []
for_each_order (l ∷ ls) = visit_level l.price l.queue ++ for_each_order ls

unfoldable pub count_orders : Levels → ℕ
count_orders [] = 0
count_orders (l ∷ ls) = length l.queue + count_orders ls

abbrev pub is_crossed : Levels → Levels → Bool
is_crossed [] _ = false
is_crossed (b ∷ _) [] = false
is_crossed (b ∷ _) (a ∷ _) = not (ltb_ℤ b.price a.price)

unfoldable pub check_invariants : Book → Bool
check_invariants b =
    not (is_crossed b.bids b.asks) && (count_orders b.bids + count_orders b.asks == length b.index)
