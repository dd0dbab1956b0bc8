-- ===== src/Reference/Audit.antt =====
-- include/exsim/reference_book.hpp: the audit and the queries on a valid book.
use exchange_sim.Base.{
  ℕ, ◌+◌, ◌<◌, ◌≡◌, refl, ◌↔◌, true, false, [], ◌∷◌, ◌++◌, arith, length, length-append,
}
use exchange_sim.Base.Assoc.{erase, count, count-erase, length-erase}
use exchange_sim.Domain.{Side}
use exchange_sim.Reference.Sides.{Queue, Levels, Index}
use exchange_sim.Reference.Counts.{count_queue, count_side, count_queue-append}
use exchange_sim.Reference.Sorted.{AreApart}
use exchange_sim.Reference.Priority.{orders}
use exchange_sim.Reference.BookSides.{IsValid}
use exchange_sim.Reference.Queries.{count_orders, check_invariants, is_crossed, contains}
use exchange_sim.Reference.{Book}

-- Orders and index entries that agree on every id are as many.
no_entries : (x : Index) → ((j : ℕ) → 0 ≡ count j x) → length x ≡ 0
unfolding count
no_entries [] h = refl
no_entries ((k, v) ∷ x) h = absurd (ground (arith, h k))

same_length :
    (q : Queue) (x : Index) → ((j : ℕ) → count_queue j q ≡ count j x) → length q ≡ length x
unfolding count_queue
same_length [] x h = omega (arith, no_entries x h)
same_length (o ∷ q) x h =
    let held : 0 < count o.id x = ground (arith, h o.id) in
    omega (
      arith,
      length-erase o.id x held,
      same_length q (erase o.id x) (λ j. ground (arith, h j, count-erase o.id j x held)),
    )

count_queue-orders : (j : ℕ) (ls : Levels) → count_queue j (orders ls) ≡ count_side j ls
unfolding count_queue count_side orders
count_queue-orders j [] = refl
count_queue-orders j (l ∷ ls) =
    omega (arith, count_queue-append j l.queue (orders ls), count_queue-orders j ls)

count_orders_lem : (ls : Levels) → count_orders ls ≡ length (orders ls)
unfolding count_orders orders
count_orders_lem [] = refl
count_orders_lem (l ∷ ls) = omega (arith, length-append l.queue (orders ls), count_orders_lem ls)

index_counts : (b : Book) → IsValid b → count_orders b.bids + count_orders b.asks ≡ length b.index
index_counts b v = omega (
  arith,
  count_orders_lem b.bids,
  count_orders_lem b.asks,
  length-append (orders b.bids) (orders b.asks),
  same_length (orders b.bids ++ orders b.asks) b.index (λ j. omega (
    arith,
    count_queue-append j (orders b.bids) (orders b.asks),
    count_queue-orders j b.bids,
    count_queue-orders j b.asks,
    (v.counted j).0,
  )),
)

not_crossed : (bids asks : Levels) → AreApart Side.buy bids asks → is_crossed bids asks ≡ false
not_crossed [] asks a = refl
not_crossed (b ∷ bids) [] a = refl
not_crossed (b ∷ bids) (k ∷ asks) a = ground (arith, a.0.0)

-- The audit of the tests passes on every valid book: its best prices do not cross, and it holds as
-- many orders as its index.
pub check_invariants_lem : (b : Book) → IsValid b → check_invariants b ≡ true
unfolding check_invariants
check_invariants_lem b v = ground (arith, index_counts b v, not_crossed b.bids b.asks v.apart)

-- On a valid book, `contains` says of an id whether an order of it rests on either side.
pub contains_iff :
    (b : Book) (id : ℕ)
    → IsValid b
    → (contains id b ≡ true) ↔ (0 < count_side id b.bids + count_side id b.asks)
unfolding contains
contains_iff b id v = ground (arith, v.counted id)
