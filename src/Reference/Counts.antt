-- ===== src/Reference/Counts.antt =====
-- include/exsim/reference_book.hpp: how often an id stands in a queue, at a price and on a side,
-- and what the changes of a side's levels do to that.
use exchange_sim.Base.{
  ℕ, ◌+◌, ◌≤◌, ◌<◌, ◌≡◌, refl, inl, inr, true, some, [], ◌∷◌, ◌++◌, All, arith, ◌==◌, if◌then◌else◌,
  Bool-cases,
}
use exchange_sim.Base.Int.{ℤ}
use exchange_sim.Base.Assoc.{hit}
use exchange_sim.Domain.{Side}
use exchange_sim.Reference.Sides.{
  Order, Queue, Level, Levels, before, same_price, push_back, find_in, find_order_at, erase_from,
  keep_level, remove_order, set_qty_in, set_qty_at,
}

-- In a queue, among the levels at one price, and on a whole side.
unfoldable pub count_queue : ℕ → Queue → ℕ
count_queue id [] = 0
count_queue id (o ∷ q) = hit id o.id + count_queue id q

unfoldable pub count_at : ℤ → ℕ → Levels → ℕ
count_at px id [] = 0
count_at px id (l ∷ ls) =
    (if same_price l.price px then count_queue id l.queue else 0) + count_at px id ls

unfoldable pub count_side : ℕ → Levels → ℕ
count_side id [] = 0
count_side id (l ∷ ls) = count_queue id l.queue + count_side id ls

-- Best first, strictly.
abbrev pub AreAfter : Side → ℤ → Levels → Type 0
AreAfter s p = All (λ l. before s p l.price ≡ true)

abbrev pub IsSorted : Side → Levels → Type 0
IsSorted s [] = Unit {0}
IsSorted s (l ∷ ls) = AreAfter s l.price ls × IsSorted s ls

pub count_at-le-side : (p : ℤ) (id : ℕ) (ls : Levels) → count_at p id ls ≤ count_side id ls
unfolding count_at count_side
count_at-le-side p id [] = omega arith
count_at-le-side p id (l ∷ ls) = ground (arith, count_at-le-side p id ls)

pub count_queue-append :
    (id : ℕ) (q r : Queue) → count_queue id (q ++ r) ≡ count_queue id q + count_queue id r
unfolding count_queue
count_queue-append id [] r = omega arith
count_queue-append id (o ∷ q) r = omega (arith, count_queue-append id q r)

-- Nothing stands behind the price at which a sorted side is after.
pub count_at_after :
    (s : Side) (p : ℤ) (id : ℕ) (ls : Levels) (p' : ℤ)
    → same_price p' p ≡ true
    → AreAfter s p' ls
    → count_at p id ls ≡ 0
unfolding count_at
count_at_after s p id [] p' e a = refl
count_at_after Side.buy p id (l ∷ ls) p' e a =
    ground (arith, count_at_after Side.buy p id ls p' e a.1)
count_at_after Side.sell p id (l ∷ ls) p' e a =
    ground (arith, count_at_after Side.sell p id ls p' e a.1)

-- `push_back` adds one order, at its price.
pub count_side-push_back :
    (s : Side) (px : ℤ) (o : Order) (id : ℕ) (ls : Levels)
    → count_side id (push_back s px o ls) ≡ count_side id ls + hit id o.id
unfolding push_back count_side count_queue
count_side-push_back s px o id [] = omega arith
count_side-push_back s px o id (l ∷ ls) =
    ground (arith, count_side-push_back s px o id ls, count_queue-append id l.queue (o ∷ []))

pub count_at-push_back :
    (s : Side) (px : ℤ) (o : Order) (p : ℤ) (id : ℕ) (ls : Levels)
    → count_at p id (push_back s px o ls)
      ≡ count_at p id ls + (if same_price px p then hit id o.id else 0)
unfolding push_back count_at count_queue
count_at-push_back s px o p id [] = ground arith
count_at-push_back Side.buy px o p id (l ∷ ls) =
    ground (arith, count_at-push_back Side.buy px o p id ls, count_queue-append id l.queue (o ∷ []))
count_at-push_back Side.sell px o p id (l ∷ ls) =
    ground
      (arith, count_at-push_back Side.sell px o p id ls, count_queue-append id l.queue (o ∷ []))

-- What is counted is found.
find_in_lem : (id : ℕ) (q : Queue) → 0 < count_queue id q → (o : Order) × (find_in id q ≡ some o)
unfolding count_queue find_in
find_in_lem id [] h = absurd (omega arith)
find_in_lem id (o ∷ q) h = elim (Bool-cases (o.id == id)) [
  | inl e ↦ (o, rw e)
  | inr e ↦ let (x, ex) = find_in_lem id q (ground arith) in (x, rw e ex)
]

pub find_order_at_lem :
    (s : Side) (p : ℤ) (id : ℕ) (ls : Levels)
    → IsSorted s ls
    → 0 < count_at p id ls
    → (o : Order) × (find_order_at p id ls ≡ some o)
unfolding count_at find_order_at
find_order_at_lem s p id [] v h = absurd (omega arith)
find_order_at_lem s p id (l ∷ ls) v h = elim (Bool-cases (same_price l.price p)) [
  | inl e ↦
      let (o, eo) =
        find_in_lem id l.queue (ground (arith, count_at_after s p id ls l.price e v.0)) in
      (o, rw e eo)
  | inr e ↦ let (o, eo) = find_order_at_lem s p id ls v.1 (ground arith) in (o, rw e eo)
]

-- `remove_order` takes one order away.
count_queue-erase_from :
    (id j : ℕ) (q : Queue)
    → 0 < count_queue id q
    → count_queue j (erase_from id q) + hit j id ≡ count_queue j q
unfolding count_queue erase_from
count_queue-erase_from id j [] h = absurd (omega arith)
count_queue-erase_from id j (o ∷ q) h = ground (arith, count_queue-erase_from id j q)

count_side-keep_level :
    (l : Level) (q : Queue) (j : ℕ) (ls : Levels)
    → count_side j (keep_level l q ls) ≡ count_queue j q + count_side j ls
unfolding keep_level count_side count_queue
count_side-keep_level l [] j ls = omega arith
count_side-keep_level l (o ∷ q) j ls = refl

count_at-keep_level :
    (l : Level) (q : Queue) (p : ℤ) (j : ℕ) (ls : Levels)
    → count_at p j (keep_level l q ls)
      ≡ (if same_price l.price p then count_queue j q else 0) + count_at p j ls
unfolding keep_level count_at count_queue
count_at-keep_level l [] p j ls = ground arith
count_at-keep_level l (o ∷ q) p j ls = refl

pub count_side-remove_order :
    (s : Side) (p : ℤ) (id j : ℕ) (ls : Levels)
    → IsSorted s ls
    → 0 < count_at p id ls
    → count_side j (remove_order p id ls) + hit j id ≡ count_side j ls
unfolding count_at count_side remove_order
count_side-remove_order s p id j [] v h = absurd (omega arith)
count_side-remove_order s p id j (l ∷ ls) v h = ground (
  arith,
  count_at_after s p id ls l.price,
  count_queue-erase_from id j l.queue,
  count_side-keep_level l (erase_from id l.queue) j ls,
  count_side-remove_order s p id j ls v.1,
)

pub count_at-remove_order :
    (s : Side) (p : ℤ) (id : ℕ) (p' : ℤ) (j : ℕ) (ls : Levels)
    → IsSorted s ls
    → 0 < count_at p id ls
    → count_at p' j (remove_order p id ls) + (if same_price p p' then hit j id else 0)
      ≡ count_at p' j ls
unfolding count_at remove_order
count_at-remove_order s p id p' j [] v h = absurd (omega arith)
count_at-remove_order s p id p' j (l ∷ ls) v h = ground (
  arith,
  count_at_after s p id ls l.price,
  count_queue-erase_from id j l.queue,
  count_at-keep_level l (erase_from id l.queue) p' j ls,
  count_at-remove_order s p id p' j ls v.1,
)

-- `set_qty_at` moves no order.
count_queue-set_qty_in :
    (id x j : ℕ) (q : Queue) → count_queue j (set_qty_in id x q) ≡ count_queue j q
unfolding count_queue set_qty_in
count_queue-set_qty_in id x j [] = refl
count_queue-set_qty_in id x j (o ∷ q) = ground (arith, count_queue-set_qty_in id x j q)

pub count_side-set_qty_at :
    (p : ℤ) (id x j : ℕ) (ls : Levels) → count_side j (set_qty_at p id x ls) ≡ count_side j ls
unfolding count_side set_qty_at
count_side-set_qty_at p id x j [] = refl
count_side-set_qty_at p id x j (l ∷ ls) =
    ground (arith, count_side-set_qty_at p id x j ls, count_queue-set_qty_in id x j l.queue)

pub count_at-set_qty_at :
    (p : ℤ) (id x : ℕ) (p' : ℤ) (j : ℕ) (ls : Levels)
    → count_at p' j (set_qty_at p id x ls) ≡ count_at p' j ls
unfolding count_at set_qty_at
count_at-set_qty_at p id x p' j [] = refl
count_at-set_qty_at p id x p' j (l ∷ ls) =
    ground (arith, count_at-set_qty_at p id x p' j ls, count_queue-set_qty_in id x j l.queue)
