-- ===== src/Reference/BookSides.antt =====
-- include/exsim/reference_book.hpp: the invariant of a book, seen from either side, and the parts
-- of the operations.
use exchange_sim.Base.{ℕ, ◌<◌, ◌≡◌, refl, false, arith, length, Bool-cases, inl, inr, leb}
use exchange_sim.Base.Int.{ℤ}
use exchange_sim.Base.Assoc.{count}
use exchange_sim.Domain.{Side, Sink, opposite}
use exchange_sim.Reference.{Book, levels, with_levels, facing, with_facing, match, rest}
use exchange_sim.Reference.Sides.{Levels, Index}
use exchange_sim.Reference.Match.{Taker, Taking, match_side}
use exchange_sim.Reference.MatchShape.{Shape, match_side-Shape}
use exchange_sim.Reference.Counts.{AreAfter}
use exchange_sim.Reference.Fate.{match_side-SideFates}
use exchange_sim.Reference.Sorted.{head_out}
use exchange_sim.Reference.Valid.{Holds, Holds-symm, Holds-match, Holds-rest, facing-Covers}

abbrev pub IsValid : Book → Type 0
IsValid b = Holds Side.buy b.bids b.asks b.index b.capacity

-- The invariant seen from either side.
pub from_side :
    (s : Side) (b : Book) → IsValid b → Holds s (levels s b) (facing s b) b.index b.capacity
from_side Side.buy b v = v
from_side Side.sell b v = Holds-symm Side.buy b.bids b.asks b.index b.capacity v

pub to_own :
    (s : Side) (b : Book) (own : Levels) (x : Index)
    → Holds s own (facing s b) x b.capacity
    → IsValid (with_levels s own (record b { index = x }))
to_own Side.buy b own x v = v
to_own Side.sell b own x v = Holds-symm Side.sell own b.bids x b.capacity v

pub to_facing :
    (s : Side) (b : Book) (ls : Levels) (x : Index)
    → Holds s (levels s b) ls x b.capacity
    → IsValid (with_facing s ls (record b { index = x }))
to_facing Side.buy b ls x v = v
to_facing Side.sell b ls x v = Holds-symm Side.sell b.asks ls x b.capacity v

pub facing-with_facing : (s : Side) (ls : Levels) (b : Book) → facing s (with_facing s ls b) ≡ ls
facing-with_facing Side.buy ls b = refl
facing-with_facing Side.sell ls b = refl

pub index-with_facing : (s : Side) (ls : Levels) (b : Book) → (with_facing s ls b).index ≡ b.index
index-with_facing Side.buy ls b = refl
index-with_facing Side.sell ls b = refl

module _ (t : Taker) (qty : ℕ) (b : Book) (sink : Sink) (v : IsValid b) where
  abbrev start : Taking
  start = record { qty = qty; stop = false; index = b.index; sink = sink }

  side_view : Holds t.side (levels t.side b) (facing t.side b) b.index b.capacity
  side_view = from_side t.side b v

  pub match-IsValid : IsValid (match t qty b sink).0
  unfolding match
  match-IsValid =
      to_facing t.side b (match_side t (facing t.side b) start).0
        (match_side t (facing t.side b) start).1.index
        (Holds-match t.side (levels t.side b) (facing t.side b) b.index b.capacity side_view t qty
          sink)

  -- An id that was not in the book is not in it after the match.
  pub match_fresh : (id : ℕ) → count id b.index ≡ 0 → count id (match t qty b sink).0.index ≡ 0
  unfolding match
  match_fresh id h =
      let f =
        match_side-SideFates t (facing t.side b) start side_view.facing_full
          (facing-Covers t.side (levels t.side b) (facing t.side b) b.index b.capacity side_view) in
      ground (
        arith,
        f.0 id,
        index-with_facing t.side (match_side t (facing t.side b) start).0
            (record b { index = (match_side t (facing t.side b) start).1.index }),
      )

  -- Quantity is left of an order that self-trade prevention did not stop only if the facing side
  -- has no level within its limit any more.
  pub match_out :
      0 < (match t qty b sink).1.qty
      → (match t qty b sink).1.stop ≡ false
      → AreAfter (opposite t.side) t.limit (facing t.side (match t qty b sink).0)
  unfolding match
  match_out h k =
      let r = match_side t (facing t.side b) start in
      let g : Shape t (facing t.side b) r =
        match_side-Shape t (facing t.side b) start side_view.facing_full in
      rw (facing-with_facing t.side r.0 (record b { index = r.1.index })) (
        head_out t.side t.limit r.0 (g.sorted (opposite t.side) side_view.facing_sorted)
          (ground (arith, g.ended)))

module _ (id owner : ℕ) (s : Side) (px : ℤ) (qty : ℕ) (b : Book) (sink : Sink) where
  pub rest-IsValid :
      IsValid b
      → 0 < qty
      → count id b.index ≡ 0
      → AreAfter (opposite s) px (facing s b)
      → IsValid (rest id owner s px qty b sink).0
  unfolding rest
  rest-IsValid v h f a = elim (Bool-cases (leb b.capacity (length b.index))) [
    | inl e ↦ rw e v
    | inr e ↦ rw e (
        to_own s b _ _ (
          Holds-rest s (levels s b) (facing s b) b.index b.capacity (from_side s b v) id qty owner
            px f h a (ground arith)))
  ]
