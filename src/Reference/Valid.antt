-- ===== src/Reference/Valid.antt =====
-- include/exsim/reference_book.hpp: the invariant of a book, and the changes of its levels, each
-- stated for either side: `own` are the levels of one side and `facing` those of the other.
use exchange_sim.Base.{
  ℕ, ◌+◌, ◌≤◌, ◌<◌, ◌≡◌, refl, ◌∙◌, sym, false, some, ◌∷◌, arith, length, Bool-cases, inl, inr,
  ◌==◌,
}
use exchange_sim.Base.Int.{ℤ}
use exchange_sim.Base.Assoc.{
  lookup, erase, count, count-erase, length-erase, lookup-erase_ne, count_none,
}
use exchange_sim.Domain.{Side, Sink, opposite}
use exchange_sim.Reference.Sides.{Order, Levels, Loc, Index, push_back, remove_order, set_qty_at}
use exchange_sim.Reference.Match.{Taker, Taking, match_side}
use exchange_sim.Reference.MatchShape.{AreFull, Shape, match_side-Shape}
use exchange_sim.Reference.Counts.{
  AreAfter, IsSorted, count_at, count_side, count_at-le-side, count_side-push_back,
  count_at-push_back, count_side-remove_order, count_at-remove_order, count_side-set_qty_at,
  count_at-set_qty_at,
}
use exchange_sim.Reference.Fate.{SideFates, SideFate, Covers, match_side-SideFates}
use exchange_sim.Reference.Sorted.{
  AreApart, AreApart-symm, AreApart-facing, AreApart-own, AreApart-push_back, AreAfter-remove_order,
  AreAfter-set_qty_at, push_back-IsSorted, push_back-AreFull, remove_order-IsSorted,
  remove_order-AreFull, set_qty_at-IsSorted, set_qty_at-AreFull,
}

-- The levels of a side, where `own` are those of the side `s`.
abbrev pub pick : Side → Levels → Levels → Side → Levels
pick Side.buy own facing Side.buy = own
pick Side.buy own facing Side.sell = facing
pick Side.sell own facing Side.buy = facing
pick Side.sell own facing Side.sell = own

pick_self : (s : Side) (own facing : Levels) → pick s own facing s ≡ own
pick_self Side.buy own facing = refl
pick_self Side.sell own facing = refl

-- What holds of an own side and of the facing side holds of each side.
pick_mono :
    (s s' : Side) (own own' facing : Levels) (p : ℤ) (j : ℕ)
    → count_at p j own ≤ count_at p j own'
    → count_at p j (pick s own facing s') ≤ count_at p j (pick s own' facing s')
pick_mono Side.buy Side.buy own own' facing p j h = h
pick_mono Side.buy Side.sell own own' facing p j h = omega arith
pick_mono Side.sell Side.buy own own' facing p j h = omega arith
pick_mono Side.sell Side.sell own own' facing p j h = h

-- Both sides are sorted, hold no empty level and no order without quantity, and do not cross; the
-- index holds every id once, each with the place of its order; the capacity is kept.
pub record Holds (s : Side) (own facing : Levels) (index : Index) (capacity : ℕ) : Type 0 where
  pub own_sorted : IsSorted s own
  pub facing_sorted : IsSorted (opposite s) facing
  pub own_full : AreFull own
  pub facing_full : AreFull facing
  pub apart : AreApart s own facing
  pub counted :
      (j : ℕ) → (count j index ≡ count_side j own + count_side j facing) × (count j index ≤ 1)
  pub located :
      (j : ℕ) (loc : Loc)
      → lookup j index ≡ some loc
      → (loc.it ≡ j) × (0 < count_at loc.price j (pick s own facing loc.side))
  pub room : length index ≤ capacity

pub Holds-symm :
    (s : Side) (own facing : Levels) (x : Index) (cap : ℕ)
    → Holds s own facing x cap
    → Holds (opposite s) facing own x cap
Holds-symm Side.buy own facing x cap v = record {
  own_sorted = v.facing_sorted;
  facing_sorted = v.own_sorted;
  own_full = v.facing_full;
  facing_full = v.own_full;
  apart = AreApart-symm Side.buy own facing v.apart;
  counted = λ j. ground (arith, v.counted j);
  located = λ j loc e. let h = v.located j loc e in ground (arith, h);
  room = v.room;
}
Holds-symm Side.sell own facing x cap v = record {
  own_sorted = v.facing_sorted;
  facing_sorted = v.own_sorted;
  own_full = v.facing_full;
  facing_full = v.own_full;
  apart = AreApart-symm Side.sell own facing v.apart;
  counted = λ j. ground (arith, v.counted j);
  located = λ j loc e. let h = v.located j loc e in ground (arith, h);
  room = v.room;
}

module _ (s : Side) (own facing : Levels) (x : Index) (cap : ℕ) (v : Holds s own facing x cap) where
  pub facing-Covers : Covers (λ j. count_side j facing) x
  facing-Covers j = ground (arith, v.counted j)

  module _ (facing' : Levels) (x' : Index) (f : SideFates facing facing' x x') where
    fate_counted :
        (j : ℕ) → (count j x' ≡ count_side j own + count_side j facing') × (count j x' ≤ 1)
    fate_counted j = ground (arith, v.counted j, f.0 j)

    fate_located :
        (j : ℕ) (loc : Loc)
        → lookup j x' ≡ some loc
        → SideFate facing facing' x x' j
        → (loc.it ≡ j) × (0 < count_at loc.price j (pick s own facing' loc.side))
    fate_located j loc e (inl g) =
        let h = v.located j loc (sym g.3 ∙ e) in ground (arith, h, g.1 loc.price)
    fate_located j loc e (inr g) = ground (arith, count_none j x' g.3)

  -- Matching against the facing side.
  pub Holds-match :
      (t : Taker) (qty : ℕ) (sink : Sink)
      → let r = match_side t facing (record { qty = qty; stop = false; index = x; sink = sink }) in
        Holds s own r.0 r.1.index cap
  Holds-match t qty sink =
      let m : Taking = record { qty = qty; stop = false; index = x; sink = sink } in
      let g : Shape t facing (match_side t facing m) = match_side-Shape t facing m v.facing_full in
      let f : SideFates facing (match_side t facing m).0 x (match_side t facing m).1.index =
        match_side-SideFates t facing m v.facing_full facing-Covers in
      record {
        own_sorted = v.own_sorted;
        facing_sorted = g.sorted (opposite s) v.facing_sorted;
        own_full = v.own_full;
        facing_full = g.full;
        apart = AreApart-facing s own facing _ (g.after (opposite s)) v.apart;
        counted = fate_counted (match_side t facing m).0 (match_side t facing m).1.index f;
        located = λ j loc e.
            fate_located (match_side t facing m).0 (match_side t facing m).1.index f j loc e
              (f.0 j);
        room = ground (arith, f.1, v.room);
      }

-- Resting an order of a new id behind the others of its price.
module _ (s : Side) (own facing : Levels) (x : Index) (cap : ℕ) (v : Holds s own facing x cap)
    (id px_qty owner : ℕ) (px : ℤ) (fresh : count id x ≡ 0) where
  abbrev rested : Order
  rested = record { id = id; qty = px_qty; owner = owner }

  abbrev rested_index : Index
  rested_index = (id, record { side = s; price = px; it = id }) ∷ x

  rest_located :
      (j : ℕ) (loc : Loc)
      → lookup j rested_index ≡ some loc
      → (loc.it ≡ j)
        × (0 < count_at loc.price j (pick s (push_back s px rested own) facing loc.side))
  unfolding lookup
  rest_located j loc e = elim (Bool-cases (id == j)) [
    | inl same ↦ ground (
      arith,
      pick_self s (push_back s px rested own) facing,
      count_at-push_back s px rested px j own,
    )
    | inr other ↦
        let e' : lookup j x ≡ some loc = ground arith in
        ground (
          arith,
          v.located j loc e',
          pick_mono s loc.side own (push_back s px rested own) facing loc.price j,
          count_at-push_back s px rested loc.price j own,
        )
  ]

  pub Holds-rest :
      0 < px_qty
      → AreAfter (opposite s) px facing
      → length x < cap
      → Holds s (push_back s px rested own) facing rested_index cap
  unfolding count
  Holds-rest h a r = record {
    own_sorted = push_back-IsSorted s px rested own v.own_sorted;
    facing_sorted = v.facing_sorted;
    own_full = push_back-AreFull s px rested own h v.own_full;
    facing_full = v.facing_full;
    apart = AreApart-push_back s px rested own facing a v.apart;
    counted =
        λ j. ground (arith, v.counted j, v.counted id, count_side-push_back s px rested j own);
    located = rest_located;
    room = omega arith;
  }

-- Taking an order out, and shrinking one in place.
module _ (s : Side) (own facing : Levels) (x : Index) (cap : ℕ) (v : Holds s own facing x cap)
    (id : ℕ) (p : ℤ) where
  module _ (stands : 0 < count_at p id own) where
    stands_side : 0 < count_side id own
    stands_side = omega (arith, count_at-le-side p id own)

    held : 0 < count id x
    held = ground (arith, v.counted id, stands_side)

    remove_located :
        (j : ℕ) (loc : Loc)
        → lookup j (erase id x) ≡ some loc
        → (loc.it ≡ j) × (0 < count_at loc.price j (pick s (remove_order p id own) facing loc.side))
    remove_located j loc e = elim (Bool-cases (id == j)) [
      | inl same ↦ ground (arith, count-erase id j x held, v.counted j, count_none j (erase id x))
      | inr other ↦ ground (
        arith,
        lookup-erase_ne id j x,
        v.located j loc,
        pick_mono s loc.side own (remove_order p id own) facing loc.price j,
        count_at-remove_order s p id loc.price j own v.own_sorted stands,
      )
    ]

    pub Holds-remove : Holds s (remove_order p id own) facing (erase id x) cap
    Holds-remove = record {
      own_sorted = remove_order-IsSorted p id s own v.own_sorted;
      facing_sorted = v.facing_sorted;
      own_full = remove_order-AreFull p id own v.own_full;
      facing_full = v.facing_full;
      apart =
          AreApart-own s own (remove_order p id own) facing
            (λ s' y a. AreAfter-remove_order p id s' y own a) v.apart;
      counted = λ j. ground (
        arith,
        v.counted j,
        count-erase id j x held,
        count_side-remove_order s p id j own v.own_sorted stands,
      );
      located = remove_located;
      room = ground (arith, length-erase id x held, v.room);
    }

  pub Holds-set_qty : (y : ℕ) → 0 < y → Holds s (set_qty_at p id y own) facing x cap
  Holds-set_qty y h = record {
    own_sorted = set_qty_at-IsSorted p id y s own v.own_sorted;
    facing_sorted = v.facing_sorted;
    own_full = set_qty_at-AreFull p id y own h v.own_full;
    facing_full = v.facing_full;
    apart =
        AreApart-own s own (set_qty_at p id y own) facing
          (λ s' z a. AreAfter-set_qty_at p id y s' z own a) v.apart;
    counted = λ j. ground (arith, v.counted j, count_side-set_qty_at p id y j own);
    located = λ j loc e. ground (
      arith,
      v.located j loc e,
      pick_mono s loc.side own (set_qty_at p id y own) facing loc.price j,
      count_at-set_qty_at p id y loc.price j own,
    );
    room = v.room;
  }
