-- ===== src/Reference/Rounds.antt =====
-- include/exsim/reference_book.hpp: induction along the two loops of `match_side`, and what one
-- round does to the maker, the index and the flag.
use exchange_sim.Base.{
  ◌≤◌, ◌<◌, ◌≡◌, refl, sym, subst, ◌⊎◌, inl, inr, true, false, [], ◌∷◌, arith, Bool-cases, ltb,
  ◌==◌, ◌&&◌,
}
use exchange_sim.Base.Int.{ℤ}
use exchange_sim.Base.Assoc.{erase}
use exchange_sim.Domain.{Stp}
use exchange_sim.Reference.Sides.{Order, Queue, Level, Levels}
use exchange_sim.Reference.Match.{
  Taker, Taking, Round, stays, popped, last, in_range, is_own, meet_own, match_front, match_queue,
  match_side,
}

module _ {ℓ} (t : Taker) (px : ℤ) (P : Queue → Taking → Queue × Taking → Type ℓ)
    (nil : (m : Taking) → P [] m ([], m))
    (done : (o : Order) (q : Queue) (m : Taking) → m.qty ≡ 0 → P (o ∷ q) m (o ∷ q, m))
    (stay : (o : Order) (q : Queue) (m : Taking) (o' : Order) (k : Taking)
      → 0 < m.qty
      → match_front t px o m ≡ stays o' k
      → P (o ∷ q) m (o' ∷ q, k))
    (pop : (o : Order) (q : Queue) (m : Taking) (k : Taking) (r : Queue × Taking)
      → 0 < m.qty
      → match_front t px o m ≡ popped k
      → P q k r
      → P (o ∷ q) m r)
    (end : (o : Order) (q : Queue) (m : Taking) (k : Taking)
      → 0 < m.qty
      → match_front t px o m ≡ last k
      → P (o ∷ q) m (q, k)) where
  after_round :
      (o : Order) (q : Queue) (m : Taking) (r : Round)
      → (m.qty == 0) ≡ false
      → match_front t px o m ≡ r
      → ((k : Taking) → P q k (match_queue t px q k))
      → P (o ∷ q) m (match_queue t px (o ∷ q) m)
  unfolding match_queue
  after_round o q m (stays o' k) w e ih = rw (w, e, match_queue) (stay o q m o' k (ground arith) e)
  after_round o q m (popped k) w e ih =
      rw (w, e, match_queue) (pop o q m k (match_queue t px q k) (ground arith) e (ih k))
  after_round o q m (last k) w e ih = rw (w, e, match_queue) (end o q m k (ground arith) e)

  -- Induction along the inner loop.
  pub match_queue_ind : (q : Queue) (m : Taking) → P q m (match_queue t px q m)
  unfolding match_queue
  match_queue_ind [] m = nil m
  match_queue_ind (o ∷ q) m = elim (Bool-cases (m.qty == 0)) [
    | inl e ↦ rw (e, match_queue) (done o q m (ground arith))
    | inr w ↦ after_round o q m (match_front t px o m) w refl (match_queue_ind q)
  ]

-- The rounds of the outer loop, by how the inner loop ends.
module _ (t : Taker) (l : Level) (ls : Levels) (m : Taking) where
  module _ (o : Order) (q : Queue) (k : Taking) where
    side_part :
        (ltb 0 m.qty && in_range t.side t.limit l.price) ≡ true
        → match_queue t l.price l.queue m ≡ (o ∷ q, k)
        → match_side t (l ∷ ls) m ≡ (record l { queue = o ∷ q } ∷ ls, k)
    unfolding match_side
    side_part c e = ground arith

  module _ (k : Taking) where
    side_halt :
        (ltb 0 m.qty && in_range t.side t.limit l.price) ≡ true
        → match_queue t l.price l.queue m ≡ ([], k)
        → k.stop ≡ true
        → match_side t (l ∷ ls) m ≡ (ls, k)
    unfolding match_side
    side_halt c e s = ground arith

    side_next :
        (ltb 0 m.qty && in_range t.side t.limit l.price) ≡ true
        → match_queue t l.price l.queue m ≡ ([], k)
        → k.stop ≡ false
        → match_side t (l ∷ ls) m ≡ match_side t ls k
    unfolding match_side
    side_next c e s = ground arith

module _ {ℓ} (t : Taker) (P : Levels → Taking → Levels × Taking → Type ℓ)
    (nil : (m : Taking) → P [] m ([], m))
    (miss : (l : Level) (ls : Levels) (m : Taking)
      → (m.qty ≡ 0) ⊎ (in_range t.side t.limit l.price ≡ false)
      → P (l ∷ ls) m (l ∷ ls, m))
    (part : (l : Level) (ls : Levels) (m : Taking) (o : Order) (q : Queue) (k : Taking)
      → 0 < m.qty
      → in_range t.side t.limit l.price ≡ true
      → match_queue t l.price l.queue m ≡ (o ∷ q, k)
      → P (l ∷ ls) m (record l { queue = o ∷ q } ∷ ls, k))
    (halt : (l : Level) (ls : Levels) (m : Taking) (k : Taking)
      → 0 < m.qty
      → in_range t.side t.limit l.price ≡ true
      → match_queue t l.price l.queue m ≡ ([], k)
      → k.stop ≡ true
      → P (l ∷ ls) m (ls, k))
    (next : (l : Level) (ls : Levels) (m : Taking) (k : Taking) (r : Levels × Taking)
      → 0 < m.qty
      → in_range t.side t.limit l.price ≡ true
      → match_queue t l.price l.queue m ≡ ([], k)
      → k.stop ≡ false
      → P ls k r
      → P (l ∷ ls) m r) where
  after_queue :
      (l : Level) (ls : Levels) (m : Taking) (q : Queue) (k : Taking)
      → (ltb 0 m.qty && in_range t.side t.limit l.price) ≡ true
      → match_queue t l.price l.queue m ≡ (q, k)
      → ((k : Taking) → P ls k (match_side t ls k))
      → P (l ∷ ls) m (match_side t (l ∷ ls) m)
  unfolding match_side
  after_queue l ls m (o ∷ q) k c e ih =
      subst (P (l ∷ ls) m) (sym (side_part t l ls m o q k c e))
        (part l ls m o q k (ground arith) (ground arith) e)
  after_queue l ls m [] k c e ih = elim (Bool-cases k.stop) [
    | inl s ↦
        subst (P (l ∷ ls) m) (sym (side_halt t l ls m k c e s))
          (halt l ls m k (ground arith) (ground arith) e s)
    | inr s ↦
        subst (P (l ∷ ls) m) (sym (side_next t l ls m k c e s))
          (next l ls m k (match_side t ls k) (ground arith) (ground arith) e s (ih k))
  ]

  -- Induction along the outer loop.
  pub match_side_ind : (ls : Levels) (m : Taking) → P ls m (match_side t ls m)
  unfolding match_side
  match_side_ind [] m = nil m
  match_side_ind (l ∷ ls) m = elim (Bool-cases (ltb 0 m.qty && in_range t.side t.limit l.price)) [
    | inl e ↦ after_queue l ls m _ _ e refl (match_side_ind ls)
    | inr e ↦ rw (e, match_side) (miss l ls m (ground arith))
  ]

-- What one round leaves of the front order, the index and the flag.
abbrev pub Facts : Order → Taking → Round → Type 0
Facts o m (stays o' k) =
    (o'.id ≡ o.id)
    × (o'.owner ≡ o.owner)
    × (0 < o'.qty)
    × (o'.qty ≤ o.qty)
    × (k.index ≡ m.index)
    × ((k.qty ≡ 0) ⊎ (k.stop ≡ true))
Facts o m (popped k) = (k.index ≡ erase o.id m.index) × (k.stop ≡ m.stop)
Facts o m (last k) = (k.index ≡ erase o.id m.index) × (k.stop ≡ true)

module _ (t : Taker) (px : ℤ) (o : Order) (m : Taking) (rests : 0 < o.qty) (wants : 0 < m.qty) where
  own-Facts : (s : Stp) → Facts o m (meet_own s t px o m)
  unfolding meet_own
  own-Facts Stp.none = ground arith
  own-Facts Stp.cancel_resting = ground arith
  own-Facts Stp.cancel_incoming = ground arith
  own-Facts Stp.decrement_cancel = ground arith

  pub front-Facts : Facts o m (match_front t px o m)
  unfolding match_front
  front-Facts = elim (Bool-cases (is_own t o)) [
    | inl own ↦ rw (own, match_front) (own-Facts t.stp)
    | inr other ↦ rw (other, match_front) (ground arith)
  ]
