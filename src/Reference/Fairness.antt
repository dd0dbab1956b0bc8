-- ===== src/Reference/Fairness.antt =====
-- include/exsim/reference_book.hpp: what the trades of a match report.
use exchange_sim.Base.{
  ℕ, ◌+◌, ◌-◌, ltb, ◌≤◌, ◌<◌, ◌≡◌, refl, ◌≢◌, ◌⊎◌, inl, inr, Bool, true, false, [], ◌∷◌, All, arith,
  Bool-cases, ◌==◌, if◌then◌else◌, min, subst,
}
use exchange_sim.Base.Int.{ℤ}
use exchange_sim.Base.Assoc.{hit}
use exchange_sim.Domain.{Stp, Event, EventType, trade_event, canceled_event, stp_decrement_event}
use exchange_sim.Reference.Sides.{Order, Queue, Levels, Index}
use exchange_sim.Reference.Match.{
  Taker, Taking, Round, stays, popped, last, in_range, is_own, meet_own, match_front,
  decrement_taker, match_queue, match_side,
}
use exchange_sim.Reference.Rounds.{match_queue_ind, match_side_ind}

-- A report of a match with this taker, on a side that holds these orders: a trade names the taker,
-- lies within its limit, and its maker rests on the side with another owner, unless self-trade
-- prevention is off.
unfoldable pub count_makers : Taker → ℕ → Queue → ℕ
count_makers t id [] = 0
count_makers t id (o ∷ q) = (if is_own t o then 0 else hit id o.id) + count_makers t id q

unfoldable pub count_side_makers : Taker → ℕ → Levels → ℕ
count_side_makers t id [] = 0
count_side_makers t id (l ∷ ls) = count_makers t id l.queue + count_side_makers t id ls

abbrev pub IsFair : Taker → (ℕ → ℕ) → Event → Type 0
IsFair t makers e =
    (e.type ≢ EventType.trade)
    ⊎ ((e.order_id ≡ t.id) × (in_range t.side t.limit e.price ≡ true) × (0 < makers e.maker_id))

-- Nothing but the reports of this round is new.
abbrev RoundSink : Taker → (ℕ → ℕ) → Taking → Round → Type 0
RoundSink t c m (stays o k) = All (IsFair t c) m.sink → All (IsFair t c) k.sink
RoundSink t c m (popped k) = All (IsFair t c) m.sink → All (IsFair t c) k.sink
RoundSink t c m (last k) = All (IsFair t c) m.sink → All (IsFair t c) k.sink

module _ (t : Taker) (px : ℤ) (c : ℕ → ℕ) (o : Order) (m : Taking)
    (near : in_range t.side t.limit px ≡ true) where
  own_sink : (s : Stp) → RoundSink t c m (meet_own s t px o m)
  unfolding meet_own canceled_event stp_decrement_event
  own_sink Stp.none = λ a. (inl (λ e. cc), a)
  own_sink Stp.cancel_resting = λ a. (inl (λ e. cc), a)
  own_sink Stp.cancel_incoming = λ a. a
  own_sink Stp.decrement_cancel = elim (Bool-cases (ltb m.qty o.qty)) [
    | inl e ↦ rw e (λ a. (inl (λ x. cc), a))
    | inr e ↦ elim (Bool-cases (o.qty == m.qty)) [
      | inl g ↦ rw (e, g, decrement_taker) (λ a. (inl (λ x. cc), a))
      | inr g ↦ rw (e, g, decrement_taker) (λ a. (inl (λ x. cc), (inl (λ y. cc), a)))
    ]
  ]

  front_sink : (is_own t o ≡ false → 0 < c o.id) → RoundSink t c m (match_front t px o m)
  unfolding match_front trade_event
  front_sink h = elim (Bool-cases (is_own t o)) [
    | inl own ↦ rw (own, match_front) (own_sink t.stp)
    | inr other ↦ elim (Bool-cases (o.qty - min o.qty m.qty == 0)) [
      | inl z ↦ rw (other, z, match_front) (λ a. (inr (refl, near, h other), a))
      | inr z ↦ rw (other, z, match_front) (λ a. (inr (refl, near, h other), a))
    ]
  ]

round_sink :
    (t : Taker) (c : ℕ → ℕ) (m : Taking) (a b : Round)
    → a ≡ b
    → RoundSink t c m a
    → RoundSink t c m b
round_sink t c m a b e = subst (RoundSink t c m) e

abbrev QueueSink : Taker → (ℕ → ℕ) → Queue → Taking → Queue × Taking → Type 0
QueueSink t c q m r =
    ((j : ℕ) → count_makers t j q ≤ c j) → All (IsFair t c) m.sink → All (IsFair t c) r.1.sink

match_queue-IsFair :
    (t : Taker) (px : ℤ) (c : ℕ → ℕ)
    → in_range t.side t.limit px ≡ true
    → (q : Queue) (m : Taking) → QueueSink t c q m (match_queue t px q m)
unfolding count_makers
match_queue-IsFair t px c near =
    match_queue_ind t px (QueueSink t c) (λ m h a. a) (λ o q m e h a. a)
      (λ o q m o' k w e h a.
        round_sink t c m _ _ e (front_sink t px c o m near (λ n. ground (arith, h o.id))) a)
      (λ o q m k r w e ih h a.
        ih (λ j. ground (arith, h j))
          (round_sink t c m _ _ e (front_sink t px c o m near (λ n. ground (arith, h o.id))) a))
      (λ o q m k w e h a.
        round_sink t c m _ _ e (front_sink t px c o m near (λ n. ground (arith, h o.id))) a)

queue_fair :
    (t : Taker) (px : ℤ) (c : ℕ → ℕ) (q : Queue) (m : Taking) (q' : Queue) (k : Taking)
    → in_range t.side t.limit px ≡ true
    → match_queue t px q m ≡ (q', k)
    → QueueSink t c q m (q', k)
queue_fair t px c q m q' k near e = subst (QueueSink t c q m) e (match_queue-IsFair t px c near q m)

abbrev SideSink : Taker → (ℕ → ℕ) → Levels → Taking → Levels × Taking → Type 0
SideSink t c ls m r =
    ((j : ℕ) → count_side_makers t j ls ≤ c j) → All (IsFair t c) m.sink → All (IsFair t c) r.1.sink

side_fair :
    (t : Taker) (c : ℕ → ℕ) (ls : Levels) (m : Taking) → SideSink t c ls m (match_side t ls m)
unfolding count_side_makers
side_fair t c =
    match_side_ind t (SideSink t c) (λ m h a. a) (λ l ls m g h a. a)
      (λ l ls m o q k w i e h a.
        queue_fair t l.price c l.queue m (o ∷ q) k i e (λ j. ground (arith, h j)) a)
      (λ l ls m k w i e x h a.
        queue_fair t l.price c l.queue m [] k i e (λ j. ground (arith, h j)) a)
      (λ l ls m k r w i e x ih h a.
        ih (λ j. ground (arith, h j))
          (queue_fair t l.price c l.queue m [] k i e (λ j. ground (arith, h j)) a))

-- Every trade that a match reports names the taker and lies within its limit, and its maker is an
-- order that rests on the side and that is not the taker's own, unless self-trade prevention is
-- off.
pub match_side-IsFair :
    (t : Taker) (ls : Levels) (qty : ℕ) (stop : Bool) (index : Index)
    → All
        (IsFair t (λ j. count_side_makers t j ls))
        (match_side t ls (record { qty = qty; stop = stop; index = index; sink = [] })).1.sink
match_side-IsFair t ls qty stop index =
    side_fair t (λ j. count_side_makers t j ls) ls
      (record { qty = qty; stop = stop; index = index; sink = [] }) (λ j. omega arith) tt
