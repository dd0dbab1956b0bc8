-- ===== src/Reference/Quantity.antt =====
-- include/exsim/reference_book.hpp: where the quantity of a match goes.
use exchange_sim.Base.{ℕ, ◌+◌, ◌≤◌, ◌≡◌, [], ◌∷◌, arith, subst}
use exchange_sim.Base.Int.{ℤ}
use exchange_sim.Domain.{Sink, Stp, EventType, trade_event}
use exchange_sim.Reference.Sides.{Order, Queue, Levels}
use exchange_sim.Reference.Match.{
  Taker, Taking, Round, stays, popped, last, match_front, match_queue, match_side,
}
use exchange_sim.Reference.Rounds.{match_queue_ind, match_side_ind}

-- The quantity of a side, without the wrap of a 64-bit sum.
unfoldable pub total_queue : Queue → ℕ
total_queue [] = 0
total_queue (o ∷ q) = o.qty + total_queue q

unfoldable pub total_side : Levels → ℕ
total_side [] = 0
total_side (l ∷ ls) = total_queue l.queue + total_side ls

-- The quantity that the trades of a sink report.
abbrev trade_qty : EventType → ℕ → ℕ
trade_qty EventType.trade q = q
trade_qty _ q = 0

unfoldable pub traded : Sink → ℕ
traded [] = 0
traded (e ∷ s) = trade_qty e.type e.qty + traded s

-- What the makers lose, the taker is filled, and the trades report.
abbrev pub Moves : ℕ → ℕ → Taking → Taking → Type 0
Moves before after m k =
    (k.qty ≤ m.qty)
    × (before + k.qty ≡ after + m.qty)
    × (traded k.sink + k.qty ≡ traded m.sink + m.qty)

abbrev FrontMoves : Order → Taking → Round → Type 0
FrontMoves o m (stays o' k) = Moves o.qty o'.qty m k
FrontMoves o m (popped k) = Moves o.qty 0 m k
FrontMoves o m (last k) = ⊥

front_moves :
    (t : Taker) (px : ℤ) (o : Order) (m : Taking)
    → t.stp ≡ Stp.none
    → FrontMoves o m (match_front t px o m)
unfolding match_front traded trade_event
front_moves t px o m off = ground arith

abbrev QueueMoves : Queue → Taking → Queue × Taking → Type 0
QueueMoves q m r = Moves (total_queue q) (total_queue r.0) m r.1

module _ (t : Taker) (off : t.stp ≡ Stp.none) where
  match_queue-Moves : (px : ℤ) (q : Queue) (m : Taking) → QueueMoves q m (match_queue t px q m)
  unfolding total_queue
  match_queue-Moves px =
      match_queue_ind t px QueueMoves (λ m. (omega arith, omega arith, omega arith))
        (λ o q m e. (omega arith, omega arith, omega arith))
        (λ o q m o' k w e. let f = front_moves t px o m off in ground (arith, f))
        (λ o q m k r w e ih. let f = front_moves t px o m off in ground (arith, f))
        (λ o q m k w e. let f = front_moves t px o m off in ground (arith, f))

  queue-Moves :
      (px : ℤ) (q : Queue) (m : Taking) (q' : Queue) (k : Taking)
      → match_queue t px q m ≡ (q', k)
      → Moves (total_queue q) (total_queue q') m k
  queue-Moves px q m q' k e =
      subst (λ (r : Queue × Taking). QueueMoves q m r) e (match_queue-Moves px q m)

abbrev SideMoves : Levels → Taking → Levels × Taking → Type 0
SideMoves ls m r = Moves (total_side ls) (total_side r.0) m r.1

-- With self-trade prevention off, what a match takes from the resting orders of the side is what
-- the taker loses, and the trades that it reports add up to it.
pub match_side-Moves :
    (t : Taker) (ls : Levels) (m : Taking)
    → t.stp ≡ Stp.none
    → let r = match_side t ls m in
      (r.1.qty ≤ m.qty)
      × (total_side ls + r.1.qty ≡ total_side r.0 + m.qty)
      × (traded r.1.sink + r.1.qty ≡ traded m.sink + m.qty)
unfolding total_side total_queue
match_side-Moves t ls m off =
    match_side_ind t SideMoves (λ m. (omega arith, omega arith, omega arith))
      (λ l ls m h. (omega arith, omega arith, omega arith))
      (λ l ls m o q k w i e.
        let f = queue-Moves t off l.price l.queue m (o ∷ q) k e in ground (arith, f))
      (λ l ls m k w i e x. let f = queue-Moves t off l.price l.queue m [] k e in ground (arith, f))
      (λ l ls m k r w i e x ih.
        let f = queue-Moves t off l.price l.queue m [] k e in ground (arith, f))
      ls m
