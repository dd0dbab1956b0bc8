-- ===== src/Reference/Priority.antt =====
-- include/exsim/reference_book.hpp: price-time priority.
use exchange_sim.Base.{◌≤◌, ◌≡◌, [], ◌∷◌, ◌++◌, arith, subst}
use exchange_sim.Base.Int.{ℤ}
use exchange_sim.Reference.Sides.{Order, Queue, Levels}
use exchange_sim.Reference.Match.{Taker, Taking, match_queue, match_side}
use exchange_sim.Reference.Rounds.{match_queue_ind, match_side_ind, front-Facts}
use exchange_sim.Reference.Fok.{ArePositive}
use exchange_sim.Reference.MatchShape.{AreFull, IsFull-ArePositive}

-- The resting orders of a side in priority order: best price first, then first come.
unfoldable pub orders : Levels → Queue
orders [] = []
orders (l ∷ ls) = l.queue ++ orders ls

-- `Eaten xs ys`: `ys` is what is left of `xs` when some orders went from its front, and the first
-- that is left may have lost quantity.
pub data Eaten : Queue → Queue → Type 0 where
  whole : {q : Queue} → Eaten q q
  cut :
      {o o' : Order} {q : Queue}
      → o'.id ≡ o.id
      → o'.owner ≡ o.owner
      → o'.qty ≤ o.qty
      → Eaten (o ∷ q) (o' ∷ q)
  gone : {o : Order} {q r : Queue} → Eaten q r → Eaten (o ∷ q) r

Eaten-append : {q r : Queue} (z : Queue) → Eaten q r → Eaten (q ++ z) (r ++ z)
Eaten-append z whole = whole
Eaten-append z (cut a b c) = cut a b c
Eaten-append z (gone e) = gone (Eaten-append z e)

Eaten-drop : (q : Queue) {z r : Queue} → Eaten z r → Eaten (q ++ z) r
Eaten-drop [] e = e
Eaten-drop (o ∷ q) e = gone (Eaten-drop q e)

abbrev QueueEaten : Queue → Taking → Queue × Taking → Type 0
QueueEaten q m r = ArePositive q → Eaten q r.0

match_queue-Eaten :
    (t : Taker) (px : ℤ) (q : Queue) (m : Taking) → QueueEaten q m (match_queue t px q m)
match_queue-Eaten t px =
    match_queue_ind t px QueueEaten (λ m p. whole) (λ o q m e p. whole)
      (λ o q m o' k w e p.
        let f = front-Facts t px o m p.0 w in
        cut (ground (arith, f)) (ground (arith, f)) (ground (arith, f)))
      (λ o q m k r w e ih p. gone (ih p.1)) (λ o q m k w e p. gone whole)

queue-Eaten :
    (t : Taker) (px : ℤ) (q : Queue) (m : Taking) (q' : Queue) (k : Taking)
    → ArePositive q
    → match_queue t px q m ≡ (q', k)
    → Eaten q q'
queue-Eaten t px q m q' k p e =
    subst (λ (r : Queue × Taking). Eaten q r.0) e (match_queue-Eaten t px q m p)

abbrev SideEaten : Levels → Taking → Levels × Taking → Type 0
SideEaten ls m r = AreFull ls → Eaten (orders ls) (orders r.0)

side_eaten : (t : Taker) (ls : Levels) (m : Taking) → SideEaten ls m (match_side t ls m)
unfolding orders
side_eaten t =
    match_side_ind t SideEaten (λ m f. whole) (λ l ls m h f. whole)
      (λ l ls m o q k w i e f.
        Eaten-append (orders ls)
          (queue-Eaten t l.price l.queue m (o ∷ q) k (IsFull-ArePositive l.queue f.0) e))
      (λ l ls m k w i e x f. Eaten-drop l.queue whole)
      (λ l ls m k r w i e x ih f. Eaten-drop l.queue (ih f.1))

-- A match eats the resting orders of a side from the front of their priority order only: the
-- orders that it takes away are the best ones, at most the first that remains has lost quantity,
-- and every other order keeps its quantity and its place. The side holds no order without quantity.
pub match_side-Eaten :
    (t : Taker) (ls : Levels) (m : Taking)
    → AreFull ls
    → Eaten (orders ls) (orders (match_side t ls m).0)
match_side-Eaten t ls m f = side_eaten t ls m f
