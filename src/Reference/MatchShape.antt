-- ===== src/Reference/MatchShape.antt =====
-- include/exsim/reference_book.hpp: the levels that a match leaves, and why it ends.
use exchange_sim.Base.{◌<◌, ◌≡◌, refl, ◌⊎◌, inl, inr, true, false, [], ◌∷◌, All, arith}
use exchange_sim.Base.Int.{ℤ}
use exchange_sim.Domain.{Side}
use exchange_sim.Reference.Sides.{Queue, Levels}
use exchange_sim.Reference.Match.{Taker, Taking, head_in_range, match_queue, match_side}
use exchange_sim.Reference.Rounds.{match_queue_ind, match_side_ind, front-Facts}
use exchange_sim.Reference.Counts.{AreAfter, IsSorted}
use exchange_sim.Reference.Fok.{ArePositive, HasQuantities}

-- The queue of a level: not empty, and every order has a quantity.
abbrev pub IsFull : Queue → Type 0
IsFull [] = ⊥
IsFull (o ∷ q) = (0 < o.qty) × ArePositive q

abbrev pub AreFull : Levels → Type 0
AreFull = All (λ l. IsFull l.queue)

pub IsFull-ArePositive : (q : Queue) → IsFull q → ArePositive q
IsFull-ArePositive [] f = tt
IsFull-ArePositive (o ∷ q) f = f

pub AreFull-HasQuantities : (ls : Levels) → AreFull ls → HasQuantities ls
AreFull-HasQuantities [] f = tt
AreFull-HasQuantities (l ∷ ls) f = (IsFull-ArePositive l.queue f.0, AreFull-HasQuantities ls f.1)

-- Why a loop ended.
abbrev QueueShape : Queue → Taking → Queue × Taking → Type 0
QueueShape q m r =
    ArePositive q → ArePositive r.0 × ((r.0 ≡ []) ⊎ ((r.1.qty ≡ 0) ⊎ (r.1.stop ≡ true)))

match_queue_shape :
    (t : Taker) (px : ℤ) (q : Queue) (m : Taking) → QueueShape q m (match_queue t px q m)
match_queue_shape t px =
    match_queue_ind t px QueueShape (λ m p. (tt, inl refl)) (λ o q m e p. (p, inr (inl e)))
      (λ o q m o' k w e p. let f = front-Facts t px o m p.0 w in ground (arith, f))
      (λ o q m k r w e ih p. ih p.1)
      (λ o q m k w e p. let f = front-Facts t px o m p.0 w in ground (arith, f))

pub record Shape (t : Taker) (ls : Levels) (r : Levels × Taking) : Type 0 where
  pub full : AreFull r.0
  pub after : (s : Side) (p : ℤ) → AreAfter s p ls → AreAfter s p r.0
  pub sorted : (s : Side) → IsSorted s ls → IsSorted s r.0
  pub ended : (r.1.qty ≡ 0) ⊎ ((r.1.stop ≡ true) ⊎ (head_in_range t.side t.limit r.0 ≡ false))

abbrev SideShape : Taker → Levels → Taking → Levels × Taking → Type 0
SideShape t ls m r = AreFull ls → Shape t ls r

pub match_side-Shape : (t : Taker) (ls : Levels) (m : Taking) → SideShape t ls m (match_side t ls m)
match_side-Shape t =
    match_side_ind t (SideShape t)
      (λ m f. record { full = tt; after = λ s p a. tt; sorted = λ s v. tt; ended = inr (inr refl) })
      (λ l ls m h f. record {
        full = f;
        after = λ s p a. a;
        sorted = λ s v. v;
        ended = ground arith;
      })
      (λ l ls m o q k w i e f.
        let g = match_queue_shape t l.price l.queue m (IsFull-ArePositive l.queue f.0) in
        record {
          full = ground (arith, g);
          after = λ s p a. a;
          sorted = λ s v. v;
          ended = ground (arith, g);
        })
      (λ l ls m k w i e x f. record {
        full = f.1;
        after = λ s p a. a.1;
        sorted = λ s v. v.1;
        ended = inr (inl x);
      })
      (λ l ls m k r w i e x ih f.
        let g = ih f.1 in
        record {
          full = g.full;
          after = λ s p a. g.after s p a.1;
          sorted = λ s v. g.sorted s v.1;
          ended = g.ended;
        })

-- A match of a side whose levels are sorted leaves them sorted, with no empty level and no order
-- without quantity, and ends because the taker has no quantity left, because self-trade prevention
-- stopped it, or because no level within its limit is left. The levels that it starts from are not
-- empty and their orders have quantities.
pub match_side_ended :
    (t : Taker) (ls : Levels) (m : Taking) (s : Side)
    → AreFull ls
    → IsSorted s ls
    → let r = match_side t ls m in
      AreFull r.0
      × IsSorted s r.0
      × ((r.1.qty ≡ 0) ⊎ ((r.1.stop ≡ true) ⊎ (head_in_range t.side t.limit r.0 ≡ false)))
match_side_ended t ls m s f o = let h = match_side-Shape t ls m f in (h.full, h.sorted s o, h.ended)
