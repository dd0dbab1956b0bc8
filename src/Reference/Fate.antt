-- ===== src/Reference/Fate.antt =====
-- include/exsim/reference_book.hpp: what a match does with one order id, in the book and in the
-- index.
use exchange_sim.Base.{
  ℕ, ◌+◌, ◌≤◌, ◌<◌, ◌≡◌, refl, sym, subst, ◌⊎◌, inl, inr, [], ◌∷◌, arith, length,
}
use exchange_sim.Base.Int.{ℤ}
use exchange_sim.Base.Assoc.{hit, lookup, erase, count, count-erase, length-erase, lookup-erase_ne}
use exchange_sim.Reference.Sides.{Order, Queue, Level, Levels, Index}
use exchange_sim.Reference.Match.{Taker, Taking, match_queue, match_side}
use exchange_sim.Reference.Rounds.{match_queue_ind, match_side_ind, front-Facts}
use exchange_sim.Reference.Counts.{count_queue, count_at, count_side}
use exchange_sim.Reference.Fok.{ArePositive}
use exchange_sim.Reference.MatchShape.{IsFull, AreFull, IsFull-ArePositive}

-- Every id that is counted is in the index, and the index holds an id once.
abbrev pub Covers : (ℕ → ℕ) → Index → Type 0
Covers c x = (j : ℕ) → (c j ≤ count j x) × (count j x ≤ 1)

abbrev pub IndexFate : ℕ → ℕ → ℕ → Index → Index → Type 0
IndexFate j c c' x x' =
    ((c' ≡ c) × (count j x' ≡ count j x) × (lookup j x' ≡ lookup j x))
    ⊎ ((c' ≡ 0) × (c ≡ 1) × (count j x ≡ 1) × (count j x' ≡ 0))

-- Taking an order off the front of a queue keeps `Covers`.
Covers-erase :
    (o : Order) (q : Queue) (x : Index)
    → Covers (λ j. count_queue j (o ∷ q)) x
    → Covers (λ j. count_queue j q) (erase o.id x)
unfolding count_queue
Covers-erase o q x h j = ground (arith, h j, h o.id, count-erase o.id j x)

-- One order taken off the front, then the rest of the loop.
pop-IndexFate :
    (o : Order) (j n n' : ℕ) (x y z : Index)
    → hit j o.id + n ≤ count j x
    → count j x ≤ 1
    → 0 < count o.id x
    → y ≡ erase o.id x
    → IndexFate j n n' y z
    → IndexFate j (hit j o.id + n) n' x z
pop-IndexFate o j n n' x y z h u g e (inl f) =
    ground (arith, count-erase o.id j x, lookup-erase_ne o.id j x)
pop-IndexFate o j n n' x y z h u g e (inr f) = ground (arith, count-erase o.id j x)

-- What `match` does with every id, over the counts of a queue or of a side.
abbrev pub Fates : (ℕ → ℕ) → (ℕ → ℕ) → Index → Index → Type 0
Fates c c' x x' = ((j : ℕ) → IndexFate j (c j) (c' j) x x') × (length x' ≤ length x)

pop-Fates :
    (o : Order) (q : Queue) (c' : ℕ → ℕ) (x y z : Index)
    → Covers (λ j. count_queue j (o ∷ q)) x
    → y ≡ erase o.id x
    → (Covers (λ j. count_queue j q) y → Fates (λ j. count_queue j q) c' y z)
    → Fates (λ j. count_queue j (o ∷ q)) c' x z
unfolding count_queue
pop-Fates o q c' x y z c e rest =
    let g = rest (subst (Covers (λ j. count_queue j q)) (sym e) (Covers-erase o q x c)) in
    let held : 0 < count o.id x = ground (arith, c o.id) in
    (
      λ j. pop-IndexFate o j (count_queue j q) (c' j) x y z (c j).0 (c j).1 held e (g.0 j),
      ground (arith, length-erase o.id x held, g.1),
    )

abbrev QueueFate : Queue → Taking → Queue × Taking → Type 0
QueueFate q m r =
    ArePositive q
    → Covers (λ i. count_queue i q) m.index
    → Fates (λ i. count_queue i q) (λ i. count_queue i r.0) m.index r.1.index

match_queue-Fates :
    (t : Taker) (px : ℤ) (q : Queue) (m : Taking) → QueueFate q m (match_queue t px q m)
unfolding count_queue
match_queue-Fates t px =
    match_queue_ind t px QueueFate (λ m p c. (λ j. inl (refl, refl, refl), omega arith))
      (λ o q m e p c. (λ j. inl (refl, refl, refl), omega arith))
      (λ o q m o' k w e p c.
        let f = front-Facts t px o m p.0 w in (λ j. inl (ground (arith, f)), ground (arith, f)))
      (λ o q m k r w e ih p c.
        let f = front-Facts t px o m p.0 w in
        pop-Fates o q (λ i. count_queue i r.0) m.index k.index r.1.index c (ground (arith, f))
          (ih p.1))
      (λ o q m k w e p c.
        let f = front-Facts t px o m p.0 w in
        pop-Fates o q (λ i. count_queue i q) m.index k.index k.index c (ground (arith, f))
          (λ c'. (λ j. inl (refl, refl, refl), omega arith)))

-- The same for a whole side: an id that stays, stays at its price.
abbrev pub SideFate : Levels → Levels → Index → Index → ℕ → Type 0
SideFate ls ls' x x' j =
    ((count_side j ls' ≡ count_side j ls)
      × ((p : ℤ) → count_at p j ls' ≡ count_at p j ls)
      × (count j x' ≡ count j x)
      × (lookup j x' ≡ lookup j x))
    ⊎ ((count_side j ls' ≡ 0) × (count_side j ls ≡ 1) × (count j x ≡ 1) × (count j x' ≡ 0))

abbrev pub SideFates : Levels → Levels → Index → Index → Type 0
SideFates ls ls' x x' = ((j : ℕ) → SideFate ls ls' x x' j) × (length x' ≤ length x)

SideFate-refl : (ls : Levels) (x : Index) (j : ℕ) → SideFate ls ls x x j
SideFate-refl ls x j = inl (refl, λ p. refl, refl, refl)

-- The best level's queue changes and the level stays.
head-SideFate :
    (l : Level) (o : Order) (q : Queue) (ls : Levels) (x x' : Index) (j : ℕ)
    → count_side j (l ∷ ls) ≤ count j x
    → count j x ≤ 1
    → IndexFate j (count_queue j l.queue) (count_queue j (o ∷ q)) x x'
    → SideFate (l ∷ ls) (record l { queue = o ∷ q } ∷ ls) x x' j
unfolding count_side count_at
head-SideFate l o q ls x x' j h u (inl f) = inl (ground arith, λ p. ground arith, f.1, f.2)
head-SideFate l o q ls x x' j h u (inr f) = inr (ground arith, ground arith, f.2, f.3)

-- The best level's queue runs empty and the level goes.
tail-SideFate :
    (l : Level) (ls ls' : Levels) (x y z : Index) (j : ℕ)
    → count_side j (l ∷ ls) ≤ count j x
    → count j x ≤ 1
    → IndexFate j (count_queue j l.queue) 0 x y
    → SideFate ls ls' y z j
    → SideFate (l ∷ ls) ls' x z j
unfolding count_side count_at
tail-SideFate l ls ls' x y z j h u (inl f) (inl g) =
    inl (ground arith, λ p. ground (arith, g.1 p), ground arith, ground arith)
tail-SideFate l ls ls' x y z j h u (inl f) (inr g) =
    inr (ground arith, ground arith, ground arith, ground arith)
tail-SideFate l ls ls' x y z j h u (inr f) (inl g) =
    inr (ground arith, ground arith, ground arith, ground arith)
tail-SideFate l ls ls' x y z j h u (inr f) (inr g) = absurd (ground arith)

-- What is left of `Covers` for the levels behind.
tail-Covers :
    (l : Level) (ls : Levels) (x y : Index)
    → Covers (λ i. count_side i (l ∷ ls)) x
    → ((j : ℕ) → IndexFate j (count_queue j l.queue) 0 x y)
    → Covers (λ i. count_side i ls) y
unfolding count_side
tail-Covers l ls x y c f j = ground (arith, c j, f j)

abbrev pub MatchFate : Levels → Taking → Levels × Taking → Type 0
MatchFate ls m r =
    AreFull ls → Covers (λ i. count_side i ls) m.index → SideFates ls r.0 m.index r.1.index

level-Fates :
    (t : Taker) (l : Level) (ls : Levels) (m : Taking) (q : Queue) (k : Taking)
    → IsFull l.queue
    → Covers (λ i. count_side i (l ∷ ls)) m.index
    → match_queue t l.price l.queue m ≡ (q, k)
    → Fates (λ i. count_queue i l.queue) (λ i. count_queue i q) m.index k.index
unfolding count_side
level-Fates t l ls m q k f c e =
    subst
      (λ (r : Queue × Taking).
        Fates (λ i. count_queue i l.queue) (λ i. count_queue i r.0) m.index r.1.index)
      e
      (match_queue-Fates t l.price l.queue m (IsFull-ArePositive l.queue f)
        (λ j. ground (arith, c j)))

side_fates : (t : Taker) (ls : Levels) (m : Taking) → MatchFate ls m (match_side t ls m)
unfolding count_queue
side_fates t =
    match_side_ind t MatchFate (λ m f c. (SideFate-refl [] m.index, omega arith))
      (λ l ls m h f c. (SideFate-refl (l ∷ ls) m.index, omega arith))
      (λ l ls m o q k w i e f c.
        let g = level-Fates t l ls m (o ∷ q) k f.0 c e in
        (λ j. head-SideFate l o q ls m.index k.index j (c j).0 (c j).1 (g.0 j), g.1))
      (λ l ls m k w i e x f c.
        let g = level-Fates t l ls m [] k f.0 c e in
        (
          λ j.
              tail-SideFate l ls ls m.index k.index k.index j (c j).0 (c j).1 (g.0 j)
                (SideFate-refl ls k.index j),
          g.1,
        ))
      (λ l ls m k r w i e x ih f c.
        let g = level-Fates t l ls m [] k f.0 c e in
        let h = ih f.1 (tail-Covers l ls m.index k.index c g.0) in
        (
          λ j. tail-SideFate l ls r.0 m.index k.index r.1.index j (c j).0 (c j).1 (g.0 j) (h.0 j),
          ground (arith, g.1, h.1),
        ))

-- A match takes an id out of the index exactly when it takes the order out of the side: for every id
-- either the side and the index hold it as before, at the same price and place, or both held it once
-- and hold it no more; and the index does not grow. The levels are not empty, their orders have
-- quantities, and the index holds every id at most once and those of the side at least.
pub match_side-SideFates :
    (t : Taker) (ls : Levels) (m : Taking)
    → AreFull ls
    → Covers (λ i. count_side i ls) m.index
    → SideFates ls (match_side t ls m).0 m.index (match_side t ls m).1.index
match_side-SideFates t ls m f c = side_fates t ls m f c
