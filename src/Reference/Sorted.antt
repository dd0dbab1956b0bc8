-- ===== src/Reference/Sorted.antt =====
-- include/exsim/reference_book.hpp: the order of a side's levels, and the changes of them.
use exchange_sim.Base.{ℕ, ◌<◌, ◌≡◌, true, false, [], ◌∷◌, ◌++◌, All, arith, Bool-cases, inl, inr}
use exchange_sim.Base.Int.{ℤ, ltb_ℤ}
use exchange_sim.Domain.{Side, opposite}
use exchange_sim.Reference.Sides.{
  Order, Queue, Level, Levels, before, same_price, push_back, erase_from, keep_level, remove_order,
  set_qty_in, set_qty_at,
}
use exchange_sim.Reference.Match.{head_in_range}
use exchange_sim.Reference.Counts.{AreAfter, IsSorted}
use exchange_sim.Reference.Fok.{ArePositive}
use exchange_sim.Reference.MatchShape.{IsFull, AreFull, IsFull-ArePositive}

before_trans :
    (s : Side) (p q r : ℤ) → before s p q ≡ true → before s q r ≡ true → before s p r ≡ true
before_trans Side.buy p q r h k = ground arith
before_trans Side.sell p q r h k = ground arith

AreAfter-trans :
    (s : Side) (p q : ℤ) (ls : Levels) → before s p q ≡ true → AreAfter s q ls → AreAfter s p ls
AreAfter-trans s p q [] h a = tt
AreAfter-trans s p q (l ∷ ls) h a =
    (before_trans s p q l.price h a.0, AreAfter-trans s p q ls h a.1)

-- Neither price comes first only if they are the same.
before_same :
    (s s' : Side) (p q r : ℤ)
    → before s q r ≡ false
    → before s r q ≡ false
    → before s' p q ≡ true
    → before s' p r ≡ true
before_same Side.buy Side.buy p q r h k a = ground arith
before_same Side.buy Side.sell p q r h k a = ground arith
before_same Side.sell Side.buy p q r h k a = ground arith
before_same Side.sell Side.sell p q r h k a = ground arith

module _ (s : Side) (px : ℤ) (o : Order) where
  pub AreAfter-push_back :
      (s' : Side) (p : ℤ) (ls : Levels)
      → before s' p px ≡ true
      → AreAfter s' p ls
      → AreAfter s' p (push_back s px o ls)
  unfolding push_back
  AreAfter-push_back s' p [] h a = (h, tt)
  AreAfter-push_back s' p (l ∷ ls) h a = elim (Bool-cases (before s px l.price)) [
    | inl e ↦ rw e (h, a)
    | inr e ↦ elim (Bool-cases (before s l.price px)) [
      | inl f ↦ rw (e, f) (a.0, AreAfter-push_back s' p ls h a.1)
      | inr f ↦ rw (e, f) a
    ]
  ]

  pub push_back-IsSorted : (ls : Levels) → IsSorted s ls → IsSorted s (push_back s px o ls)
  unfolding push_back
  push_back-IsSorted [] v = (tt, tt)
  push_back-IsSorted (l ∷ ls) v = elim (Bool-cases (before s px l.price)) [
    | inl e ↦ rw e ((e, AreAfter-trans s px l.price ls e v.0), v)
    | inr e ↦ elim (Bool-cases (before s l.price px)) [
      | inl f ↦ rw (e, f) (AreAfter-push_back s l.price ls f v.0, push_back-IsSorted ls v.1)
      | inr f ↦ rw (e, f) v
    ]
  ]

  append-IsFull : (q : Queue) → 0 < o.qty → IsFull q → IsFull (q ++ (o ∷ []))
  append-IsFull [] h f = absurd f
  append-IsFull (x ∷ q) h f = (f.0, go q f.1)
    where
      go : (r : Queue) → ArePositive r → ArePositive (r ++ (o ∷ []))
      go [] a = (h, tt)
      go (y ∷ r) a = (a.0, go r a.1)

  pub push_back-AreFull : (ls : Levels) → 0 < o.qty → AreFull ls → AreFull (push_back s px o ls)
  unfolding push_back
  push_back-AreFull [] h f = ((h, tt), tt)
  push_back-AreFull (l ∷ ls) h f =
      ground (arith, push_back-AreFull ls h f.1, append-IsFull l.queue h f.0)

module _ (p : ℤ) (id : ℕ) where
  erase_from-ArePositive : (q : Queue) → ArePositive q → ArePositive (erase_from id q)
  unfolding erase_from
  erase_from-ArePositive [] a = tt
  erase_from-ArePositive (o ∷ q) a = ground (arith, erase_from-ArePositive q a.1)

  keep_level-AreFull :
      (l : Level) (q : Queue) (ls : Levels)
      → ArePositive q
      → AreFull ls
      → AreFull (keep_level l q ls)
  unfolding keep_level
  keep_level-AreFull l [] ls a f = f
  keep_level-AreFull l (o ∷ q) ls a f = (a, f)

  AreAfter-keep_level :
      (s : Side) (x : ℤ) (l : Level) (q : Queue) (ls : Levels)
      → AreAfter s x (l ∷ ls)
      → AreAfter s x (keep_level l q ls)
  unfolding keep_level
  AreAfter-keep_level s x l [] ls a = a.1
  AreAfter-keep_level s x l (o ∷ q) ls a = a

  keep_level-IsSorted :
      (s : Side) (l : Level) (q : Queue) (ls : Levels)
      → IsSorted s (l ∷ ls)
      → IsSorted s (keep_level l q ls)
  unfolding keep_level
  keep_level-IsSorted s l [] ls v = v.1
  keep_level-IsSorted s l (o ∷ q) ls v = v

  pub AreAfter-remove_order :
      (s : Side) (x : ℤ) (ls : Levels) → AreAfter s x ls → AreAfter s x (remove_order p id ls)
  unfolding remove_order
  AreAfter-remove_order s x [] a = tt
  AreAfter-remove_order s x (l ∷ ls) a = elim (Bool-cases (same_price l.price p)) [
    | inl e ↦ rw e (AreAfter-keep_level s x l (erase_from id l.queue) ls a)
    | inr e ↦ rw e (a.0, AreAfter-remove_order s x ls a.1)
  ]

  pub remove_order-IsSorted :
      (s : Side) (ls : Levels) → IsSorted s ls → IsSorted s (remove_order p id ls)
  unfolding remove_order
  remove_order-IsSorted s [] v = tt
  remove_order-IsSorted s (l ∷ ls) v = elim (Bool-cases (same_price l.price p)) [
    | inl e ↦ rw e (keep_level-IsSorted s l (erase_from id l.queue) ls v)
    | inr e ↦ rw e (AreAfter-remove_order s l.price ls v.0, remove_order-IsSorted s ls v.1)
  ]

  pub remove_order-AreFull : (ls : Levels) → AreFull ls → AreFull (remove_order p id ls)
  unfolding remove_order
  remove_order-AreFull [] f = tt
  remove_order-AreFull (l ∷ ls) f = elim (Bool-cases (same_price l.price p)) [
    | inl e ↦ rw e (
        keep_level-AreFull l (erase_from id l.queue) ls
          (erase_from-ArePositive l.queue (IsFull-ArePositive l.queue f.0)) f.1)
    | inr e ↦ rw e (f.0, remove_order-AreFull ls f.1)
  ]

  module _ (x : ℕ) where
    pub AreAfter-set_qty_at :
        (s : Side) (y : ℤ) (ls : Levels) → AreAfter s y ls → AreAfter s y (set_qty_at p id x ls)
    unfolding set_qty_at
    AreAfter-set_qty_at s y [] a = tt
    AreAfter-set_qty_at s y (l ∷ ls) a = ground (arith, AreAfter-set_qty_at s y ls a.1)

    pub set_qty_at-IsSorted :
        (s : Side) (ls : Levels) → IsSorted s ls → IsSorted s (set_qty_at p id x ls)
    unfolding set_qty_at
    set_qty_at-IsSorted s [] v = tt
    set_qty_at-IsSorted s (l ∷ ls) v =
        ground (arith, set_qty_at-IsSorted s ls v.1, AreAfter-set_qty_at s l.price ls v.0)

    set_qty_in-ArePositive : (q : Queue) → 0 < x → ArePositive q → ArePositive (set_qty_in id x q)
    unfolding set_qty_in
    set_qty_in-ArePositive [] h a = tt
    set_qty_in-ArePositive (o ∷ q) h a = ground (arith, set_qty_in-ArePositive q h a.1)

    set_qty_in-IsFull : (q : Queue) → 0 < x → IsFull q → IsFull (set_qty_in id x q)
    unfolding set_qty_in
    set_qty_in-IsFull [] h f = absurd f
    set_qty_in-IsFull (o ∷ q) h f = ground (arith, set_qty_in-ArePositive q h f.1)

    pub set_qty_at-AreFull : (ls : Levels) → 0 < x → AreFull ls → AreFull (set_qty_at p id x ls)
    unfolding set_qty_at
    set_qty_at-AreFull [] h f = tt
    set_qty_at-AreFull (l ∷ ls) h f =
        ground (arith, set_qty_at-AreFull ls h f.1, set_qty_in-IsFull l.queue h f.0)

-- The best bids stand below the best asks: every price of one side is past every price of the other.
abbrev pub AreApart : Side → Levels → Levels → Type 0
AreApart s own facing = All (λ l. AreAfter (opposite s) l.price facing) own

-- Where the best level is out of the limit, all levels are past it.
pub head_out :
    (s : Side) (limit : ℤ) (ls : Levels)
    → IsSorted (opposite s) ls
    → head_in_range s limit ls ≡ false
    → AreAfter (opposite s) limit ls
head_out s limit [] v h = tt
head_out Side.buy limit (l ∷ ls) v h =
    let e : ltb_ℤ limit l.price ≡ true = ground arith in
    (e, AreAfter-trans Side.sell limit l.price ls e v.0)
head_out Side.sell limit (l ∷ ls) v h =
    let e : ltb_ℤ l.price limit ≡ true = ground arith in
    (e, AreAfter-trans Side.buy limit l.price ls e v.0)

AreApart-nil : (s : Side) (ls : Levels) → AreApart s ls []
AreApart-nil s [] = tt
AreApart-nil s (l ∷ ls) = (tt, AreApart-nil s ls)

before_swap : (s : Side) (p q : ℤ) → before (opposite s) p q ≡ true → before s q p ≡ true
before_swap Side.buy p q h = h
before_swap Side.sell p q h = h

AreApart-cons :
    (s : Side) (k : Level) (own facing : Levels)
    → AreAfter s k.price own
    → AreApart s own facing
    → AreApart s own (k ∷ facing)
AreApart-cons s k [] facing h a = tt
AreApart-cons Side.buy k (l ∷ own) facing h a =
    ((h.0, a.0), AreApart-cons Side.buy k own facing h.1 a.1)
AreApart-cons Side.sell k (l ∷ own) facing h a =
    ((h.0, a.0), AreApart-cons Side.sell k own facing h.1 a.1)

-- Seen from the other side.
pub AreApart-symm :
    (s : Side) (own facing : Levels) → AreApart s own facing → AreApart (opposite s) facing own
AreApart-symm s [] facing a = AreApart-nil (opposite s) facing
AreApart-symm Side.buy (l ∷ own) facing a =
    AreApart-cons Side.sell l facing own a.0 (AreApart-symm Side.buy own facing a.1)
AreApart-symm Side.sell (l ∷ own) facing a =
    AreApart-cons Side.buy l facing own a.0 (AreApart-symm Side.sell own facing a.1)

-- A change of one side that puts no price where none was.
pub AreApart-facing :
    (s : Side) (own facing facing' : Levels)
    → ((p : ℤ) → AreAfter (opposite s) p facing → AreAfter (opposite s) p facing')
    → AreApart s own facing
    → AreApart s own facing'
AreApart-facing s [] facing facing' h a = tt
AreApart-facing s (l ∷ own) facing facing' h a =
    (h l.price a.0, AreApart-facing s own facing facing' h a.1)

pub AreApart-own :
    (s : Side) (own own' facing : Levels)
    → ((s' : Side) (p : ℤ) → AreAfter s' p own → AreAfter s' p own')
    → AreApart s own facing
    → AreApart s own' facing
AreApart-own Side.buy own own' facing h a =
    AreApart-symm Side.sell facing own'
      (AreApart-facing Side.sell facing own own' (h Side.buy) (AreApart-symm Side.buy own facing a))
AreApart-own Side.sell own own' facing h a =
    AreApart-symm Side.buy facing own' (
      AreApart-facing Side.buy facing own own' (h Side.sell) (AreApart-symm Side.sell own facing a))

pub AreApart-push_back :
    (s : Side) (px : ℤ) (o : Order) (own facing : Levels)
    → AreAfter (opposite s) px facing
    → AreApart s own facing
    → AreApart s (push_back s px o own) facing
unfolding push_back
AreApart-push_back s px o [] facing h a = (h, tt)
AreApart-push_back s px o (l ∷ ls) facing h a =
    ground (arith, AreApart-push_back s px o ls facing h a.1)
