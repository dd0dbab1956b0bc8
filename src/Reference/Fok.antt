-- ===== src/Reference/Fok.antt =====
-- include/exsim/reference_book.hpp: the fill-or-kill check against the match that follows it.
use exchange_sim.Base.{
  ◌<◌, ◌≡◌, refl, ◌↔◌, inl, inr, Bool, true, false, [], ◌∷◌, All, arith, Bool-cases,
}
use exchange_sim.Base.Int.{ℤ}
use exchange_sim.Domain.{Stp}
use exchange_sim.Reference.Sides.{Order, Queue, Levels}
use exchange_sim.Reference.Match.{
  Taker, Taking, Round, stays, popped, last, Scan, enough, short, more, is_own, is_on, meet_own,
  scan_own, match_front, match_queue, match_side, scan_front, scan_queue, fillable,
}

-- Every resting order has a quantity.
abbrev pub ArePositive : Queue → Type 0
ArePositive = All (λ o. 0 < o.qty)

abbrev pub HasQuantities : Levels → Type 0
HasQuantities = All (λ l. ArePositive l.queue)

-- What one round of the check says of the round of the match.
abbrev Agrees : Scan → Round → Type 0
Agrees enough (stays o m) = (m.qty ≡ 0) × (m.stop ≡ false)
Agrees enough (popped m) = (m.qty ≡ 0) × (m.stop ≡ false)
Agrees enough (last m) = ⊥
Agrees short (stays o m) = (0 < m.qty) × (m.stop ≡ true)
Agrees short (popped m) = ⊥
Agrees short (last m) = (0 < m.qty) × (m.stop ≡ true)
Agrees (more n) (stays o m) = ⊥
Agrees (more n) (popped m) = (m.qty ≡ n) × (0 < n) × (m.stop ≡ false)
Agrees (more n) (last m) = ⊥

abbrev QueueAgrees : Scan → Queue × Taking → Type 0
QueueAgrees enough r = (r.1.qty ≡ 0) × (r.1.stop ≡ false)
QueueAgrees short r = (0 < r.1.qty) × (r.1.stop ≡ true)
QueueAgrees (more n) r = (r.0 ≡ []) × (r.1.qty ≡ n) × (0 < n) × (r.1.stop ≡ false)

module _ (t : Taker) (px : ℤ) (o : Order) (m : Taking) (rests : 0 < o.qty) (wants : 0 < m.qty)
    (runs : m.stop ≡ false) where
  own-Agrees : (s : Stp) → is_on s ≡ true → Agrees (scan_own s o m.qty) (meet_own s t px o m)
  unfolding scan_own meet_own
  own-Agrees Stp.none h = cc
  own-Agrees Stp.cancel_resting h = ground arith
  own-Agrees Stp.cancel_incoming h = ground arith
  own-Agrees Stp.decrement_cancel h = ground arith

  front-Agrees : Agrees (scan_front t o m.qty) (match_front t px o m)
  unfolding scan_front match_front
  front-Agrees = elim (Bool-cases (is_own t o)) [
    | inl own ↦ rw (own, scan_front, match_front) (own-Agrees t.stp (ground arith))
    | inr other ↦ rw (other, scan_front, match_front) (ground arith)
  ]

match_queue_done :
    (t : Taker) (px : ℤ) (q : Queue) (m : Taking) → m.qty ≡ 0 → match_queue t px q m ≡ (q, m)
unfolding match_queue
match_queue_done t px [] m e = refl
match_queue_done t px (o ∷ q) m e = ground arith

match_side_done : (t : Taker) (ls : Levels) (m : Taking) → m.qty ≡ 0 → match_side t ls m ≡ (ls, m)
unfolding match_side
match_side_done t [] m e = refl
match_side_done t (l ∷ ls) m e = ground arith

module _ (t : Taker) (px : ℤ) (o : Order) (q : Queue) (m : Taking) (wants : 0 < m.qty) where
  after_front :
      (s : Scan) (r : Round)
      → scan_front t o m.qty ≡ s
      → match_front t px o m ≡ r
      → Agrees s r
      → ((k : Taking)
          → 0 < k.qty
          → k.stop ≡ false
          → QueueAgrees (scan_queue t q k.qty) (match_queue t px q k))
      → QueueAgrees (scan_queue t (o ∷ q) m.qty) (match_queue t px (o ∷ q) m)
  unfolding scan_queue match_queue
  after_front enough (stays o' k) es er a ih = ground arith
  after_front enough (popped k) es er a ih = ground (arith, match_queue_done t px q k)
  after_front enough (last k) es er a ih = absurd a
  after_front short (stays o' k) es er a ih = ground arith
  after_front short (popped k) es er a ih = absurd a
  after_front short (last k) es er a ih = ground arith
  after_front (more n) (stays o' k) es er a ih = absurd a
  after_front (more n) (popped k) es er a ih = ground (arith, ih k)
  after_front (more n) (last k) es er a ih = absurd a

queue_agrees :
    (t : Taker) (px : ℤ) (q : Queue) (m : Taking)
    → ArePositive q
    → 0 < m.qty
    → m.stop ≡ false
    → QueueAgrees (scan_queue t q m.qty) (match_queue t px q m)
unfolding scan_queue match_queue
queue_agrees t px [] m p w r = (refl, refl, w, r)
queue_agrees t px (o ∷ q) m p w r =
    after_front t px o q m w _ _ refl refl (front-Agrees t px o m p.0 w r)
      (λ k w' r'. queue_agrees t px q k p.1 w' r')

abbrev SideAgrees : Bool → Levels × Taking → Type 0
SideAgrees true r = r.1.qty ≡ 0
SideAgrees false r = 0 < r.1.qty

side_agrees :
    (t : Taker) (ls : Levels) (m : Taking)
    → HasQuantities ls
    → 0 < m.qty
    → m.stop ≡ false
    → SideAgrees (fillable t ls m.qty) (match_side t ls m)
unfolding fillable match_side
side_agrees t [] m p w r = w
side_agrees t (l ∷ ls) m p w r =
    let k = (match_queue t l.price l.queue m).1 in
    ground (
      arith,
      queue_agrees t l.price l.queue m p.0 w r,
      side_agrees t ls k p.1,
      match_side_done t ls k,
    )

-- The check of a fill-or-kill order passes exactly when the match that follows would leave none of
-- its quantity, whatever the self-trade prevention: on levels whose orders all have a quantity, for
-- an order that wants something.
pub fillable-iff-match_side :
    (t : Taker) (ls : Levels) (m : Taking)
    → HasQuantities ls
    → 0 < m.qty
    → m.stop ≡ false
    → (fillable t ls m.qty ≡ true) ↔ ((match_side t ls m).1.qty ≡ 0)
fillable-iff-match_side t ls m p w r = ground (arith, side_agrees t ls m p w r)
