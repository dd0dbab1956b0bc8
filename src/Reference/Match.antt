-- ===== src/Reference/Match.antt =====
-- include/exsim/reference_book.hpp: `match_side`, `match` and `fillable`.
-- The inner loop takes one order off the front of a queue in each round, so it is a recursion on
-- the queue. A maker that stays at the front ends both loops: either the taker has no quantity
-- left, or self-trade prevention stopped it.
use exchange_sim.Base.{
  ℕ, ◌-◌, min, ltb, leb, ◌==◌, if◌then◌else◌, Bool, true, false, not, ◌&&◌, [], ◌∷◌,
}
use exchange_sim.Base.Int.{ℤ, ltb_ℤ}
use exchange_sim.Base.Assoc.{erase}
use exchange_sim.Domain.{
  Side, Stp, Reason, Sink, opposite, trade_event, canceled_event, stp_decrement_event,
}
use exchange_sim.Reference.Sides.{Order, Queue, Levels, Index}

-- What stays fixed while an incoming order matches.
pub record Taker : Type 0 where
  pub symbol : ℕ
  pub id : ℕ
  pub owner : ℕ
  pub side : Side
  pub limit : ℤ
  pub stp : Stp

-- What the loops change: `qty`, `stp_stop`, `index_` and the sink.
pub record Taking : Type 0 where
  pub qty : ℕ
  pub stop : Bool
  pub index : Index
  pub sink : Sink

-- The end of a round: the front order stays, it is popped, or it is popped and the loop breaks.
pub data Round : Type 0 where
  stays : Order → Taking → Round
  popped : Taking → Round
  last : Taking → Round

abbrev pub in_range : Side → ℤ → ℤ → Bool
in_range Side.buy limit p = not (ltb_ℤ limit p)
in_range Side.sell limit p = not (ltb_ℤ p limit)

-- Whether the best level of a side is within the limit.
abbrev pub head_in_range : Side → ℤ → Levels → Bool
head_in_range s limit [] = false
head_in_range s limit (l ∷ ls) = in_range s limit l.price

abbrev pub is_on : Stp → Bool
is_on Stp.none = false
is_on s = true

abbrev pub is_own : Taker → Order → Bool
is_own t o = is_on t.stp && o.owner == t.owner

unfoldable pub cancel_maker : Taker → ℤ → Order → Taking → Taking
cancel_maker t px o m = record m {
  index = erase o.id m.index;
  sink = canceled_event t.symbol o.id (opposite t.side) px o.qty Reason.self_trade ∷ m.sink;
}

-- Decrement-and-cancel where the resting order is not the larger one.
unfoldable pub decrement_taker : Taker → ℤ → Order → Taking → Round
unfolding cancel_maker
decrement_taker t px o m =
    let c = cancel_maker t px o m in
    let left = m.qty - o.qty in
    if o.qty == m.qty
    then last (record c { stop = true })
    else popped (record c {
      qty = left;
      sink = stp_decrement_event t.symbol t.id t.side t.limit left ∷ c.sink;
    })

unfoldable pub meet_own : Stp → Taker → ℤ → Order → Taking → Round
unfolding decrement_taker
meet_own Stp.cancel_incoming t px o m = stays o (record m { stop = true })
meet_own Stp.decrement_cancel t px o m =
    let left = o.qty - m.qty in
    if ltb m.qty o.qty
    then stays (record o { qty = left })
        (record m {
          stop = true;
          sink = stp_decrement_event t.symbol o.id (opposite t.side) px left ∷ m.sink;
        })
    else decrement_taker t px o m
meet_own _ t px o m = popped (cancel_maker t px o m)

unfoldable pub trade_with : Taker → ℤ → Order → Taking → Round
trade_with t px o m =
    let fill = min o.qty m.qty in
    let left = o.qty - fill in
    let sink = trade_event t.symbol t.id o.id t.side px fill left ∷ m.sink in
    if left == 0
    then popped (record m { qty = m.qty - fill; index = erase o.id m.index; sink = sink })
    else stays (record o { qty = left }) (record m { qty = m.qty - fill; sink = sink })

unfoldable pub match_front : Taker → ℤ → Order → Taking → Round
unfolding meet_own trade_with
match_front t px o m = if is_own t o then meet_own t.stp t px o m else trade_with t px o m

unfoldable pub match_queue : Taker → ℤ → Queue → Taking → Queue × Taking
match_queue t px [] m = ([], m)
match_queue t px (o ∷ q) m = elim (m.qty == 0) [
  | true ↦ (o ∷ q, m)
  | false ↦ elim (match_front t px o m) [
    | stays o' m' ↦ (o' ∷ q, m')
    | popped m' ↦ match_queue t px q m'
    | last m' ↦ (q, m')
  ]
]

unfoldable pub match_side : Taker → Levels → Taking → Levels × Taking
match_side t [] m = ([], m)
match_side t (l ∷ ls) m = elim (ltb 0 m.qty && in_range t.side t.limit l.price) [
  | false ↦ (l ∷ ls, m)
  | true ↦
      let r = match_queue t l.price l.queue m in
      elim r.0 [
        | o ∷ q ↦ (record l { queue = o ∷ q } ∷ ls, r.1)
        | [] ↦ elim r.1.stop [ true ↦ (ls, r.1) | false ↦ match_side t ls r.1 ]
      ]
]

-- How far a fill-or-kill check has come: decided, or `need` is still missing.
pub data Scan : Type 0 where
  enough short : Scan
  more : ℕ → Scan

unfoldable pub scan_own : Stp → Order → ℕ → Scan
scan_own Stp.cancel_incoming o need = short
scan_own Stp.decrement_cancel o need = if leb need o.qty then short else more (need - o.qty)
scan_own _ o need = more need

unfoldable pub scan_front : Taker → Order → ℕ → Scan
unfolding scan_own
scan_front t o need =
    if is_own t o
    then scan_own t.stp o need
    else if leb need o.qty
    then enough
    else more (need - o.qty)

unfoldable pub scan_queue : Taker → Queue → ℕ → Scan
scan_queue t [] need = more need
scan_queue t (o ∷ q) need = elim (scan_front t o need) [
  | enough ↦ enough
  | short ↦ short
  | more n ↦ scan_queue t q n
]

unfoldable pub fillable : Taker → Levels → ℕ → Bool
fillable t [] need = false
fillable t (l ∷ ls) need = elim (in_range t.side t.limit l.price) [
  | false ↦ false
  | true ↦ elim (scan_queue t l.queue need) [
    | enough ↦ true
    | short ↦ false
    | more n ↦ fillable t ls n
  ]
]
