-- ===== src/Reference/Tests.antt =====
-- include/exsim/reference_book.hpp: a small book.
use exchange_sim.Base.{ℕ, ◌+◌, ◌≡◌, refl, ◌↔◌, ◌≤◌, All, true, false, [], ◌∷◌, arith}
use exchange_sim.Base.Int.{pos}
use exchange_sim.Base.Assoc.{count}
use exchange_sim.Domain.{Side, OrdType, Tif, MsgType, Stp, Command, BookConfig}
use exchange_sim.Reference.Sides.{Order, Levels, Loc, Index}
use exchange_sim.Reference.Match.{Taker, Taking, match_side, match_queue, match_front, fillable}
use exchange_sim.Reference.Counts.{count_side, count_queue, IsSorted}
use exchange_sim.Reference.Fok.{fillable-iff-match_side}
use exchange_sim.Reference.MatchShape.{AreFull}
use exchange_sim.Reference.Fate.{Covers, SideFates, match_side-SideFates}
use exchange_sim.Reference.Priority.{Eaten, orders, match_side-Eaten}
use exchange_sim.Reference.Quantity.{total_side, traded, match_side-Moves}
use exchange_sim.Reference.Fairness.{IsFair, count_side_makers, match_side-IsFair}
use exchange_sim.Reference.BookSides.{IsValid}
use exchange_sim.Reference.Invariant.{
  EndsValid, new-IsValid, add-IsValid, cancel-EndsValid, modify-EndsValid,
}
use exchange_sim.Reference.Audit.{check_invariants_lem}
use exchange_sim.Reference.Queries.{check_invariants}
use exchange_sim.Reference.{Book, new, add, cancel, modify}

abbrev order : ℕ → ℕ → ℕ → Order
order id qty owner = record { id = id; qty = qty; owner = owner }

-- Two asks at 100 and one at 101.
abbrev asks : Levels
asks =
    record { price = pos 100; queue = order 1 5 7 ∷ order 2 4 8 ∷ [] }
    ∷ record { price = pos 101; queue = order 3 6 9 ∷ [] }
    ∷ []

abbrev entry : ℕ → ℕ → ℕ × Loc
entry id px = (id, record { side = Side.sell; price = pos px; it = id })

abbrev index : Index
index = entry 3 101 ∷ entry 2 100 ∷ entry 1 100 ∷ []

abbrev buyer : Stp → Taker
buyer stp = record { symbol = 0; id = 9; owner = 8; side = Side.buy; limit = pos 101; stp = stp }

abbrev taking : ℕ → Taking
taking qty = record { qty = qty; stop = false; index = index; sink = [] }

asks-AreFull : AreFull asks
asks-AreFull = ground arith

asks-IsSorted : IsSorted Side.sell asks
asks-IsSorted = ground arith

asks-Covers : Covers (λ i. count_side i asks) index
unfolding count_side count count_queue
asks-Covers j = ground arith

fillable-iff-match_side_example :
    (fillable (buyer Stp.cancel_resting) asks 11 ≡ true)
    ↔ ((match_side (buyer Stp.cancel_resting) asks (taking 11)).1.qty ≡ 0)
fillable-iff-match_side_example =
    fillable-iff-match_side (buyer Stp.cancel_resting) asks (taking 11) (ground arith) (omega arith)
      refl

match_side-Eaten_example :
    Eaten (orders asks) (orders (match_side (buyer Stp.none) asks (taking 7)).0)
match_side-Eaten_example = match_side-Eaten (buyer Stp.none) asks (taking 7) asks-AreFull

match_side-SideFates_example :
    SideFates asks
      (match_side (buyer Stp.decrement_cancel) asks (taking 7)).0
      index
      (match_side (buyer Stp.decrement_cancel) asks (taking 7)).1.index
match_side-SideFates_example =
    match_side-SideFates (buyer Stp.decrement_cancel) asks (taking 7) asks-AreFull asks-Covers

match_side-Moves_example :
    let r = match_side (buyer Stp.none) asks (taking 7) in
    (r.1.qty ≤ 7)
    × (total_side asks + r.1.qty ≡ total_side r.0 + 7)
    × (traded r.1.sink + r.1.qty ≡ traded [] + 7)
match_side-Moves_example = match_side-Moves (buyer Stp.none) asks (taking 7) refl

match_side-IsFair_example :
    All
      (IsFair (buyer Stp.cancel_resting) (λ j. count_side_makers (buyer Stp.cancel_resting) j asks))
      (match_side (buyer Stp.cancel_resting) asks (taking 7)).1.sink
match_side-IsFair_example = match_side-IsFair (buyer Stp.cancel_resting) asks 7 false index

-- The match above: it trades with order 1, cancels the buyer's own order 2, and trades with order 3.
match_side_run :
    (match_side (buyer Stp.cancel_resting) asks (taking 7)).0
    ≡ record { price = pos 101; queue = order 3 4 9 ∷ [] } ∷ []
unfolding match_side match_queue match_front
match_side_run = refl

abbrev config : BookConfig
config = record { min_price = pos 90; num_levels = 21; max_orders = 3; stp = Stp.cancel_incoming }

abbrev command : MsgType → ℕ → Side → ℕ → ℕ → Command
command type id side price qty = record {
  order_id = id;
  price = pos price;
  seq = id;
  ts = 0;
  qty = qty;
  owner = id;
  symbol = 0;
  type = type;
  side = side;
  ord_type = OrdType.limit;
  tif = Tif.day;
  flags = 0;
}

abbrev book0 : Book
book0 = new 0 config

abbrev book1 : Book
book1 = (add (command MsgType.new_order 1 Side.sell 100 5) book0 []).0

abbrev book2 : Book
book2 = (add (command MsgType.new_order 2 Side.sell 102 4) book1 []).0

book1-IsValid : IsValid book1
book1-IsValid =
    add-IsValid (command MsgType.new_order 1 Side.sell 100 5) book0 [] (new-IsValid 0 config)

book2-IsValid : IsValid book2
book2-IsValid = add-IsValid (command MsgType.new_order 2 Side.sell 102 4) book1 [] book1-IsValid

new-IsValid_example : IsValid book0
new-IsValid_example = new-IsValid 0 config

add-IsValid_example : IsValid (add (command MsgType.new_order 3 Side.buy 101 9) book2 []).0
add-IsValid_example =
    add-IsValid (command MsgType.new_order 3 Side.buy 101 9) book2 [] book2-IsValid

cancel-EndsValid_example : EndsValid (cancel (command MsgType.cancel 1 Side.sell 0 0) book2 [])
cancel-EndsValid_example =
    cancel-EndsValid (command MsgType.cancel 1 Side.sell 0 0) book2 [] book2-IsValid

modify-EndsValid_example : EndsValid (modify (command MsgType.modify 2 Side.sell 101 6) book2 [])
modify-EndsValid_example =
    modify-EndsValid (command MsgType.modify 2 Side.sell 101 6) book2 [] book2-IsValid

check_invariants_lem_example : check_invariants book2 ≡ true
check_invariants_lem_example = check_invariants_lem book2 book2-IsValid
