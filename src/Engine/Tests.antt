-- ===== src/Engine/Tests.antt =====
-- include/exsim/matching_engine.hpp: the engine over reference books of two symbols.
use exchange_sim.Base.{Ends, ℕ, ◌≡◌, refl, arith, [], ◌∷◌, some}
use exchange_sim.Base.Int.{pos}
use exchange_sim.Domain.{
  Side, OrdType, Tif, MsgType, Stp, Reason, Command, BookConfig, rejected_event,
}
use exchange_sim.Engine.{Engine, new, new_books, process, run}
use exchange_sim.Engine.Routing.{
  AreValid, Untouched, new-AreValid, process-Ends, run-Ends, process-Untouched,
}
use exchange_sim.Engine.Books.{reference_books}

abbrev config : BookConfig
config = record { min_price = pos 90; num_levels = 21; max_orders = 3; stp = Stp.none }

abbrev command : MsgType → ℕ → ℕ → Side → ℕ → Command
command type symbol id side qty = record {
  order_id = id;
  price = pos 100;
  seq = id;
  ts = 0;
  qty = qty;
  owner = id;
  symbol = symbol;
  type = type;
  side = side;
  ord_type = OrdType.limit;
  tif = Tif.day;
  flags = 0;
}

abbrev start : Engine reference_books
start = new reference_books 2 config

start-AreValid : AreValid reference_books start
start-AreValid = new-AreValid reference_books 2 config

new-AreValid_example : AreValid reference_books (new reference_books 2 config)
new-AreValid_example = new-AreValid reference_books 2 config

process-Ends_example :
    Ends
      (AreValid reference_books)
      (process reference_books (command MsgType.new_order 1 5 Side.buy 3) start [])
process-Ends_example =
    process-Ends reference_books (command MsgType.new_order 1 5 Side.buy 3) start [] start-AreValid

run-Ends_example : Ends (AreValid reference_books) (
    run reference_books
      (command MsgType.new_order 1 5 Side.buy 3
        ∷ command MsgType.new_order 1 6 Side.sell 2
        ∷ command MsgType.modify 1 5 Side.buy 4
        ∷ command MsgType.cancel 7 5 Side.buy 0
        ∷ [])
      start
      [])
run-Ends_example =
    run-Ends reference_books
      (command MsgType.new_order 1 5 Side.buy 3
        ∷ command MsgType.new_order 1 6 Side.sell 2
        ∷ command MsgType.modify 1 5 Side.buy 4
        ∷ command MsgType.cancel 7 5 Side.buy 0
        ∷ [])
      start [] start-AreValid

process-Untouched_example :
    Untouched reference_books 0 start
      (process reference_books (command MsgType.new_order 1 5 Side.buy 3) start [])
process-Untouched_example =
    process-Untouched reference_books (command MsgType.new_order 1 5 Side.buy 3) start [] 0
      start-AreValid (omega arith)

-- A symbol that the engine does not have.
unknown_symbol :
    process reference_books (command MsgType.cancel 7 5 Side.buy 0) start []
    ≡ some
        (start, rejected_event (command MsgType.cancel 7 5 Side.buy 0) Reason.unknown_symbol ∷ [])
unfolding process new new_books
unknown_symbol = refl
