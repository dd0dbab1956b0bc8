-- ===== src/Engine.antt =====
-- include/exsim/matching_engine.hpp: one book for each symbol, and the routing of commands.
-- The template parameter `Book` is an interface: its three operations, what makes a book valid,
-- and that the operations return and keep it so. `none` is a fault of the book.
pub mod Routing
pub mod Books
pub mod Tests
use exchange_sim.Base.{
  Ends, ℕ, zero, suc, ◌+◌, Option, none, some, List, [], ◌∷◌, get_elem?, set, length,
}
use exchange_sim.Domain.{Command, MsgType, Sink, Reason, BookConfig, rejected_event}

pub record BookOps : Type 1 where
  pub Book : Type 0
  pub IsValid : Book → Type 0
  pub new : ℕ → BookConfig → Book
  pub add : Command → Book → Sink → Option (Book × Sink)
  pub cancel : Command → Book → Sink → Option (Book × Sink)
  pub modify : Command → Book → Sink → Option (Book × Sink)
  pub new_valid : (symbol : ℕ) (cfg : BookConfig) → IsValid (new symbol cfg)
  pub add_ends : (c : Command) (b : Book) (s : Sink) → IsValid b → Ends IsValid (add c b s)
  pub cancel_ends : (c : Command) (b : Book) (s : Sink) → IsValid b → Ends IsValid (cancel c b s)
  pub modify_ends : (c : Command) (b : Book) (s : Sink) → IsValid b → Ends IsValid (modify c b s)

module _ (ops : BookOps) where
  open ops use {Book, add, cancel, modify}

  -- `books_`, by symbol.
  abbrev pub Engine : Type 0
  Engine = List Book

  -- The constructor makes the books `i`, `i + 1`, …
  unfoldable pub new_books : ℕ → ℕ → BookConfig → Engine
  new_books zero i cfg = []
  new_books (suc n) i cfg = ops.new i cfg ∷ new_books n (i + 1) cfg

  unfoldable pub new : ℕ → BookConfig → Engine
  new num_symbols cfg = new_books num_symbols 0 cfg

  abbrev pub num_symbols : Engine → ℕ
  num_symbols = length

  -- The switch on the message type.
  unfoldable pub dispatch : MsgType → Command → Book → Sink → Option (Book × Sink)
  dispatch MsgType.new_order c b sink = add c b sink
  dispatch MsgType.cancel c b sink = cancel c b sink
  dispatch MsgType.modify c b sink = modify c b sink

  abbrev pub put_back : ℕ → Engine → Option (Book × Sink) → Option (Engine × Sink)
  put_back s e none = none
  put_back s e (some (b, sink)) = some (set e s b, sink)

  unfoldable pub process : Command → Engine → Sink → Option (Engine × Sink)
  process c e sink = elim (get_elem? e c.symbol) [
    | none ↦ some (e, rejected_event c Reason.unknown_symbol ∷ sink)
    | some b ↦ put_back c.symbol e (dispatch c.type c b sink)
  ]

  -- A sequence of commands.
  unfoldable pub run : List Command → Engine → Sink → Option (Engine × Sink)
  run [] e sink = some (e, sink)
  run (c ∷ cs) e sink = elim (process c e sink) [ none ↦ none | some (e', s') ↦ run cs e' s' ]
