-- ===== src/Engine/Books.antt =====
-- include/exsim/matching_engine.hpp: `MatchingEngine<ReferenceBook>`, the engine over the
-- reference books.
use exchange_sim.Base.{some}
use exchange_sim.Engine.{BookOps}
use exchange_sim.Reference.{Book, new, add, cancel, modify}
use exchange_sim.Reference.BookSides.{IsValid}
use exchange_sim.Reference.Invariant.{new-IsValid, add-IsValid, cancel-EndsValid, modify-EndsValid}

abbrev pub reference_books : BookOps
reference_books = record {
  Book = Book;
  IsValid = IsValid;
  new = new;
  add = λ c b sink. some (add c b sink);
  cancel = cancel;
  modify = modify;
  new_valid = new-IsValid;
  add_ends = add-IsValid;
  cancel_ends = cancel-EndsValid;
  modify_ends = modify-EndsValid;
}
