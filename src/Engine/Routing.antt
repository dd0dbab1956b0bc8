-- ===== src/Engine/Routing.antt =====
-- include/exsim/matching_engine.hpp: the routing of commands, and the validity of the books.
use exchange_sim.Base.{
  Ends, ℕ, zero, suc, ◌+◌, ◌≡◌, refl, ◌≢◌, Option, none, some, List, [], ◌∷◌, All, arith, length,
  get_elem?, set, Option-cases, inl, inr, get_elem?-set_ne, length-set,
}
use exchange_sim.Domain.{Command, MsgType, Sink, BookConfig}
use exchange_sim.Engine.{BookOps, Engine, new, new_books, dispatch, put_back, process, run}

module _ (ops : BookOps) where
  -- Every book is valid.
  abbrev pub AreValid : Engine ops → Type 0
  AreValid e = All ops.IsValid e

  new_books-AreValid : (n i : ℕ) (cfg : BookConfig) → AreValid (new_books ops n i cfg)
  unfolding new_books
  new_books-AreValid zero i cfg = tt
  new_books-AreValid (suc n) i cfg = (ops.new_valid i cfg, new_books-AreValid n (i + 1) cfg)

  pub new-AreValid : (n : ℕ) (cfg : BookConfig) → AreValid (new ops n cfg)
  unfolding new
  new-AreValid n cfg = new_books-AreValid n 0 cfg

  All-get :
      (e : Engine ops) (i : ℕ) (b : ops.Book) → AreValid e → get_elem? e i ≡ some b → ops.IsValid b
  All-get [] i b v h = cc
  All-get (x ∷ e) zero b v h = subst_valid (ground (arith, h))
    where
      subst_valid : x ≡ b → ops.IsValid b
      subst_valid p = rw (← p) v.0
  All-get (x ∷ e) (suc i) b v h = All-get e i b v.1 h

  All-set :
      (e : Engine ops) (i : ℕ) (b : ops.Book) → AreValid e → ops.IsValid b → AreValid (set e i b)
  All-set [] i b v w = tt
  All-set (x ∷ e) zero b v w = (w, v.1)
  All-set (x ∷ e) (suc i) b v w = (v.0, All-set e i b v.1 w)

  dispatch-Ends :
      (ty : MsgType) (c : Command) (b : ops.Book) (sink : Sink)
      → ops.IsValid b
      → Ends ops.IsValid (dispatch ops ty c b sink)
  unfolding dispatch
  dispatch-Ends MsgType.new_order c b sink v = ops.add_ends c b sink v
  dispatch-Ends MsgType.cancel c b sink v = ops.cancel_ends c b sink v
  dispatch-Ends MsgType.modify c b sink v = ops.modify_ends c b sink v

  put_back-Ends :
      (i : ℕ) (e : Engine ops) (r : Option (ops.Book × Sink))
      → AreValid e
      → Ends ops.IsValid r
      → Ends AreValid (put_back ops i e r)
  put_back-Ends i e none v w = w
  put_back-Ends i e (some r) v w = All-set e i r.0 v w

  -- The engine returns from every command, whatever its symbol and type, and all its books stay
  -- valid.
  pub process-Ends :
      (c : Command) (e : Engine ops) (sink : Sink)
      → AreValid e
      → Ends AreValid (process ops c e sink)
  unfolding process
  process-Ends c e sink v = elim (Option-cases (get_elem? e c.symbol)) [
    | inl h ↦ rw (h, process) v
    | inr (b, h) ↦
        rw (h, process)
          (put_back-Ends c.symbol e (dispatch ops c.type c b sink) v
            (dispatch-Ends c.type c b sink (All-get e c.symbol b v h)))
  ]

  run_step :
      (cs : List Command) (r : Option (Engine ops × Sink))
      → ((e : Engine ops) (s : Sink) → AreValid e → Ends AreValid (run ops cs e s))
      → Ends AreValid r
      → Ends AreValid (elim r as (λ _. Option (Engine ops × Sink)) [
        | none ↦ none
        | some (e', s') ↦ run ops cs e' s'
      ])
  run_step cs none ih w = w
  run_step cs (some (e, s)) ih w = ih e s w

  -- The engine returns from any sequence of commands, whatever their symbols and types, and all
  -- its books stay valid: they are at the start.
  pub run-Ends :
      (cs : List Command) (e : Engine ops) (sink : Sink)
      → AreValid e
      → Ends AreValid (run ops cs e sink)
  unfolding run
  run-Ends [] e sink v = v
  run-Ends (c ∷ cs) e sink v =
      run_step cs (process ops c e sink) (run-Ends cs) (process-Ends c e sink v)

  -- Only the book of the command's symbol can change.
  abbrev pub Untouched : ℕ → Engine ops → Option (Engine ops × Sink) → Type 0
  Untouched i e none = ⊥
  Untouched i e (some r) = (get_elem? r.0 i ≡ get_elem? e i) × (length r.0 ≡ length e)

  put_back-Untouched :
      (i j : ℕ) (e : Engine ops) (r : Option (ops.Book × Sink))
      → i ≢ j
      → Ends ops.IsValid r
      → Untouched i e (put_back ops j e r)
  put_back-Untouched i j e none n w = w
  put_back-Untouched i j e (some r) n w =
      (get_elem?-set_ne e r.0 (λ p. n (ground arith)), length-set e j r.0)

  -- On valid books, a command changes no book but that of its own symbol, nor the number of books.
  pub process-Untouched :
      (c : Command) (e : Engine ops) (sink : Sink) (i : ℕ)
      → AreValid e
      → i ≢ c.symbol
      → Untouched i e (process ops c e sink)
  unfolding process
  process-Untouched c e sink i v n = elim (Option-cases (get_elem? e c.symbol)) [
    | inl h ↦ rw (h, process) (refl, refl)
    | inr (b, h) ↦
        rw (h, process)
          (put_back-Untouched i c.symbol e (dispatch ops c.type c b sink) n
            (dispatch-Ends c.type c b sink (All-get e c.symbol b v h)))
  ]
