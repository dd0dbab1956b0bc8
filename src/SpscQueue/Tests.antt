-- ===== src/SpscQueue/Tests.antt =====
-- include/exsim/spsc_queue.hpp: a ring of two elements.
use exchange_sim.Base.{ℕ, ◌≡◌, refl, true, [], ◌∷◌, arith}
use exchange_sim.SpscQueue.Steps.{IsValid, contents, elements}
use exchange_sim.SpscQueue.Calls.{Pushes, Pops, calls_lem}
use exchange_sim.SpscQueue.Interleaving.{Step, run, IsFifo, run-IsFifo}
use exchange_sim.SpscQueue.{
  SpscQueue, ceil_bits, new, looks_full, load_head, publish, try_push, try_pop,
}

-- The producer has sent 7 at the index 2 and has not seen yet that the consumer took the element 1.
abbrev ring : SpscQueue ℕ
ring = record { cap = 2; tail = 3; head_cache = 1; head = 2; tail_cache = 2; buf = 7 ∷ 6 ∷ [] }

new_ring : new {A = ℕ} 0 3 ≡ record {
  cap = 4;
  tail = 0;
  head_cache = 0;
  head = 0;
  tail_cache = 0;
  buf = 0 ∷ 0 ∷ 0 ∷ 0 ∷ [];
}
unfolding new ceil_bits
new_ring = refl

ring-IsValid : IsValid 0 ring
ring-IsValid = record {
  sized = refl;
  positive = omega arith;
  head_lags = omega arith;
  tail_lags = omega arith;
  head_bound = omega arith;
  fits = omega arith;
  small = omega arith;
}

pushes : ((try_push 8 ring).0 ≡ true) × (contents 0 (try_push 8 ring).1 ≡ 7 ∷ 8 ∷ [])
unfolding try_push looks_full load_head publish contents elements
pushes = (refl, refl)

calls_lem_example : Pushes 0 8 ring (try_push 8 ring) × Pops 0 ring (try_pop 0 ring)
calls_lem_example = calls_lem 0 ring ring-IsValid 8 (omega arith)

run-IsFifo_example :
    IsFifo 0 ring
      (run 0 (Step.see_tail ∷ Step.send 8 ∷ Step.see_head ∷ Step.take ∷ Step.send 9 ∷ []) ring)
run-IsFifo_example =
    run-IsFifo 0 (Step.see_tail ∷ Step.send 8 ∷ Step.see_head ∷ Step.take ∷ Step.send 9 ∷ []) ring
      ring-IsValid (omega arith)
