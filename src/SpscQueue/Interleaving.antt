-- ===== src/SpscQueue/Interleaving.antt =====
-- include/exsim/spsc_queue.hpp: the steps of the two sides in any order.
use exchange_sim.Base.{
  ℕ, suc, ◌+◌, ◌^◌, ◌<◌, true, false, ◌≡◌, refl, ap, subst, ◌∙◌, sym, List, [], ◌∷◌, ◌++◌, length,
  get_or, ◌%◌, arith, Bool-cases, inl, inr, append-nil, append_assoc,
}
use exchange_sim.SpscQueue.{SpscQueue, looks_full, load_head, publish, looks_empty, load_tail, pop}
use exchange_sim.SpscQueue.Steps.{
  contents, IsValid, load_head-IsValid, load_tail-IsValid, publish-IsValid, contents-publish,
  pop-IsValid, contents-pop,
}

-- A step that the other side can see. `try_push` loads the head at most once and then sends, or gives
-- up; `try_pop` loads the tail at most once and then takes, or gives up.
pub data Step {ℓ} (A : Type ℓ) : Type ℓ where
  see_head see_tail take : Step A
  send : A → Step A

-- What a run has sent and taken, oldest first, and the ring at its end.
pub record Run {ℓ} (A : Type ℓ) : Type ℓ where
  pub sent : List A
  pub taken : List A
  pub ring : SpscQueue A

module _ {ℓ} {A : Type ℓ} (zeroed : A) where
  -- A ring that looks full is not written, one that looks empty is not read.
  unfoldable pub run : List (Step A) → SpscQueue A → Run A
  run [] q = record { sent = []; taken = []; ring = q }
  run (see_head ∷ ss) q = run ss (load_head q)
  run (see_tail ∷ ss) q = run ss (load_tail q)
  run (send v ∷ ss) q = elim (looks_full q) [
    | true ↦ run ss q
    | false ↦ let r = run ss (publish v q) in record r { sent = v ∷ r.sent }
  ]
  run (take ∷ ss) q = elim (looks_empty q) [
    | true ↦ run ss q
    | false ↦
        let r = run ss (pop q) in
        record r { taken = get_or q.buf (q.head % q.cap) zeroed ∷ r.taken }
  ]

  abbrev pub IsFifo : SpscQueue A → Run A → Type ℓ
  IsFifo q r =
      IsValid zeroed r.ring × (contents zeroed q ++ r.sent ≡ r.taken ++ contents zeroed r.ring)

  contents-load_head : (q : SpscQueue A) → contents zeroed (load_head q) ≡ contents zeroed q
  unfolding contents load_head
  contents-load_head q = refl

  contents-load_tail : (q : SpscQueue A) → contents zeroed (load_tail q) ≡ contents zeroed q
  unfolding contents load_tail
  contents-load_tail q = refl

  tail-load_head : (q : SpscQueue A) (n : ℕ) → q.tail + n < 2 ^ 64 → (load_head q).tail + n < 2 ^ 64
  unfolding load_head
  tail-load_head q n h = h

  tail-load_tail : (q : SpscQueue A) (n : ℕ) → q.tail + n < 2 ^ 64 → (load_tail q).tail + n < 2 ^ 64
  unfolding load_tail
  tail-load_tail q n h = h

  tail-pop : (q : SpscQueue A) (n : ℕ) → q.tail + n < 2 ^ 64 → (pop q).tail + n < 2 ^ 64
  unfolding pop
  tail-pop q n h = h

  tail-publish :
      (v : A) (q : SpscQueue A) (n : ℕ) → q.tail + suc n < 2 ^ 64 → (publish v q).tail + n < 2 ^ 64
  unfolding publish
  tail-publish v q n h = omega (arith, h)

  IsFifo-same :
      (q q' : SpscQueue A) (r : Run A)
      → contents zeroed q' ≡ contents zeroed q
      → IsFifo q' r
      → IsFifo q r
  IsFifo-same q q' r e f = (f.0, ap (λ (xs : List A). xs ++ r.sent) (sym e) ∙ f.1)

  run-send :
      (v : A) (ss : List (Step A)) (q : SpscQueue A)
      → looks_full q ≡ false
      → run (send v ∷ ss) q
        ≡ record (run ss (publish v q)) { sent = v ∷ (run ss (publish v q)).sent }
  unfolding run
  run-send v ss q e = rw (e, run) refl

  run-take :
      (ss : List (Step A)) (q : SpscQueue A)
      → looks_empty q ≡ false
      → run (take ∷ ss) q ≡ record (run ss (pop q)) {
        taken = get_or q.buf (q.head % q.cap) zeroed ∷ (run ss (pop q)).taken;
      }
  unfolding run
  run-take ss q e = rw (e, run) refl

  -- From a valid ring, while `tail_` can count all the steps, what it held and what has been sent
  -- since is what has been taken and what it holds, in order, whatever the order of the steps; and the
  -- ring is valid at the end.
  pub run-IsFifo :
      (ss : List (Step A)) (q : SpscQueue A)
      → IsValid zeroed q
      → q.tail + length ss < 2 ^ 64
      → IsFifo q (run ss q)
  unfolding run
  run-IsFifo [] q w s = (w, append-nil (contents zeroed q))
  run-IsFifo (see_head ∷ ss) q w s = IsFifo-same q (load_head q) _ (contents-load_head q) (
      run-IsFifo ss (load_head q) (load_head-IsValid zeroed q w)
        (tail-load_head q (length ss) (omega (arith, s))))
  run-IsFifo (see_tail ∷ ss) q w s = IsFifo-same q (load_tail q) _ (contents-load_tail q) (
      run-IsFifo ss (load_tail q) (load_tail-IsValid zeroed q w)
        (tail-load_tail q (length ss) (omega (arith, s))))
  run-IsFifo (send v ∷ ss) q w s = elim (Bool-cases (looks_full q)) [
    | inl e ↦ rw (e, run) (run-IsFifo ss q w (omega (arith, s)))
    | inr e ↦
        let b : q.tail + 1 < 2 ^ 64 = omega (arith, s) in
        let f =
          run-IsFifo ss (publish v q) (publish-IsValid zeroed q w v b e)
            (tail-publish v q (length ss) (omega (arith, s))) in
        subst (IsFifo q) (sym (run-send v ss q e)) (
          f.0,
          sym (append_assoc (contents zeroed q) (v ∷ []) (run ss (publish v q)).sent)
              ∙ ap (λ (xs : List A). xs ++ (run ss (publish v q)).sent)
                  (sym (contents-publish zeroed q w v b e))
              ∙ f.1,
        )
  ]
  run-IsFifo (take ∷ ss) q w s = elim (Bool-cases (looks_empty q)) [
    | inl e ↦ rw (e, run) (run-IsFifo ss q w (omega (arith, s)))
    | inr e ↦
        let f =
          run-IsFifo ss (pop q) (pop-IsValid zeroed q w e)
            (tail-pop q (length ss) (omega (arith, s))) in
        subst (IsFifo q) (sym (run-take ss q e)) (
          f.0,
          ap (λ (xs : List A). xs ++ (run ss (pop q)).sent) (contents-pop zeroed q w e)
              ∙ ap (λ (xs : List A). get_or q.buf (q.head % q.cap) zeroed ∷ xs) f.1,
        )
  ]
