-- ===== src/SpscQueue/Calls.antt =====
-- include/exsim/spsc_queue.hpp: what `try_push` and `try_pop` return.
use exchange_sim.Base.{
  ℕ, ◌+◌, ◌-◌, ◌^◌, ◌<◌, Bool, true, false, ◌⊎◌, ◌≡◌, refl, ap, ◌∙◌, sym, Option, none, some, List,
  [], ◌∷◌, ◌++◌, length, get_or, ◌%◌, arith, Bool-cases, inl, inr, subst,
}
use exchange_sim.SpscQueue.{
  SpscQueue, looks_full, load_head, publish, try_push, looks_empty, load_tail, front, pop, try_pop,
}
use exchange_sim.SpscQueue.Steps.{
  elements, contents, IsValid, load_head-IsValid, load_tail-IsValid, publish-IsValid,
  contents-publish, pop-IsValid, contents-pop, full_lem, length-elements,
}

module _ {ℓ} {A : Type ℓ} (zeroed : A) where
  -- The push is accepted and the element is the last one, or the ring has no room and is as it was.
  abbrev pub Pushes : A → SpscQueue A → Bool × SpscQueue A → Type ℓ
  Pushes v q r =
      IsValid zeroed r.1
      × (((r.0 ≡ true) × (contents zeroed r.1 ≡ contents zeroed q ++ v ∷ []))
          ⊎ ((r.0 ≡ false)
              × ((length (contents zeroed q) ≡ q.cap) × (contents zeroed r.1 ≡ contents zeroed q))))

  -- The oldest element is taken out, or the ring is empty.
  abbrev pub Pops : SpscQueue A → Option A × SpscQueue A → Type ℓ
  Pops q r =
      IsValid zeroed r.1
      × (((r.0 ≡ none) × ((contents zeroed q ≡ []) × (contents zeroed r.1 ≡ [])))
          ⊎ ((v : A) × ((r.0 ≡ some v) × (contents zeroed q ≡ v ∷ contents zeroed r.1))))

  second_try :
      (q : SpscQueue A) (v : A)
      → looks_full q ≡ true
      → looks_full (load_head q) ≡ false
      → try_push v q ≡ (true, publish v (load_head q))
  unfolding try_push
  second_try q v e g = rw (e, g, try_push) refl

  no_room :
      (q : SpscQueue A) (v : A)
      → looks_full q ≡ true
      → looks_full (load_head q) ≡ true
      → try_push v q ≡ (false, load_head q)
  unfolding try_push
  no_room q v e g = rw (e, g, try_push) refl

  contents-load_head : (q : SpscQueue A) → contents zeroed (load_head q) ≡ contents zeroed q
  unfolding contents load_head
  contents-load_head q = refl

  contents-load_tail : (q : SpscQueue A) → contents zeroed (load_tail q) ≡ contents zeroed q
  unfolding contents load_tail
  contents-load_tail q = refl

  finish_pop : Option A × SpscQueue A → Option A × SpscQueue A
  finish_pop r = elim r.0 [ none ↦ r | some v ↦ (some v, pop r.1) ]

  module _ (q : SpscQueue A) where
    front_at_once :
        looks_empty q ≡ false → front zeroed q ≡ (some (get_or q.buf (q.head % q.cap) zeroed), q)
    unfolding front
    front_at_once e = rw (e, front) refl

    front_late :
        looks_empty q ≡ true
        → looks_empty (load_tail q) ≡ false
        → front zeroed q ≡ (some (get_or q.buf (q.head % q.cap) zeroed), load_tail q)
    unfolding front
    front_late e g = rw (e, g, front) refl

    front_none :
        looks_empty q ≡ true
        → looks_empty (load_tail q) ≡ true
        → front zeroed q ≡ (none, load_tail q)
    unfolding front
    front_none e g = rw (e, g, front) refl

    try_pop-front :
        (r : Option A × SpscQueue A) → front zeroed q ≡ r → try_pop zeroed q ≡ finish_pop r
    unfolding try_pop finish_pop
    try_pop-front r e = ap finish_pop e

  length-contents : (q : SpscQueue A) → length (contents zeroed q) ≡ q.tail - q.head
  unfolding contents
  length-contents q = length-elements zeroed (q.tail - q.head) q.head q.cap q.buf

  module _ (q : SpscQueue A) (w : IsValid zeroed q) where
    accepted : (v : A) → q.tail + 1 < 2 ^ 64 → looks_full q ≡ false → Pushes v q (true, publish v q)
    accepted v s e =
        (publish-IsValid zeroed q w v s e, inl (refl, contents-publish zeroed q w v s e))

    retried :
        (v : A)
        → q.tail + 1 < 2 ^ 64
        → looks_full (load_head q) ≡ false
        → Pushes v q (true, publish v (load_head q))
    unfolding load_head
    retried v s g =
        let w' = load_head-IsValid zeroed q w in
        (
          publish-IsValid zeroed (load_head q) w' v s g,
          inl (
            refl,
            contents-publish zeroed (load_head q) w' v s g
                ∙ ap (λ (xs : List A). xs ++ v ∷ []) (contents-load_head q),
          ),
        )

    refused : (v : A) → looks_full (load_head q) ≡ true → Pushes v q (false, load_head q)
    unfolding load_head
    refused v g =
        let w' = load_head-IsValid zeroed q w in
        (
          w',
          inr (
            refl,
            (
              omega (arith, length-contents q, full_lem zeroed (load_head q) w' g),
              contents-load_head q,
            ),
          ),
        )

    popped : looks_empty q ≡ false → Pops q (some (get_or q.buf (q.head % q.cap) zeroed), pop q)
    popped e = (pop-IsValid zeroed q w e, inr (_, (refl, contents-pop zeroed q w e)))

    popped_late :
        looks_empty (load_tail q) ≡ false
        → Pops q (some (get_or q.buf (q.head % q.cap) zeroed), pop (load_tail q))
    unfolding load_tail
    popped_late e =
        let w' = load_tail-IsValid zeroed q w in
        (
          pop-IsValid zeroed (load_tail q) w' e,
          inr (_, (refl, sym (contents-load_tail q) ∙ contents-pop zeroed (load_tail q) w' e)),
        )

    found_empty : looks_empty (load_tail q) ≡ true → Pops q (none, load_tail q)
    unfolding load_tail looks_empty contents elements
    found_empty e =
        let d : q.tail - q.head ≡ 0 = ground (arith, e) in
        let z = ap (λ (k : ℕ). elements zeroed k q.head q.cap q.buf) d in
        (load_tail-IsValid zeroed q w, inl (refl, (z, z)))

    pub try_push-Pushes : (v : A) → q.tail + 1 < 2 ^ 64 → Pushes v q (try_push v q)
    unfolding try_push
    try_push-Pushes v s = elim (Bool-cases (looks_full q)) [
      | inr e ↦ rw (e, try_push) (accepted v s e)
      | inl e ↦ elim (Bool-cases (looks_full (load_head q))) [
        | inr g ↦ subst (Pushes v q) (sym (second_try q v e g)) (retried v s g)
        | inl g ↦ subst (Pushes v q) (sym (no_room q v e g)) (refused v g)
      ]
    ]

    pub try_pop-Pops : Pops q (try_pop zeroed q)
    unfolding finish_pop
    try_pop-Pops = elim (Bool-cases (looks_empty q)) [
      | inr e ↦ subst (Pops q) (sym (try_pop-front q _ (front_at_once q e))) (popped e)
      | inl e ↦ elim (Bool-cases (looks_empty (load_tail q))) [
        | inr g ↦ subst (Pops q) (sym (try_pop-front q _ (front_late q e g))) (popped_late g)
        | inl g ↦ subst (Pops q) (sym (try_pop-front q _ (front_none q e g))) (found_empty g)
      ]
    ]

    -- On a valid ring, while `tail_` can still count, `try_push` either accepts the element as the last
    -- one, or finds as many elements as the ring can hold and leaves them; `try_pop` either takes out the
    -- oldest element, or finds the ring empty; and both keep the ring valid.
    pub calls_lem :
        (v : A) → q.tail + 1 < 2 ^ 64 → Pushes v q (try_push v q) × Pops q (try_pop zeroed q)
    calls_lem v s = (try_push-Pushes v s, try_pop-Pops)
