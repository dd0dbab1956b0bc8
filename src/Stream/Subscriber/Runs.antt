-- ===== src/Stream/Subscriber/Runs.antt =====
-- include/exsim/seqstream.hpp: delivery of a run of commands, and of what is stashed behind it.
use exchange_sim.Base.{
  ℕ, zero, suc, ◌+◌, ◌-◌, ◌^◌, ◌<◌, ◌≤◌, ◌≡◌, refl, ◌∙◌, subst, inl, inr, ltb, leb, ◌==◌, true,
  false, List, [], ◌∷◌, ◌++◌, length, drop, length-drop, length-append, All, arith, Bool-cases,
}
use exchange_sim.Domain.{Command}
use exchange_sim.Stream.Subscriber.{
  Stash, Subscriber, end_of, deliver, deliver_new, unstash, emplace, stash_early, take_commands,
}

-- `stream` is the primary's stream, the command of every sequence number.
module _ (stream : ℕ → Command) where
  -- The commands of the stream from `k` on, as many as there are.
  abbrev pub IsSlice : ℕ → List Command → Type 0
  IsSlice k [] = Unit
  IsSlice k (c ∷ v) = (c ≡ stream k) × IsSlice (k + 1) v

  -- A slice whose sequence numbers do not come to the end of 64 bits.
  abbrev pub IsRun : ℕ → List Command → Type 0
  IsRun k v = IsSlice k v × (k + length v < 2 ^ 64)

  abbrev pub AreRuns : Stash → Type 0
  AreRuns = All (λ (e : ℕ × List Command). IsRun e.0 e.1)

  -- What an operation that delivers `r.1` does: it goes on where it was expected to.
  abbrev pub Delivers : Subscriber → Subscriber × List Command → Type 0
  Delivers s r =
      IsSlice s.expected r.1
      × (r.0.expected ≡ s.expected + length r.1)
      × AreRuns r.0.stash
      × (r.0.epoch ≡ s.epoch)

  drop-IsSlice : (n k : ℕ) (v : List Command) → IsSlice k v → IsSlice (k + n) (drop n v)
  unfolding drop
  drop-IsSlice zero k v h = let e : k + 0 ≡ k = omega arith in rw e h
  drop-IsSlice (suc n) k [] h = tt
  drop-IsSlice (suc n) k (c ∷ v) h =
      let e : k + suc n ≡ k + 1 + n = omega arith in rw e (drop-IsSlice n (k + 1) v h.1)

  pub append-IsSlice :
      (k : ℕ) (v w : List Command) → IsSlice k v → IsSlice (k + length v) w → IsSlice k (v ++ w)
  append-IsSlice k [] w h g = let e : k ≡ k + 0 = omega arith in rw e g
  append-IsSlice k (c ∷ v) w h g =
      let e : k + 1 + length v ≡ k + suc (length v) = omega arith in
      (h.0, append-IsSlice (k + 1) v w h.1 (rw e g))

  -- Two deliveries, one after the other.
  pub Delivers-both :
      (s : Subscriber) (r q : Subscriber × List Command)
      → Delivers s r
      → Delivers r.0 q
      → Delivers s (q.0, r.1 ++ q.1)
  Delivers-both s r q (a, b, c, d) (e, f, g, h) = (
    append-IsSlice s.expected r.1 q.1 a (rw (← b) e),
    omega (arith, length-append r.1 q.1, b, f),
    g,
    h ∙ d,
  )

  pub deliver-Delivers :
      (first : ℕ) (cmds : List Command) (s : Subscriber)
      → IsRun first cmds
      → AreRuns s.stash
      → first ≤ s.expected
      → s.expected ≤ first + length cmds
      → Delivers s (deliver first cmds s)
  unfolding deliver
  deliver-Delivers first cmds s (h, w) t a b =
      let e : first + (s.expected - first) ≡ s.expected = omega arith in
      (
        subst (λ (k : ℕ). IsSlice k (drop (s.expected - first) cmds)) e
            (drop-IsSlice (s.expected - first) first cmds h),
        omega (arith, length-drop (s.expected - first) cmds),
        t,
        refl,
      )

  pub nothing-Delivers :
      (s t : Subscriber)
      → t.expected ≡ s.expected
      → AreRuns t.stash
      → t.epoch ≡ s.epoch
      → Delivers s (t, [])
  nothing-Delivers s t e h p = (tt, omega (arith, e), h, p)

  deliver_new-Delivers :
      (first : ℕ) (cmds : List Command) (s : Subscriber)
      → IsRun first cmds
      → AreRuns s.stash
      → first ≤ s.expected
      → Delivers s (deliver_new first cmds s)
  unfolding deliver_new
  deliver_new-Delivers first cmds s h t a = elim (Bool-cases (ltb s.expected (end_of first cmds))) [
    | inl e ↦ rw (e, deliver_new) (deliver-Delivers first cmds s h t a (ground (arith, h.1)))
    | inr e ↦ rw (e, deliver_new) (nothing-Delivers s s refl t refl)
  ]

  unstash_reached :
      (first : ℕ) (cmds : List Command) (st : Stash) (s : Subscriber)
      → leb first s.expected ≡ true
      → let r = deliver_new first cmds s in
        unstash ((first, cmds) ∷ st) s ≡ ((unstash st r.0).0, r.1 ++ (unstash st r.0).1)
  unfolding unstash
  unstash_reached first cmds st s e = ground (arith, e)

  unstash_early :
      (first : ℕ) (cmds : List Command) (st : Stash) (s : Subscriber)
      → leb first s.expected ≡ false
      → unstash ((first, cmds) ∷ st) s ≡ (record s { stash = (first, cmds) ∷ st }, [])
  unfolding unstash
  unstash_early first cmds st s e = ground (arith, e)

  pub unstash-Delivers :
      (st : Stash) (s : Subscriber) → AreRuns st → AreRuns s.stash → Delivers s (unstash st s)
  unfolding unstash
  unstash-Delivers [] s h t = nothing-Delivers s (record s { stash = [] }) refl tt refl
  unstash-Delivers ((first, cmds) ∷ st) s h t = elim (Bool-cases (leb first s.expected)) [
    | inr e ↦
        rw (unstash_early first cmds st s e)
          (nothing-Delivers s (record s { stash = (first, cmds) ∷ st }) refl h refl)
    | inl e ↦
        let r = deliver_new first cmds s in
        let d = deliver_new-Delivers first cmds s h.0 t (ground arith) in
        rw (unstash_reached first cmds st s e)
          (Delivers-both s r (unstash st r.0) d (unstash-Delivers st r.0 h.1 d.2))
  ]

  emplace-AreRuns :
      (first : ℕ) (cmds : List Command) (st : Stash)
      → IsRun first cmds
      → AreRuns st
      → AreRuns (emplace first cmds st)
  unfolding emplace
  emplace-AreRuns first cmds [] h t = (h, tt)
  emplace-AreRuns first cmds ((k, v) ∷ st) h t = elim (Bool-cases (ltb first k)) [
    | inl e ↦ rw e (h, t)
    | inr e ↦ elim (Bool-cases (first == k)) [
      | inl g ↦ rw (e, g) t
      | inr g ↦ rw (e, g) (t.0, emplace-AreRuns first cmds st h t.1)
    ]
  ]

  pub take_commands-Delivers :
      (first : ℕ) (cmds : List Command) (s : Subscriber)
      → IsRun first cmds
      → AreRuns s.stash
      → s.expected < first + length cmds
      → Delivers s (take_commands first cmds s)
  unfolding take_commands stash_early
  take_commands-Delivers first cmds s h t b = elim (Bool-cases (ltb s.expected first)) [
    | inl e ↦ rw e (
        nothing-Delivers s (stash_early first cmds s) refl (emplace-AreRuns first cmds s.stash h t)
          refl)
    | inr e ↦
        let r = deliver first cmds s in
        let d = deliver-Delivers first cmds s h t (ground arith) (omega arith) in
        rw e (Delivers-both s r (unstash s.stash r.0) d (unstash-Delivers s.stash r.0 t d.2))
  ]
