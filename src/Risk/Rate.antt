-- ===== src/Risk/Rate.antt =====
-- include/exsim/risk.hpp: the rate limit over a sequence of messages, through the whole of `process`.
use exchange_sim.Base.{
  ℕ, ◌+◌, ◌*◌, ◌^◌, ◌≤◌, ◌<◌, ◌≡◌, refl, ap, sym, ◌∙◌, ◌≢◌, ◌⊎◌, inl, inr, Bool, Option, none, some,
  List, [], ◌∷◌, ◌++◌, arith, get_or, length, All,
}
use exchange_sim.Domain.{Command, MsgType, Reason, Sink}
use exchange_sim.Risk.Arrivals.{counts, Step, check-Step, burst, accept_sum}
use exchange_sim.Risk.{
  RiskConfig, Gate, arrive, check, halt, resume, set_halt_all, pass_on, verdict, process, tap_all,
}

-- What happens at the gate: a message comes in, or a halt is set or lifted.
pub data Action : Type 0 where
  message : Command → Action
  halting resuming : ℕ → Action
  halting_all : Bool → Action

unfoldable pub IsUntil : ℕ → Action → Type 0
IsUntil last (message c) = c.ts ≤ last
IsUntil last (halting i) = Unit
IsUntil last (resuming i) = Unit
IsUntil last (halting_all on) = Unit

-- 1 for a new order or modify of this owner that goes on to the engine, on a symbol that the gate knows.
unfoldable pub counted : ℕ → Action → Gate → ℕ
counted o (message c) g = elim c.type [ MsgType.cancel ↦ 0 | _ ↦ counts o c g ]
counted o _ g = 0

-- One action, seen from one owner.
abbrev ActStep : ℕ → Action → ℕ → Gate → Gate → Type 0
ActStep o a last g g' =
    (g'.cfg ≡ g.cfg)
    × (g'.interval ≡ g.interval)
    × (length g'.tat ≡ length g.tat)
    × (((counted o a g ≡ 0) × (get_or g'.tat o 0 ≡ get_or g.tat o 0))
        ⊎ ((counted o a g ≡ 1)
            × ((ts : ℕ) × ((ts ≤ last)
                  × (arrive g.cfg g.interval (get_or g.tat o 0) ts ≡ some (get_or g'.tat o 0))))))

module _ {E : Type 0} (engine : Command → E → Option (E × Sink)) where
  unfoldable pub act : Action → Gate × E × Sink → Option (Gate × E × Sink)
  act (message c) (g, e, sink) = process engine c g e sink
  act (halting i) (g, e, sink) = some (halt i g, e, sink)
  act (resuming i) (g, e, sink) = some (resume i g, e, sink)
  act (halting_all on) (g, e, sink) = some (set_halt_all on g, e, sink)

  -- How many new orders and modifies of an owner go on to the engine, on symbols that the gate knows,
  -- in a sequence of actions, which ends at a fault of the engine.
  unfoldable pub passes : ℕ → List Action → Gate × E × Sink → ℕ
  passes o [] st = 0
  passes o (a ∷ acts) st = elim (act a st) [
    | none ↦ 0
    | some st' ↦ counted o a st.0 + passes o acts st'
  ]

  unfoldable After : ℕ → Action → ℕ → Gate → Option (Gate × E × Sink) → Type 0
  After o a last g none = Unit
  After o a last g (some st) = ActStep o a last g st.0

  -- What the engine gets, and what it trades, leaves the limits as they are.
  pass_on-After :
      (o : ℕ) (a : Action) (last : ℕ) (c : Command) (g g' : Gate) (e : E) (sink : Sink)
      → ActStep o a last g g'
      → After o a last g (pass_on engine c g' e sink)
  unfolding pass_on After
  pass_on-After o a last c g g' e sink s = by_result (engine c e)
    where
      by_result :
          (r : Option (E × Sink))
          → After o a last g (elim r [
            | none ↦ none
            | some (e', events) ↦
                some (record g' { last_px = tap_all events g'.last_px }, e', events ++ sink)
          ])
      by_result none = tt
      by_result (some r) = s

  verdict-After :
      (o : ℕ) (a : Action) (last : ℕ) (c : Command) (g : Gate) (r : Reason × Gate) (e : E)
      (sink : Sink)
      → ActStep o a last g r.1
      → After o a last g (verdict engine r c e sink)
  unfolding verdict After
  verdict-After o a last c g (Reason.none, g') e sink s = pass_on-After o a last c g g' e sink s
  verdict-After o a last c g (r, g') e sink s = s

  checked-ActStep :
      (o last : ℕ) (c : Command) (g : Gate)
      → c.type ≢ MsgType.cancel
      → c.ts ≤ last
      → Step o c g
      → ActStep o (message c) last g (check c g).1
  unfolding counted
  checked-ActStep o last c g n h (a, b, l, inl f) = (a, b, l, inl (ground (arith, n, f.0), f.1))
  checked-ActStep o last c g n h (a, b, l, inr f) =
      (a, b, l, inr (ground (arith, n, f.0), (c.ts, (h, f.1))))

  process-After :
      (o last : ℕ) (c : Command) (g : Gate) (e : E) (sink : Sink)
      → c.ts ≤ last
      → Step o c g
      → After o (message c) last g (process engine c g e sink)
  unfolding process counted
  process-After o last c g e sink h s = by_type c.type refl
    where
      by_type :
          (k : MsgType)
          → c.type ≡ k
          → After o (message c) last g (elim k [
            | MsgType.cancel ↦ pass_on engine c g e sink
            | _ ↦ verdict engine (check c g) c e sink
          ])
      by_type MsgType.cancel q =
          pass_on-After o (message c) last c g g e sink
            (refl, refl, refl, inl (ground (arith, q), refl))
      by_type MsgType.new_order q =
          verdict-After o (message c) last c g (check c g) e sink
            (checked-ActStep o last c g (λ z. ground (arith, q, z)) h s)
      by_type MsgType.modify q =
          verdict-After o (message c) last c g (check c g) e sink
            (checked-ActStep o last c g (λ z. ground (arith, q, z)) h s)

  act-After :
      (o : ℕ) (a : Action) (last : ℕ) (st : Gate × E × Sink)
      → IsUntil last a
      → length st.0.tat ≡ st.0.cfg.max_owners
      → st.0.interval ≢ 0
      → After o a last st.0 (act a st)
  unfolding act After halt resume set_halt_all counted IsUntil
  act-After o (halting i) last st u l k = (refl, refl, refl, inl (refl, refl))
  act-After o (resuming i) last st u l k = (refl, refl, refl, inl (refl, refl))
  act-After o (halting_all on) last st u l k = (refl, refl, refl, inl (refl, refl))
  act-After o (message c) last (g, e, sink) u l k =
      process-After o last c g e sink u (check-Step o c g l k)

  -- What the bound asks of a state, and what it says of the messages `n` that pass.
  abbrev Bounded : ℕ → ℕ → Gate → ℕ → Type 0
  Bounded o last g n = get_or g.tat o 0 + n * g.interval ≤ last + burst g.cfg * g.interval

  abbrev Starts : ℕ → ℕ → Gate → Type 0
  Starts o last g =
      (length g.tat ≡ g.cfg.max_owners)
      × ((g.interval ≢ 0)
          × ((last + burst g.cfg * g.interval + g.interval < 2 ^ 64)
              × (get_or g.tat o 0 ≤ last + burst g.cfg * g.interval)))

  -- A bound of the next gate, as one of this.
  transfer :
      (o last n : ℕ) (g g' : Gate)
      → g'.cfg ≡ g.cfg
      → g'.interval ≡ g.interval
      → length g'.tat ≡ length g.tat
      → Starts o last g
      → (Starts o last g' → Bounded o last g' n)
      → get_or g'.tat o 0 ≤ last + burst g.cfg * g.interval
      → get_or g'.tat o 0 + n * g.interval ≤ last + burst g.cfg * g.interval
  transfer o last n g g' e f m (l, (k, (w, h))) ih q =
      rw (e, f) at
        (ih (m ∙ l ∙ ap RiskConfig.max_owners (sym e), (rw f k, (rw (e, f) w, rw (e, f) q))))

  one_more :
      (o last : ℕ) (a : Action) (acts : List Action) (g : Gate) (r : Option (Gate × E × Sink))
      → Starts o last g
      → After o a last g r
      → ((st : Gate × E × Sink) → Starts o last st.0 → Bounded o last st.0 (passes o acts st))
      → Bounded o last g (elim r [ none ↦ 0 | some st ↦ counted o a g + passes o acts st ])
  unfolding After
  one_more o last a acts g none z f ih = ground (arith, z.1.1.1)
  one_more o last a acts g (some st) z (e, f, m, inl n) ih =
      let h = z.1.1.1 in
      let r = transfer o last (passes o acts st) g st.0 e f m z (ih st) (omega (arith, n.1, h)) in
      rw n.0 (ground (arith, n.1, r))
  one_more o last a acts g (some st) z (e, f, m, inr n) ih = rw n.0 (
      accept_sum g.cfg g.interval (get_or g.tat o 0) n.1.0 (get_or st.0.tat o 0) (passes o acts st)
        last n.1.1.1 n.1.1.0 z.1.1.0 z.1.1.1
        (transfer o last (passes o acts st) g st.0 e f m z (ih st)))

  -- Of a sequence of messages and halts whose times do not exceed `last`, an owner gets no more new
  -- orders and modifies past the gate, on symbols that the gate knows, than a burst and one for each
  -- interval until `last`, whatever the order of the times, whatever other owners send and whatever the
  -- engine trades: the gate has an arrival time for each owner, the rate limit is on, the owner's arrival time is not past that bound at the start,
  -- and the bound does not reach 2^64. Messages on symbols that the gate does not know, which it leaves
  -- to the engine to refuse, are not counted. A burst of 0 is one message.
  pub passes_bound :
      (o last : ℕ) (acts : List Action) (st : Gate × E × Sink)
      → All (IsUntil last) acts
      → length st.0.tat ≡ st.0.cfg.max_owners
      → st.0.interval ≢ 0
      → last + burst st.0.cfg * st.0.interval + st.0.interval < 2 ^ 64
      → get_or st.0.tat o 0 ≤ last + burst st.0.cfg * st.0.interval
      → get_or st.0.tat o 0 + passes o acts st * st.0.interval
        ≤ last + burst st.0.cfg * st.0.interval
  unfolding passes
  passes_bound o last [] st a l k w h = omega (arith, h)
  passes_bound o last (x ∷ acts) st a l k w h =
      one_more o last x acts st.0 (act x st) (l, (k, (w, h))) (act-After o x last st a.0 l k)
        (λ st' z. passes_bound o last acts st' a.1 z.0 z.1.0 z.1.1.0 z.1.1.1)
