-- ===== src/Risk/Limits.antt =====
-- include/exsim/risk.hpp: what a command that passes the gate satisfies, and what a refusal leaves.
use exchange_sim.Base.{
  zero, suc, ◌+◌, ◌*◌, ◌%◌, ◌^◌, ◌≤◌, ◌<◌, ℕ, if◌then◌else◌, ◌≡◌, refl, ◌≢◌, ◌↔◌, ◌⊎◌, inl, inr,
  true, false, Option, some, ◌∷◌, arith, Bool-cases, get_elem?, get_or, ◌==◌,
}
use exchange_sim.Base.Int.{
  ℤ, pos, negsuc, neg_part, -ℤ_parts, +ℤ_parts, pos_part, ◌≤ℤ◌, ◌+ℤ◌, ◌-ℤ◌, ltb_ℤ,
}
use exchange_sim.Domain.{Command, Sink, MsgType, Reason, rejected_event}
use native.Mathlib.Nat.{div-lt_iff_lt-mul}
use exchange_sim.Risk.{
  RiskConfig, Gate, is_priced, is_zero, over_notional, out_of_collar, to_int64, distance,
  check_rate, check, verdict, process,
}

-- The notional test by a division decides whether the product of the price, 0 for a negative one,
-- and the quantity exceeds the limit, at any size: of a priced command, where a limit is set.
pub over_notional_iff :
    (cfg : RiskConfig) (c : Command)
    → is_priced c ≡ true
    → 0 < cfg.max_notional
    → (over_notional cfg c ≡ true) ↔ (cfg.max_notional < pos_part c.price * c.qty)
unfolding over_notional
over_notional_iff cfg c p h = elim (Bool-cases (c.qty == 0)) [
  | inl z ↦ let e : c.qty ≡ 0 = ground arith in rw e (ground arith)
  | inr z ↦ ground (
    arith,
    div-lt_iff_lt-mul {k = c.qty} {x = cfg.max_notional} {y = pos_part c.price} (ground arith),
  )
]

nonzero : (p : ℤ) → p ≢ pos 0 → is_zero p ≡ false
nonzero (pos zero) h = absurd (h refl)
nonzero (pos (suc n)) h = ground arith
nonzero (negsuc n) h = ground arith

-- Prices less than 2^63 apart.
abbrev pub AreClose : ℤ → ℤ → Type 0
AreClose p q =
    (pos_part p + neg_part q < pos_part q + neg_part p + 2 ^ 63)
    × (pos_part q + neg_part p < pos_part p + neg_part q + 2 ^ 63)

to_int64_lem : (p : ℤ) → pos_part p < 2 ^ 63 → neg_part p < 2 ^ 63 → to_int64 p ≡ p
unfolding to_int64
to_int64_lem (pos n) a b = ground (arith, a)
to_int64_lem (negsuc n) a b = ground (arith, b)

narrow :
    (d : ℤ) (a b : ℕ)
    → pos_part d + b ≡ neg_part d + a
    → a < b + 2 ^ 63
    → b < a + 2 ^ 63
    → to_int64 d ≡ d
narrow (pos n) a b e h k = to_int64_lem (pos n) (omega arith) (omega arith)
narrow (negsuc n) a b e h k = to_int64_lem (negsuc n) (omega arith) (omega arith)

-- Where nothing wraps.
distance_eq :
    (p q : ℤ)
    → AreClose p q
    → distance p q ≡ (let d = p -ℤ q in if ltb_ℤ d (pos 0) then pos 0 -ℤ d else d)
unfolding distance
distance_eq p q c =
    let d = p -ℤ q in
    let e = -ℤ_parts p q in
    let f = -ℤ_parts (pos 0) d in
    rw
      (
        narrow d (pos_part p + neg_part q) (pos_part q + neg_part p) (omega (arith, e)) c.0 c.1,
        narrow (pos 0 -ℤ d) (pos_part q + neg_part p) (pos_part p + neg_part q)
            (omega (arith, e, f)) c.1 c.0,
      )
      refl

distance_lem :
    (p q k : ℤ) → AreClose p q → ltb_ℤ k (distance p q) ≡ false → (p ≤ℤ q +ℤ k) × (q ≤ℤ p +ℤ k)
distance_lem p q k c h = ground (
  arith,
  distance_eq p q c,
  h,
  -ℤ_parts p q,
  -ℤ_parts (pos 0) (p -ℤ q),
  +ℤ_parts q k,
  +ℤ_parts p k,
)

-- The collar test bounds the distance of two prices.
collar_lem :
    (cfg : RiskConfig) (last : ℤ) (c : Command)
    → AreClose c.price last
    → is_priced c ≡ true
    → cfg.collar_ticks ≢ pos 0
    → last ≢ pos 0
    → out_of_collar cfg last c ≡ false
    → (c.price ≤ℤ last +ℤ cfg.collar_ticks) × (last ≤ℤ c.price +ℤ cfg.collar_ticks)
unfolding out_of_collar
collar_lem cfg last c a p h k e =
    distance_lem c.price last cfg.collar_ticks a
      (ground (arith, nonzero cfg.collar_ticks h, nonzero last k, p, e))

-- What the limits ask of a command at a gate whose last trade price of the symbol is `last`. A
-- price is limited where the command has one, and the collar where a trade has set a price.
pub record Allowed (c : Command) (g : Gate) (last : ℤ) : Type 0 where
  pub running : (g.halt_all ≡ false) × (get_or g.halted c.symbol false ≡ false)
  pub small : c.qty ≤ g.cfg.max_qty
  pub cheap :
      (is_priced c ≡ false)
      ⊎ ((g.cfg.max_notional ≡ 0) ⊎ (pos_part c.price * c.qty ≤ g.cfg.max_notional))
  pub near :
      (is_priced c ≡ false)
      ⊎ ((g.cfg.collar_ticks ≡ pos 0)
          ⊎ ((last ≡ pos 0)
              ⊎ ((c.price ≤ℤ last +ℤ g.cfg.collar_ticks)
                  × (last ≤ℤ c.price +ℤ g.cfg.collar_ticks))))
  pub known : c.owner < g.cfg.max_owners

ℤ-zero : (p : ℤ) → (p ≡ pos 0) ⊎ (p ≢ pos 0)
ℤ-zero (pos zero) = inl refl
ℤ-zero (pos (suc n)) = inr (λ e. ground arith)
ℤ-zero (negsuc n) = inr (λ e. ground arith)

cheap_lem :
    (cfg : RiskConfig) (c : Command)
    → over_notional cfg c ≡ false
    → (is_priced c ≡ false)
      ⊎ ((cfg.max_notional ≡ 0) ⊎ (pos_part c.price * c.qty ≤ cfg.max_notional))
cheap_lem cfg c n = elim (Bool-cases (is_priced c)) [
  | inr p ↦ inl p
  | inl p ↦ elim (Bool-cases (cfg.max_notional == 0)) [
    | inl z ↦ inr (inl (ground arith))
    | inr z ↦ inr (inr (ground (arith, over_notional_iff cfg c p (ground arith))))
  ]
]

near_lem :
    (cfg : RiskConfig) (last : ℤ) (c : Command)
    → AreClose c.price last
    → out_of_collar cfg last c ≡ false
    → (is_priced c ≡ false)
      ⊎ ((cfg.collar_ticks ≡ pos 0)
          ⊎ ((last ≡ pos 0)
              ⊎ ((c.price ≤ℤ last +ℤ cfg.collar_ticks) × (last ≤ℤ c.price +ℤ cfg.collar_ticks))))
near_lem cfg last c a o = elim (Bool-cases (is_priced c)) [
  | inr p ↦ inl p
  | inl p ↦ elim (ℤ-zero cfg.collar_ticks) [
    | inl z ↦ inr (inl z)
    | inr z ↦ elim (ℤ-zero last) [
      | inl y ↦ inr (inr (inl y))
      | inr y ↦ inr (inr (inr (collar_lem cfg last c a p z y o)))
    ]
  ]
]

-- The gate's checks in the order of the code, as facts of a command that passes them.
passed_tests :
    (c : Command) (g : Gate) (last : ℤ)
    → get_elem? g.last_px c.symbol ≡ some last
    → (check c g).0 ≡ Reason.none
    → (g.halt_all ≡ false)
      × (get_or g.halted c.symbol false ≡ false)
      × (c.qty ≤ g.cfg.max_qty)
      × (over_notional g.cfg c ≡ false)
      × (out_of_collar g.cfg last c ≡ false)
      × (c.owner < g.cfg.max_owners)
unfolding check check_rate
passed_tests c g last e h = ground arith

-- A new order or modify of a known symbol that the gate lets pass is within every limit: nothing
-- is halted, its quantity, its price times its quantity and its distance from the last trade are
-- in range, and its owner is known. Its price is less than 2^63 away from that of the last trade, so
-- that the difference does not wrap.
pub check-Allowed :
    (c : Command) (g : Gate) (last : ℤ)
    → get_elem? g.last_px c.symbol ≡ some last
    → AreClose c.price last
    → (check c g).0 ≡ Reason.none
    → Allowed c g last
check-Allowed c g last e w h =
    let (a, b, q, n, o, k) = passed_tests c g last e h in
    record {
      running = (a, b);
      small = q;
      cheap = cheap_lem g.cfg c n;
      near = near_lem g.cfg last c w o;
      known = k;
    }

check_refused : (c : Command) (g : Gate) → (check c g).0 ≢ Reason.none → (check c g).1 ≡ g
unfolding check check_rate
check_refused c g h = ground arith

-- A new order or modify that the gate refuses does not reach the engine and changes nothing of the
-- gate but its counter, the owner's rate limit included; the sink gets the refusal alone.
pub process_refused :
    {E : Type 0} (engine : Command → E → Option (E × Sink)) (c : Command) (g : Gate) (e : E)
    (sink : Sink)
    → c.type ≢ MsgType.cancel
    → (check c g).0 ≢ Reason.none
    → process engine c g e sink
      ≡ some (
        record g { rejected = (g.rejected + 1) % 2 ^ 64 },
        e,
        rejected_event c (check c g).0 ∷ sink,
      )
unfolding process verdict
process_refused engine c g e sink n h = ground (arith, check_refused c g h)
