-- ===== src/Risk/Arrivals.antt =====
-- include/exsim/risk.hpp: the rate limit, a generic cell rate algorithm, on one message.
use exchange_sim.Base.{
  ℕ, zero, suc, ◌+◌, ◌-◌, ◌*◌, ◌^◌, ◌≤◌, ◌<◌, ◌≡◌, refl, ap, ◌∙◌, ◌≢◌, ◌⊎◌, inl, inr, Bool, true,
  false, none, some, List, [], ◌∷◌, arith, Bool-cases, Option-cases, get_elem?, get_or, length,
  length-set, get_or-set_self, get_or-set_ne, ltb, ◌==◌, max, ◌&&◌, if◌then◌else◌,
}
use exchange_sim.Base.Int.{ℤ}
use exchange_sim.Domain.{Command, Reason}
use native.Mathlib.Nat.{mul-zero, suc-mul, mul_comm}
use exchange_sim.Risk.{RiskConfig, Gate, arrive, check_rate, check}

-- An arrival that is let through, where nothing wraps.
arrive_lem :
    (cfg : RiskConfig) (i tat ts t' : ℕ)
    → arrive cfg i tat ts ≡ some t'
    → i * (cfg.burst - 1) < 2 ^ 64
    → max ts tat + i < 2 ^ 64
    → (t' ≡ max ts tat + i) × (tat ≤ ts + i * (cfg.burst - 1))
unfolding arrive
arrive_lem cfg i tat ts t' e h k = elim (Bool-cases (cfg.burst == 0)) [
  | inl z ↦ ground (arith, mul-zero i)
  | inr z ↦ ground arith
]

abbrev pub is_none : Reason → Bool
is_none Reason.none = true
is_none _ = false

abbrev pub is_known : ℕ → List ℤ → Bool
is_known s px = ltb s (length px)

-- 1 for a message of this owner that `check` lets pass, on a symbol that the gate knows.
abbrev pub counts : ℕ → Command → Gate → ℕ
counts o c g =
    if (is_known c.symbol g.last_px && c.owner == o) && is_none (check c g).0 then 1 else 0

-- One check, seen from one owner.
abbrev pub Step : ℕ → Command → Gate → Type 0
Step o c g =
    let g' = (check c g).1 in
    (g'.cfg ≡ g.cfg)
    × (g'.interval ≡ g.interval)
    × (length g'.tat ≡ length g.tat)
    × (((counts o c g ≡ 0) × (get_or g'.tat o 0 ≡ get_or g.tat o 0))
        ⊎ ((counts o c g ≡ 1)
            × (arrive g.cfg g.interval (get_or g.tat o 0) c.ts ≡ some (get_or g'.tat o 0))))

unknown : (px : List ℤ) (i : ℕ) → get_elem? px i ≡ none → ltb i (length px) ≡ false
unknown [] i e = ground arith
unknown (x ∷ px) zero e = cc
unknown (x ∷ px) (suc i) e = ground (arith, unknown px i e)

known : (px : List ℤ) (i : ℕ) (last : ℤ) → get_elem? px i ≡ some last → ltb i (length px) ≡ true
known [] i last e = cc
known (x ∷ px) zero last e = ground arith
known (x ∷ px) (suc i) last e = ground (arith, known px i last e)

-- The rate check alone: a refusal that changes nothing, or an arrival of the command's owner.
abbrev RateStep : ℕ → Command → Gate → Type 0
RateStep o c g =
    let r = check_rate c g in
    (r.1.cfg ≡ g.cfg)
    × (r.1.interval ≡ g.interval)
    × (length r.1.tat ≡ length g.tat)
    × (((is_none r.0 ≡ false) × (r.1 ≡ g))
        ⊎ ((is_none r.0 ≡ true)
            × (((o ≡ c.owner)
                  × (arrive g.cfg g.interval (get_or g.tat o 0) c.ts ≡ some (get_or r.1.tat o 0)))
                ⊎ ((c.owner ≢ o) × (get_or r.1.tat o 0 ≡ get_or g.tat o 0)))))

rate_step :
    (o : ℕ) (c : Command) (g : Gate)
    → length g.tat ≡ g.cfg.max_owners
    → g.interval ≢ 0
    → RateStep o c g
unfolding check_rate
rate_step o c g h k = elim (Option-cases (arrive g.cfg g.interval (get_or g.tat c.owner 0) c.ts)) [
  | inl e ↦ ground arith
  | inr (t, e) ↦ elim (Bool-cases (c.owner == o)) [
    | inl same ↦ ground (arith, length-set g.tat c.owner t, get_or-set_self g.tat c.owner t 0)
    | inr other ↦
        let n : c.owner ≢ o = ground arith in
        ground (arith, length-set g.tat c.owner t, get_or-set_ne g.tat t 0 n)
  ]
]

-- With a known symbol, `check` refuses before the rate check or ends with it.
check_cases :
    (c : Command) (g : Gate) (last : ℤ)
    → get_elem? g.last_px c.symbol ≡ some last
    → ((is_none (check c g).0 ≡ false) × ((check c g).1 ≡ g)) ⊎ (check c g ≡ check_rate c g)
unfolding check
check_cases c g last e = ground arith

check_unknown : (c : Command) (g : Gate) → get_elem? g.last_px c.symbol ≡ none → (check c g).1 ≡ g
unfolding check
check_unknown c g e = ground arith

known-Step :
    (o : ℕ) (c : Command) (g : Gate)
    → ltb c.symbol (length g.last_px) ≡ true
    → check c g ≡ check_rate c g
    → RateStep o c g
    → Step o c g
known-Step o c g n e (a, b, l, inl f) =
    rw (e, n) (a, b, l, inl (rw f.0 (ground arith), ap (λ (x : Gate). get_or x.tat o 0) f.1))
known-Step o c g n e (a, b, l, inr (t, inl f)) = rw (e, n, t) (a, b, l, inr (ground arith, f.1))
known-Step o c g n e (a, b, l, inr (t, inr f)) = rw (e, n, t) (a, b, l, inl (ground arith, f.1))

pub check-Step :
    (o : ℕ) (c : Command) (g : Gate) → length g.tat ≡ g.cfg.max_owners → g.interval ≢ 0 → Step o c g
check-Step o c g h k = elim (Option-cases (get_elem? g.last_px c.symbol)) [
  | inl e ↦
      rw (check_unknown c g e, unknown g.last_px c.symbol e) (refl, refl, refl, inl (refl, refl))
  | inr (last, e) ↦
      let n = known g.last_px c.symbol last e in
      elim (check_cases c g last e) [
        | inl f ↦ rw (f.1, n, f.0) (refl, refl, refl, inl (ground arith, refl))
        | inr f ↦ known-Step o c g n f (rate_step o c g h k)
      ]
]

burst_split : (b i : ℕ) → 0 < b → i * (b - 1) + i ≡ b * i
burst_split zero i h = absurd (omega arith)
burst_split (suc k) i h =
    let e : suc k - 1 ≡ k = omega arith in rw e (omega (arith, suc-mul k i, mul_comm i k))

-- The messages that may arrive together: one, where the configuration says none.
abbrev pub burst : RiskConfig → ℕ
burst cfg = max 1 cfg.burst

-- One message more, against the bound of the sequence.
pub accept_sum :
    (cfg : RiskConfig) (i tat ts t' n last : ℕ)
    → arrive cfg i tat ts ≡ some t'
    → ts ≤ last
    → last + burst cfg * i + i < 2 ^ 64
    → tat ≤ last + burst cfg * i
    → (t' ≤ last + burst cfg * i → t' + n * i ≤ last + burst cfg * i)
    → tat + (1 + n) * i ≤ last + burst cfg * i
accept_sum cfg i tat ts t' n last e h w k rest =
    let q : cfg.burst - 1 ≡ burst cfg - 1 = omega arith in
    let s = ap (λ (m : ℕ). i * m + i) q ∙ burst_split (burst cfg) i (omega arith) in
    let f = arrive_lem cfg i tat ts t' e (omega (arith, s, w)) (omega (arith, s, w, h, k)) in
    let r = rest (omega (arith, s, f, h, k)) in omega (arith, s, f, r)
