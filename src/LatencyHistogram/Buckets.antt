-- ===== src/LatencyHistogram/Buckets.antt =====
-- include/exsim/latency_histogram.hpp: `index` against `upper_bound`.
use exchange_sim.Base.{
  ℕ, suc, zero, ◌+◌, ◌-◌, ◌*◌, ◌/◌, ◌%◌, ◌^◌, ◌<◌, ◌≤◌, ltb, ◌≡◌, refl, ap, ◌∙◌, false, Bool-cases,
  inl, inr, arith,
}
use native.Mathlib.Nat.{
  pow-suc, suc-mul, mod-lt, le-div_iff_mul-le, div-lt_iff_lt-mul, div-add-mod',
}
use exchange_sim.LatencyHistogram.{sub_bits, buckets, highest_bit, index, upper_bound}

-- The highest bit of a number that is not 0, with enough halvings.
highest_bit_lem :
    (n v : ℕ)
    → 0 < v
    → v < 2 ^ n
    → (highest_bit n v < n) × ((2 ^ highest_bit n v ≤ v) × (v < 2 * 2 ^ highest_bit n v))
unfolding highest_bit
highest_bit_lem zero v h h' = absurd (omega (arith, h, h'))
highest_bit_lem (suc n) v h h' = elim (Bool-cases (ltb v 2)) [
  | inl e ↦ rw (e, highest_bit) (omega arith, (ground (arith, h), ground (arith, e)))
  | inr e ↦
      let b : v / 2 < 2 ^ n = omega (arith, h', pow-suc 2 n) in
      let r = highest_bit_lem n (v / 2) (ground (arith, e)) b in
      let p = pow-suc 2 (highest_bit n (v / 2)) in
      rw (e, highest_bit) (omega (arith, r.0), (omega (arith, r.1.0, p), omega (arith, r.1.1, p)))
]

pow_positive : (n : ℕ) → 0 < 2 ^ n
pow_positive zero = omega arith
pow_positive (suc n) = omega (arith, pow-suc 2 n, pow_positive n)

pow_five : (n : ℕ) → 2 ^ (n + 5) ≡ 32 * 2 ^ n
pow_five n =
    let e : 2 ^ (n + 5) ≡ 2 ^ suc (suc (suc (suc (suc n)))) = ap (λ (k : ℕ). 2 ^ k) (omega arith) in
    omega (
      arith,
      e,
      pow-suc 2 n,
      pow-suc 2 (suc n),
      pow-suc 2 (suc (suc n)),
      pow-suc 2 (suc (suc (suc n))),
      pow-suc 2 (suc (suc (suc (suc n)))),
    )

pow_small : (n : ℕ) → n < 5 → 2 ^ n ≤ 16
pow_small zero h = omega arith
pow_small (suc zero) h = omega arith
pow_small (suc (suc zero)) h = omega arith
pow_small (suc (suc (suc zero))) h = omega arith
pow_small (suc (suc (suc (suc zero)))) h = omega arith
pow_small (suc (suc (suc (suc (suc n))))) h = absurd (omega (arith, h))

upper_bound_large : (i : ℕ) → 32 ≤ i → upper_bound i ≡ (i % 32 + 32 + 1) * 2 ^ (i / 32 - 1) - 1
unfolding upper_bound
upper_bound_large i h = let e : ltb i 32 ≡ false = ground (arith, h) in rw (e, upper_bound) refl

-- The high bits of a number that is not in the first row of buckets.
module _ (v : ℕ) (h : 32 ≤ v) (h' : v < 2 ^ 64) where
  shift : ℕ
  shift = highest_bit 64 v - sub_bits

  high : ℕ
  high = v / 2 ^ shift

  highest_from : 5 ≤ highest_bit 64 v
  highest_from = elim (Bool-cases (ltb (highest_bit 64 v) 5)) [
    | inr e ↦ ground (arith, e)
    | inl e ↦
        let r = highest_bit_lem 64 v (omega (arith, h)) h' in
        absurd (omega (arith, r.1.1, h, pow_small (highest_bit 64 v) (ground (arith, e))))
  ]

  shift_lem : (shift < 59) × ((32 * 2 ^ shift ≤ v) × (v < 64 * 2 ^ shift))
  unfolding shift
  shift_lem =
      let r = highest_bit_lem 64 v (omega (arith, h)) h' in
      let m = highest_bit 64 v in
      let e : 2 ^ m ≡ 32 * 2 ^ (m - 5) =
        ap (λ (k : ℕ). 2 ^ k) (omega (arith, highest_from)) ∙ pow_five (m - 5) in
      (omega (arith, r.0), (omega (arith, r.1.0, e), omega (arith, r.1.1, e)))

  high_lem : (32 ≤ high) × (high < 64)
  unfolding high
  high_lem =
      let s = shift_lem in
      let p = pow_positive shift in
      (
        (le-div_iff_mul-le {k = 2 ^ shift} {x = 32} {y = v} p).1 s.1.0,
        (div-lt_iff_lt-mul {k = 2 ^ shift} {x = v} {y = 64} p).1 s.1.1,
      )

  index_eq : index v ≡ (shift + 1) * 32 + high - 32
  unfolding index shift high
  index_eq = let e : ltb v 32 ≡ false = ground (arith, h) in rw (e, index) refl

  upper_bound_eq : upper_bound (index v) ≡ (high + 1) * 2 ^ shift - 1
  upper_bound_eq =
      let i = index v in
      let m : i % 32 + 32 + 1 ≡ high + 1 = omega (arith, index_eq, high_lem) in
      let d : i / 32 - 1 ≡ shift = omega (arith, index_eq, high_lem) in
      upper_bound_large i (omega (arith, index_eq, high_lem))
      ∙ ap (λ (k : ℕ). k * 2 ^ (i / 32 - 1) - 1) m
      ∙ ap (λ (k : ℕ). (high + 1) * 2 ^ k - 1) d

  large_lem :
      (index v < buckets) × ((v ≤ upper_bound (index v)) × ((upper_bound (index v) - v) * 32 ≤ v))
  unfolding high
  large_lem =
      let p = 2 ^ shift in
      let e : (high + 1) * p ≡ high * p + p =
        ap (λ (k : ℕ). k * p) (omega arith) ∙ suc-mul high p in
      let d : high * p + v % p ≡ v = div-add-mod' v p in
      let m = mod-lt v {m = p} (pow_positive shift) in
      (
        omega (arith, index_eq, high_lem, shift_lem),
        (
          omega (arith, upper_bound_eq, e, d, m, pow_positive shift),
          omega (arith, upper_bound_eq, e, d, m, shift_lem, pow_positive shift),
        ),
      )

-- A value of 64 bits falls into one of the buckets; the bound that its bucket reports is no less than
-- the value, and more by no more than a part in 32 of it.
pub upper_bound-index :
    (v : ℕ)
    → v < 2 ^ 64
    → (index v < buckets) × ((v ≤ upper_bound (index v)) × ((upper_bound (index v) - v) * 32 ≤ v))
unfolding index upper_bound
upper_bound-index v h = elim (Bool-cases (ltb v 32)) [
  | inr e ↦ large_lem v (ground (arith, e)) h
  | inl e ↦ ground (arith, e)
]
