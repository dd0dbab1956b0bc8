-- ===== src/Base/Remainders.antt =====
-- Remainders of the positions of a ring.
use exchange_sim.Base.{ℕ, ◌+◌, ◌-◌, ◌%◌, ◌<◌, ◌≤◌, ltb, ◌≡◌, ◌≢◌, ◌∙◌, inl, inr, arith, Bool-cases}
use native.Mathlib.Nat.{mod-lt, mod-add-mod, mod-eq_of_lt, mod-eq-sub-mod}

-- Numbers closer than `n` have different remainders.
pub mod_ne : (n a d : ℕ) → 0 < d → d < n → (a + d) % n ≢ a % n
mod_ne n a d h g e =
    let r = mod-lt a {m = n} (omega arith) in
    let s : (a % n + d) % n ≡ a % n = mod-add-mod a n d ∙ e in
    elim (Bool-cases (ltb (a % n + d) n)) [
      | inl z ↦ let q : a % n + d < n = ground arith in omega (arith, s, mod-eq_of_lt q)
      | inr z ↦
          let q : n ≤ a % n + d = ground arith in
          let q' : a % n + d - n < n = omega (arith, r) in
          omega (arith, s, mod-eq-sub-mod q, mod-eq_of_lt q', r)
    ]
