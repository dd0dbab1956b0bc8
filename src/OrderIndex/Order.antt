-- ===== src/OrderIndex/Order.antt =====
-- include/exsim/order_index.hpp: the Robin Hood order of the table, and a write that
-- keeps it.
use exchange_sim.Base.{
  ℕ, suc, zero, ◌+◌, ◌-◌, ◌%◌, ◌^◌, ◌<◌, ◌≤◌, ltb, ◌==◌, true, false, ◌⊎◌, ◌≡◌, ◌≢◌, ap, ◌∙◌, sym,
  subst, List, set, length, arith, Bool-cases, inl, inr,
}
use exchange_sim.Base.Remainders.{mod_ne}
use native.Mathlib.Nat.{
  mod-lt, mod-add-mod, mod-eq_of_lt, add-mod_right, mod_self, mod-mod_of_dvd, dvd_of_mod-eq-zero,
}
use exchange_sim.OrderIndex.Entries.{after_bound, slot-set_self, slot-set_ne}
use exchange_sim.OrderIndex.{
  Slot, OrderIndex, slot, after, home, dist, is_empty, ordered_from, robin_hood_ordered,
}

module _ (mask : ℕ) where
  -- An entry `u` in the table slot `j` behind the table slot `i` with `s`: where it is not in its home, its
  -- distance from there is at most one more than that of `s`.
  abbrev pub Fit : ℕ → Slot → ℕ → Slot → Type 0
  Fit i s j u =
      (is_empty u ≡ true)
      ⊎ ((dist mask j u.fp ≡ 0)
          ⊎ ((is_empty s ≡ false) × (dist mask j u.fp ≤ dist mask i s.fp + 1)))

  -- The Robin Hood order.
  unfoldable pub IsOrdered : List Slot → Type 0
  IsOrdered ss = (i : ℕ) → i < mask + 1 → Fit i (slot i ss) (after mask i) (slot (after mask i) ss)

  -- The entry `x` may stand in the table slot `i`, as far as the slot before it says.
  abbrev pub FitsAt : Slot → ℕ → List Slot → Type 0
  FitsAt x i ss = (p : ℕ) → p < mask + 1 → after mask p ≡ i → Fit p (slot p ss) i x

  pub after_ne : 0 < mask → (i : ℕ) → i < mask + 1 → after mask i ≢ i
  unfolding after
  after_ne h i b e =
      mod_ne (mask + 1) i 1 (omega arith) (omega (arith, h)) (e ∙ sym (mod-eq_of_lt b))

  -- Two slots with the same slot behind them are one.
  pub after_inj : (p i : ℕ) → p < mask + 1 → i < mask + 1 → after mask p ≡ after mask i → p ≡ i
  unfolding after
  after_inj p i a b e = elim (Bool-cases (ltb p i)) [
    | inl z ↦
        let q : p + 1 + (i - p) ≡ i + 1 = ground (arith, z) in
        absurd (
          mod_ne (mask + 1) (p + 1) (i - p) (ground (arith, z)) (omega (arith, b))
            (ap (λ (k : ℕ). k % (mask + 1)) q ∙ sym e))
    | inr z ↦ elim (Bool-cases (p == i)) [
      | inl y ↦ ground (arith, y)
      | inr y ↦
          let q : i + 1 + (p - i) ≡ p + 1 = ground (arith, z, y) in
          absurd (
            mod_ne (mask + 1) (i + 1) (p - i) (ground (arith, z, y)) (omega (arith, a))
              (ap (λ (k : ℕ). k % (mask + 1)) q ∙ e))
    ]
  ]

  module _ (w : 2 ^ 32 % (mask + 1) ≡ 0) where
    pub dist_eq : (i fp : ℕ) → dist mask i fp ≡ (i + (2 ^ 32 - fp)) % (mask + 1)
    unfolding dist
    dist_eq i fp =
        mod-mod_of_dvd (mask + 1) (i + (2 ^ 32 - fp)) (dvd_of_mod-eq-zero (mask + 1) {n = 2 ^ 32} w)

    pub dist-home : (fp : ℕ) → fp < 2 ^ 32 → dist mask (home mask fp) fp ≡ 0
    unfolding home
    dist-home fp h =
        let q : fp + (2 ^ 32 - fp) ≡ 2 ^ 32 = omega (arith, h) in
        dist_eq (fp % (mask + 1)) fp
        ∙ mod-add-mod fp (mask + 1) (2 ^ 32 - fp)
        ∙ ap (λ (k : ℕ). k % (mask + 1)) q
        ∙ w

    dist-after : (i fp : ℕ) → dist mask (after mask i) fp ≡ (dist mask i fp + 1) % (mask + 1)
    unfolding after
    dist-after i fp =
        let y = 2 ^ 32 - fp in
        let q : i + 1 + y ≡ i + y + 1 = omega arith in
        dist_eq ((i + 1) % (mask + 1)) fp
        ∙ mod-add-mod (i + 1) (mask + 1) y
        ∙ ap (λ (k : ℕ). k % (mask + 1)) q
        ∙ sym (mod-add-mod (i + y) (mask + 1) 1)
        ∙ ap (λ (k : ℕ). (k + 1) % (mask + 1)) (sym (dist_eq i fp))

    pub dist_limit : (i fp : ℕ) → dist mask i fp < mask + 1
    dist_limit i fp =
        omega (arith, dist_eq i fp, mod-lt (i + (2 ^ 32 - fp)) {m = mask + 1} (omega arith))

    pub dist_up :
        (i fp : ℕ)
        → dist mask i fp + 1 < mask + 1
        → dist mask (after mask i) fp ≡ dist mask i fp + 1
    dist_up i fp h = dist-after i fp ∙ mod-eq_of_lt h

    pub dist_down :
        (i fp : ℕ)
        → dist mask (after mask i) fp ≢ 0
        → dist mask (after mask i) fp ≡ dist mask i fp + 1
    dist_down i fp h = elim (Bool-cases (dist mask i fp == mask)) [
      | inl z ↦
          let q : dist mask i fp + 1 ≡ mask + 1 = ground (arith, z) in
          absurd (h (dist-after i fp ∙ ap (λ (k : ℕ). k % (mask + 1)) q ∙ mod_self (mask + 1)))
      | inr z ↦ dist_up i fp (ground (arith, z, dist_limit i fp))
    ]

    pub few : mask + 1 ≤ 2 ^ 32
    few = elim (Bool-cases (ltb (2 ^ 32) (mask + 1))) [
      | inl z ↦
          let q : 2 ^ 32 < mask + 1 = ground (arith, z) in
          let e : 2 ^ 32 % (mask + 1) ≡ 2 ^ 32 = mod-eq_of_lt q in absurd (omega (arith, w, e))
      | inr z ↦ ground (arith, z)
    ]

    module _ (two : 0 < mask) where
      -- A write to the table slot `i` that fits between its neighbours.
      pub set-IsOrdered :
          (i : ℕ) (x : Slot) (ss : List Slot)
          → i < mask + 1
          → length ss ≡ mask + 1
          → IsOrdered ss
          → FitsAt x i ss
          → Fit i x (after mask i) (slot (after mask i) ss)
          → IsOrdered (set ss i x)
      unfolding IsOrdered
      set-IsOrdered i x ss b l o f g q h = elim (Bool-cases (q == i)) [
        | inl z ↦
            let d : i ≡ q = ground (arith, z) in
            let n : i ≢ after mask i = λ e. after_ne two i b (sym e) in
            subst
              (λ (k : ℕ).
                Fit k (slot k (set ss i x)) (after mask k) (slot (after mask k) (set ss i x)))
              d
              (rw (slot-set_self i x ss (omega (arith, b, l)), slot-set_ne i (after mask i) x ss n)
                g)
        | inr z ↦
            let d : i ≢ q = ground (arith, z) in
            elim (Bool-cases (after mask q == i)) [
              | inl y ↦
                  let e : after mask q ≡ i = ground (arith, y) in
                  rw (slot-set_ne i q x ss d, e, slot-set_self i x ss (omega (arith, b, l)))
                    (f q h e)
              | inr y ↦
                  let e : i ≢ after mask q = ground (arith, y) in
                  rw (slot-set_ne i q x ss d, slot-set_ne i (after mask q) x ss e) (o q h)
            ]
      ]

ordered_at :
    (mask : ℕ) (ss : List Slot) (n i j : ℕ)
    → ordered_from mask ss n i ≡ true
    → i ≤ j
    → j < i + n
    → Fit mask ((j + mask) % (mask + 1)) (slot ((j + mask) % (mask + 1)) ss) j (slot j ss)
unfolding ordered_from
ordered_at mask ss zero i j e a b = absurd (omega (arith, a, b))
ordered_at mask ss (suc n) i j e a b = elim (Bool-cases (i == j)) [
  | inl z ↦
      let q : i ≡ j = ground (arith, z) in
      subst
        (λ (k : ℕ).
          Fit mask ((k + mask) % (mask + 1)) (slot ((k + mask) % (mask + 1)) ss) k (slot k ss))
        q (ground (arith, e))
  | inr z ↦
      ordered_at mask ss n (i + 1) j (ground (arith, e)) (ground (arith, z, a)) (omega (arith, b))
]

before-after : (mask i : ℕ) → i < mask + 1 → (after mask i + mask) % (mask + 1) ≡ i
unfolding after
before-after mask i b =
    let q : i + 1 + mask ≡ i + (mask + 1) = omega arith in
    mod-add-mod (i + 1) (mask + 1) mask
    ∙ ap (λ (k : ℕ). k % (mask + 1)) q
    ∙ add-mod_right i (mask + 1)
    ∙ mod-eq_of_lt b

-- `robin_hood_ordered` tells no table to be in order that is not.
pub robin_hood_ordered-IsOrdered :
    (t : OrderIndex) → robin_hood_ordered t ≡ true → IsOrdered t.mask t.slots
unfolding robin_hood_ordered IsOrdered
robin_hood_ordered-IsOrdered t e i b =
    subst
      (λ (p : ℕ). Fit t.mask p (slot p t.slots) (after t.mask i) (slot (after t.mask i) t.slots))
      (before-after t.mask i b)
      (ordered_at t.mask t.slots (t.mask + 1) 0 (after t.mask i) e (omega arith)
        (omega (arith, after_bound t.mask i)))
