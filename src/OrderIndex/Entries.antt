-- ===== src/OrderIndex/Entries.antt =====
-- include/exsim/order_index.hpp: which store slots are in the table after `insert` and `remove_at`.
use exchange_sim.Base.{
  ℕ, suc, zero, ◌+◌, ◌%◌, ◌<◌, ltb, ◌==◌, if◌then◌else◌, Bool, true, false, ◌||◌, ◌&&◌, ◌⊎◌, ◌≡◌,
  ◌≢◌, refl, ap, ◌∙◌, sym, Option, none, some, List, [], ◌∷◌, set, length, arith, Bool-cases, inl,
  inr, length-set, get_or-set_self, get_or-set_ne,
}
use native.Mathlib.Nat.{mod-lt, mod-add-mod, mod-eq_of_lt}
use exchange_sim.OrderStore.{k_nil}
use exchange_sim.OrderIndex.{Slot, slot, empty_slot, after, dist, is_empty, place, shift_back}

abbrev pub one_if : Bool → ℕ
one_if b = if b then 1 else 0

abbrev pub same_slot : Slot → Slot → Bool
same_slot s v = s.value == v.value && s.fp == v.fp

-- How many table slots hold the entry `v`, its fingerprint and its store slot.
unfoldable pub count_slot : Slot → List Slot → ℕ
count_slot v [] = 0
count_slot v (s ∷ ss) = one_if (same_slot s v) + count_slot v ss

count_slot-set :
    (v : Slot) (i : ℕ) (x : Slot) (ss : List Slot)
    → i < length ss
    → count_slot v (set ss i x) + one_if (same_slot (slot i ss) v)
      ≡ count_slot v ss + one_if (same_slot x v)
unfolding count_slot slot
count_slot-set v i x [] h = absurd (omega (arith, h))
count_slot-set v zero x (s ∷ ss) h = omega arith
count_slot-set v (suc i) x (s ∷ ss) h = omega (arith, count_slot-set v i x ss (omega (arith, h)))

pub slot-set_self : (i : ℕ) (x : Slot) (ss : List Slot) → i < length ss → slot i (set ss i x) ≡ x
unfolding slot
slot-set_self i x ss h = get_or-set_self ss i x empty_slot h

pub slot-set_ne : (i j : ℕ) (x : Slot) (ss : List Slot) → i ≢ j → slot j (set ss i x) ≡ slot j ss
unfolding slot
slot-set_ne i j x ss h = get_or-set_ne ss x empty_slot h

module _ (mask : ℕ) where
  -- The table slot `g` steps after `i`.
  unfoldable pub ahead : ℕ → ℕ → ℕ
  ahead i g = (i + g) % (mask + 1)

  pub ahead-after : (i g : ℕ) → ahead i (suc g) ≡ ahead (after mask i) g
  unfolding ahead after
  ahead-after i g =
      ap (λ (k : ℕ). k % (mask + 1)) (omega arith) ∙ sym (mod-add-mod (i + 1) (mask + 1) g)

  pub ahead_here : (i : ℕ) → i < mask + 1 → ahead i 0 ≡ i
  unfolding ahead
  ahead_here i h = ap (λ (k : ℕ). k % (mask + 1)) (omega arith) ∙ mod-eq_of_lt h

  pub after_bound : (i : ℕ) → after mask i < mask + 1
  unfolding after
  after_bound i = mod-lt (i + 1) {m = mask + 1} (omega arith)

  -- The loop has ended, and holds what was there and the new entry.
  unfoldable pub Adds : Slot → List Slot → Option (List Slot) → Type 0
  Adds x ss none = ⊥
  Adds x ss (some ss') =
      (length ss' ≡ length ss)
      × ((v : Slot)
          → (v.value ≡ k_nil) ⊎ (count_slot v ss' ≡ count_slot v ss + one_if (same_slot x v)))

  Adds-set :
      (x : Slot) (i : ℕ) (ss : List Slot)
      → i < length ss
      → is_empty (slot i ss) ≡ true
      → Adds x ss (some (set ss i x))
  unfolding Adds
  Adds-set x i ss h e = (length-set ss i x, λ v. ground (arith, count_slot-set v i x ss h, e))

  Adds-swap :
      (x : Slot) (i : ℕ) (ss : List Slot) (o : Option (List Slot))
      → i < length ss
      → Adds (slot i ss) (set ss i x) o
      → Adds x ss o
  unfolding Adds
  Adds-swap x i ss none h f = f
  Adds-swap x i ss (some ss') h f =
      (f.0 ∙ length-set ss i x, λ v. ground (arith, count_slot-set v i x ss h, f.1 v))

  pub still_empty :
      (i j : ℕ) (x : Slot) (ss : List Slot)
      → is_empty (slot i ss) ≡ false
      → is_empty (slot j ss) ≡ true
      → is_empty (slot j (set ss i x)) ≡ true
  still_empty i j x ss h e = elim (Bool-cases (i == j)) [
    | inl d ↦
        let d' : i ≡ j = ground (arith, d) in
        ground (arith, ap (λ (k : ℕ). is_empty (slot k ss)) d', h, e)
    | inr d ↦ ap is_empty (slot-set_ne i j x ss (ground (arith, d))) ∙ e
  ]

  -- An empty slot `g` steps after one that is not empty is less than that far from the next one.
  pub nearer :
      (g i : ℕ) (ss : List Slot)
      → i < mask + 1
      → is_empty (slot i ss) ≡ false
      → is_empty (slot (ahead i g) ss) ≡ true
      → (k : ℕ) × ((g ≡ suc k) × (is_empty (slot (ahead (after mask i) k) ss) ≡ true))
  nearer zero i ss b h e =
      absurd (ground (arith, ap (λ (k : ℕ). is_empty (slot k ss)) (ahead_here i b), h, e))
  nearer (suc g) i ss b h e =
      (g, (refl, ap (λ (k : ℕ). is_empty (slot k ss)) (sym (ahead-after i g)) ∙ e))

  -- From `i` on there is an empty slot within `g` steps.
  pub place-Adds :
      (n g : ℕ) (x : Slot) (i d : ℕ) (ss : List Slot)
      → g < n
      → i < mask + 1
      → length ss ≡ mask + 1
      → is_empty (slot (ahead i g) ss) ≡ true
      → Adds x ss (place mask x n i d ss)
  unfolding place
  place-Adds zero g x i d ss h b l e = absurd (omega (arith, h))
  place-Adds (suc n) g x i d ss h b l e = elim (Bool-cases (is_empty (slot i ss))) [
    | inl z ↦ rw (z, place) (Adds-set x i ss (omega (arith, b, l)) z)
    | inr z ↦
        let k = nearer g i ss b z e in
        elim (Bool-cases (ltb (dist mask i (slot i ss).fp) d)) [
          | inl y ↦
              rw (z, y, place)
                (Adds-swap x i ss _ (omega (arith, b, l)) (
                  place-Adds n k.0 (slot i ss) (after mask i) _ (set ss i x)
                    (omega (arith, h, k.1.0)) (after_bound i) (length-set ss i x ∙ l)
                    (still_empty i (ahead (after mask i) k.0) x ss z k.1.1)))
          | inr y ↦
              rw (z, y, place)
                (place-Adds n k.0 x (after mask i) _ ss (omega (arith, h, k.1.0)) (after_bound i) l
                  k.1.1)
        ]
  ]

  -- The loop has ended, and holds what was there without the entry of the slot `hole`.
  unfoldable pub Removes : ℕ → List Slot → Option (List Slot) → Type 0
  Removes hole ss none = ⊥
  Removes hole ss (some ss') =
      (length ss' ≡ length ss)
      × ((v : Slot)
          → (v.value ≡ k_nil)
            ⊎ (count_slot v ss' + one_if (same_slot (slot hole ss) v) ≡ count_slot v ss))

  Removes-set :
      (hole : ℕ) (ss : List Slot)
      → hole < length ss
      → Removes hole ss (some (set ss hole (record (slot hole ss) { value = k_nil })))
  unfolding Removes
  Removes-set hole ss h = (
    length-set ss hole _,
    λ v. ground (arith, count_slot-set v hole (record (slot hole ss) { value = k_nil }) ss h),
  )

  pub slot_moved :
      (hole j : ℕ) (ss : List Slot)
      → hole < length ss
      → slot j (set ss hole (slot j ss)) ≡ slot j ss
  slot_moved hole j ss h = elim (Bool-cases (hole == j)) [
    | inl d ↦
        let d' : hole ≡ j = ground (arith, d) in
        ap (λ (k : ℕ). slot k (set ss hole (slot j ss))) (sym d')
        ∙ slot-set_self hole (slot j ss) ss h
    | inr d ↦ slot-set_ne hole j (slot j ss) ss (ground (arith, d))
  ]

  Removes-shift :
      (hole j : ℕ) (ss : List Slot) (o : Option (List Slot))
      → hole < length ss
      → Removes j (set ss hole (slot j ss)) o
      → Removes hole ss o
  unfolding Removes
  Removes-shift hole j ss none h f = f
  Removes-shift hole j ss (some ss') h f = (
    f.0 ∙ length-set ss hole (slot j ss),
    λ v. ground (
      arith,
      f.1 v,
      count_slot-set v hole (slot j ss) ss h,
      ap (λ (s : Slot). one_if (same_slot s v)) (slot_moved hole j ss h),
    ),
  )

  pub shift_back-Removes :
      (n g hole j : ℕ) (ss : List Slot)
      → g < n
      → hole < mask + 1
      → j < mask + 1
      → length ss ≡ mask + 1
      → is_empty (slot hole ss) ≡ false
      → is_empty (slot (ahead j g) ss) ≡ true
      → Removes hole ss (shift_back mask n hole j ss)
  unfolding shift_back
  shift_back-Removes zero g hole j ss h b b' l o e = absurd (omega (arith, h))
  shift_back-Removes (suc n) g hole j ss h b b' l o e =
      elim (Bool-cases (is_empty (slot j ss) || dist mask j (slot j ss).fp == 0)) [
        | inl z ↦ rw (z, shift_back) (Removes-set hole ss (omega (arith, b, l)))
        | inr z ↦
            let q : is_empty (slot j ss) ≡ false = ground (arith, z) in
            let k = nearer g j ss b' q e in
            rw (z, shift_back)
              (Removes-shift hole j ss _ (omega (arith, b, l)) (
                shift_back-Removes n k.0 j (after mask j) (set ss hole (slot j ss))
                  (omega (arith, h, k.1.0)) b' (after_bound j) (length-set ss hole (slot j ss) ∙ l)
                  (ap is_empty (slot_moved hole j ss (omega (arith, b, l))) ∙ q)
                  (still_empty hole (ahead (after mask j) k.0) (slot j ss) ss o k.1.1)))
      ]
