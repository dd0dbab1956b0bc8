-- ===== src/OrderIndex/Changes.antt =====
-- include/exsim/order_index.hpp: what the loops of `insert`, `remove_at` and `erase_known` make of a whole
-- table.
use exchange_sim.Base.{
  ℕ, suc, zero, ◌+◌, ◌-◌, ◌%◌, ◌^◌, ◌<◌, leb, ◌==◌, if◌then◌else◌, true, false, ◌⊎◌, ◌≡◌, ◌≢◌, refl,
  ap, ◌∙◌, sym, Option, none, some, List, length, arith, Bool-cases, inl, inr,
}
use native.Mathlib.Nat.{mod-eq_of_lt, add-mod_right}
use exchange_sim.OrderStore.{k_nil}
use exchange_sim.OrderIndex.Order.{IsOrdered, dist-home}
use exchange_sim.OrderIndex.Kept.{Keeps, place-Keeps, shift_back-Keeps}
use exchange_sim.OrderIndex.Reach.{home_limit}
use exchange_sim.OrderIndex.Entries.{
  one_if, same_slot, count_slot, ahead, ahead-after, ahead_here, after_bound, Adds, place-Adds,
  Removes, shift_back-Removes,
}
use exchange_sim.OrderIndex.{
  Hash, Slot, OrderIndex, slot, after, home, is_empty, place, remove_at, seek_value, erase_known,
}

-- A table of at most 2^32 slots, a power of two, one of them empty, in Robin Hood order.
pub record IsTable (t : OrderIndex) : Type 0 where
  pub sized : length t.slots ≡ t.mask + 1
  pub words : 2 ^ 32 % (t.mask + 1) ≡ 0
  pub two : 0 < t.mask
  pub free : ℕ
  pub in_table : free < t.mask + 1
  pub is_free : is_empty (slot free t.slots) ≡ true
  pub ordered : IsOrdered t.mask t.slots

-- The entries of the table `t'` are those of `t` and `x`, and it is in order.
pub record HasGained (x : Slot) (t t' : OrderIndex) : Type 0 where
  pub mask : t'.mask ≡ t.mask
  pub bits : t'.bits ≡ t.bits
  pub size : t'.size ≡ (t.size + 1) % 2 ^ 64
  pub sized : length t'.slots ≡ length t.slots
  pub ordered : IsOrdered t'.mask t'.slots
  pub entries :
      (v : Slot)
      → (v.value ≡ k_nil) ⊎ (count_slot v t'.slots ≡ count_slot v t.slots + one_if (same_slot x v))

-- The entries of the table `t'` are those of `t` without `x`, and it is in order.
pub record HasLost (x : Slot) (t t' : OrderIndex) : Type 0 where
  pub mask : t'.mask ≡ t.mask
  pub bits : t'.bits ≡ t.bits
  pub size : t'.size ≡ (t.size + (2 ^ 64 - 1)) % 2 ^ 64
  pub sized : length t'.slots ≡ length t.slots
  pub ordered : IsOrdered t'.mask t'.slots
  pub entries :
      (v : Slot)
      → (v.value ≡ k_nil) ⊎ (count_slot v t'.slots + one_if (same_slot x v) ≡ count_slot v t.slots)

-- The operation has returned, with such a table.
abbrev pub Gains : Slot → OrderIndex → Option OrderIndex → Type 0
Gains x t none = ⊥
Gains x t (some t') = HasGained x t t'

abbrev pub Loses : Slot → OrderIndex → Option OrderIndex → Type 0
Loses x t none = ⊥
Loses x t (some t') = HasLost x t t'

-- The steps from `i` to `j` around the table.
steps : ℕ → ℕ → ℕ → ℕ
steps mask i j = if leb i j then j - i else j + (mask + 1) - i

steps_up : (mask i j : ℕ) → leb i j ≡ true → i + steps mask i j ≡ j
unfolding steps
steps_up mask i j e = ground (arith, e)

steps_around : (mask i j : ℕ) → i < mask + 1 → leb i j ≡ false → i + steps mask i j ≡ j + (mask + 1)
unfolding steps
steps_around mask i j h e = ground (arith, e)

steps-ahead :
    (mask i j : ℕ)
    → i < mask + 1
    → j < mask + 1
    → (steps mask i j < mask + 1) × (ahead mask i (steps mask i j) ≡ j)
unfolding ahead steps
steps-ahead mask i j h h' = elim (Bool-cases (leb i j)) [
  | inl e ↦
      (ground (arith, e), ap (λ (k : ℕ). k % (mask + 1)) (steps_up mask i j e) ∙ mod-eq_of_lt h')
  | inr e ↦ (
    ground (arith, e),
    ap (λ (k : ℕ). k % (mask + 1)) (steps_around mask i j h e)
        ∙ add-mod_right j (mask + 1)
        ∙ mod-eq_of_lt h',
  )
]

module _ (t : OrderIndex) (r : IsTable t) where
  empty_ahead :
      (i : ℕ)
      → i < t.mask + 1
      → is_empty (slot (ahead t.mask i (steps t.mask i r.free)) t.slots) ≡ true
  empty_ahead i h =
      ap (λ (k : ℕ). is_empty (slot k t.slots)) (steps-ahead t.mask i r.free h r.in_table).1
      ∙ r.is_free

  Gains-of :
      (x : Slot) (o : Option (List Slot))
      → Adds t.mask x t.slots o
      → Keeps t.mask r.words r.two o
      → Gains x t (elim o [
        | none ↦ none
        | some ss ↦ some (record t { slots = ss; size = (t.size + 1) % 2 ^ 64 })
      ])
  unfolding Adds Keeps
  Gains-of x none f k = f
  Gains-of x (some ss) f k = record {
    mask = refl;
    bits = refl;
    size = refl;
    sized = f.0;
    ordered = k;
    entries = f.1;
  }

  pub place-Gains :
      (x : Slot)
      → is_empty x ≡ false
      → x.fp < 2 ^ 32
      → Gains x t (elim (place t.mask x (t.mask + 1) (home t.mask x.fp) 0 t.slots) [
        | none ↦ none
        | some ss ↦ some (record t { slots = ss; size = (t.size + 1) % 2 ^ 64 })
      ])
  place-Gains x v h =
      let i = home t.mask x.fp in
      let g = steps t.mask i r.free in
      let b = home_limit t.mask x.fp in
      let s = (steps-ahead t.mask i r.free b r.in_table).0 in
      let c = dist-home t.mask r.words x.fp h in
      Gains-of x _ (place-Adds t.mask (t.mask + 1) g x i 0 t.slots s b r.sized (empty_ahead i b)) (
        place-Keeps t.mask r.words r.two (t.mask + 1) g x i 0 t.slots s b r.sized (empty_ahead i b)
          v c (omega (arith, s)) r.ordered (λ p q e. inr (inl c)))

  Loses-of :
      (hole : ℕ) (o : Option (List Slot))
      → Removes t.mask hole t.slots o
      → Keeps t.mask r.words r.two o
      → Loses (slot hole t.slots) t (elim o [
        | none ↦ none
        | some ss ↦ some (record t { slots = ss; size = (t.size + (2 ^ 64 - 1)) % 2 ^ 64 })
      ])
  unfolding Removes Keeps
  Loses-of hole none f k = f
  Loses-of hole (some ss) f k = record {
    mask = refl;
    bits = refl;
    size = refl;
    sized = f.0;
    ordered = k;
    entries = f.1;
  }

  pub remove_at-Loses :
      (hole : ℕ)
      → hole < t.mask + 1
      → is_empty (slot hole t.slots) ≡ false
      → Loses (slot hole t.slots) t (remove_at hole t)
  unfolding remove_at
  remove_at-Loses hole h o =
      let j = after t.mask hole in
      let b = after_bound t.mask hole in
      let s = (steps-ahead t.mask j r.free b r.in_table).0 in
      Loses-of hole _
        (shift_back-Removes t.mask (t.mask + 1) (steps t.mask j r.free) hole j t.slots s h b r.sized
          o (empty_ahead j b))
        (shift_back-Keeps t.mask r.words r.two (t.mask + 1) (steps t.mask j r.free) hole t.slots s h
          r.sized o (empty_ahead j b) r.ordered)

  module _ (value : ℕ) where
    -- The loop of `erase_known` ends at a slot with the value.
    Meets : Option ℕ → Type 0
    Meets none = ⊥
    Meets (some i) = (i < t.mask + 1) × ((slot i t.slots).value ≡ value)

    seek_value-Meets :
        (n g i : ℕ)
        → g < n
        → i < t.mask + 1
        → (slot (ahead t.mask i g) t.slots).value ≡ value
        → Meets (seek_value value t.mask t.slots n i)
    unfolding seek_value Meets
    seek_value-Meets zero g i h b e = absurd (omega (arith, h))
    seek_value-Meets (suc n) zero i h b e =
        let z : ((slot i t.slots).value == value) ≡ true =
          ground (arith, ap (λ (k : ℕ). (slot k t.slots).value) (ahead_here t.mask i b), e) in
        rw (z, seek_value) (b, ground (arith, z))
    seek_value-Meets (suc n) (suc g) i h b e = elim (Bool-cases ((slot i t.slots).value == value)) [
      | inl z ↦ rw (z, seek_value) (b, ground (arith, z))
      | inr z ↦
          rw (z, seek_value)
            (seek_value-Meets n g (after t.mask i) (omega (arith, h)) (after_bound t.mask i)
              (ap (λ (k : ℕ). (slot k t.slots).value) (sym (ahead-after t.mask i g)) ∙ e))
    ]

    -- What is taken out is an entry with the value.
    abbrev pub LosesValue : Option OrderIndex → Type 0
    LosesValue o = (x : Slot) × ((x.value ≡ value) × Loses x t o)

    erase_met :
        (o : Option ℕ)
        → value ≢ k_nil
        → Meets o
        → LosesValue (elim o [ none ↦ none | some i ↦ remove_at i t ])
    unfolding Meets
    erase_met none h f = absurd f
    erase_met (some i) h f = (slot i t.slots, (f.1, remove_at-Loses i f.0 (ground (arith, f.1, h))))

    -- In such a table, where the store slot stands in table slot `i`, `erase_known` returns and takes
    -- out one entry with that store slot.
    pub erase_known-LosesValue :
        (hash : Hash) (key : ℕ)
        → value ≢ k_nil
        → (i : ℕ) → i < t.mask + 1
        → (slot i t.slots).value ≡ value
        → LosesValue (erase_known hash key value t)
    unfolding erase_known
    erase_known-LosesValue hash key h i b e =
        let j = home t.mask (hash key t.bits) in
        let c = home_limit t.mask (hash key t.bits) in
        let a = steps-ahead t.mask j i c b in
        erase_met _ h (
          seek_value-Meets (t.mask + 1) (steps t.mask j i) j a.0 c
            (ap (λ (k : ℕ). (slot k t.slots).value) a.1 ∙ e))
