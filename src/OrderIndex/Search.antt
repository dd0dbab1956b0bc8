-- ===== src/OrderIndex/Search.antt =====
-- include/exsim/order_index.hpp: the loop of `find` ends, and what it finds.
use exchange_sim.Base.{
  ℕ, suc, zero, ◌+◌, ◌-◌, ◌%◌, ◌^◌, ◌<◌, ◌≤◌, ltb, ◌==◌, Bool, true, false, ◌&&◌, ◌||◌, ◌≡◌, refl,
  ap, ◌∙◌, subst, sym, Option, none, some, List, arith, Bool-cases, inl, inr, ◌⊎◌,
}
use native.Mathlib.Nat.{mod-lt}
use exchange_sim.OrderStore.{k_nil}
use exchange_sim.OrderIndex.{
  Hash, Slot, OrderIndex, slot, after, dist, home, is_empty, seek, position, find,
}

dist_bound : (mask i fp : ℕ) → dist mask i fp < mask + 1
unfolding dist
dist_bound mask i fp = mod-lt ((i + (2 ^ 32 - fp)) % 2 ^ 32) {m = mask + 1} (omega arith)

module _ (is_key : ℕ → Bool) (fp mask : ℕ) (ss : List Slot) where
  seek_late : (n i d : ℕ) → mask + 1 ≤ d → seek is_key fp mask ss n i d ≡ none
  unfolding seek
  seek_late zero i d h = refl
  seek_late (suc n) i d h =
      let e : (is_empty (slot i ss) || ltb (dist mask i (slot i ss).fp) d) ≡ true =
        ground (arith, dist_bound mask i (slot i ss).fp, h) in
      rw (e, seek) refl

  -- Two searches with fuel for the probes that are left agree.
  seek_agree :
      mask + 1 < 2 ^ 32
      → (n k i d : ℕ) → mask + 1 ≤ n + d
      → mask + 1 ≤ k + d
      → seek is_key fp mask ss n i d ≡ seek is_key fp mask ss k i d
  unfolding seek
  seek_agree b zero k i d h h' = sym (seek_late k i d (omega (arith, h)))
  seek_agree b (suc n) zero i d h h' = seek_late (suc n) i d (omega (arith, h'))
  seek_agree b (suc n) (suc k) i d h h' =
      elim (Bool-cases (is_empty (slot i ss) || ltb (dist mask i (slot i ss).fp) d)) [
        | inl e ↦ rw (e, seek) refl
        | inr e ↦ elim (Bool-cases ((slot i ss).fp == fp && is_key (slot i ss).value)) [
          | inl g ↦ rw (e, g, seek) refl
          | inr g ↦
              let l : (d + 1) % 2 ^ 32 ≡ d + 1 =
                ground (arith, e, dist_bound mask i (slot i ss).fp, b) in
              rw (e, g, seek)
                (seek_agree b n k (after mask i) ((d + 1) % 2 ^ 32) (omega (arith, l, h))
                  (omega (arith, l, h')))
        ]
      ]

  unfoldable pub Hits : Option ℕ → Type 0
  Hits none = Unit
  Hits (some j) =
      (is_empty (slot j ss) ≡ false) × ((is_key (slot j ss).value ≡ true) × ((slot j ss).fp ≡ fp))

  pub seek-Hits : (n i d : ℕ) → Hits (seek is_key fp mask ss n i d)
  unfolding seek Hits
  seek-Hits zero i d = tt
  seek-Hits (suc n) i d =
      elim (Bool-cases (is_empty (slot i ss) || ltb (dist mask i (slot i ss).fp) d)) [
        | inl e ↦ rw (e, seek) tt
        | inr e ↦ elim (Bool-cases ((slot i ss).fp == fp && is_key (slot i ss).value)) [
          | inl g ↦ rw (e, g, seek) (ground (arith, e), (ground (arith, g), ground (arith, g)))
          | inr g ↦ rw (e, g, seek) (seek-Hits n (after mask i) ((d + 1) % 2 ^ 32))
        ]
      ]

value_at : OrderIndex → Option ℕ → ℕ
value_at t o = elim o [ none ↦ k_nil | some i ↦ (slot i t.slots).value ]

module _ (hash : Hash) (key : ℕ) (key_of : ℕ → ℕ) (t : OrderIndex) where
  find_hits :
      (o : Option ℕ)
      → position hash key key_of t ≡ o
      → (find hash key key_of t ≡ k_nil) ⊎ (key_of (find hash key key_of t) ≡ key)
  unfolding find position Hits value_at
  find_hits none h = inl (ap (value_at t) h)
  find_hits (some j) h =
      let f : Hits (λ v. key_of v == key) (hash key t.bits) t.mask t.slots (some j) =
        subst (Hits (λ v. key_of v == key) (hash key t.bits) t.mask t.slots) h
          (seek-Hits (λ v. key_of v == key) (hash key t.bits) t.mask t.slots (t.mask + 2) _ 0) in
      inr (ap (λ (o : Option ℕ). key_of (value_at t o)) h ∙ ground (arith, f.1.0))

  -- In a table of less than 2^32 slots, any fuel over `mask` gives the search of a key what `position`
  -- gives it, and what `find` returns is either `k_nil` or a store slot whose order has the key.
  pub find_lem :
      t.mask + 1 < 2 ^ 32
      → (n : ℕ) → t.mask < n
      → (seek
            (λ v. key_of v == key)
            (hash key t.bits)
            t.mask
            t.slots
            n
            (home t.mask (hash key t.bits))
            0
          ≡ position hash key key_of t)
        × ((find hash key key_of t ≡ k_nil) ⊎ (key_of (find hash key key_of t) ≡ key))
  unfolding position
  find_lem b n h = (
    seek_agree (λ v. key_of v == key) (hash key t.bits) t.mask t.slots b n (t.mask + 2) _ 0
        (omega (arith, h)) (omega arith),
    find_hits _ refl,
  )
