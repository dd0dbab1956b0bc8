-- ===== src/OrderIndex/Kept.antt =====
-- include/exsim/order_index.hpp: the loops of `insert` and `remove_at` keep the Robin Hood order.
use exchange_sim.Base.{
  ℕ, suc, zero, ◌+◌, ◌%◌, ◌^◌, ◌<◌, ◌≤◌, ltb, ◌==◌, true, false, ◌||◌, ◌≡◌, ap, ◌∙◌, sym, subst,
  Option, none, some, List, set, length, arith, Bool-cases, inl, inr, length-set,
}
use native.Mathlib.Nat.{mod-eq_of_lt}
use exchange_sim.OrderStore.{k_nil}
use exchange_sim.OrderIndex.Entries.{
  ahead, after_bound, nearer, slot-set_self, slot_moved, still_empty,
}
use exchange_sim.OrderIndex.Order.{
  Fit, IsOrdered, FitsAt, set-IsOrdered, after_inj, dist_down, dist_up, few,
}
use exchange_sim.OrderIndex.{Slot, slot, after, dist, is_empty, place, shift_back}

module _ (mask : ℕ) (w : 2 ^ 32 % (mask + 1) ≡ 0) (two : 0 < mask) where
  -- The loop has ended, with a table in order.
  unfoldable pub Keeps : Option (List Slot) → Type 0
  Keeps none = ⊥
  Keeps (some ss) = IsOrdered mask ss

  -- What fits behind the table slot `i` alone, fits there.
  behind :
      (x : Slot) (i : ℕ) (ss : List Slot)
      → i < mask + 1
      → Fit mask i (slot i ss) (after mask i) x
      → FitsAt mask x (after mask i) ss
  behind x i ss b f p h e =
      subst (λ (k : ℕ). Fit mask k (slot k ss) (after mask i) x) (sym (after_inj mask p i h b e)) f

  order_at :
      (ss : List Slot) (i : ℕ)
      → IsOrdered mask ss
      → i < mask + 1
      → Fit mask i (slot i ss) (after mask i) (slot (after mask i) ss)
  unfolding IsOrdered
  order_at ss i o b = o i b

  order_to :
      (ss : List Slot) (p i : ℕ)
      → IsOrdered mask ss
      → p < mask + 1
      → after mask p ≡ i
      → Fit mask p (slot p ss) i (slot i ss)
  order_to ss p i o h e =
      subst (λ (k : ℕ). Fit mask p (slot p ss) k (slot k ss)) e (order_at ss p o h)

  -- An entry that takes the place of one at least as far from its home fits there.
  shifted :
      (ss : List Slot) (p i : ℕ) (s : Slot)
      → is_empty (slot i ss) ≡ false
      → Fit mask p (slot p ss) i (slot i ss)
      → dist mask i s.fp ≤ dist mask i (slot i ss).fp
      → Fit mask p (slot p ss) i s
  shifted ss p i s v f h = ground (arith, v, f, h)

  -- The next distance, 32 bits wide.
  next_dist : (d : ℕ) → d + 1 < mask + 1 → (d + 1) % 2 ^ 32 ≡ d + 1
  next_dist d h = mod-eq_of_lt (omega (arith, h, few mask w))

  -- The loop of `insert` with the entry `x`, which fits at `i`, `d` steps from its home.
  pub place-Keeps :
      (n g : ℕ) (x : Slot) (i d : ℕ) (ss : List Slot)
      → g < n
      → i < mask + 1
      → length ss ≡ mask + 1
      → is_empty (slot (ahead mask i g) ss) ≡ true
      → is_empty x ≡ false
      → dist mask i x.fp ≡ d
      → d + g < mask + 1
      → IsOrdered mask ss
      → FitsAt mask x i ss
      → Keeps (place mask x n i d ss)
  unfolding place Keeps
  place-Keeps zero g x i d ss h b l e v c r o f = absurd (omega (arith, h))
  place-Keeps (suc n) g x i d ss h b l e v c r o f =
      let here : Fit mask i (slot i ss) (after mask i) (slot (after mask i) ss) =
        order_at ss i o b in
      elim (Bool-cases (is_empty (slot i ss))) [
        | inl z ↦ rw (z, place) (set-IsOrdered mask w two i x ss b l o f (ground (arith, here, z)))
        | inr z ↦
            let k = nearer mask g i ss b z e in
            elim (Bool-cases (ltb (dist mask i (slot i ss).fp) d)) [
              | inl y ↦
                  let s = slot i ss in
                  let sd = dist mask i s.fp in
                  let ss' = set ss i x in
                  let a : sd + 1 < mask + 1 = ground (arith, y, r, k.1.0) in
                  let t = next_dist sd a in
                  let u = dist_up mask w i s.fp a in
                  let o' =
                    set-IsOrdered mask w two i x ss b l o f (ground (arith, here, v, c, y)) in
                  let q = slot-set_self i x ss (omega (arith, b, l)) in
                  rw (z, y, place)
                    (place-Keeps n k.0 s (after mask i) ((sd + 1) % 2 ^ 32) ss'
                      (omega (arith, h, k.1.0)) (after_bound mask i) (length-set ss i x ∙ l)
                      (still_empty mask i (ahead mask (after mask i) k.0) x ss z k.1.1) z
                      (u ∙ sym t) (ground (arith, t, y, r, k.1.0)) o'
                      (behind s i ss' b (rw q (inr (inr (v, ground (arith, u, c, y)))))))
              | inr y ↦
                  let a : d + 1 < mask + 1 = omega (arith, r, k.1.0) in
                  let t = next_dist d a in
                  let u = dist_up mask w i x.fp (omega (arith, a, c)) in
                  rw (z, y, place)
                    (place-Keeps n k.0 x (after mask i) ((d + 1) % 2 ^ 32) ss
                      (omega (arith, h, k.1.0)) (after_bound mask i) l k.1.1 v
                      (omega (arith, u, c, t)) (omega (arith, t, r, k.1.0)) o
                      (behind x i ss b (inr (inr (z, ground (arith, u, c, y))))))
            ]
      ]

  -- The loop of `remove_at` with the hole before `j`.
  pub shift_back-Keeps :
      (n g hole : ℕ) (ss : List Slot)
      → g < n
      → hole < mask + 1
      → length ss ≡ mask + 1
      → is_empty (slot hole ss) ≡ false
      → is_empty (slot (ahead mask (after mask hole) g) ss) ≡ true
      → IsOrdered mask ss
      → Keeps (shift_back mask n hole (after mask hole) ss)
  unfolding shift_back Keeps
  shift_back-Keeps zero g hole ss h b l v e o = absurd (omega (arith, h))
  shift_back-Keeps (suc n) g hole ss h b l v e o =
      let j = after mask hole in
      let here : Fit mask hole (slot hole ss) j (slot j ss) = order_at ss hole o b in
      elim (Bool-cases (is_empty (slot j ss) || dist mask j (slot j ss).fp == 0)) [
        | inl z ↦
            rw (z, shift_back)
              (set-IsOrdered mask w two hole (record (slot hole ss) { value = k_nil }) ss b l o
                (λ p q r. inl (ground arith)) (ground (arith, z)))
        | inr z ↦
            let s = slot j ss in
            let m : is_empty s ≡ false = ground (arith, z) in
            let u = dist_down mask w hole s.fp (ground (arith, z)) in
            let k = nearer mask g j ss (after_bound mask hole) m e in
            let o' =
              set-IsOrdered mask w two hole s ss b l o
                (λ p q r.
                  shifted ss p hole s v (order_to ss p hole o q r) (ground (arith, here, m, z, u)))
                (inr (inr (m, omega (arith, u)))) in
            rw (z, shift_back)
              (shift_back-Keeps n k.0 j (set ss hole s) (omega (arith, h, k.1.0))
                (after_bound mask hole) (length-set ss hole s ∙ l)
                (ap is_empty (slot_moved mask hole j ss (omega (arith, b, l))) ∙ m)
                (still_empty mask hole (ahead mask (after mask j) k.0) s ss v k.1.1) o')
      ]
