-- ===== src/OrderIndex/Reach.antt =====
-- include/exsim/order_index.hpp: in a table in Robin Hood order, `find` finds the keys that are there.
use exchange_sim.Base.{
  ℕ, suc, zero, ◌+◌, ◌-◌, ◌%◌, ◌^◌, ◌<◌, ◌≤◌, ltb, ◌==◌, Bool, true, false, ◌||◌, ◌&&◌, ◌≡◌, ◌≢◌,
  refl, ap, ◌∙◌, sym, subst, Option, none, some, List, [], ◌∷◌, length, arith, Bool-cases, inl, inr,
}
use native.Mathlib.Nat.{mod-lt, mod-eq_of_lt, mod-add-mod, add-mod-mod}
use exchange_sim.OrderStore.{k_nil}
use exchange_sim.OrderIndex.Entries.{
  ahead, ahead-after, ahead_here, after_bound, same_slot, count_slot,
}
use exchange_sim.OrderIndex.Order.{Fit, IsOrdered, dist_limit, dist_eq, few}
use exchange_sim.OrderIndex.Search.{Hits, seek-Hits}
use exchange_sim.OrderIndex.{
  Hash, Slot, OrderIndex, slot, after, dist, home, is_empty, seek, position, find,
}

module _ (mask : ℕ) (w : 2 ^ 32 % (mask + 1) ≡ 0) (ss : List Slot) (o : IsOrdered mask ss) where
  order_at : (i : ℕ) → i < mask + 1 → Fit mask i (slot i ss) (after mask i) (slot (after mask i) ss)
  unfolding IsOrdered
  order_at i b = o i b

  -- Between the home of an entry and its table slot `k` no slot is empty, or nearer to its home.
  on_the_way :
      (r i d k : ℕ)
      → i < mask + 1
      → ahead mask i r ≡ k
      → is_empty (slot k ss) ≡ false
      → dist mask k (slot k ss).fp ≡ d + r
      → (is_empty (slot i ss) ≡ false) × (d ≤ dist mask i (slot i ss).fp)
  on_the_way zero i d k b e v c =
      let q : k ≡ i = sym e ∙ ahead_here mask i b in
      (
        ap (λ (j : ℕ). is_empty (slot j ss)) (sym q) ∙ v,
        omega (arith, ap (λ (j : ℕ). dist mask j (slot j ss).fp) q, c),
      )
  on_the_way (suc r) i d k b e v c =
      let j = after mask i in
      let t =
        on_the_way r j (d + 1) k (after_bound mask i) (sym (ahead-after mask i r) ∙ e) v
          (omega (arith, c)) in
      ground (arith, order_at i b, t)

  module _ (is_key : ℕ → Bool) (fp k : ℕ) (v : is_empty (slot k ss) ≡ false) where
    -- The search from `i`, `d` steps from the home of the entry, meets it after `r` more.
    seek-finds :
        (n r i d : ℕ)
        → r < n
        → i < mask + 1
        → ahead mask i r ≡ k
        → (slot k ss).fp ≡ fp
        → is_key (slot k ss).value ≡ true
        → dist mask k (slot k ss).fp ≡ d + r
        → seek is_key fp mask ss n i d ≢ none
    unfolding seek
    seek-finds zero r i d h b e f g c = absurd (omega (arith, h))
    seek-finds (suc n) zero i d h b e f g c =
        let q : k ≡ i = sym e ∙ ahead_here mask i b in
        let t = on_the_way zero i d k b e v c in
        let z : (is_empty (slot i ss) || ltb (dist mask i (slot i ss).fp) d) ≡ false =
          ground (arith, t) in
        let y : ((slot i ss).fp == fp && is_key (slot i ss).value) ≡ true =
          subst (λ (j : ℕ). ((slot j ss).fp == fp && is_key (slot j ss).value) ≡ true) q
            (ground (arith, f, g)) in
        rw (z, y, seek) (λ x. cc)
    seek-finds (suc n) (suc r) i d h b e f g c =
        let t = on_the_way (suc r) i d k b e v c in
        let z : (is_empty (slot i ss) || ltb (dist mask i (slot i ss).fp) d) ≡ false =
          ground (arith, t) in
        let l : (d + 1) % 2 ^ 32 ≡ d + 1 =
          mod-eq_of_lt (omega (arith, c, dist_limit mask w k (slot k ss).fp, few mask w)) in
        elim (Bool-cases ((slot i ss).fp == fp && is_key (slot i ss).value)) [
          | inl y ↦ rw (z, y, seek) (λ x. cc)
          | inr y ↦
              rw (z, y, seek)
                (seek-finds n r (after mask i) ((d + 1) % 2 ^ 32) (omega (arith, h))
                  (after_bound mask i) (sym (ahead-after mask i r) ∙ e) f g (omega (arith, l, c)))
        ]

pub home_limit : (mask fp : ℕ) → home mask fp < mask + 1
unfolding home
home_limit mask fp = mod-lt fp {m = mask + 1} (omega arith)

-- From the home of a fingerprint its distance leads to the table slot.
home-ahead :
    (mask k fp : ℕ)
    → 2 ^ 32 % (mask + 1) ≡ 0
    → k < mask + 1
    → fp < 2 ^ 32
    → ahead mask (home mask fp) (dist mask k fp) ≡ k
unfolding ahead home
home-ahead mask k fp w b h =
    let n = mask + 1 in
    let y = 2 ^ 32 - fp in
    let q : fp + (k + y) ≡ k + 2 ^ 32 = omega (arith, h) in
    let u : k + 0 ≡ k = omega arith in
    ap (λ (d : ℕ). (fp % n + d) % n) (dist_eq mask w k fp)
    ∙ mod-add-mod fp n ((k + y) % n)
    ∙ add-mod-mod fp (k + y) n
    ∙ ap (λ (x : ℕ). x % n) q
    ∙ sym (add-mod-mod k (2 ^ 32) n)
    ∙ ap (λ (x : ℕ). (k + x) % n) w
    ∙ ap (λ (x : ℕ). x % n) u
    ∙ mod-eq_of_lt b

-- An entry that is counted stands in a table slot.
pub Stands : Slot → List Slot → Type 0
Stands v ss = (k : ℕ) × ((k < length ss) × (same_slot (slot k ss) v ≡ true))

pub counted-Stands : (v : Slot) (ss : List Slot) → 0 < count_slot v ss → Stands v ss
unfolding count_slot Stands slot
counted-Stands v [] h = absurd (omega (arith, h))
counted-Stands v (s ∷ ss) h = elim (Bool-cases (same_slot s v)) [
  | inl z ↦ (0, (omega arith, z))
  | inr z ↦
      let t = counted-Stands v ss (ground (arith, h, z)) in (suc t.0, (omega (arith, t.1.0), t.1.1))
]

-- `find` returns a store slot whose order has the key.
abbrev pub Found : Hash → ℕ → (ℕ → ℕ) → OrderIndex → Type 0
Found hash key key_of t = (find hash key key_of t ≢ k_nil) × (key_of (find hash key key_of t) ≡ key)

module _ (hash : Hash) (key : ℕ) (key_of : ℕ → ℕ) (t : OrderIndex) where
  find_eq :
      (j : ℕ)
      → position hash key key_of t ≡ some j
      → find hash key key_of t ≡ (slot j t.slots).value
  unfolding find
  find_eq j e = ap (λ (r : Option ℕ). elim r [ none ↦ k_nil | some i ↦ (slot i t.slots).value ]) e

  by_position : (r : Option ℕ) → position hash key key_of t ≡ r → r ≢ none → Found hash key key_of t
  unfolding Hits position
  by_position none e h = absurd (h refl)
  by_position (some j) e h =
      let f : Hits (λ v. key_of v == key) (hash key t.bits) t.mask t.slots (some j) =
        subst (Hits (λ v. key_of v == key) (hash key t.bits) t.mask t.slots) e
          (seek-Hits (λ v. key_of v == key) (hash key t.bits) t.mask t.slots (t.mask + 2) _ 0) in
      let q = find_eq j e in
      (λ x. ground (arith, f.0, sym q ∙ x), ap key_of q ∙ ground (arith, f.1.0))

  -- In a table in Robin Hood order, of a power of two of slots, `find` finds a key whose entry, its
  -- fingerprint and the store slot of an order with the key, is in the table.
  pub find-Found :
      2 ^ 32 % (t.mask + 1) ≡ 0
      → length t.slots ≡ t.mask + 1
      → IsOrdered t.mask t.slots
      → hash key t.bits < 2 ^ 32
      → (value : ℕ) → value ≢ k_nil
      → key_of value ≡ key
      → 0 < count_slot (record { fp = hash key t.bits; value = value }) t.slots
      → Found hash key key_of t
  unfolding position Stands
  find-Found w l o h value n e c =
      let fp = hash key t.bits in
      let s = counted-Stands (record { fp = fp; value = value }) t.slots c in
      let k = s.0 in
      let x : (slot k t.slots).value ≡ value = ground (arith, s.1.1) in
      let y : (slot k t.slots).fp ≡ fp = ground (arith, s.1.1) in
      let b : k < t.mask + 1 = omega (arith, l, s.1.0) in
      by_position _ refl (
        seek-finds t.mask w t.slots o (λ v. key_of v == key) fp k (ground (arith, x, n))
          (t.mask + 2) (dist t.mask k fp) (home t.mask fp) 0
          (omega (arith, dist_limit t.mask w k fp)) (home_limit t.mask fp)
          (home-ahead t.mask k fp w b h) y
          (subst (λ (z : ℕ). (key_of z == key) ≡ true) (sym x) (ground (arith, e)))
          (ap (dist t.mask k) y ∙ omega arith))
