-- ===== src/OrderIndex/Updates.antt =====
-- include/exsim/order_index.hpp: `insert` and `erase`, by the entries that are in the table and by what
-- `find` finds in it.
use exchange_sim.Base.{
  ℕ, suc, zero, ◌+◌, ◌%◌, ◌^◌, ◌<◌, ◌==◌, false, ◌⊎◌, ◌≡◌, ◌≢◌, refl, subst, ap, ◌∙◌, sym, Option,
  none, some, List, [], ◌∷◌, length, arith, Bool-cases, inl, inr,
}
use exchange_sim.OrderStore.{k_nil}
use exchange_sim.OrderIndex.Search.{Hits, seek-Hits}
use exchange_sim.OrderIndex.Reach.{Found, find-Found}
use exchange_sim.OrderIndex.Entries.{count_slot}
use exchange_sim.OrderIndex.Changes.{
  IsTable, HasGained, HasLost, Gains, Loses, place-Gains, remove_at-Loses,
}
use exchange_sim.OrderIndex.{
  Hash, Slot, OrderIndex, slot, empty_slot, is_empty, position, find, insert, remove_at, erase,
}

slot_in : (ss : List Slot) (i : ℕ) → is_empty (slot i ss) ≡ false → i < length ss
unfolding slot empty_slot
slot_in [] i h = ground (arith, h)
slot_in (s ∷ ss) zero h = omega arith
slot_in (s ∷ ss) (suc i) h = omega (arith, slot_in ss i h)

-- The entry of a key.
abbrev pub entry : Hash → ℕ → ℕ → OrderIndex → Slot
entry hash key value t = record { fp = hash key t.bits; value = value }

-- What `insert` does: it returns, has added the entry of the key, and the key is found.
abbrev pub Inserts : Hash → ℕ → ℕ → (ℕ → ℕ) → OrderIndex → Option OrderIndex → Type 0
Inserts hash key value key_of t none = ⊥
Inserts hash key value key_of t (some t') =
    HasGained (entry hash key value t) t t' × Found hash key key_of t'

-- What `erase` returns: `k_nil` with the table as it was, in which no order with the key has an entry,
-- or the store slot of an order with the key, and the table without its entry.
abbrev pub Erases : Hash → ℕ → (ℕ → ℕ) → OrderIndex → Option (ℕ × OrderIndex) → Type 0
Erases hash key key_of t none = ⊥
Erases hash key key_of t (some r) =
    ((r.0 ≡ k_nil)
      × ((r.1 ≡ t)
          × ((v : ℕ) → v ≢ k_nil → key_of v ≡ key → count_slot (entry hash key v t) t.slots ≡ 0)))
    ⊎ ((key_of r.0 ≡ key) × ((r.0 ≢ k_nil) × HasLost (entry hash key r.0 t) t r.1))

module _ (hash : Hash) (key : ℕ) (key_of : ℕ → ℕ) (t : OrderIndex) (r : IsTable t)
    (h : hash key t.bits < 2 ^ 32) where
  Inserts-of :
      (value : ℕ) (o : Option OrderIndex)
      → value ≢ k_nil
      → key_of value ≡ key
      → Gains (entry hash key value t) t o
      → Inserts hash key value key_of t o
  Inserts-of value none n e f = f
  Inserts-of value (some t') n e f =
      let x = entry hash key value t in
      let c : 0 < count_slot x t'.slots = ground (arith, f.entries x, n) in
      (
        f,
        find-Found hash key key_of t' (ap (λ (m : ℕ). 2 ^ 32 % (m + 1)) f.mask ∙ r.words)
            (f.sized ∙ r.sized ∙ ap (λ (m : ℕ). m + 1) (sym f.mask)) f.ordered
            (subst (λ (b : ℕ). hash key b < 2 ^ 32) (sym f.bits) h) value n e
            (subst (λ (b : ℕ). 0 < count_slot (record { fp = hash key b; value = value }) t'.slots)
              (sym f.bits) c),
      )

  -- `insert` of a key in a table that is in Robin Hood order and has an empty slot returns; it adds the
  -- entry of the key and changes no other, keeps the Robin Hood order, and `find` then finds the key.
  -- The table has a power of two of slots, at least 2 and at most 2^32, the fingerprint is 32 bits wide,
  -- and the store slot is not `k_nil` and holds an order with the key.
  pub insert-Inserts :
      (value : ℕ)
      → value ≢ k_nil
      → key_of value ≡ key
      → Inserts hash key value key_of t (insert hash key value t)
  unfolding insert
  insert-Inserts value n e =
      Inserts-of value _ n e (place-Gains t r (entry hash key value t) (ground (arith, n)) h)

  -- No order with a key that is not found has an entry.
  absent :
      find hash key key_of t ≡ k_nil
      → (v : ℕ) → v ≢ k_nil
      → key_of v ≡ key
      → count_slot (entry hash key v t) t.slots ≡ 0
  absent q v n e = elim (Bool-cases (count_slot (entry hash key v t) t.slots == 0)) [
    | inl z ↦ ground (arith, z)
    | inr z ↦
        absurd
          ((find-Found hash key key_of t r.words r.sized r.ordered h v n e (ground (arith, z))).0 q)
  ]

  Erases-at :
      (s : ℕ) (o : Option OrderIndex)
      → key_of s ≡ key
      → s ≢ k_nil
      → Loses (entry hash key s t) t o
      → Erases hash key key_of t (elim o [ none ↦ none | some t' ↦ some (s, t') ])
  Erases-at s none e n f = f
  Erases-at s (some t') e n f = inr (e, (n, f))

  Erases-found :
      (o : Option ℕ)
      → position hash key key_of t ≡ o
      → Hits (λ v. key_of v == key) (hash key t.bits) t.mask t.slots o
      → Erases hash key key_of t (elim o [
        | none ↦ some (k_nil, t)
        | some i ↦ elim (remove_at i t) [
          | none ↦ none
          | some t' ↦ some ((slot i t.slots).value, t')
        ]
      ])
  unfolding Hits find
  Erases-found none q f = inl (
    refl,
    (
      refl,
      absent (ap (λ (o : Option ℕ). elim o [ none ↦ k_nil | some i ↦ (slot i t.slots).value ]) q),
    ),
  )
  Erases-found (some i) q f =
      let s = (slot i t.slots).value in
      Erases-at s (remove_at i t) (ground (arith, f.1.0)) (ground (arith, f.0)) (
        subst (λ (fp : ℕ). Loses (record { fp = fp; value = s }) t (remove_at i t)) f.1.1
          (remove_at-Loses t r i (omega (arith, slot_in t.slots i f.0, r.sized)) f.0))

  -- `erase` of a key in a table that is in Robin Hood order and has an empty slot returns: either
  -- `k_nil` and the table as it was, where no order with the key has an entry, or the store slot of an
  -- order with the key, and the table in Robin Hood order, without its entry and with all others. The
  -- table has a power of two of slots, at least 2 and at most 2^32, and the fingerprint is 32 bits wide.
  pub erase-Erases : Erases hash key key_of t (erase hash key key_of t)
  unfolding erase position
  erase-Erases =
      Erases-found _ refl
        (seek-Hits (λ v. key_of v == key) (hash key t.bits) t.mask t.slots (t.mask + 2) _ 0)
