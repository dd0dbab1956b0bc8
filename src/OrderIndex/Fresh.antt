-- ===== src/OrderIndex/Fresh.antt =====
-- include/exsim/order_index.hpp: the table that the constructor makes.
use exchange_sim.Base.{
  ℕ, suc, zero, ◌+◌, ◌-◌, ◌*◌, ◌%◌, ◌^◌, ◌≤◌, max, leb, true, ◌≡◌, refl, ap, ◌∙◌, sym, subst, List,
  replicate, length, length-replicate, arith, Bool-cases, inl, inr,
}
use native.Mathlib.Nat.{mod-eq_of_lt, pow-succ', mul_assoc, mul-mod_left, pow-le-pow_right}
use exchange_sim.OrderIndex.Order.{IsOrdered}
use exchange_sim.OrderIndex.Changes.{IsTable}
use exchange_sim.OrderIndex.{Slot, OrderIndex, slot, empty_slot, is_empty, after, ceil_bits, new}

-- The exponent that the search for a power of two finds is enough, and not past one that is.
ceil_bits_lem :
    (n b k x : ℕ)
    → x ≤ 2 ^ k
    → b ≤ k
    → k ≤ b + n
    → (x ≤ 2 ^ ceil_bits n b x) × (ceil_bits n b x ≤ k)
unfolding ceil_bits
ceil_bits_lem zero b k x h l m =
    let q : k ≡ b = omega (arith, l, m) in (subst (λ (j : ℕ). x ≤ 2 ^ j) q h, l)
ceil_bits_lem (suc n) b k x h l m = elim (Bool-cases (leb x (2 ^ b))) [
  | inl z ↦ rw (z, ceil_bits) (ground (arith, z), l)
  | inr z ↦ elim (Bool-cases (leb k b)) [
    | inl y ↦
        let q : k ≡ b = ground (arith, y, l) in
        absurd (ground (arith, z, subst (λ (j : ℕ). x ≤ 2 ^ j) q h))
    | inr y ↦
        rw (z, ceil_bits) (ceil_bits_lem n (b + 1) k x h (ground (arith, y)) (omega (arith, m)))
  ]
]

pow_add : (e b : ℕ) → 2 ^ (e + b) ≡ 2 ^ e * 2 ^ b
pow_add zero b = let q : 0 + b ≡ b = omega arith in ap (λ (n : ℕ). 2 ^ n) q ∙ omega arith
pow_add (suc e) b =
    let q : suc e + b ≡ suc (e + b) = omega arith in
    ap (λ (n : ℕ). 2 ^ n) q
    ∙ pow-succ' 2 (e + b)
    ∙ ap (λ (n : ℕ). 2 * n) (pow_add e b)
    ∙ sym (mul_assoc 2 (2 ^ e) (2 ^ b))
    ∙ ap (λ (n : ℕ). n * 2 ^ b) (sym (pow-succ' 2 e))

-- A power of two is a multiple of the smaller ones.
power_mod : (d c : ℕ) → 2 ^ (d + c) % 2 ^ c ≡ 0
power_mod d c = ap (λ (n : ℕ). n % 2 ^ c) (pow_add d c) ∙ mul-mod_left (2 ^ d) (2 ^ c)

not_zero : (c x : ℕ) → 16 ≤ x → x ≤ 2 ^ c → 1 ≤ c
not_zero zero x a b = absurd (omega (arith, a, b))
not_zero (suc c) x a b = omega arith

empty_slots : (n i : ℕ) → slot i (replicate n empty_slot) ≡ empty_slot
unfolding slot
empty_slots zero i = refl
empty_slots (suc n) zero = refl
empty_slots (suc n) (suc i) = empty_slots n i

blank : is_empty empty_slot ≡ true
unfolding empty_slot
blank = refl

fresh-IsTable :
    (c : ℕ) (t : OrderIndex)
    → 1 ≤ c
    → c ≤ 32
    → t.mask + 1 ≡ 2 ^ c
    → t.slots ≡ replicate (t.mask + 1) empty_slot
    → IsTable t
unfolding IsOrdered
fresh-IsTable c t l m e f =
    let q : 32 - c + c ≡ 32 = omega (arith, m) in
    let two : 2 ^ 1 ≤ 2 ^ c = pow-le-pow_right {n = 2} (omega arith) l in
    let s : (i : ℕ) → is_empty (slot i t.slots) ≡ true = λ i.
      ap (λ (ss : List Slot). is_empty (slot i ss)) f
      ∙ ap is_empty (empty_slots (t.mask + 1) i)
      ∙ blank in
    record {
      sized = ap length f ∙ length-replicate (t.mask + 1) empty_slot;
      words =
          ap (λ (n : ℕ). 2 ^ 32 % n) e
          ∙ ap (λ (n : ℕ). 2 ^ n % 2 ^ c) (sym q)
          ∙ power_mod (32 - c) c;
      two = omega (arith, two, e);
      free = 0;
      in_table = omega arith;
      is_free = s 0;
      ordered = λ i b. inl (s (after t.mask i));
    }

-- The table of the constructor is empty, in order and of a power of two of slots, for at most 2^31
-- entries.
pub new-IsTable : (max_entries : ℕ) → max_entries ≤ 2 ^ 31 → IsTable (new max_entries)
unfolding new
new-IsTable max_entries h =
    let x = max (2 * max_entries) 16 in
    let c = ceil_bits 33 0 x in
    let r = ceil_bits_lem 33 0 32 x (omega (arith, h)) (omega arith) (omega arith) in
    let u : 2 ^ c ≤ 2 ^ 32 = pow-le-pow_right {n = 2} (omega arith) r.1 in
    let v : 1 ≤ 2 ^ c = pow-le-pow_right {n = 2} (omega arith) {i = 0} {j = c} (omega arith) in
    let w : (2 ^ c - 1) % 2 ^ 32 ≡ 2 ^ c - 1 = mod-eq_of_lt (omega (arith, u, v)) in
    fresh-IsTable c (new max_entries) (not_zero c x (omega arith) r.0) r.1 (omega (arith, v, w))
      refl
