-- ===== src/OrderIndex.antt =====
-- include/exsim/order_index.hpp: the table from order ids to slots of the store. The number of table
-- slots is a power of two, so `& mask_` is the remainder by it. A loop runs on fuel; `none` stands for
-- one that has not ended when the fuel has.
pub mod Search
pub mod Entries
pub mod Order
pub mod Kept
pub mod Reach
pub mod Changes
pub mod Fresh
pub mod Updates
pub mod Tests
use exchange_sim.Base.{
  ℕ, suc, zero, ◌+◌, ◌-◌, ◌*◌, ◌/◌, ◌%◌, ◌^◌, min, max, ltb, leb, ◌==◌, if◌then◌else◌, Bool, true,
  false, not, ◌&&◌, ◌||◌, Option, none, some, List, get_or, set, replicate, bit_xor,
}
use exchange_sim.OrderStore.{k_nil}

-- A hash policy: `fingerprint` of a key and the number of index bits.
abbrev pub Hash : Type 0
Hash = ℕ → ℕ → ℕ

unfoldable pub locality : Hash
locality k bits = bit_xor k (k / 2 ^ bits) % 2 ^ 32

unfoldable pub fold_high : ℕ → ℕ
fold_high k = bit_xor k (k / 2 ^ 33)

unfoldable pub scatter : Hash
scatter k bits =
    let a = fold_high k * 0xff51afd7ed558ccd % 2 ^ 64 in
    let b = fold_high a * 0xc4ceb9fe1a85ec53 % 2 ^ 64 in fold_high b % 2 ^ 32

pub record Slot : Type 0 where
  pub fp : ℕ
  pub value : ℕ

pub record OrderIndex : Type 0 where
  pub mask : ℕ
  pub bits : ℕ
  pub slots : List Slot
  pub size : ℕ

-- `std::bit_ceil`, by its exponent: the first from `b` on whose power of two is `x` or more.
unfoldable pub ceil_bits : ℕ → ℕ → ℕ → ℕ
ceil_bits zero b x = b
ceil_bits (suc n) b x = elim (leb x (2 ^ b)) [ true ↦ b | false ↦ ceil_bits n (b + 1) x ]

unfoldable pub empty_slot : Slot
empty_slot = record { fp = 0; value = k_nil }

-- The constructor. 33 bits hold twice a 32-bit number.
unfoldable pub new : ℕ → OrderIndex
new max_entries =
    let b = ceil_bits 33 0 (max (2 * max_entries) 16) in
    let mask = (2 ^ b - 1) % 2 ^ 32 in
    record { mask = mask; bits = min b 32; slots = replicate (mask + 1) empty_slot; size = 0 }

unfoldable pub slot : ℕ → List Slot → Slot
slot i ss = get_or ss i empty_slot

-- The table slot after `i`.
unfoldable pub after : ℕ → ℕ → ℕ
after mask i = (i + 1) % (mask + 1)

unfoldable pub home : ℕ → ℕ → ℕ
home mask fp = fp % (mask + 1)

unfoldable pub dist : ℕ → ℕ → ℕ → ℕ
dist mask i fp = (i + (2 ^ 32 - fp)) % 2 ^ 32 % (mask + 1)

abbrev pub is_empty : Slot → Bool
is_empty s = s.value == k_nil

-- The loop of `find` and `erase`: the table slot that has the key, if one has.
unfoldable pub seek : (ℕ → Bool) → ℕ → ℕ → List Slot → ℕ → ℕ → ℕ → Option ℕ
seek is_key fp mask ss zero i d = none
seek is_key fp mask ss (suc n) i d =
    elim (is_empty (slot i ss) || ltb (dist mask i (slot i ss).fp) d) [
      | true ↦ none
      | false ↦ elim ((slot i ss).fp == fp && is_key (slot i ss).value) [
        | true ↦ some i
        | false ↦ seek is_key fp mask ss n (after mask i) ((d + 1) % 2 ^ 32)
      ]
    ]

-- The search of a key: one probe more than the table has slots.
unfoldable pub position : Hash → ℕ → (ℕ → ℕ) → OrderIndex → Option ℕ
position hash key key_of t =
    let fp = hash key t.bits in
    seek (λ v. key_of v == key) fp t.mask t.slots (t.mask + 2) (home t.mask fp) 0

unfoldable pub find : Hash → ℕ → (ℕ → ℕ) → OrderIndex → ℕ
find hash key key_of t = elim (position hash key key_of t) [
  | none ↦ k_nil
  | some i ↦ (slot i t.slots).value
]

-- The loop of `insert`.
unfoldable pub place : ℕ → Slot → ℕ → ℕ → ℕ → List Slot → Option (List Slot)
place mask cur zero i d ss = none
place mask cur (suc n) i d ss = elim (is_empty (slot i ss)) [
  | true ↦ some (set ss i cur)
  | false ↦ elim (ltb (dist mask i (slot i ss).fp) d) [
    | true ↦
        place mask (slot i ss) n (after mask i) ((dist mask i (slot i ss).fp + 1) % 2 ^ 32)
          (set ss i cur)
    | false ↦ place mask cur n (after mask i) ((d + 1) % 2 ^ 32) ss
  ]
]

unfoldable pub insert : Hash → ℕ → ℕ → OrderIndex → Option OrderIndex
insert hash key value t =
    let fp = hash key t.bits in
    elim (place t.mask (record { fp = fp; value = value }) (t.mask + 1) (home t.mask fp) 0
      t.slots) [
        | none ↦ none
        | some ss ↦ some (record t { slots = ss; size = (t.size + 1) % 2 ^ 64 })
      ]

-- The loop of `remove_at`, with the write that ends it.
unfoldable pub shift_back : ℕ → ℕ → ℕ → ℕ → List Slot → Option (List Slot)
shift_back mask zero hole j ss = none
shift_back mask (suc n) hole j ss = elim (is_empty (slot j ss) || dist mask j (slot j ss).fp == 0) [
  | true ↦ some (set ss hole (record (slot hole ss) { value = k_nil }))
  | false ↦ shift_back mask n j (after mask j) (set ss hole (slot j ss))
]

unfoldable pub remove_at : ℕ → OrderIndex → Option OrderIndex
remove_at hole t = elim (shift_back t.mask (t.mask + 1) hole (after t.mask hole) t.slots) [
  | none ↦ none
  | some ss ↦ some (record t { slots = ss; size = (t.size + (2 ^ 64 - 1)) % 2 ^ 64 })
]

-- The loop of `erase_known`.
unfoldable pub seek_value : ℕ → ℕ → List Slot → ℕ → ℕ → Option ℕ
seek_value value mask ss zero i = none
seek_value value mask ss (suc n) i = elim ((slot i ss).value == value) [
  | true ↦ some i
  | false ↦ seek_value value mask ss n (after mask i)
]

unfoldable pub erase_known : Hash → ℕ → ℕ → OrderIndex → Option OrderIndex
erase_known hash key value t =
    elim (seek_value value t.mask t.slots (t.mask + 1) (home t.mask (hash key t.bits))) [
      | none ↦ none
      | some i ↦ remove_at i t
    ]

-- The store slot of the key, `k_nil` if it is absent, and the table without it.
unfoldable pub erase : Hash → ℕ → (ℕ → ℕ) → OrderIndex → Option (ℕ × OrderIndex)
erase hash key key_of t = elim (position hash key key_of t) [
  | none ↦ some (k_nil, t)
  | some i ↦ elim (remove_at i t) [ none ↦ none | some t' ↦ some ((slot i t.slots).value, t') ]
]

-- The loop of `robin_hood_ordered`, `n` slots from `i` on.
unfoldable pub ordered_from : ℕ → List Slot → ℕ → ℕ → Bool
ordered_from mask ss zero i = true
ordered_from mask ss (suc n) i =
    let s = slot i ss in
    let p = (i + mask) % (mask + 1) in
    let d = dist mask i s.fp in
    not (
      not (is_empty s)
      && (ltb 0 d && (is_empty (slot p ss) || ltb (dist mask p (slot p ss).fp + 1) d)))
    && ordered_from mask ss n (i + 1)

unfoldable pub robin_hood_ordered : OrderIndex → Bool
robin_hood_ordered t = ordered_from t.mask t.slots (t.mask + 1) 0
