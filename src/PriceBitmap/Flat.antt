-- ===== src/PriceBitmap/Flat.antt =====
-- include/exsim/price_bitmap.hpp: a list of words as one sequence of bits.
use exchange_sim.Base.{
  ℕ, suc, zero, ◌+◌, ◌-◌, ◌*◌, ◌/◌, ◌%◌, ◌<◌, ◌≤◌, leb, ltb, ◌==◌, Bool, true, false, ◌&&◌, ◌≡◌, ap,
  ◌∙◌, sym, List, [], ◌∷◌, length, All, arith, Bool-cases, inl, inr,
}
use exchange_sim.PriceBitmap.Words.{
  Word, no_bits, all_bits, and_word, shift_left, shift_right, is_zero, bit_at, word_of,
  bit_at-word_of, bit_at-shift_left, bit_at-shift_right, bit_at-shift_one, is_zero_bits, is_zero_of,
  is_zero-false, length-word_of, bit_at_length,
}
use exchange_sim.PriceBitmap.{PriceBitmap, word, bit, test, from_bit, upto_bit}

unfoldable pub flat : List Word → ℕ → Bool
unfolding word
flat ws i = bit_at (word (i / 64) ws) (i % 64)

-- Words of 64 bits each.
abbrev pub AreWords : List Word → Type 0
AreWords ws = All (λ x. length x ≡ 64) ws

pub bit_at-word : (ws : List Word) (w k : ℕ) → k < 64 → bit_at (word w ws) k ≡ flat ws (w * 64 + k)
unfolding flat
bit_at-word ws w k h =
    let e : (w * 64 + k) / 64 ≡ w = omega (arith, h) in
    let e' : (w * 64 + k) % 64 ≡ k = omega (arith, h) in
    sym (ap (λ (j : ℕ). bit_at (word j ws) ((w * 64 + k) % 64)) e ∙ ap (bit_at (word w ws)) e')

pub length-word : (ws : List Word) (w : ℕ) → AreWords ws → length (word w ws) ≡ 64
unfolding word no_bits
length-word [] w h = length-word_of (λ i. false)
length-word (x ∷ ws) zero h = h.0
length-word (x ∷ ws) (suc w) h = length-word ws w h.1

pub word_out : (ws : List Word) (w : ℕ) → length ws ≤ w → is_zero (word w ws) ≡ true
unfolding word no_bits
word_out [] w h =
    is_zero_of (word_of (λ i. false)) (λ i. ground (arith, bit_at-word_of (λ i. false) i))
word_out (x ∷ ws) zero h = absurd (omega arith)
word_out (x ∷ ws) (suc w) h = word_out ws w (omega (arith, h))

pub flat_zero : (ws : List Word) (i : ℕ) → is_zero (word (i / 64) ws) ≡ true → flat ws i ≡ false
unfolding flat
flat_zero ws i h = is_zero_bits (word (i / 64) ws) (i % 64) h

pub bit_at-bit : (u k : ℕ) → bit_at (bit u) k ≡ (k == u % 64)
unfolding bit
bit_at-bit u k = bit_at-shift_one (u % 64) k (omega arith)

-- A bit of a word, in range.
pub bit_at_range :
    (ws : List Word) (w k : ℕ)
    → AreWords ws
    → bit_at (word w ws) k ≡ (ltb k 64 && bit_at (word w ws) k)
bit_at_range ws w k h = elim (Bool-cases (bit_at (word w ws) k)) [
  | inl e ↦ ground (arith, e, bit_at_length (word w ws) k e, length-word ws w h)
  | inr e ↦ ground (arith, e)
]

at_eq : (x : Word) (k j : ℕ) → (k == j) ≡ true → bit_at x k ≡ bit_at x j
at_eq x k j d = let e : k ≡ j = ground (arith, d) in ap (bit_at x) e

pub test-flat : (m : PriceBitmap) (u : ℕ) → test u m ≡ flat m.words u
unfolding test flat and_word
test-flat m u =
    let x = word (u / 64) m.words in
    let g : ℕ → Bool = λ k. bit_at x k && bit_at (bit u) k in
    elim (Bool-cases (bit_at x (u % 64))) [
      | inl e ↦ ground (
        arith,
        e,
        is_zero-false (and_word x (bit u)) (u % 64)
            (ground (arith, bit_at-word_of g (u % 64), bit_at-bit u (u % 64), e)),
      )
      | inr e ↦ ground (
        arith,
        e,
        is_zero_of (and_word x (bit u)) (λ k. elim (Bool-cases (k == u % 64)) [
          | inl d ↦
              let z : bit_at x k ≡ false = at_eq x k (u % 64) d ∙ e in
              ground (arith, bit_at-word_of g k, z)
          | inr d ↦ ground (arith, bit_at-word_of g k, bit_at-bit u k, d)
        ]),
      )
    ]

pub bit_at-from_bit :
    (ws : List Word) (i k : ℕ)
    → bit_at (from_bit i ws) k ≡ (ltb k 64 && (bit_at (word (i / 64) ws) k && leb (i % 64) k))
unfolding from_bit and_word
bit_at-from_bit ws i k = ground (
  arith,
  bit_at-word_of (λ k. bit_at (word (i / 64) ws) k && bit_at (shift_left (i % 64) all_bits) k) k,
  bit_at-shift_left (i % 64) k,
)

pub bit_at-upto_bit :
    (ws : List Word) (i k : ℕ)
    → bit_at (upto_bit i ws) k ≡ (ltb k 64 && (bit_at (word (i / 64) ws) k && leb k (i % 64)))
unfolding upto_bit and_word
bit_at-upto_bit ws i k = ground (
  arith,
  bit_at-word_of (λ k. bit_at (word (i / 64) ws) k && bit_at (shift_right (63 - i % 64) all_bits) k)
      k,
  bit_at-shift_right (63 - i % 64) k,
)

pub is_zero_of_flat :
    (ws : List Word) (w : ℕ)
    → AreWords ws
    → ((k : ℕ) → k < 64 → flat ws (w * 64 + k) ≡ false)
    → is_zero (word w ws) ≡ true
is_zero_of_flat ws w h e = is_zero_of (word w ws) (λ k. elim (Bool-cases (ltb k 64)) [
  | inl d ↦ bit_at-word ws w k (ground (arith, d)) ∙ e k (ground (arith, d))
  | inr d ↦ ground (arith, bit_at_range ws w k h, d)
])

pub flat_of-is_zero :
    (ws : List Word) (w k : ℕ) → is_zero (word w ws) ≡ true → k < 64 → flat ws (w * 64 + k) ≡ false
flat_of-is_zero ws w k h l = sym (bit_at-word ws w k l) ∙ is_zero_bits (word w ws) k h
