-- ===== src/PriceBitmap.antt =====
-- include/exsim/price_bitmap.hpp: the occupancy bits of a price ladder, in words of 64, with a summary
-- that has one bit for each word. Indices may be -1, so the searches take integers.
pub mod Words
pub mod Flat
pub mod Summary
pub mod Find
pub mod Prev
pub mod Tests
use exchange_sim.Base.{
  ℕ, suc, zero, ◌+◌, ◌-◌, ◌*◌, ◌/◌, ◌%◌, ◌^◌, leb, ltb, ◌==◌, if◌then◌else◌, Bool, true, false, not,
  ◌||◌, Option, none, some, List, [], ◌∷◌, get_or, set, replicate, drop, length,
}
use exchange_sim.Base.Int.{ℤ, pos, negsuc}
use Words.{
  Word, one, no_bits, all_bits, or_word, and_word, not_word, shift_left, shift_right, is_zero,
  countr_zero, countl_zero, bit_at,
}

pub record PriceBitmap : Type 0 where
  pub n : ℕ
  pub words : List Word
  pub summary : List Word

-- The constructor; `none` is its exception.
unfoldable pub new : ℕ → Option PriceBitmap
new n =
    if n == 0 || not (n % 64 == 0) || ltb (2 ^ 30) n
    then none
    else some (record {
      n = n;
      words = replicate (n / 64) no_bits;
      summary = replicate ((n / 64 + 63) / 64) no_bits;
    })

unfoldable pub bit : ℕ → Word
bit i = shift_left (i % 64) one

unfoldable pub word : ℕ → List Word → Word
word w ws = get_or ws w no_bits

-- `ws[w] |= b`.
unfoldable pub or_at : ℕ → Word → List Word → List Word
or_at w b ws = set ws w (or_word (word w ws) b)

-- `ws[w] &= ~b`.
unfoldable pub clear_at : ℕ → Word → List Word → List Word
clear_at w b ws = set ws w (and_word (word w ws) (not_word b))

unfoldable pub set_bit : ℕ → PriceBitmap → PriceBitmap
set_bit u m = record m {
  words = or_at (u / 64) (bit u) m.words;
  summary = or_at (u / 4096) (bit (u / 64)) m.summary;
}

unfoldable pub clear_bit : ℕ → PriceBitmap → PriceBitmap
clear_bit u m =
    let w = u / 64 in
    let words' = clear_at w (bit u) m.words in
    record m {
      words = words';
      summary = if is_zero (word w words') then clear_at (w / 64) (bit w) m.summary else m.summary;
    }

unfoldable pub test : ℕ → PriceBitmap → Bool
test u m = not (is_zero (and_word (word (u / 64) m.words) (bit u)))

-- The loop of `find_next`: the word `s` of the summary, masked, and those after it.
unfoldable pub next_word : ℕ → Word → List Word → Option ℕ
next_word s sm [] = if is_zero sm then none else some (s * 64 + countr_zero sm)
next_word s sm (x ∷ xs) = elim (is_zero sm) [
  | true ↦ next_word (suc s) x xs
  | false ↦ some (s * 64 + countr_zero sm)
]

-- The word at `w`, and the mask of the bits from `i` on.
unfoldable pub from_bit : ℕ → List Word → Word
from_bit i ws = and_word (word (i / 64) ws) (shift_left (i % 64) all_bits)

unfoldable pub next_from : ℕ → PriceBitmap → ℕ
next_from u m =
    let x = from_bit u m.words in
    let w = u / 64 + 1 in
    if not (is_zero x)
    then u / 64 * 64 + countr_zero x
    else if leb (length m.words) w
    then m.n
    else elim (next_word (w / 64) (from_bit w m.summary) (drop (suc (w / 64)) m.summary)) [
      | none ↦ m.n
      | some w' ↦ w' * 64 + countr_zero (word w' m.words)
    ]

unfoldable pub find_next : ℤ → PriceBitmap → ℕ
find_next (pos i) m = if leb m.n i then m.n else next_from i m
find_next (negsuc i) m = next_from 0 m

-- The position of the highest bit of a word that is not zero.
unfoldable pub top_bit : Word → ℕ
top_bit x = 63 - countl_zero x

-- The loop of `find_prev`: the word `s` of the summary, masked, and those before it.
unfoldable pub prev_word : ℕ → Word → List Word → Option ℕ
prev_word zero sm ws = if is_zero sm then none else some (top_bit sm)
prev_word (suc s) sm ws = elim (is_zero sm) [
  | true ↦ prev_word s (word s ws) ws
  | false ↦ some (suc s * 64 + top_bit sm)
]

-- The word at `i / 64`, and the mask of the bits up to `i`.
unfoldable pub upto_bit : ℕ → List Word → Word
upto_bit i ws = and_word (word (i / 64) ws) (shift_right (63 - i % 64) all_bits)

-- The part of `find_prev` that reads the words before `w`.
unfoldable pub prev_before : ℕ → PriceBitmap → ℤ
prev_before zero m = negsuc 0
prev_before (suc w) m = elim (prev_word (w / 64) (upto_bit w m.summary) m.summary) [
  | none ↦ negsuc 0
  | some w' ↦ pos (w' * 64 + top_bit (word w' m.words))
]

unfoldable pub prev_from : ℕ → PriceBitmap → ℤ
prev_from u m =
    let x = upto_bit u m.words in
    if not (is_zero x) then pos (u / 64 * 64 + top_bit x) else prev_before (u / 64) m

unfoldable pub find_prev : ℤ → PriceBitmap → ℤ
find_prev (negsuc i) m = negsuc 0
find_prev (pos i) m = if leb m.n i then prev_from (m.n - 1) m else prev_from i m
