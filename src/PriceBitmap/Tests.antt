-- ===== src/PriceBitmap/Tests.antt =====
-- include/exsim/price_bitmap.hpp: a ladder of 8192 levels, with two words of summary.
use exchange_sim.Base.{ℕ, ◌≡◌, refl, ◌-◌, ◌&&◌, ◌||◌, ◌==◌, not, min, some, replicate, drop, arith}
use exchange_sim.Base.Int.{pos, negsuc}
use exchange_sim.PriceBitmap.Words.{
  no_bits, word_of, tabulate, bit_at, shift_left, one, all_bits, or_word, and_word, not_word,
  is_zero, countr_zero, countl_zero, shift_right,
}
use exchange_sim.PriceBitmap.Summary.{IsValid, new-Made, set_bit-IsValid, updates_lem}
use exchange_sim.PriceBitmap.Find.{scan_next}
use exchange_sim.PriceBitmap.Prev.{scan_prev, find_next_and_prev}
use exchange_sim.PriceBitmap.{
  PriceBitmap, new, word, bit, or_at, set_bit, clear_bit, test, next_word, from_bit, next_from,
  find_next, top_bit, prev_word, upto_bit, prev_before, prev_from, find_prev,
}

abbrev empty : PriceBitmap
empty = record { n = 8192; words = replicate 128 no_bits; summary = replicate 2 no_bits }

new_empty : new 8192 ≡ some empty
unfolding new
new_empty = refl

empty-IsValid : IsValid empty
unfolding new
empty-IsValid = (new-Made 8192 (omega arith) (omega arith) (omega arith)).0

abbrev two : PriceBitmap
two = set_bit 5000 (set_bit 5 empty)

two-IsValid : IsValid two
unfolding set_bit
two-IsValid =
    set_bit-IsValid (set_bit 5 empty) (set_bit-IsValid empty empty-IsValid 5 (omega arith)) 5000
      (omega arith)

runs : (find_next (pos 6) two ≡ 5000) × (find_prev (pos 4999) two ≡ pos 5)
unfolding find_next next_from from_bit next_word find_prev prev_from prev_before prev_word upto_bit
    top_bit set_bit or_at bit word or_word and_word not_word shift_left shift_right one all_bits
    no_bits word_of tabulate bit_at is_zero countr_zero countl_zero drop
runs = (refl, refl)

ends : (find_next (pos 5001) two ≡ 8192) × (find_prev (pos 4) two ≡ negsuc 0)
unfolding find_next next_from from_bit next_word find_prev prev_from prev_before prev_word upto_bit
    top_bit set_bit or_at bit word or_word and_word not_word shift_left shift_right one all_bits
    no_bits word_of tabulate bit_at is_zero countr_zero countl_zero drop
ends = (refl, refl)

find_next_and_prev_example :
    (find_next (pos 6) two ≡ scan_next (two.n - 6) 6 two)
    × (find_prev (pos 6) two ≡ scan_prev (min 7 two.n) two)
unfolding set_bit
find_next_and_prev_example = find_next_and_prev two two-IsValid 6 (omega arith) (omega arith)

updates_lem_example :
    (IsValid (set_bit 7 two) × ((i : ℕ) → test i (set_bit 7 two) ≡ (i == 7 || test i two)))
    × (IsValid (clear_bit 7 two)
        × ((i : ℕ) → test i (clear_bit 7 two) ≡ (not (i == 7) && test i two)))
unfolding set_bit
updates_lem_example = updates_lem two two-IsValid 7 (omega arith)
