-- ===== src/PriceBitmap/Words.antt =====
-- 64-bit words by their bits, the least significant first, with the operators of C++ on them.
use exchange_sim.Base.{
  ℕ, suc, zero, ◌+◌, ◌-◌, ◌<◌, ltb, leb, ◌==◌, if◌then◌else◌, Bool, true, false, not, ◌&&◌, ◌||◌,
  ◌≡◌, refl, List, [], ◌∷◌, get_or, length, arith, ap, ◌∙◌, Bool-cases, inl, inr,
}

abbrev pub Word : Type 0
Word = List Bool

unfoldable pub bit_at : Word → ℕ → Bool
bit_at x i = get_or x i false

unfoldable pub tabulate : ℕ → ℕ → (ℕ → Bool) → List Bool
tabulate i zero f = []
tabulate i (suc n) f = f i ∷ tabulate (suc i) n f

unfoldable pub word_of : (ℕ → Bool) → Word
word_of f = tabulate 0 64 f

unfoldable pub no_bits : Word
no_bits = word_of (λ i. false)

-- The number 1.
unfoldable pub one : Word
one = word_of (λ i. i == 0)

unfoldable pub all_bits : Word
all_bits = word_of (λ i. true)

unfoldable pub or_word : Word → Word → Word
or_word x y = word_of (λ i. bit_at x i || bit_at y i)

unfoldable pub and_word : Word → Word → Word
and_word x y = word_of (λ i. bit_at x i && bit_at y i)

unfoldable pub not_word : Word → Word
not_word x = word_of (λ i. not (bit_at x i))

unfoldable pub shift_left : ℕ → Word → Word
shift_left k x = word_of (λ i. if ltb i k then false else bit_at x (i - k))

unfoldable pub shift_right : ℕ → Word → Word
shift_right k x = word_of (λ i. bit_at x (i + k))

unfoldable pub is_zero : Word → Bool
is_zero [] = true
is_zero (b ∷ x) = not b && is_zero x

-- `std::countr_zero`: the zeros below the lowest bit.
unfoldable pub countr_zero : Word → ℕ
countr_zero [] = 0
countr_zero (b ∷ x) = if b then 0 else suc (countr_zero x)

-- `std::countl_zero`: the zeros above the highest bit.
unfoldable pub countl_zero : Word → ℕ
unfolding is_zero
countl_zero [] = 0
countl_zero (b ∷ x) = if is_zero x then if b then length x else suc (length x) else countl_zero x

and_true : (b c : Bool) → b ≡ true → c ≡ (b && c)
and_true b c h = ground (arith, h)

pub get_or-tabulate :
    (i n k : ℕ) (f : ℕ → Bool) → get_or (tabulate i n f) k false ≡ (ltb k n && f (i + k))
unfolding tabulate
get_or-tabulate i zero k f = ground arith
get_or-tabulate i (suc n) zero f =
    and_true (ltb 0 (suc n)) (f i) (ground arith)
    ∙ ap (λ (j : ℕ). ltb 0 (suc n) && f j) (omega arith)
get_or-tabulate i (suc n) (suc k) f =
    get_or-tabulate (suc i) n k f
    ∙ ap (λ (b : Bool). b && f (suc i + k)) (ground arith)
    ∙ ap (λ (j : ℕ). ltb (suc k) (suc n) && f j) (omega arith)

pub bit_at-word_of : (f : ℕ → Bool) (k : ℕ) → bit_at (word_of f) k ≡ (ltb k 64 && f k)
unfolding word_of bit_at
bit_at-word_of f k = get_or-tabulate 0 64 k f ∙ ap (λ (j : ℕ). ltb k 64 && f j) (omega arith)

length-tabulate : (i n : ℕ) (f : ℕ → Bool) → length (tabulate i n f) ≡ n
unfolding tabulate
length-tabulate i zero f = refl
length-tabulate i (suc n) f = ap suc (length-tabulate (suc i) n f)

pub length-word_of : (f : ℕ → Bool) → length (word_of f) ≡ 64
unfolding word_of
length-word_of f = length-tabulate 0 64 f

pub is_zero_bits : (x : Word) (i : ℕ) → is_zero x ≡ true → bit_at x i ≡ false
unfolding is_zero bit_at
is_zero_bits [] i h = refl
is_zero_bits (true ∷ x) i h = ground (arith, h)
is_zero_bits (false ∷ x) zero h = refl
is_zero_bits (false ∷ x) (suc i) h = is_zero_bits x i h

pub is_zero_of : (x : Word) → ((i : ℕ) → bit_at x i ≡ false) → is_zero x ≡ true
unfolding is_zero bit_at
is_zero_of [] h = refl
is_zero_of (true ∷ x) h = ground (arith, h 0)
is_zero_of (false ∷ x) h = is_zero_of x (λ i. h (suc i))

pub is_zero-false : (x : Word) (i : ℕ) → bit_at x i ≡ true → is_zero x ≡ false
is_zero-false x i h = elim (Bool-cases (is_zero x)) [
  | inl e ↦ ground (arith, h, is_zero_bits x i e)
  | inr e ↦ e
]

pub bit_at_length : (x : Word) (i : ℕ) → bit_at x i ≡ true → i < length x
unfolding bit_at
bit_at_length [] i h = ground (arith, h)
bit_at_length (b ∷ x) zero h = omega arith
bit_at_length (b ∷ x) (suc i) h = omega (arith, bit_at_length x i h)

pub countr_zero_set : (x : Word) → is_zero x ≡ false → bit_at x (countr_zero x) ≡ true
unfolding is_zero bit_at countr_zero
countr_zero_set [] h = ground (arith, h)
countr_zero_set (true ∷ x) h = refl
countr_zero_set (false ∷ x) h = countr_zero_set x h

pub countr_zero_below : (x : Word) (i : ℕ) → i < countr_zero x → bit_at x i ≡ false
unfolding bit_at countr_zero
countr_zero_below [] i h = refl
countr_zero_below (true ∷ x) i h = absurd (omega arith)
countr_zero_below (false ∷ x) zero h = refl
countr_zero_below (false ∷ x) (suc i) h = countr_zero_below x i (omega arith)

-- The position of the highest bit, in a word of any length.
abbrev pub highest : Word → ℕ
highest x = length x - 1 - countl_zero x

pub countl_zero_length : (x : Word) → is_zero x ≡ false → countl_zero x < length x
unfolding is_zero countl_zero
countl_zero_length [] h = ground (arith, h)
countl_zero_length (b ∷ x) h = elim (Bool-cases (is_zero x)) [
  | inl e ↦ ground (arith, e, h)
  | inr e ↦ ground (arith, e, countl_zero_length x e)
]

highest_first :
    (b : Bool) (x : Word) → is_zero x ≡ true → is_zero (b ∷ x) ≡ false → highest (b ∷ x) ≡ 0
unfolding is_zero countl_zero
highest_first b x e h = ground (arith, e, h)

highest_rest : (b : Bool) (x : Word) → is_zero x ≡ false → highest (b ∷ x) ≡ suc (highest x)
unfolding is_zero countl_zero
highest_rest b x e = ground (arith, e, countl_zero_length x e)

first_set : (b : Bool) (x : Word) → is_zero x ≡ true → is_zero (b ∷ x) ≡ false → b ≡ true
unfolding is_zero
first_set b x e h = ground (arith, e, h)

pub highest_set : (x : Word) → is_zero x ≡ false → bit_at x (highest x) ≡ true
unfolding is_zero countl_zero bit_at
highest_set [] h = ground (arith, h)
highest_set (b ∷ x) h = elim (Bool-cases (is_zero x)) [
  | inl e ↦ ap (bit_at (b ∷ x)) (highest_first b x e h) ∙ first_set b x e h
  | inr e ↦ ap (bit_at (b ∷ x)) (highest_rest b x e) ∙ highest_set x e
]

pub highest_above : (x : Word) (i : ℕ) → highest x < i → bit_at x i ≡ false
unfolding is_zero countl_zero bit_at
highest_above [] i h = refl
highest_above (b ∷ x) zero h = absurd (omega arith)
highest_above (b ∷ x) (suc i) h = elim (Bool-cases (is_zero x)) [
  | inl e ↦ is_zero_bits x i e
  | inr e ↦ highest_above x i (omega (arith, h, highest_rest b x e))
]

-- The masks of the searches.
pub bit_at-shift_left : (k i : ℕ) → bit_at (shift_left k all_bits) i ≡ (ltb i 64 && leb k i)
unfolding shift_left all_bits
bit_at-shift_left k i =
    let f : ℕ → Bool = λ i. if ltb i k then false else bit_at all_bits (i - k) in
    let e : bit_at all_bits (i - k) ≡ (ltb (i - k) 64 && true) =
      bit_at-word_of (λ i. true) (i - k) in
    ground (arith, bit_at-word_of f i, e)

pub bit_at-shift_right :
    (k i : ℕ) → bit_at (shift_right k all_bits) i ≡ (ltb i 64 && ltb (i + k) 64)
unfolding shift_right all_bits
bit_at-shift_right k i =
    let e : bit_at all_bits (i + k) ≡ (ltb (i + k) 64 && true) =
      bit_at-word_of (λ i. true) (i + k) in
    ground (arith, bit_at-word_of (λ i. bit_at all_bits (i + k)) i, e)

pub bit_at-shift_one : (k i : ℕ) → k < 64 → bit_at (shift_left k one) i ≡ (i == k)
unfolding shift_left one
bit_at-shift_one k i h =
    let f : ℕ → Bool = λ i. if ltb i k then false else bit_at one (i - k) in
    let e : bit_at one (i - k) ≡ (ltb (i - k) 64 && i - k == 0) =
      bit_at-word_of (λ i. i == 0) (i - k) in
    ground (arith, bit_at-word_of f i, e)
