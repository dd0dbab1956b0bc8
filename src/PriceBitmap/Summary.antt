-- ===== src/PriceBitmap/Summary.antt =====
-- include/exsim/price_bitmap.hpp: what the summary says of the words, and `set` and `clear`.
use exchange_sim.Base.{
  ℕ, suc, zero, ◌+◌, ◌*◌, ◌/◌, ◌%◌, ◌^◌, ◌<◌, ◌≤◌, ◌==◌, ltb, if◌then◌else◌, Bool, true, false, not,
  ◌&&◌, ◌||◌, ◌≡◌, ◌≢◌, refl, ap, ◌∙◌, sym, List, [], ◌∷◌, set, length, arith, Option, none, some,
  Bool-cases, inl, inr, length-set, get_or-set_self, get_or-set_ne, replicate, length-replicate,
}
use exchange_sim.PriceBitmap.Words.{
  Word, no_bits, is_zero, bit_at, or_word, and_word, not_word, word_of, bit_at-word_of,
  is_zero_bits, is_zero_of, is_zero-false, length-word_of,
}
use exchange_sim.PriceBitmap.Flat.{
  flat, AreWords, bit_at-bit, test-flat, is_zero_of_flat, flat_of-is_zero,
}
use exchange_sim.PriceBitmap.{
  PriceBitmap, new, word, bit, or_at, clear_at, set_bit, clear_bit, test,
}

-- The lengths fit `n`, and a bit of the summary says whether its word has a bit.
pub record IsValid (m : PriceBitmap) : Type 0 where
  pub size : m.n ≡ length m.words * 64
  pub summary_size : length m.summary ≡ (length m.words + 63) / 64
  pub are_words : AreWords m.words
  pub are_summary : AreWords m.summary
  pub summarises : (w : ℕ) → flat m.summary w ≡ not (is_zero (word w m.words))

AreWords-set :
    (ws : List Word) (w : ℕ) (f : ℕ → Bool) → AreWords ws → AreWords (set ws w (word_of f))
AreWords-set [] w f h = h
AreWords-set (x ∷ ws) zero f h = (length-word_of f, h.1)
AreWords-set (x ∷ ws) (suc w) f h = (h.0, AreWords-set ws w f h.1)

flat-set_self :
    (ws : List Word) (w i : ℕ) (x : Word)
    → w < length ws
    → i / 64 ≡ w
    → flat (set ws w x) i ≡ bit_at x (i % 64)
unfolding flat word
flat-set_self ws w i x h e =
    ap (λ (j : ℕ). bit_at (word j (set ws w x)) (i % 64)) e
    ∙ ap (λ (y : Word). bit_at y (i % 64)) (get_or-set_self ws w x no_bits h)

flat-set_ne : (ws : List Word) (w i : ℕ) (x : Word) → w ≢ i / 64 → flat (set ws w x) i ≡ flat ws i
unfolding flat word
flat-set_ne ws w i x h = ap (λ (y : Word). bit_at y (i % 64)) (get_or-set_ne ws x no_bits h)

bit_at-flat : (ws : List Word) (w i : ℕ) → i / 64 ≡ w → bit_at (word w ws) (i % 64) ≡ flat ws i
unfolding flat
bit_at-flat ws w i e = ap (λ (j : ℕ). bit_at (word j ws) (i % 64)) (sym e)

pub or_at-flat :
    (ws : List Word) (u i : ℕ)
    → u / 64 < length ws
    → flat (or_at (u / 64) (bit u) ws) i ≡ (i == u || flat ws i)
unfolding or_at or_word
or_at-flat ws u i h =
    let x = word (u / 64) ws in
    let f : ℕ → Bool = λ k. bit_at x k || bit_at (bit u) k in
    elim (Bool-cases (i / 64 == u / 64)) [
      | inl e ↦
          let d : i / 64 ≡ u / 64 = ground (arith, e) in
          ground (
            arith,
            flat-set_self ws (u / 64) i (word_of f) h d,
            bit_at-word_of f (i % 64),
            bit_at-flat ws (u / 64) i d,
            bit_at-bit u (i % 64),
            d,
          )
      | inr e ↦ ground (arith, e, flat-set_ne ws (u / 64) i (word_of f) (ground (arith, e)))
    ]

pub clear_at-flat :
    (ws : List Word) (u i : ℕ)
    → u / 64 < length ws
    → flat (clear_at (u / 64) (bit u) ws) i ≡ (not (i == u) && flat ws i)
unfolding clear_at and_word not_word
clear_at-flat ws u i h =
    let x = word (u / 64) ws in
    let g : ℕ → Bool = λ k. not (bit_at (bit u) k) in
    let f : ℕ → Bool = λ k. bit_at x k && bit_at (word_of g) k in
    elim (Bool-cases (i / 64 == u / 64)) [
      | inl e ↦
          let d : i / 64 ≡ u / 64 = ground (arith, e) in
          ground (
            arith,
            flat-set_self ws (u / 64) i (word_of f) h d,
            bit_at-word_of f (i % 64),
            bit_at-flat ws (u / 64) i d,
            bit_at-bit u (i % 64),
            bit_at-word_of g (i % 64),
            d,
          )
      | inr e ↦ ground (arith, e, flat-set_ne ws (u / 64) i (word_of f) (ground (arith, e)))
    ]

word-set_ne : (ws : List Word) (w j : ℕ) (x : Word) → w ≢ j → word j (set ws w x) ≡ word j ws
unfolding word
word-set_ne ws w j x h = get_or-set_ne ws x no_bits h

word_has : (ws : List Word) (i : ℕ) → flat ws i ≡ true → is_zero (word (i / 64) ws) ≡ false
unfolding flat
word_has ws i h = is_zero-false (word (i / 64) ws) (i % 64) h

eq_of-== : (a b : ℕ) → (a == b) ≡ true → a ≡ b
eq_of-== a b h = ground (arith, h)

length-clear_at : (w : ℕ) (b : Word) (ws : List Word) → length (clear_at w b ws) ≡ length ws
unfolding clear_at
length-clear_at w b ws = length-set ws w _

flat_if :
    (b : Bool) (xs ys : List Word) (i : ℕ)
    → flat (if b then xs else ys) i ≡ (if b then flat xs i else flat ys i)
flat_if true xs ys i = refl
flat_if false xs ys i = refl

AreWords-if :
    (b : Bool) (xs ys : List Word) → AreWords xs → AreWords ys → AreWords (if b then xs else ys)
AreWords-if true xs ys h h' = h
AreWords-if false xs ys h h' = h'

length-if :
    (b : Bool) (xs ys : List Word)
    → length xs ≡ length ys
    → length (if b then xs else ys) ≡ length ys
length-if true xs ys h = h
length-if false xs ys h = refl

module _ (m : PriceBitmap) (v : IsValid m) (u : ℕ) (h : u < m.n) where
  summary_in : u / 64 / 64 < length m.summary
  summary_in = omega (arith, v.size, v.summary_size, h)

  words_in : u / 64 < length m.words
  words_in = omega (arith, v.size, h)

  pub words-set_bit : (i : ℕ) → flat (set_bit u m).words i ≡ (i == u || flat m.words i)
  unfolding set_bit
  words-set_bit i = or_at-flat m.words u i words_in

  pub summary-set_bit : (w : ℕ) → flat (set_bit u m).summary w ≡ (w == u / 64 || flat m.summary w)
  unfolding set_bit
  summary-set_bit w =
      let e : u / 4096 ≡ u / 64 / 64 = omega arith in
      ap (λ (k : ℕ). flat (or_at k (bit (u / 64)) m.summary) w) e
      ∙ or_at-flat m.summary (u / 64) w summary_in

  set_bit_summarises :
      (w : ℕ) → flat (set_bit u m).summary w ≡ not (is_zero (word w (set_bit u m).words))
  unfolding set_bit or_at
  set_bit_summarises w = elim (Bool-cases (w == u / 64)) [
    | inl e ↦
        let z : is_zero (word (u / 64) (set_bit u m).words) ≡ false =
          word_has (set_bit u m).words u (ground (arith, words-set_bit u)) in
        let d : is_zero (word w (set_bit u m).words) ≡ false =
          ap (λ (j : ℕ). is_zero (word j (set_bit u m).words)) (eq_of-== w (u / 64) e) ∙ z in
        ground (arith, summary-set_bit w, d, e)
    | inr e ↦
        let d : word w (set_bit u m).words ≡ word w m.words =
          word-set_ne m.words (u / 64) w (or_word (word (u / 64) m.words) (bit u))
            (ground (arith, e)) in
        summary-set_bit w ∙ ground (arith, e, v.summarises w, ap is_zero d)
  ]

  pub set_bit-IsValid : IsValid (set_bit u m)
  unfolding set_bit or_at or_word
  set_bit-IsValid = record {
    size =
        omega
          (arith, v.size, length-set m.words (u / 64) (or_word (word (u / 64) m.words) (bit u)));
    summary_size = omega (
      arith,
      v.summary_size,
      length-set m.words (u / 64) (or_word (word (u / 64) m.words) (bit u)),
      length-set m.summary (u / 4096) (or_word (word (u / 4096) m.summary) (bit (u / 64))),
    );
    are_words = AreWords-set m.words (u / 64) _ v.are_words;
    are_summary = AreWords-set m.summary (u / 4096) _ v.are_summary;
    summarises = set_bit_summarises;
  }

  pub test-set_bit : (i : ℕ) → test i (set_bit u m) ≡ (i == u || test i m)
  test-set_bit i =
      test-flat (set_bit u m) i
      ∙ words-set_bit i
      ∙ ap (λ (b : Bool). i == u || b) (sym (test-flat m i))

  pub words-clear_bit : (i : ℕ) → flat (clear_bit u m).words i ≡ (not (i == u) && flat m.words i)
  unfolding clear_bit
  words-clear_bit i = clear_at-flat m.words u i words_in

  pub test-clear_bit : (i : ℕ) → test i (clear_bit u m) ≡ (not (i == u) && test i m)
  test-clear_bit i =
      test-flat (clear_bit u m) i
      ∙ words-clear_bit i
      ∙ ap (λ (b : Bool). not (i == u) && b) (sym (test-flat m i))

  cleared : List Word
  cleared = clear_at (u / 64) (bit u) m.words

  summary-clear_bit :
      (w : ℕ)
      → flat (clear_bit u m).summary w
        ≡ (not (w == u / 64 && is_zero (word (u / 64) cleared)) && flat m.summary w)
  unfolding clear_bit cleared
  summary-clear_bit w =
      let z = is_zero (word (u / 64) cleared) in
      flat_if z (clear_at (u / 64 / 64) (bit (u / 64)) m.summary) m.summary w
      ∙ ground (arith, clear_at-flat m.summary (u / 64) w summary_in)

  cleared-AreWords : AreWords cleared
  unfolding cleared clear_at and_word
  cleared-AreWords = AreWords-set m.words (u / 64) _ v.are_words

  cleared_zero : is_zero (word (u / 64) m.words) ≡ true → is_zero (word (u / 64) cleared) ≡ true
  unfolding cleared
  cleared_zero e = is_zero_of_flat cleared (u / 64) cleared-AreWords (λ k l. ground (
    arith,
    clear_at-flat m.words u (u / 64 * 64 + k) words_in,
    flat_of-is_zero m.words (u / 64) k e l,
  ))

  cleared_ne : (w : ℕ) → (w == u / 64) ≡ false → word w cleared ≡ word w m.words
  unfolding cleared clear_at
  cleared_ne w e = word-set_ne m.words (u / 64) w _ (ground (arith, e))

  clear_bit_summarises : (w : ℕ) → flat (clear_bit u m).summary w ≡ not (is_zero (word w cleared))
  clear_bit_summarises w = elim (Bool-cases (w == u / 64)) [
    | inl e ↦
        let d : is_zero (word w cleared) ≡ is_zero (word (u / 64) cleared) =
          ap (λ (j : ℕ). is_zero (word j cleared)) (eq_of-== w (u / 64) e) in
        let d' : is_zero (word w m.words) ≡ is_zero (word (u / 64) m.words) =
          ap (λ (j : ℕ). is_zero (word j m.words)) (eq_of-== w (u / 64) e) in
        elim (Bool-cases (is_zero (word (u / 64) cleared))) [
          | inl z ↦ ground (arith, summary-clear_bit w, d, e, z)
          | inr z ↦ elim (Bool-cases (is_zero (word (u / 64) m.words))) [
            | inl y ↦ ground (arith, cleared_zero y, z)
            | inr y ↦ ground (arith, summary-clear_bit w, d, d', e, z, y, v.summarises w)
          ]
        ]
    | inr e ↦ ground (arith, summary-clear_bit w, e, v.summarises w, ap is_zero (cleared_ne w e))
  ]

  pub clear_bit-IsValid : IsValid (clear_bit u m)
  unfolding clear_bit cleared clear_at and_word
  clear_bit-IsValid = record {
    size = v.size ∙ ap (λ (k : ℕ). k * 64) (sym (length-clear_at (u / 64) (bit u) m.words));
    summary_size =
        length-if (is_zero (word (u / 64) cleared))
          (clear_at (u / 64 / 64) (bit (u / 64)) m.summary) m.summary
          (length-clear_at (u / 64 / 64) (bit (u / 64)) m.summary)
        ∙ v.summary_size
        ∙ ap (λ (k : ℕ). (k + 63) / 64) (sym (length-clear_at (u / 64) (bit u) m.words));
    are_words = cleared-AreWords;
    are_summary =
        AreWords-if (is_zero (word (u / 64) cleared)) _ m.summary
          (AreWords-set m.summary (u / 64 / 64) _ v.are_summary) v.are_summary;
    summarises = clear_bit_summarises;
  }

  -- On a valid bitmap `set` and `clear` of a level of the ladder keep it valid; the level is then
  -- occupied, or not, and the others are as before.
  pub updates_lem :
      (IsValid (set_bit u m) × ((i : ℕ) → test i (set_bit u m) ≡ (i == u || test i m)))
      × (IsValid (clear_bit u m) × ((i : ℕ) → test i (clear_bit u m) ≡ (not (i == u) && test i m)))
  updates_lem = ((set_bit-IsValid, test-set_bit), (clear_bit-IsValid, test-clear_bit))

AreWords-replicate : (k : ℕ) → AreWords (replicate k no_bits)
unfolding no_bits
AreWords-replicate zero = tt
AreWords-replicate (suc k) = (length-word_of (λ i. false), AreWords-replicate k)

word-replicate : (k w : ℕ) → word w (replicate k no_bits) ≡ no_bits
unfolding word
word-replicate zero w = refl
word-replicate (suc k) zero = refl
word-replicate (suc k) (suc w) = word-replicate k w

no_bits_zero : is_zero no_bits ≡ true
unfolding no_bits
no_bits_zero = is_zero_of no_bits (λ i. bit_at-word_of (λ i. false) i ∙ ground arith)

flat-replicate : (k i : ℕ) → flat (replicate k no_bits) i ≡ false
unfolding flat
flat-replicate k i =
    ap (λ (x : Word). bit_at x (i % 64)) (word-replicate k (i / 64))
    ∙ is_zero_bits no_bits (i % 64) no_bits_zero

abbrev pub Made : Option PriceBitmap → Type 0
Made none = ⊥
Made (some m) = IsValid m × ((i : ℕ) → test i m ≡ false)

pub new-Made : (n : ℕ) → n ≢ 0 → n % 64 ≡ 0 → n ≤ 2 ^ 30 → Made (new n)
unfolding new
new-Made n h h' h'' =
    let e : (n == 0 || not (n % 64 == 0) || ltb (2 ^ 30) n) ≡ false = ground arith in
    let k : length (replicate (n / 64) no_bits) ≡ n / 64 = length-replicate (n / 64) no_bits in
    rw (e) (
      record {
        size = omega (arith, k, h');
        summary_size =
            length-replicate ((n / 64 + 63) / 64) no_bits ∙ ap (λ (j : ℕ). (j + 63) / 64) (sym k);
        are_words = AreWords-replicate (n / 64);
        are_summary = AreWords-replicate ((n / 64 + 63) / 64);
        summarises = λ w. ground (
          arith,
          flat-replicate ((n / 64 + 63) / 64) w,
          ap is_zero (word-replicate (n / 64) w),
          no_bits_zero,
        );
      },
      λ i. test-flat _ i ∙ flat-replicate (n / 64) i,
    )
