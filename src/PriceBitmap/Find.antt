-- ===== src/PriceBitmap/Find.antt =====
-- include/exsim/price_bitmap.hpp: `find_next` and `find_prev` against a walk of the levels one by one.
use exchange_sim.Base.{
  ℕ, suc, zero, ◌+◌, ◌-◌, ◌*◌, ◌/◌, ◌%◌, ◌<◌, ◌≤◌, ◌==◌, leb, ltb, Bool, true, false, ◌&&◌, ◌≡◌,
  refl, ap, ◌∙◌, sym, List, [], ◌∷◌, length, arith, Option, none, some, Bool-cases, inl, inr, drop,
  ◌⊎◌, length-drop, subst,
}
use exchange_sim.Base.Int.{pos}
use exchange_sim.PriceBitmap.Words.{
  Word, is_zero, bit_at, countr_zero, countr_zero_set, countr_zero_below, bit_at_length,
  is_zero_bits,
}
use exchange_sim.PriceBitmap.Flat.{
  flat, AreWords, test-flat, length-word, bit_at-word, bit_at_range, word_out, flat_zero,
  bit_at-from_bit,
}
use exchange_sim.PriceBitmap.Summary.{IsValid}
use exchange_sim.PriceBitmap.{PriceBitmap, word, next_word, from_bit, test, next_from, find_next}

-- The first set bit from `j` on, if there is one.
abbrev pub IsFirst : (ℕ → Bool) → ℕ → Option ℕ → Type 0
IsFirst P j none = (i : ℕ) → (i < j) ⊎ (P i ≡ false)
IsFirst P j (some r) = (j ≤ r) × ((P r ≡ true) × ((i : ℕ) → (i < j) ⊎ ((r ≤ i) ⊎ (P i ≡ false))))

-- `sm` has the bits of the word `s` from `j` on, and there are none in the words before.
abbrev IsMasked : List Word → ℕ → ℕ → Word → Type 0
IsMasked ws j s sm =
    ((k : ℕ) → bit_at sm k ≡ (ltb k 64 && (flat ws (s * 64 + k) && leb j (s * 64 + k))))
    × ((i : ℕ) → (i < j) ⊎ ((s * 64 ≤ i) ⊎ (flat ws i ≡ false)))

-- What a masked word that is zero says.
none_before :
    (ws : List Word) (j s : ℕ) (sm : Word)
    → IsMasked ws j s sm
    → is_zero sm ≡ true
    → (i : ℕ) → (i < j) ⊎ ((suc s * 64 ≤ i) ⊎ (flat ws i ≡ false))
none_before ws j s sm h z i =
    let e : bit_at sm (i - s * 64) ≡ false = is_zero_bits sm (i - s * 64) z in
    let d : (s * 64 ≤ i) → flat ws (s * 64 + (i - s * 64)) ≡ flat ws i =
      λ l. ap (flat ws) (omega (arith, l)) in
    elim (h.1 i) [
      | inl a ↦ inl a
      | inr (inr a) ↦ inr (inr a)
      | inr (inl a) ↦ ground (arith, e, h.0 (i - s * 64), d a, a)
    ]

found :
    (ws : List Word) (j s : ℕ) (sm : Word)
    → IsMasked ws j s sm
    → is_zero sm ≡ false
    → IsFirst (flat ws) j (some (s * 64 + countr_zero sm))
found ws j s sm h z =
    let c = countr_zero sm in
    let e : bit_at sm c ≡ true = countr_zero_set sm z in
    (
      ground (arith, e, h.0 c),
      (
        ground (arith, e, h.0 c),
        λ i. elim (h.1 i) [
          | inl a ↦ inl a
          | inr (inr a) ↦ inr (inr (a))
          | inr (inl a) ↦
              let d : flat ws (s * 64 + (i - s * 64)) ≡ flat ws i =
                ap (flat ws) (omega (arith, a)) in
              ground (arith, h.0 (i - s * 64), d, a, countr_zero_below sm (i - s * 64), h.0 c, e)
        ],
      ),
    )

drop-cons :
    (s : ℕ) (ws : List Word) (x : Word) (xs : List Word)
    → drop s ws ≡ x ∷ xs
    → (word s ws ≡ x) × (drop (suc s) ws ≡ xs)
unfolding drop word
drop-cons zero [] x xs h = ground (arith, h)
drop-cons zero (y ∷ ws) x xs h = (ground (arith, h), ground (arith, h))
drop-cons (suc s) [] x xs h = ground (arith, h)
drop-cons (suc s) (y ∷ ws) x xs h = drop-cons s ws x xs h

flat_beyond : (ws : List Word) (s i : ℕ) → drop (suc s) ws ≡ [] → suc s * 64 ≤ i → flat ws i ≡ false
flat_beyond ws s i d l =
    let e : length (drop (suc s) ws) ≡ 0 = ap length d in
    flat_zero ws i (word_out ws (i / 64) (omega (arith, e, length-drop (suc s) ws, l)))

next-IsMasked :
    (ws : List Word)
    → AreWords ws
    → (j s : ℕ) (sm : Word) → j < suc s * 64
    → IsMasked ws j s sm
    → is_zero sm ≡ true
    → IsMasked ws j (suc s) (word (suc s) ws)
next-IsMasked ws v j s sm l h z = (
  λ k. elim (Bool-cases (ltb k 64)) [
    | inl d ↦ ground (arith, bit_at-word ws (suc s) k (ground (arith, d)), l, d)
    | inr d ↦ ground (arith, bit_at_range ws (suc s) k v, d)
  ],
  none_before ws j s sm h z,
)

next_word_zero :
    (s : ℕ) (sm x : Word) (xs : List Word)
    → is_zero sm ≡ true
    → next_word s sm (x ∷ xs) ≡ next_word (suc s) x xs
unfolding next_word
next_word_zero s sm x xs z = rw (z, next_word) refl

next_word_found :
    (s : ℕ) (sm : Word) (xs : List Word)
    → is_zero sm ≡ false
    → next_word s sm xs ≡ some (s * 64 + countr_zero sm)
unfolding next_word
next_word_found s sm [] z = rw (z, next_word) refl
next_word_found s sm (x ∷ xs) z = rw (z, next_word) refl

pub next_word-IsFirst :
    (ws : List Word)
    → AreWords ws
    → (j s : ℕ) (sm : Word) (rest : List Word) → drop (suc s) ws ≡ rest
    → j < suc s * 64
    → IsMasked ws j s sm
    → IsFirst (flat ws) j (next_word s sm rest)
unfolding next_word
next_word-IsFirst ws v j s sm [] d l h = elim (Bool-cases (is_zero sm)) [
  | inl z ↦ rw (z) (λ i. elim (none_before ws j s sm h z i) [
    | inl a ↦ inl a
    | inr (inl a) ↦ inr (flat_beyond ws s i d a)
    | inr (inr a) ↦ inr a
  ])
  | inr z ↦ rw (z) (found ws j s sm h z)
]
next_word-IsFirst ws v j s sm (x ∷ xs) d l h = elim (Bool-cases (is_zero sm)) [
  | inl z ↦
      let c = drop-cons (suc s) ws x xs d in
      let m : IsMasked ws j (suc s) x =
        subst (IsMasked ws j (suc s)) c.0 (next-IsMasked ws v j s sm l h z) in
      subst (IsFirst (flat ws) j) (sym (next_word_zero s sm x xs z))
        (next_word-IsFirst ws v j (suc s) x xs c.1 (omega (arith, l)) m)
  | inr z ↦
      subst (IsFirst (flat ws) j) (sym (next_word_found s sm (x ∷ xs) z)) (found ws j s sm h z)
]

-- The masked word that a search starts with.
pub from_bit-IsMasked :
    (ws : List Word) → AreWords ws → (i : ℕ) → IsMasked ws i (i / 64) (from_bit i ws)
from_bit-IsMasked ws v i = (
  λ k. elim (Bool-cases (ltb k 64)) [
    | inl d ↦
        ground (arith, bit_at-from_bit ws i k, bit_at-word ws (i / 64) k (ground (arith, d)), d)
    | inr d ↦ ground (arith, bit_at-from_bit ws i k, d)
  ],
  λ k. ground arith,
)

-- The walk of the levels from `i` up: `find_next` as its comment says.
unfoldable pub scan_next : ℕ → ℕ → PriceBitmap → ℕ
scan_next zero i m = i
scan_next (suc k) i m = elim (test i m) [ true ↦ i | false ↦ scan_next k (suc i) m ]

pub test_apart : (m : PriceBitmap) (i r : ℕ) → test i m ≡ false → test r m ≡ true → (i == r) ≡ false
test_apart m i r e g = elim (Bool-cases (i == r)) [
  | inl d ↦ let d' : i ≡ r = ground (arith, d) in ground (arith, ap (λ (j : ℕ). test j m) d', e, g)
  | inr d ↦ d
]

next_after :
    (m : PriceBitmap) (i r k : ℕ)
    → test i m ≡ false
    → (r ≡ i + suc k) ⊎ (test r m ≡ true)
    → i ≤ r
    → r ≤ i + suc k
    → suc i ≤ r
next_after m i r k e (inl g) l l' = omega (arith, g)
next_after m i r k e (inr g) l l' = ground (arith, test_apart m i r e g, l)

pub scan_next_eq :
    (m : PriceBitmap) (k i r : ℕ)
    → i ≤ r
    → r ≤ i + k
    → ((j : ℕ) → (j < i) ⊎ ((r ≤ j) ⊎ (test j m ≡ false)))
    → (r ≡ i + k) ⊎ (test r m ≡ true)
    → scan_next k i m ≡ r
unfolding scan_next
scan_next_eq m zero i r l l' f g = omega (arith, l, l')
scan_next_eq m (suc k) i r l l' f g = elim (Bool-cases (test i m)) [
  | inl e ↦ rw (e, scan_next) (ground (arith, f i, e, l))
  | inr e ↦
      rw (e, scan_next)
        (scan_next_eq m k (suc i) r (next_after m i r k e g l l') (omega (arith, l'))
          (λ j. ground (arith, f j, e)) (ground (arith, g)))
]

-- `r` is the first occupied level from `u` on, or the number of levels.
abbrev pub IsNext : PriceBitmap → ℕ → ℕ → Type 0
IsNext m u r =
    (u ≤ r)
    × ((r ≤ m.n)
        × (((r ≡ m.n) ⊎ (test r m ≡ true)) × ((i : ℕ) → (i < u) ⊎ ((r ≤ i) ⊎ (test i m ≡ false)))))

end_of : PriceBitmap → Option ℕ → ℕ
end_of m o = elim o [ none ↦ m.n | some w ↦ w * 64 + countr_zero (word w m.words) ]

module _ (m : PriceBitmap) (u : ℕ) where
  next_from_here :
      is_zero (from_bit u m.words) ≡ false
      → next_from u m ≡ u / 64 * 64 + countr_zero (from_bit u m.words)
  unfolding next_from
  next_from_here z = rw (z, next_from) refl

  module _ (z : is_zero (from_bit u m.words) ≡ true) where
    next_from_last : leb (length m.words) (u / 64 + 1) ≡ true → next_from u m ≡ m.n
    unfolding next_from
    next_from_last e = rw (z, e, next_from) refl

    next_from_up :
        leb (length m.words) (u / 64 + 1) ≡ false
        → next_from u m
          ≡ end_of m (
              next_word
                ((u / 64 + 1) / 64)
                (from_bit (u / 64 + 1) m.summary)
                (drop (suc ((u / 64 + 1) / 64)) m.summary))
    unfolding next_from end_of
    next_from_up e = rw (z, e, next_from) refl

module _ (m : PriceBitmap) (v : IsValid m) where
  after_word :
      (u : ℕ)
      → is_zero (from_bit u m.words) ≡ true
      → (i : ℕ) → (i < u) ⊎ (((u / 64 + 1) * 64 ≤ i) ⊎ (flat m.words i ≡ false))
  after_word u z i = ground (
    arith,
    none_before m.words u (u / 64) (from_bit u m.words) (from_bit-IsMasked m.words v.are_words u) z
        i,
  )

  summary_false : (i : ℕ) → flat m.summary (i / 64) ≡ false → flat m.words i ≡ false
  summary_false i e = flat_zero m.words i (ground (arith, v.summarises (i / 64), e))

  next_words :
      (w : ℕ)
      → IsFirst
          (flat m.summary)
          w
          (next_word (w / 64) (from_bit w m.summary) (drop (suc (w / 64)) m.summary))
  next_words w =
      next_word-IsFirst m.summary v.are_summary w (w / 64) (from_bit w m.summary)
        (drop (suc (w / 64)) m.summary) refl (omega arith)
        (from_bit-IsMasked m.summary v.are_summary w)

  pub word_bit : (w : ℕ) → (k : ℕ) → bit_at (word w m.words) k ≡ true → test (w * 64 + k) m ≡ true
  word_bit w k e =
      let l : k < 64 =
        omega (arith, bit_at_length (word w m.words) k e, length-word m.words w v.are_words) in
      test-flat m (w * 64 + k) ∙ sym (bit_at-word m.words w k l) ∙ e

  word_in : (w : ℕ) → leb (length m.words) w ≡ false → w < length m.words
  word_in w d = ground (arith, d)

  pub word_bound : (w k : ℕ) → bit_at (word w m.words) k ≡ true → w * 64 + k < m.n
  word_bound w k e = elim (Bool-cases (leb (length m.words) w)) [
    | inl d ↦
        ground (arith, is_zero_bits (word w m.words) k (word_out m.words w (ground (arith, d))), e)
    | inr d ↦ omega (
      arith,
      bit_at_length (word w m.words) k e,
      length-word m.words w v.are_words,
      v.size,
      word_in w d,
    )
  ]

  in_word :
      (w i : ℕ)
      → w * 64 ≤ i
      → i < w * 64 + countr_zero (word w m.words)
      → countr_zero (word w m.words) < 64
      → flat m.words i ≡ false
  in_word w i l l' b =
      let d : w * 64 + (i - w * 64) ≡ i = omega (arith, l) in
      sym (ap (flat m.words) d)
      ∙ sym (bit_at-word m.words w (i - w * 64) (omega (arith, l, l', b)))
      ∙ countr_zero_below (word w m.words) (i - w * 64) (omega (arith, l, l'))

  finish :
      (u : ℕ)
      → u < m.n
      → is_zero (from_bit u m.words) ≡ true
      → (o : Option ℕ) → IsFirst (flat m.summary) (u / 64 + 1) o
      → IsNext m u (end_of m o)
  unfolding end_of
  finish u h z none f = (
    omega (arith, h),
    (
      omega arith,
      (
        inl refl,
        λ i. elim (after_word u z i) [
          | inl a ↦ inl a
          | inr (inr a) ↦ inr (inr (test-flat m i ∙ a))
          | inr (inl a) ↦
              inr (inr (test-flat m i ∙ summary_false i (ground (arith, f (i / 64), a))))
        ],
      ),
    ),
  )
  finish u h z (some w) f =
      let y : is_zero (word w m.words) ≡ false = ground (arith, v.summarises w, f.1.0) in
      let c = countr_zero (word w m.words) in
      let e : bit_at (word w m.words) c ≡ true = countr_zero_set (word w m.words) y in
      let b : c < 64 =
        omega (arith, bit_at_length (word w m.words) c e, length-word m.words w v.are_words) in
      (
        omega (arith, f.0),
        (
          omega (arith, word_bound w c e),
          (
            inr (word_bit w c e),
            λ i. elim (after_word u z i) [
              | inl a ↦ inl a
              | inr (inr a) ↦ inr (inr (test-flat m i ∙ a))
              | inr (inl a) ↦ elim (f.1.1 (i / 64)) [
                | inl d ↦ absurd (omega (arith, d, a))
                | inr (inr d) ↦ inr (inr (test-flat m i ∙ summary_false i d))
                | inr (inl d) ↦ elim (Bool-cases (ltb i (w * 64 + c))) [
                  | inl g ↦
                      inr
                        (inr (test-flat m i ∙ in_word w i (omega (arith, d)) (ground (arith, g)) b))
                  | inr g ↦ inr (inl (ground (arith, g)))
                ]
              ]
            ],
          ),
        ),
      )

  pub test_in : (r : ℕ) → test r m ≡ true → r < m.n
  unfolding flat
  test_in r e = omega (arith, word_bound (r / 64) (r % 64) (sym (test-flat m r) ∙ e))

  here :
      (u : ℕ)
      → is_zero (from_bit u m.words) ≡ false
      → IsNext m u (u / 64 * 64 + countr_zero (from_bit u m.words))
  here u z =
      let r = u / 64 * 64 + countr_zero (from_bit u m.words) in
      let f =
        found m.words u (u / 64) (from_bit u m.words) (from_bit-IsMasked m.words v.are_words u) z in
      let t : test r m ≡ true = test-flat m r ∙ f.1.0 in
      (f.0, (omega (arith, test_in r t), (inr t, λ i. ground (arith, f.1.1 i, test-flat m i))))

  pub next_from-IsNext : (u : ℕ) → u < m.n → IsNext m u (next_from u m)
  next_from-IsNext u h = elim (Bool-cases (is_zero (from_bit u m.words))) [
    | inr z ↦ subst (IsNext m u) (sym (next_from_here m u z)) (here u z)
    | inl z ↦ elim (Bool-cases (leb (length m.words) (u / 64 + 1))) [
      | inl e ↦ subst (IsNext m u) (sym (next_from_last m u z e)) (
        omega (arith, h),
        (omega arith, (inl refl, λ i. ground (arith, e, v.size, after_word u z i, test-flat m i))),
      )
      | inr e ↦
          subst (IsNext m u) (sym (next_from_up m u z e)) (finish u h z _ (next_words (u / 64 + 1)))
    ]
  ]

  pub find_next-scan_next : (u : ℕ) → u ≤ m.n → find_next (pos u) m ≡ scan_next (m.n - u) u m
  unfolding find_next scan_next
  find_next-scan_next u h = elim (Bool-cases (leb m.n u)) [
    | inl e ↦
        rw (e, find_next)
          (sym (
            scan_next_eq m (m.n - u) u m.n h (omega (arith, h)) (λ j. ground (arith, e))
              (inl (omega (arith, h)))))
    | inr e ↦
        let f = next_from-IsNext u (ground (arith, e)) in
        rw (e, find_next)
          (sym (
            scan_next_eq m (m.n - u) u (next_from u m) f.0 (omega (arith, f.1.0)) f.1.1.1
              (ground (arith, f.1.1.0, h))))
  ]
