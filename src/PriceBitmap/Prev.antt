-- ===== src/PriceBitmap/Prev.antt =====
-- include/exsim/price_bitmap.hpp: `find_prev` against a walk of the levels down.
use exchange_sim.Base.{
  ℕ, suc, zero, ◌+◌, ◌-◌, ◌*◌, ◌/◌, ◌<◌, ◌≤◌, ◌==◌, leb, ltb, Bool, true, false, ◌&&◌, ◌≡◌, refl,
  ap, ◌∙◌, sym, List, length, arith, Option, none, some, Bool-cases, inl, inr, ◌⊎◌, subst, min,
}
use exchange_sim.Base.Int.{ℤ, pos, negsuc}
use exchange_sim.PriceBitmap.Words.{
  Word, is_zero, bit_at, highest, highest_set, highest_above, is_zero_bits, length-word_of,
  and_word, bit_at_length,
}
use exchange_sim.PriceBitmap.Flat.{
  flat, AreWords, bit_at-word, bit_at_range, test-flat, flat_zero, length-word, bit_at-upto_bit,
}
use exchange_sim.PriceBitmap.Summary.{IsValid}
use exchange_sim.PriceBitmap.Find.{scan_next, find_next-scan_next, test_apart, word_bit}
use exchange_sim.PriceBitmap.{
  PriceBitmap, word, test, top_bit, prev_word, upto_bit, prev_before, prev_from, find_prev,
  find_next,
}

-- The last set bit up to `j`, if there is one.
abbrev IsLast : (ℕ → Bool) → ℕ → Option ℕ → Type 0
IsLast P j none = (i : ℕ) → (j < i) ⊎ (P i ≡ false)
IsLast P j (some r) = (r ≤ j) × ((P r ≡ true) × ((i : ℕ) → (j < i) ⊎ ((i ≤ r) ⊎ (P i ≡ false))))

-- `sm` has the bits of the word `s` up to `j`, and there are none in the words after.
abbrev IsCut : List Word → ℕ → ℕ → Word → Type 0
IsCut ws j s sm =
    ((k : ℕ) → bit_at sm k ≡ (ltb k 64 && (flat ws (s * 64 + k) && leb (s * 64 + k) j)))
    × (((i : ℕ) → (j < i) ⊎ ((i < suc s * 64) ⊎ (flat ws i ≡ false))) × (length sm ≡ 64))

none_after :
    (ws : List Word) (j s : ℕ) (sm : Word)
    → IsCut ws j s sm
    → is_zero sm ≡ true
    → (i : ℕ) → (j < i) ⊎ ((i < s * 64) ⊎ (flat ws i ≡ false))
none_after ws j s sm h z i =
    let e : bit_at sm (i - s * 64) ≡ false = is_zero_bits sm (i - s * 64) z in
    let d : (s * 64 ≤ i) → flat ws (s * 64 + (i - s * 64)) ≡ flat ws i =
      λ l. ap (flat ws) (omega (arith, l)) in
    elim (h.1.0 i) [
      | inl a ↦ inl a
      | inr (inr a) ↦ inr (inr a)
      | inr (inl a) ↦ elim (Bool-cases (ltb i (s * 64))) [
        | inl l ↦ inr (inl (ground (arith, l)))
        | inr l ↦ ground (arith, e, h.0 (i - s * 64), d (ground (arith, l)), a, l)
      ]
    ]

pub top_bit-highest : (x : Word) → length x ≡ 64 → top_bit x ≡ highest x
unfolding top_bit
top_bit-highest x h = omega (arith, h)

top_bit_set : (x : Word) → length x ≡ 64 → is_zero x ≡ false → bit_at x (top_bit x) ≡ true
top_bit_set x h z = ap (bit_at x) (top_bit-highest x h) ∙ highest_set x z

found-IsLast :
    (ws : List Word) (j s : ℕ) (sm : Word)
    → IsCut ws j s sm
    → is_zero sm ≡ false
    → IsLast (flat ws) j (some (s * 64 + top_bit sm))
found-IsLast ws j s sm h z =
    let c = top_bit sm in
    let e : bit_at sm c ≡ true = top_bit_set sm h.1.1 z in
    (
      ground (arith, e, h.0 c),
      (
        ground (arith, e, h.0 c),
        λ i. elim (h.1.0 i) [
          | inl a ↦ inl a
          | inr (inr a) ↦ inr (inr a)
          | inr (inl a) ↦ elim (Bool-cases (leb i (s * 64 + c))) [
            | inl l ↦ inr (inl (ground (arith, l)))
            | inr l ↦
                let g : s * 64 + c < i = ground (arith, l) in
                let d : flat ws (s * 64 + (i - s * 64)) ≡ flat ws i =
                  ap (flat ws) (omega (arith, g)) in
                let y : highest sm < i - s * 64 = omega (arith, g, top_bit-highest sm h.1.1) in
                ground (arith, h.0 (i - s * 64), d, a, g, highest_above sm (i - s * 64) y)
          ]
        ],
      ),
    )

next-IsCut :
    (ws : List Word)
    → AreWords ws
    → (j s : ℕ) (sm : Word) → suc s * 64 ≤ j
    → IsCut ws j (suc s) sm
    → is_zero sm ≡ true
    → IsCut ws j s (word s ws)
next-IsCut ws v j s sm l h z = (
  λ k. elim (Bool-cases (ltb k 64)) [
    | inl d ↦ ground (arith, bit_at-word ws s k (ground (arith, d)), l, d)
    | inr d ↦ ground (arith, bit_at_range ws s k v, d)
  ],
  (none_after ws j (suc s) sm h z, length-word ws s v),
)

prev_word_zero :
    (s : ℕ) (sm : Word) (ws : List Word)
    → is_zero sm ≡ true
    → prev_word (suc s) sm ws ≡ prev_word s (word s ws) ws
unfolding prev_word
prev_word_zero s sm ws z = rw (z, prev_word) refl

prev_word_found :
    (s : ℕ) (sm : Word) (ws : List Word)
    → is_zero sm ≡ false
    → prev_word s sm ws ≡ some (s * 64 + top_bit sm)
unfolding prev_word
prev_word_found zero sm ws z = rw (z, prev_word) (ap (λ (k : ℕ). some k) (omega arith))
prev_word_found (suc s) sm ws z = rw (z, prev_word) refl

prev_word-IsLast :
    (ws : List Word)
    → AreWords ws
    → (j s : ℕ) (sm : Word) → s * 64 ≤ j
    → IsCut ws j s sm
    → IsLast (flat ws) j (prev_word s sm ws)
unfolding prev_word
prev_word-IsLast ws v j zero sm l h = elim (Bool-cases (is_zero sm)) [
  | inl z ↦ rw (z) (λ i. ground (arith, none_after ws j 0 sm h z i))
  | inr z ↦
      subst (IsLast (flat ws) j) (sym (prev_word_found 0 sm ws z)) (found-IsLast ws j 0 sm h z)
]
prev_word-IsLast ws v j (suc s) sm l h = elim (Bool-cases (is_zero sm)) [
  | inl z ↦
      subst (IsLast (flat ws) j) (sym (prev_word_zero s sm ws z))
        (prev_word-IsLast ws v j s (word s ws) (omega (arith, l)) (next-IsCut ws v j s sm l h z))
  | inr z ↦
      subst (IsLast (flat ws) j) (sym (prev_word_found (suc s) sm ws z))
        (found-IsLast ws j (suc s) sm h z)
]

upto_bit-IsCut : (ws : List Word) → AreWords ws → (i : ℕ) → IsCut ws i (i / 64) (upto_bit i ws)
unfolding upto_bit and_word
upto_bit-IsCut ws v i = (
  λ k. elim (Bool-cases (ltb k 64)) [
    | inl d ↦
        ground (arith, bit_at-upto_bit ws i k, bit_at-word ws (i / 64) k (ground (arith, d)), d)
    | inr d ↦ ground (arith, bit_at-upto_bit ws i k, d)
  ],
  (λ k. ground arith, length-word_of _),
)

-- `z` is the last occupied level up to `u`, or -1.
abbrev IsPrev : PriceBitmap → ℕ → ℤ → Type 0
IsPrev m u (pos r) =
    (r ≤ u) × ((test r m ≡ true) × ((i : ℕ) → (u < i) ⊎ ((i ≤ r) ⊎ (test i m ≡ false))))
IsPrev m u (negsuc k) = (k ≡ 0) × ((i : ℕ) → (u < i) ⊎ (test i m ≡ false))

-- The walk of the levels below `i` down: `find_prev` as its comment says.
unfoldable pub scan_prev : ℕ → PriceBitmap → ℤ
scan_prev zero m = negsuc 0
scan_prev (suc i) m = elim (test i m) [ true ↦ pos i | false ↦ scan_prev i m ]

scan_step :
    (m : PriceBitmap) (k r : ℕ)
    → test k m ≡ false
    → ((i : ℕ) → (suc k ≤ i) ⊎ ((i ≤ r) ⊎ (test i m ≡ false)))
    → (i : ℕ) → (k ≤ i) ⊎ ((i ≤ r) ⊎ (test i m ≡ false))
scan_step m k r e f i = ground (arith, f i)

scan_prev_none :
    (m : PriceBitmap) (k : ℕ) → ((i : ℕ) → (k ≤ i) ⊎ (test i m ≡ false)) → scan_prev k m ≡ negsuc 0
unfolding scan_prev
scan_prev_none m zero f = refl
scan_prev_none m (suc k) f =
    let e : test k m ≡ false = ground (arith, f k) in
    rw (e, scan_prev)
      (scan_prev_none m k (λ i. elim (Bool-cases (i == k)) [
        | inl d ↦ inl (ground (arith, d))
        | inr d ↦ ground (arith, d, f i)
      ]))

scan_prev_some :
    (m : PriceBitmap) (k r : ℕ)
    → r < k
    → test r m ≡ true
    → ((i : ℕ) → (k ≤ i) ⊎ ((i ≤ r) ⊎ (test i m ≡ false)))
    → scan_prev k m ≡ pos r
unfolding scan_prev
scan_prev_some m zero r h t f = absurd (omega (arith, h))
scan_prev_some m (suc k) r h t f = elim (Bool-cases (test k m)) [
  | inl e ↦ rw (e, scan_prev) (ap (λ (i : ℕ). pos i) (ground (arith, f k, e, h)))
  | inr e ↦
      rw (e, scan_prev)
        (scan_prev_some m k r (ground (arith, test_apart m k r e t, h)) t (scan_step m k r e f))
]

prev_end : PriceBitmap → Option ℕ → ℤ
prev_end m o = elim o [ none ↦ negsuc 0 | some w ↦ pos (w * 64 + top_bit (word w m.words)) ]

prev_from_here :
    (m : PriceBitmap) (u : ℕ)
    → is_zero (upto_bit u m.words) ≡ false
    → prev_from u m ≡ pos (u / 64 * 64 + top_bit (upto_bit u m.words))
unfolding prev_from
prev_from_here m u z = rw (z, prev_from) refl

prev_from_below :
    (m : PriceBitmap) (u : ℕ)
    → is_zero (upto_bit u m.words) ≡ true
    → prev_from u m ≡ prev_before (u / 64) m
unfolding prev_from
prev_from_below m u z = rw (z, prev_from) refl

module _ (m : PriceBitmap) (v : IsValid m) where
  IsPrev-here :
      (u : ℕ)
      → is_zero (upto_bit u m.words) ≡ false
      → IsPrev m u (pos (u / 64 * 64 + top_bit (upto_bit u m.words)))
  IsPrev-here u z =
      let r = u / 64 * 64 + top_bit (upto_bit u m.words) in
      let f =
        found-IsLast m.words u (u / 64) (upto_bit u m.words) (upto_bit-IsCut m.words v.are_words u)
          z in
      (f.0, (test-flat m r ∙ f.1.0, λ i. ground (arith, f.1.1 i, test-flat m i)))

  below_word :
      (u : ℕ)
      → is_zero (upto_bit u m.words) ≡ true
      → (i : ℕ) → (u < i) ⊎ ((i < u / 64 * 64) ⊎ (test i m ≡ false))
  below_word u z i = ground (
    arith,
    none_after m.words u (u / 64) (upto_bit u m.words) (upto_bit-IsCut m.words v.are_words u) z i,
    test-flat m i,
  )

  unsummarised : (i : ℕ) → flat m.summary (i / 64) ≡ false → test i m ≡ false
  unsummarised i e = test-flat m i ∙ flat_zero m.words i (ground (arith, v.summarises (i / 64), e))

  above_top : (w i : ℕ) → w * 64 + top_bit (word w m.words) < i → i < suc w * 64 → test i m ≡ false
  above_top w i l l' =
      let d : w * 64 + (i - w * 64) ≡ i = omega (arith, l) in
      let y : highest (word w m.words) < i - w * 64 =
        omega (arith, l, top_bit-highest (word w m.words) (length-word m.words w v.are_words)) in
      test-flat m i
      ∙ sym (ap (flat m.words) d)
      ∙ sym (bit_at-word m.words w (i - w * 64) (omega (arith, l, l')))
      ∙ highest_above (word w m.words) (i - w * 64) y

  IsPrev-finish :
      (u w : ℕ)
      → u / 64 ≡ suc w
      → is_zero (upto_bit u m.words) ≡ true
      → (o : Option ℕ) → IsLast (flat m.summary) w o
      → IsPrev m u (prev_end m o)
  unfolding prev_end
  IsPrev-finish u w h z none f = (
    refl,
    λ i. elim (below_word u z i) [
      | inl a ↦ inl a
      | inr (inr a) ↦ inr a
      | inr (inl a) ↦ inr (unsummarised i (ground (arith, f (i / 64), a, h)))
    ],
  )
  IsPrev-finish u w h z (some r) f =
      let y : is_zero (word r m.words) ≡ false = ground (arith, v.summarises r, f.1.0) in
      let c = top_bit (word r m.words) in
      let e : bit_at (word r m.words) c ≡ true =
        top_bit_set (word r m.words) (length-word m.words r v.are_words) y in
      let b : c < 64 =
        omega (arith, bit_at_length (word r m.words) c e, length-word m.words r v.are_words) in
      (
        omega (arith, f.0, b, h),
        (
          word_bit m v r c e,
          λ i. elim (below_word u z i) [
            | inl a ↦ inl a
            | inr (inr a) ↦ inr (inr a)
            | inr (inl a) ↦ elim (f.1.1 (i / 64)) [
              | inl d ↦ absurd (omega (arith, d, a, h))
              | inr (inr d) ↦ inr (inr (unsummarised i d))
              | inr (inl d) ↦ elim (Bool-cases (leb i (r * 64 + c))) [
                | inl g ↦ inr (inl (ground (arith, g)))
                | inr g ↦ inr (inr (above_top r i (ground (arith, g)) (omega (arith, d))))
              ]
            ]
          ],
        ),
      )

  prev_words :
      (w : ℕ) → IsLast (flat m.summary) w (prev_word (w / 64) (upto_bit w m.summary) m.summary)
  prev_words w =
      prev_word-IsLast m.summary v.are_summary w (w / 64) (upto_bit w m.summary) (omega arith)
        (upto_bit-IsCut m.summary v.are_summary w)

  prev_before-IsPrev :
      (u w : ℕ) → u / 64 ≡ w → is_zero (upto_bit u m.words) ≡ true → IsPrev m u (prev_before w m)
  unfolding prev_before prev_end
  prev_before-IsPrev u zero h z = (refl, λ i. ground (arith, below_word u z i, h))
  prev_before-IsPrev u (suc w) h z = IsPrev-finish u w h z _ (prev_words w)

  prev_from-IsPrev : (u : ℕ) → IsPrev m u (prev_from u m)
  prev_from-IsPrev u = elim (Bool-cases (is_zero (upto_bit u m.words))) [
    | inr z ↦ subst (IsPrev m u) (sym (prev_from_here m u z)) (IsPrev-here u z)
    | inl z ↦
        subst (IsPrev m u) (sym (prev_from_below m u z)) (prev_before-IsPrev u (u / 64) refl z)
  ]

  scan_prev_eq : (u : ℕ) (z : ℤ) → IsPrev m u z → scan_prev (suc u) m ≡ z
  scan_prev_eq u (pos r) f =
      scan_prev_some m (suc u) r (omega (arith, f.0)) f.1.0 (λ i. ground (arith, f.1.1 i))
  scan_prev_eq u (negsuc k) f =
      scan_prev_none m (suc u) (λ i. ground (arith, f.1 i)) ∙ ap (λ (j : ℕ). negsuc j) (sym f.0)

  pub find_prev-scan_prev : (u : ℕ) → 0 < m.n → find_prev (pos u) m ≡ scan_prev (min (suc u) m.n) m
  unfolding find_prev
  find_prev-scan_prev u h = elim (Bool-cases (leb m.n u)) [
    | inl e ↦
        let d : min (suc u) m.n ≡ suc (m.n - 1) = ground (arith, e, h) in
        rw (e, find_prev)
          (sym (
            ap (λ (k : ℕ). scan_prev k m) d
            ∙ scan_prev_eq (m.n - 1) _ (prev_from-IsPrev (m.n - 1))))
    | inr e ↦
        let d : min (suc u) m.n ≡ suc u = ground (arith, e) in
        rw (e, find_prev)
          (sym (ap (λ (k : ℕ). scan_prev k m) d ∙ scan_prev_eq u _ (prev_from-IsPrev u)))
  ]

  -- On a valid bitmap that has levels, `find_next` from a level of the ladder, or from its end, gives
  -- what the walk of the levels up gives, and `find_prev` what the walk down gives.
  pub find_next_and_prev :
      (u : ℕ)
      → 0 < m.n
      → u ≤ m.n
      → (find_next (pos u) m ≡ scan_next (m.n - u) u m)
        × (find_prev (pos u) m ≡ scan_prev (min (suc u) m.n) m)
  find_next_and_prev u h h' = (find_next-scan_next m v u h', find_prev-scan_prev u h)
