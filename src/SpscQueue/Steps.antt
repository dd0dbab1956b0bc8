-- ===== src/SpscQueue/Steps.antt =====
-- include/exsim/spsc_queue.hpp: the ring as a bounded queue, in whatever order the two sides step.
use exchange_sim.Base.{
  ℕ, suc, zero, ◌+◌, ◌-◌, ◌%◌, ◌^◌, ◌<◌, ◌≤◌, true, false, ◌≡◌, ◌≢◌, refl, ap, ◌∙◌, sym, List, [],
  ◌∷◌, ◌++◌, get_or, set, length, arith, length-set, get_or-set_self, get_or-set_ne,
}
use exchange_sim.Base.Remainders.{mod_ne}
use native.Mathlib.Nat.{mod-lt}
use exchange_sim.SpscQueue.{SpscQueue, looks_full, load_head, publish, looks_empty, load_tail, pop}

module _ {ℓ} {A : Type ℓ} (zeroed : A) where
  -- `n` elements from the index `h` on, oldest first.
  unfoldable pub elements : ℕ → ℕ → ℕ → List A → List A
  elements zero h cap buf = []
  elements (suc n) h cap buf = get_or buf (h % cap) zeroed ∷ elements n (suc h) cap buf

  unfoldable pub contents : SpscQueue A → List A
  contents q = elements (q.tail - q.head) q.head q.cap q.buf

  -- The caches lag behind the indices, and no counter has wrapped.
  pub record IsValid (q : SpscQueue A) : Type ℓ where
    pub sized : length q.buf ≡ q.cap
    pub positive : 0 < q.cap
    pub head_lags : q.head_cache ≤ q.head
    pub tail_lags : q.tail_cache ≤ q.tail
    pub head_bound : q.head ≤ q.tail_cache
    pub fits : q.tail ≤ q.head_cache + q.cap
    pub small : q.tail < 2 ^ 64

  elements-set :
      (n h cap t : ℕ) (v : A) (buf : List A)
      → 0 < cap
      → h + n ≤ t
      → t < h + cap
      → length buf ≡ cap
      → elements n h cap (set buf (t % cap) v) ≡ elements n h cap buf
  unfolding elements
  elements-set zero h cap t v buf p l l' e = refl
  elements-set (suc n) h cap t v buf p l l' e =
      let d : h + (t - h) ≡ t = omega (arith, l) in
      let m : t % cap ≢ h % cap = λ g.
        mod_ne cap h (t - h) (omega (arith, l)) (omega (arith, l'))
          (ap (λ (k : ℕ). k % cap) d ∙ g) in
      ap (λ (a : A). a ∷ elements n (suc h) cap (set buf (t % cap) v))
        (get_or-set_ne buf v zeroed m)
      ∙ ap (λ (xs : List A). get_or buf (h % cap) zeroed ∷ xs)
          (elements-set n (suc h) cap t v buf p (omega (arith, l)) (omega (arith, l')) e)

  elements_snoc :
      (n h cap : ℕ) (buf : List A)
      → elements (suc n) h cap buf ≡ elements n h cap buf ++ get_or buf ((h + n) % cap) zeroed ∷ []
  unfolding elements
  elements_snoc zero h cap buf = ap (λ (k : ℕ). get_or buf (k % cap) zeroed ∷ []) (omega arith)
  elements_snoc (suc n) h cap buf =
      ap (λ (xs : List A). get_or buf (h % cap) zeroed ∷ xs)
        (elements_snoc n (suc h) cap buf
          ∙ ap (λ (k : ℕ). elements n (suc h) cap buf ++ get_or buf (k % cap) zeroed ∷ [])
              (omega arith))

  pub length-elements : (n h cap : ℕ) (buf : List A) → length (elements n h cap buf) ≡ n
  unfolding elements
  length-elements zero h cap buf = refl
  length-elements (suc n) h cap buf = ap suc (length-elements n (suc h) cap buf)

  looks_full_lem :
      (q : SpscQueue A) → IsValid q → looks_full q ≡ false → q.tail < q.head_cache + q.cap
  unfolding looks_full
  looks_full_lem q w e = ground (arith, w.head_lags, w.head_bound, w.tail_lags, w.fits, w.small, e)

  pub full_lem : (q : SpscQueue A) → IsValid q → looks_full q ≡ true → q.tail ≡ q.head_cache + q.cap
  unfolding looks_full
  full_lem q w e = ground (arith, w.head_lags, w.head_bound, w.tail_lags, w.fits, w.small, e)

  module _ (q : SpscQueue A) (w : IsValid q) where
    pub load_head-IsValid : IsValid (load_head q)
    unfolding load_head
    load_head-IsValid = record {
      sized = w.sized;
      positive = w.positive;
      head_lags = omega arith;
      tail_lags = w.tail_lags;
      head_bound = w.head_bound;
      fits = omega (arith, w.fits, w.head_lags);
      small = w.small;
    }

    pub load_tail-IsValid : IsValid (load_tail q)
    unfolding load_tail
    load_tail-IsValid = record {
      sized = w.sized;
      positive = w.positive;
      head_lags = w.head_lags;
      tail_lags = omega arith;
      head_bound = omega (arith, w.head_bound, w.tail_lags);
      fits = w.fits;
      small = w.small;
    }

    module _ (v : A) (s : q.tail + 1 < 2 ^ 64) (e : looks_full q ≡ false) where
      pub publish-IsValid : IsValid (publish v q)
      unfolding publish
      publish-IsValid =
          let g : (q.tail + 1) % 2 ^ 64 ≡ q.tail + 1 = omega (arith, s) in
          record {
            sized = length-set q.buf (q.tail % q.cap) v ∙ w.sized;
            positive = w.positive;
            head_lags = w.head_lags;
            tail_lags = omega (arith, g, w.tail_lags);
            head_bound = w.head_bound;
            fits = omega (arith, g, looks_full_lem q w e);
            small = omega (arith, g, s);
          }

      pub contents-publish : contents (publish v q) ≡ contents q ++ v ∷ []
      unfolding contents publish
      contents-publish =
          let n = q.tail - q.head in
          let b = set q.buf (q.tail % q.cap) v in
          let g : (q.tail + 1) % 2 ^ 64 - q.head ≡ suc n =
            omega (arith, s, w.head_bound, w.tail_lags) in
          let d : q.head + n ≡ q.tail = omega (arith, w.head_bound, w.tail_lags) in
          let i : q.tail % q.cap < length q.buf =
            omega (arith, mod-lt q.tail {m = q.cap} w.positive, w.sized) in
          ap (λ (k : ℕ). elements k q.head q.cap b) g
          ∙ elements_snoc n q.head q.cap b
          ∙ ap (λ (k : ℕ). elements n q.head q.cap b ++ get_or b (k % q.cap) zeroed ∷ []) d
          ∙ ap (λ (a : A). elements n q.head q.cap b ++ a ∷ [])
              (get_or-set_self q.buf (q.tail % q.cap) v zeroed i)
          ∙ ap (λ (xs : List A). xs ++ v ∷ [])
              (elements-set n q.head q.cap q.tail v q.buf w.positive (omega (arith, d))
                (omega (arith, looks_full_lem q w e, w.head_lags)) w.sized)

    module _ (e : looks_empty q ≡ false) where
      pub not_empty : q.head < q.tail_cache
      unfolding looks_empty
      not_empty = ground (arith, e, w.head_bound)

      pub pop-IsValid : IsValid (pop q)
      unfolding pop
      pop-IsValid =
          let g : (q.head + 1) % 2 ^ 64 ≡ q.head + 1 =
            omega (arith, not_empty, w.tail_lags, w.small) in
          record {
            sized = w.sized;
            positive = w.positive;
            head_lags = omega (arith, g, w.head_lags);
            tail_lags = w.tail_lags;
            head_bound = omega (arith, g, not_empty);
            fits = w.fits;
            small = w.small;
          }

      pub contents-pop : contents q ≡ get_or q.buf (q.head % q.cap) zeroed ∷ contents (pop q)
      unfolding contents pop elements
      contents-pop =
          let g : (q.head + 1) % 2 ^ 64 ≡ suc q.head =
            omega (arith, not_empty, w.tail_lags, w.small) in
          let d : q.tail - q.head ≡ suc (q.tail - suc q.head) =
            omega (arith, not_empty, w.tail_lags) in
          ap (λ (k : ℕ). elements k q.head q.cap q.buf) d
          ∙ ap
              (λ (k : ℕ).
                get_or q.buf (q.head % q.cap) zeroed ∷ elements (q.tail - k) k q.cap q.buf)
              (sym g)
