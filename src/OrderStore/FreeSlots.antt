-- ===== src/OrderStore/FreeSlots.antt =====
-- include/exsim/order_store.hpp: the free list as a stack of slots.
use exchange_sim.Base.{
  ℕ, zero, suc, ◌+◌, ◌%◌, ◌^◌, ◌<◌, ◌≤◌, ◌≡◌, refl, subst, ◌==◌, ltb, if◌then◌else◌, List, [], ◌∷◌,
  get_or, set, arith, length, length-set, get_or-set_self, get_or-set_ne,
}
use exchange_sim.Base.Assoc.{hit}
use exchange_sim.OrderStore.{k_nil, FreeList, links, build_free_list, alloc, release, set_next}

unfoldable pub occurs : ℕ → List ℕ → ℕ
occurs s [] = 0
occurs s (x ∷ xs) = hit s x + occurs s xs

-- `Chain next p xs`: from the slot `p` the links lead through `xs` to the end.
abbrev pub Chain : List ℕ → ℕ → List ℕ → Type 0
Chain next p [] = p ≡ k_nil
Chain next p (x ∷ xs) = (p ≡ x) × (x < length next) × Chain next (get_or next x k_nil) xs

-- The free slots of a store are `xs`, the one to be used next first.
pub record HasFree (f : FreeList) (xs : List ℕ) : Type 0 where
  pub chain : Chain f.next f.free xs
  pub once : (s : ℕ) → occurs s xs ≤ 1
  pub counted : length xs + f.live ≡ f.cap
  pub sized : length f.next ≡ f.cap
  pub small : f.cap < k_nil

Chain-set :
    (next : List ℕ) (p s v : ℕ) (xs : List ℕ)
    → occurs s xs ≡ 0
    → Chain next p xs
    → Chain (set next s v) p xs
unfolding occurs
Chain-set next p s v [] h c = c
Chain-set next p s v (x ∷ xs) h (a, b, c) = (
  a,
  omega (arith, length-set next s v),
  rw (get_or-set_ne next v k_nil (λ (e : s ≡ x). ground arith))
      (Chain-set next (get_or next x k_nil) s v xs (omega arith) c),
)

-- Where no slot is free, `alloc` returns the null link and changes nothing.
pub alloc_full : (f : FreeList) → HasFree f [] → alloc f ≡ (k_nil, f)
unfolding alloc
alloc_full f h = ground (arith, h.chain)

-- `alloc` takes the first free slot, which lies in the store and is none of those that stay free,
-- and the other free slots stay free in their order: some slot is free.
pub alloc_free :
    (f : FreeList) (x : ℕ) (xs : List ℕ)
    → HasFree f (x ∷ xs)
    → ((alloc f).0 ≡ x) × (occurs x xs ≡ 0) × (x < f.cap) × HasFree (alloc f).1 xs
unfolding alloc occurs
alloc_free f x xs h =
    let e : alloc f
        ≡ (f.free, record f { free = get_or f.next f.free k_nil; live = (f.live + 1) % 2 ^ 32 }) =
      ground (arith, h.chain.0, h.chain.1, h.sized, h.small) in
    rw e (
      h.chain.0,
      ground (arith, h.once x),
      omega (arith, h.chain.1, h.sized),
      record {
        chain = rw h.chain.0 h.chain.2;
        once = λ j. omega (arith, h.once j);
        counted = omega (arith, h.counted, h.small);
        sized = h.sized;
        small = h.small;
      },
    )

-- A released slot is the next one to be used, before all that were free: it lies in the store and was
-- not free, and some slot is in use.
pub release-HasFree :
    (s : ℕ) (f : FreeList) (xs : List ℕ)
    → HasFree f xs
    → s < f.cap
    → occurs s xs ≡ 0
    → 0 < f.live
    → HasFree (release s f) (s ∷ xs)
unfolding release occurs
release-HasFree s f xs h a b c = record {
  chain = (
    refl,
    omega (arith, length-set f.next s f.free, h.sized),
    rw (get_or-set_self f.next s f.free k_nil (omega (arith, h.sized)))
        (Chain-set f.next f.free s f.free xs b h.chain),
  );
  once = λ j. ground (arith, h.once j);
  counted = omega (arith, h.counted, h.small);
  sized = omega (arith, length-set f.next s f.free, h.sized);
  small = h.small;
}

-- Whatever is written to the link of a slot in use, the free slots stay the same.
pub set_next-HasFree :
    (s v : ℕ) (f : FreeList) (xs : List ℕ)
    → HasFree f xs
    → occurs s xs ≡ 0
    → HasFree (set_next s v f) xs
unfolding set_next
set_next-HasFree s v f xs h b = record {
  chain = Chain-set f.next f.free s v xs b h.chain;
  once = h.once;
  counted = h.counted;
  sized = omega (arith, length-set f.next s v, h.sized);
  small = h.small;
}

unfoldable pub slots : ℕ → ℕ → List ℕ
slots i zero = []
slots i (suc n) = i ∷ slots (i + 1) n

length-slots : (i n : ℕ) → length (slots i n) ≡ n
unfolding slots
length-slots i zero = refl
length-slots i (suc n) = omega (arith, length-slots (i + 1) n)

length-links : (cap i n : ℕ) → length (links cap i n) ≡ n
unfolding links
length-links cap i zero = refl
length-links cap i (suc n) = omega (arith, length-links cap (i + 1) n)

occurs-slots : (s i n : ℕ) → (occurs s (slots i n) ≤ 1) × (s < i → occurs s (slots i n) ≡ 0)
unfolding slots occurs
occurs-slots s i zero = (omega arith, λ h. refl)
occurs-slots s i (suc n) = ground (arith, occurs-slots s (i + 1) n)

get_or-links :
    (cap i n k d : ℕ)
    → k < n
    → get_or (links cap i n) k d ≡ (if ltb (i + k + 1) cap then i + k + 1 else k_nil)
unfolding links
get_or-links cap i zero k d h = absurd (omega arith)
get_or-links cap i (suc n) zero d h = ground arith
get_or-links cap i (suc n) (suc k) d h = ground (arith, get_or-links cap (i + 1) n k d)

Chain-slots :
    (cap i n : ℕ)
    → i + n ≡ cap
    → cap < k_nil
    → Chain (links cap 0 cap) (if i == cap then k_nil else i) (slots i n)
unfolding slots
Chain-slots cap i zero e h = ground arith
Chain-slots cap i (suc n) e h =
    let g : get_or (links cap 0 cap) i k_nil ≡ (if (i + 1) == cap then k_nil else i + 1) =
      ground (arith, get_or-links cap 0 cap i k_nil) in
    (
      ground arith,
      omega (arith, length-links cap 0 cap),
      rw g (Chain-slots cap (i + 1) n (omega arith) h),
    )

-- A new store has all its slots free, in order from 0: its capacity is below the null link.
pub build_free_list-HasFree : (cap : ℕ) → cap < k_nil → HasFree (build_free_list cap) (slots 0 cap)
unfolding build_free_list
build_free_list-HasFree cap h = record {
  chain =
      subst (λ (p : ℕ). Chain (links cap 0 cap) p (slots 0 cap)) (ground arith)
        (Chain-slots cap 0 cap (omega arith) h);
  once = λ s. (occurs-slots s 0 cap).0;
  counted = omega (arith, length-slots 0 cap);
  sized = length-links cap 0 cap;
  small = h;
}
