-- ===== src/OrderBook/Queues.antt =====
-- include/exsim/order_book.hpp: the doubly linked queue of a level as a list of slots.
pub mod Unlink
pub mod Append
pub mod Walk
use exchange_sim.Base.{
  ℕ, suc, zero, ◌+◌, ◌<◌, ◌==◌, if◌then◌else◌, Bool, true, false, ◌⊎◌, ◌≡◌, ◌≢◌, refl, ap, ◌∙◌, sym,
  subst, List, [], ◌∷◌, ◌++◌, append_assoc, set, get_or, length, All, arith, Bool-cases, inl, inr,
  length-set, get_or-set_self, get_or-set_ne, append-nil,
}
use exchange_sim.OrderStore.{k_nil, set_next, FreeList}
use exchange_sim.OrderStore.Records.{Store, Order, order, next, link, put, set_prev, no_order}
use exchange_sim.OrderBook.{Level}

-- The links lead from the slot `h` through the list to `k`.
abbrev pub Leads : Store → ℕ → List ℕ → ℕ → Type 0
Leads st h [] k = h ≡ k
Leads st h (s ∷ ss) k = (h ≡ s) × Leads st (next s st) ss k

-- The back links of a list whose first slot has `p` before it.
abbrev pub Backs : Store → ℕ → List ℕ → Type 0
Backs st p [] = Unit
Backs st p (s ∷ ss) = ((order s st).prev ≡ p) × Backs st s ss

-- The back link of the first slot is never read.
abbrev pub BacksRest : Store → List ℕ → Type 0
BacksRest st [] = Unit
BacksRest st (s ∷ ss) = Backs st s ss

abbrev pub AreDistinct : List ℕ → Type 0
AreDistinct [] = Unit
AreDistinct (s ∷ ss) = All (λ x. s ≢ x) ss × AreDistinct ss

abbrev pub last_or : ℕ → List ℕ → ℕ
last_or d [] = d
last_or d (s ∷ ss) = last_or s ss

abbrev pub AreInside : ℕ → ℕ → List ℕ → Type 0
AreInside a b ss = All (λ s. (s < a) × ((s < b) × (s ≢ k_nil))) ss

-- The queue of a level is the list `ss`, front first.
pub record IsQueue (st : Store) (lv : Level) (ss : List ℕ) : Type 0 where
  pub leads : Leads st lv.head ss k_nil
  pub backs : BacksRest st ss
  pub ends : lv.tail ≡ last_or k_nil ss
  pub distinct : AreDistinct ss
  pub inside : AreInside (length st.links.next) (length st.orders) ss

pub next-link_self : (s v : ℕ) (st : Store) → s < length st.links.next → next s (link s v st) ≡ v
unfolding next link set_next
next-link_self s v st h = get_or-set_self st.links.next s v k_nil h

pub next-link_ne : (s j v : ℕ) (st : Store) → s ≢ j → next j (link s v st) ≡ next j st
unfolding next link set_next
next-link_ne s j v st h = get_or-set_ne st.links.next v k_nil h

pub next-set_prev : (s j v : ℕ) (st : Store) → next j (set_prev s v st) ≡ next j st
unfolding next set_prev put
next-set_prev s j v st = refl

pub order-link : (s j v : ℕ) (st : Store) → order j (link s v st) ≡ order j st
unfolding order link
order-link s j v st = refl

pub prev-set_prev_self :
    (s v : ℕ) (st : Store) → s < length st.orders → (order s (set_prev s v st)).prev ≡ v
unfolding order set_prev put
prev-set_prev_self s v st h =
    ap (λ (o : Order). o.prev)
      (get_or-set_self st.orders s (record (order s st) { prev = v }) no_order h)

pub order-set_prev_ne : (s j v : ℕ) (st : Store) → s ≢ j → order j (set_prev s v st) ≡ order j st
unfolding order set_prev put
order-set_prev_ne s j v st h = get_or-set_ne st.orders _ no_order h

pub Leads-link :
    (p v : ℕ) (st : Store) (h k : ℕ) (ss : List ℕ)
    → All (λ x. p ≢ x) ss
    → Leads st h ss k
    → Leads (link p v st) h ss k
Leads-link p v st h k [] n f = f
Leads-link p v st h k (s ∷ ss) n f = (
  f.0,
  Leads-link p v st (next s (link p v st)) k ss n.1
      (subst (λ (j : ℕ). Leads st j ss k) (sym (next-link_ne p s v st n.0)) f.1),
)

pub Leads-set_prev :
    (p v : ℕ) (st : Store) (h k : ℕ) (ss : List ℕ)
    → Leads st h ss k
    → Leads (set_prev p v st) h ss k
Leads-set_prev p v st h k [] f = f
Leads-set_prev p v st h k (s ∷ ss) f = (
  f.0,
  Leads-set_prev p v st (next s (set_prev p v st)) k ss
      (subst (λ (j : ℕ). Leads st j ss k) (sym (next-set_prev p s v st)) f.1),
)

pub Backs-link :
    (p v : ℕ) (st : Store) (q : ℕ) (ss : List ℕ) → Backs st q ss → Backs (link p v st) q ss
Backs-link p v st q [] f = tt
Backs-link p v st q (s ∷ ss) f =
    (ap (λ (o : Order). o.prev) (order-link p s v st) ∙ f.0, Backs-link p v st s ss f.1)

pub Backs-set_prev :
    (p v : ℕ) (st : Store) (q : ℕ) (ss : List ℕ)
    → All (λ x. p ≢ x) ss
    → Backs st q ss
    → Backs (set_prev p v st) q ss
Backs-set_prev p v st q [] n f = tt
Backs-set_prev p v st q (s ∷ ss) n f = (
  ap (λ (o : Order). o.prev) (order-set_prev_ne p s v st n.0) ∙ f.0,
  Backs-set_prev p v st s ss n.1 f.1,
)

pub All-append_at :
    (P : ℕ → Type 0) (xs : List ℕ) (y : ℕ) (ys : List ℕ)
    → All P (xs ++ y ∷ ys)
    → P y × All P (xs ++ ys)
All-append_at P [] y ys h = (h.0, h.1)
All-append_at P (x ∷ xs) y ys h = let r = All-append_at P xs y ys h.1 in (r.0, (h.0, r.1))

pub AreDistinct-at :
    (xs : List ℕ) (s : ℕ) (ys : List ℕ)
    → AreDistinct (xs ++ s ∷ ys)
    → AreDistinct (xs ++ ys) × All (λ x. s ≢ x) (xs ++ ys)
AreDistinct-at [] s ys h = (h.1, h.0)
AreDistinct-at (x ∷ xs) s ys h =
    let r = AreDistinct-at xs s ys h.1 in
    let a = All-append_at (λ z. x ≢ z) xs s ys h.0 in ((a.1, r.0), (λ e. a.0 (sym e), r.1))

pub AreInside-same :
    (a a' b b' : ℕ) (ss : List ℕ) → a ≡ a' → b ≡ b' → AreInside a b ss → AreInside a' b' ss
AreInside-same a a' b b' [] e e' h = tt
AreInside-same a a' b b' (s ∷ ss) e e' h = (
  (omega (arith, h.0.0, e), (omega (arith, h.0.1.0, e'), h.0.1.1)),
  AreInside-same a a' b b' ss e e' h.1,
)

pub slots-set_prev : (s v : ℕ) (st : Store) → length (set_prev s v st).orders ≡ length st.orders
unfolding set_prev put
slots-set_prev s v st = length-set st.orders s _

pub links-set_prev :
    (s v : ℕ) (st : Store) → length (set_prev s v st).links.next ≡ length st.links.next
unfolding set_prev put
links-set_prev s v st = refl

pub slots-link : (s v : ℕ) (st : Store) → length (link s v st).orders ≡ length st.orders
unfolding link
slots-link s v st = refl

pub links-link : (s v : ℕ) (st : Store) → length (link s v st).links.next ≡ length st.links.next
unfolding link set_next
links-link s v st = length-set st.links.next s v

pub All-right : (P : ℕ → Type 0) (xs ys : List ℕ) → All P (xs ++ ys) → All P ys
All-right P [] ys h = h
All-right P (x ∷ xs) ys h = All-right P xs ys h.1

pub last_or-append : (d x : ℕ) (xs ys : List ℕ) → last_or d (xs ++ x ∷ ys) ≡ last_or x ys
last_or-append d x [] ys = refl
last_or-append d x (z ∷ xs) ys = last_or-append z x xs ys

pub BacksRest-link :
    (p v : ℕ) (st : Store) (ss : List ℕ) → BacksRest st ss → BacksRest (link p v st) ss
BacksRest-link p v st [] f = tt
BacksRest-link p v st (s ∷ ss) f = Backs-link p v st s ss f

-- A list is empty, or has a last element.
pub snoc_cases : (xs : List ℕ) → (xs ≡ []) ⊎ ((ws : List ℕ) × ((p : ℕ) × (xs ≡ ws ++ p ∷ [])))
snoc_cases [] = inl refl
snoc_cases (x ∷ xs) = elim (snoc_cases xs) [
  | inl e ↦ inr ([], (x, ap (λ (zs : List ℕ). x ∷ zs) e))
  | inr r ↦ inr (x ∷ r.0, (r.1.0, ap (λ (zs : List ℕ). x ∷ zs) r.1.1))
]
