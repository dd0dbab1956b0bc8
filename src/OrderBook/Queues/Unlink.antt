-- ===== src/OrderBook/Queues/Unlink.antt =====
-- include/exsim/order_book.hpp: `unlink` on the queue of a level.
use exchange_sim.Base.{
  ℕ, ◌<◌, ◌==◌, if◌then◌else◌, Bool, true, false, ◌≡◌, ◌≢◌, refl, ap, ◌∙◌, sym, subst, List, [],
  ◌∷◌, ◌++◌, append_assoc, length, All, arith, inl, inr,
}
use exchange_sim.OrderStore.{k_nil}
use exchange_sim.OrderStore.Records.{Store, Order, order, next, link, set_prev}
use exchange_sim.OrderBook.Queues.{
  Leads, Backs, BacksRest, AreDistinct, last_or, AreInside, IsQueue, next-link_self, next-link_ne,
  prev-set_prev_self, order-set_prev_ne, Leads-link, Leads-set_prev, Backs-set_prev, All-append_at,
  AreDistinct-at, AreInside-same, slots-set_prev, links-set_prev, slots-link, links-link, All-right,
  last_or-append, BacksRest-link, snoc_cases,
}
use exchange_sim.OrderBook.{Level, unlink_links, sub_qty}

-- The slot `s` after `p` is taken out of the forward links.
Leads-unlink :
    (st : Store) (xs : List ℕ) (p s : ℕ) (ys : List ℕ) (h k : ℕ)
    → p < length st.links.next
    → AreDistinct (xs ++ p ∷ s ∷ ys)
    → Leads st h (xs ++ p ∷ s ∷ ys) k
    → Leads (link p (next s st) st) h (xs ++ p ∷ ys) k
Leads-unlink st [] p s ys h k b d f = (
  f.0,
  subst (λ (j : ℕ). Leads (link p (next s st) st) j ys k) (sym (next-link_self p (next s st) st b))
      (Leads-link p (next s st) st (next s st) k ys d.0.1 f.1.1),
)
Leads-unlink st (x ∷ xs) p s ys h k b d f =
    let a = All-append_at (λ z. x ≢ z) xs p (s ∷ ys) d.0 in
    (
      f.0,
      subst (λ (j : ℕ). Leads (link p (next s st) st) j (xs ++ p ∷ ys) k)
          (sym (next-link_ne p x (next s st) st (λ e. a.0 (sym e))))
          (Leads-unlink st xs p s ys (next x st) k b d.1 f.1),
    )

-- The slot `n` behind the one taken out gets `p` as its back link; there may be none behind.
abbrev relink : ℕ → List ℕ → Store → Store
relink p [] st = st
relink p (y ∷ ys) st = set_prev y p st

Backs-after :
    (st : Store) (p s : ℕ) (ys : List ℕ)
    → All (λ x. x < length st.orders) ys
    → AreDistinct ys
    → Backs st p (s ∷ ys)
    → Backs (relink p ys st) p ys
Backs-after st p s [] b d f = tt
Backs-after st p s (y ∷ ys) b d f =
    (prev-set_prev_self y p st b.0, Backs-set_prev y p st y ys d.0 f.1.1)

prev_kept :
    (st : Store) (p x : ℕ) (ys : List ℕ)
    → All (λ y. x ≢ y) ys
    → (order x (relink p ys st)).prev ≡ (order x st).prev
prev_kept st p x [] n = refl
prev_kept st p x (y ∷ ys) n =
    ap (λ (o : Order). o.prev) (order-set_prev_ne y x p st (λ e. n.0 (sym e)))

Backs-unlink :
    (st : Store) (xs : List ℕ) (p s : ℕ) (ys : List ℕ) (q : ℕ)
    → All (λ x. x < length st.orders) ys
    → AreDistinct (xs ++ p ∷ s ∷ ys)
    → Backs st q (xs ++ p ∷ s ∷ ys)
    → Backs (relink p ys st) q (xs ++ p ∷ ys)
Backs-unlink st [] p s ys q b d f =
    (prev_kept st p p ys d.0.1 ∙ f.0, Backs-after st p s ys b d.1.1 f.1)
Backs-unlink st (x ∷ xs) p s ys q b d f =
    let a =
      All-append_at (λ z. x ≢ z) (xs ++ p ∷ []) s ys
        (subst (All (λ z. x ≢ z)) (sym (append_assoc xs (p ∷ []) (s ∷ ys))) d.0) in
    (
      prev_kept st p x ys (All-right (λ z. x ≢ z) (xs ++ p ∷ []) ys a.1) ∙ f.0,
      Backs-unlink st xs p s ys x b d.1 f.1,
    )

prev_at :
    (st : Store) (xs : List ℕ) (p s : ℕ) (ys : List ℕ) (q : ℕ)
    → Backs st q (xs ++ p ∷ s ∷ ys)
    → (order s st).prev ≡ p
prev_at st [] p s ys q f = f.1.0
prev_at st (x ∷ xs) p s ys q f = prev_at st xs p s ys x f.1

prev_at_rest :
    (st : Store) (xs : List ℕ) (p s : ℕ) (ys : List ℕ)
    → BacksRest st (xs ++ p ∷ s ∷ ys)
    → (order s st).prev ≡ p
prev_at_rest st [] p s ys f = f.0
prev_at_rest st (x ∷ xs) p s ys f = prev_at st xs p s ys x f

last_ne : (s y : ℕ) (ys : List ℕ) → All (λ x. s ≢ x) (y ∷ ys) → s ≢ last_or y ys
last_ne s y [] h = h.0
last_ne s y (z ∷ ys) h = last_ne s z ys h.1

-- `unlink_links` by what its two tests give.
unlinked : Bool → Bool → ℕ → Level → Store → Level × Store
unlinked at_head at_tail s lv st =
    let n = next s st in
    let p = (order s st).prev in
    let head = if at_head then n else lv.head in
    let st' = if at_head then st else link p n st in
    (
      record {
        qty = sub_qty lv.qty (order s st).qty;
        head = head;
        tail = if at_tail then if head == k_nil then k_nil else p else lv.tail;
      },
      if at_tail then st' else set_prev n p st',
    )

unlink_links_eq :
    (s : ℕ) (lv : Level) (st : Store) (a b : Bool)
    → (s == lv.head) ≡ a
    → (s == lv.tail) ≡ b
    → unlink_links s lv st ≡ unlinked a b s lv st
unfolding unlink_links unlinked
unlink_links_eq s lv st a b e e' =
    ap (λ (c : Bool). unlinked c (s == lv.tail) s lv st) e
    ∙ ap (λ (c : Bool). unlinked a c s lv st) e'

abbrev IsQueueOf : List ℕ → Level × Store → Type 0
IsQueueOf ss r = IsQueue r.1 r.0 ss

unlinked_only :
    (st : Store) (lv : Level) (s : ℕ)
    → IsQueue st lv (s ∷ [])
    → IsQueueOf [] (unlinked true true s lv st)
unfolding unlinked
unlinked_only st lv s q = record {
  leads = q.leads.1;
  backs = tt;
  ends = ground (arith, q.leads.1);
  distinct = tt;
  inside = tt;
}

unlinked_first :
    (st : Store) (lv : Level) (s y : ℕ) (ys : List ℕ)
    → IsQueue st lv (s ∷ y ∷ ys)
    → IsQueueOf (y ∷ ys) (unlinked true false s lv st)
unfolding unlinked
unlinked_first st lv s y ys q = record {
  leads = Leads-set_prev (next s st) (order s st).prev st (next s st) k_nil (y ∷ ys) q.leads.1;
  backs =
      Backs-set_prev (next s st) (order s st).prev st y ys
        (subst (λ (j : ℕ). All (λ x. j ≢ x) ys) (sym q.leads.1.0) q.distinct.1.0) q.backs.1;
  ends = q.ends;
  distinct = q.distinct.1;
  inside =
      AreInside-same _ _ _ _ (y ∷ ys) (sym (links-set_prev (next s st) (order s st).prev st))
        (sym (slots-set_prev (next s st) (order s st).prev st)) q.inside.1;
}

orders_in : (a b : ℕ) (ss : List ℕ) → AreInside a b ss → All (λ x. x < b) ss
orders_in a b [] h = tt
orders_in a b (s ∷ ss) h = (h.0.1.0, orders_in a b ss h.1)

module _ (st : Store) (lv : Level) (xs : List ℕ) (p s : ℕ) (ys : List ℕ)
    (q : IsQueue st lv (xs ++ p ∷ s ∷ ys)) where
  p_inside : (p < length st.links.next) × ((p < length st.orders) × (p ≢ k_nil))
  p_inside =
      (All-append_at (λ x. (x < length st.links.next) × ((x < length st.orders) × (x ≢ k_nil))) xs p
        (s ∷ ys) q.inside).0

  kept_distinct : AreDistinct (xs ++ p ∷ ys)
  kept_distinct =
      subst AreDistinct (append_assoc xs (p ∷ []) ys)
        (AreDistinct-at (xs ++ p ∷ []) s ys
          (subst AreDistinct (sym (append_assoc xs (p ∷ []) (s ∷ ys))) q.distinct)).0

  kept_inside : AreInside (length st.links.next) (length st.orders) (xs ++ p ∷ ys)
  kept_inside =
      let P : ℕ → Type 0 =
        λ x. (x < length st.links.next) × ((x < length st.orders) × (x ≢ k_nil)) in
      subst (All P) (append_assoc xs (p ∷ []) ys)
        (All-append_at P (xs ++ p ∷ []) s ys
          (subst (All P) (sym (append_assoc xs (p ∷ []) (s ∷ ys))) q.inside)).1

  kept-Leads : Leads (link p (next s st) st) lv.head (xs ++ p ∷ ys) k_nil
  kept-Leads = Leads-unlink st xs p s ys lv.head k_nil p_inside.0 q.distinct q.leads

  prev_eq : (order s st).prev ≡ p
  prev_eq = prev_at_rest st xs p s ys q.backs

BacksRest-unlink :
    (st : Store) (xs : List ℕ) (p s : ℕ) (ys : List ℕ)
    → All (λ x. x < length st.orders) ys
    → AreDistinct (xs ++ p ∷ s ∷ ys)
    → BacksRest st (xs ++ p ∷ s ∷ ys)
    → BacksRest (relink p ys st) (xs ++ p ∷ ys)
BacksRest-unlink st [] p s ys b d f = Backs-after st p s ys b d.1.1 f
BacksRest-unlink st (x ∷ xs) p s ys b d f = Backs-unlink st xs p s ys x b d.1 f

head_not_nil :
    (st : Store) (h : ℕ) (xs : List ℕ) (p : ℕ) (ys : List ℕ) (k a b : ℕ)
    → Leads st h (xs ++ p ∷ ys) k
    → AreInside a b (xs ++ p ∷ ys)
    → (h == k_nil) ≡ false
head_not_nil st h [] p ys k a b f g = ground (arith, f.0, g.0.1.1)
head_not_nil st h (x ∷ xs) p ys k a b f g = ground (arith, f.0, g.0.1.1)

unlinked_last :
    (st : Store) (lv : Level) (xs : List ℕ) (p s : ℕ)
    → IsQueue st lv (xs ++ p ∷ s ∷ [])
    → IsQueueOf (xs ++ p ∷ []) (unlinked false true s lv st)
unfolding unlinked
unlinked_last st lv xs p s q =
    let n = next s st in
    let e = prev_eq st lv xs p s [] q in
    let z = head_not_nil st lv.head xs p (s ∷ []) k_nil _ _ q.leads q.inside in
    record {
      leads =
          subst (λ (j : ℕ). Leads (link j n st) lv.head (xs ++ p ∷ []) k_nil) (sym e)
            (kept-Leads st lv xs p s [] q);
      backs =
          BacksRest-link (order s st).prev n st (xs ++ p ∷ [])
            (BacksRest-unlink st xs p s [] tt q.distinct q.backs);
      ends = ground (arith, z, e, last_or-append k_nil p xs []);
      distinct = kept_distinct st lv xs p s [] q;
      inside =
          AreInside-same _ _ _ _ (xs ++ p ∷ []) (sym (links-link (order s st).prev n st))
            (sym (slots-link (order s st).prev n st)) (kept_inside st lv xs p s [] q);
    }

next_at :
    (st : Store) (xs : List ℕ) (p s y : ℕ) (ys : List ℕ) (h k : ℕ)
    → Leads st h (xs ++ p ∷ s ∷ y ∷ ys) k
    → next s st ≡ y
next_at st [] p s y ys h k f = f.1.1.0
next_at st (x ∷ xs) p s y ys h k f = next_at st xs p s y ys (next x st) k f.1

unlinked_middle :
    (st : Store) (lv : Level) (xs : List ℕ) (p s y : ℕ) (ys : List ℕ)
    → IsQueue st lv (xs ++ p ∷ s ∷ y ∷ ys)
    → IsQueueOf (xs ++ p ∷ y ∷ ys) (unlinked false false s lv st)
unfolding unlinked
unlinked_middle st lv xs p s y ys q =
    let n = next s st in
    let st' = link p n st in
    let lv' : Level = record lv { qty = sub_qty lv.qty (order s st).qty } in
    let inside' =
      AreInside-same _ _ _ _ (y ∷ ys) refl (sym (slots-link p n st))
        (All-right _ xs (p ∷ s ∷ y ∷ ys) q.inside).1.1 in
    let base : IsQueue (set_prev y p st') lv' (xs ++ p ∷ y ∷ ys) = record {
      leads =
          Leads-set_prev y p st' lv.head k_nil (xs ++ p ∷ y ∷ ys)
            (kept-Leads st lv xs p s (y ∷ ys) q);
      backs =
          BacksRest-unlink st' xs p s (y ∷ ys) (orders_in _ _ (y ∷ ys) inside') q.distinct
            (BacksRest-link p n st (xs ++ p ∷ s ∷ y ∷ ys) q.backs);
      ends =
          q.ends
          ∙ last_or-append k_nil p xs (s ∷ y ∷ ys)
          ∙ sym (last_or-append k_nil p xs (y ∷ ys));
      distinct = kept_distinct st lv xs p s (y ∷ ys) q;
      inside =
          AreInside-same _ _ _ _ (xs ++ p ∷ y ∷ ys)
            (sym (links-set_prev y p st' ∙ links-link p n st))
            (sym (slots-set_prev y p st' ∙ slots-link p n st))
            (kept_inside st lv xs p s (y ∷ ys) q);
    } in
    subst
      (λ (i : ℕ).
        IsQueue (set_prev i (order s st).prev (link (order s st).prev n st)) lv' (xs ++ p ∷ y ∷ ys))
      (sym (next_at st xs p s y ys lv.head k_nil q.leads))
      (subst (λ (j : ℕ). IsQueue (set_prev y j (link j n st)) lv' (xs ++ p ∷ y ∷ ys))
        (sym (prev_eq st lv xs p s (y ∷ ys) q)) base)

unlink_first :
    (st : Store) (lv : Level) (s : ℕ) (ys : List ℕ)
    → IsQueue st lv (s ∷ ys)
    → IsQueueOf ys (unlink_links s lv st)
unlink_first st lv s [] q =
    subst (IsQueueOf [])
      (sym (unlink_links_eq s lv st true true (ground (arith, q.leads.0)) (ground (arith, q.ends))))
      (unlinked_only st lv s q)
unlink_first st lv s (y ∷ ys) q =
    let n = last_ne s y ys q.distinct.0 in
    subst (IsQueueOf (y ∷ ys))
      (sym (
        unlink_links_eq s lv st true false (ground (arith, q.leads.0)) (ground (arith, q.ends, n))))
      (unlinked_first st lv s y ys q)

-- The front of a list that goes on with `p ∷ s ∷ ys` is not `s`.
front_ne :
    (st : Store) (h : ℕ) (xs : List ℕ) (p s : ℕ) (ys : List ℕ) (k : ℕ)
    → AreDistinct (xs ++ p ∷ s ∷ ys)
    → Leads st h (xs ++ p ∷ s ∷ ys) k
    → (s == h) ≡ false
front_ne st h [] p s ys k d f = ground (arith, f.0, d.0.0)
front_ne st h (x ∷ xs) p s ys k d f =
    ground (arith, f.0, (All-right (λ z. x ≢ z) xs (p ∷ s ∷ ys) d.0).1.0)

distinct_right : (xs ys : List ℕ) → AreDistinct (xs ++ ys) → AreDistinct ys
distinct_right [] ys d = d
distinct_right (x ∷ xs) ys d = distinct_right xs ys d.1

unlink_after :
    (st : Store) (lv : Level) (xs : List ℕ) (p s : ℕ) (ys : List ℕ)
    → IsQueue st lv (xs ++ p ∷ s ∷ ys)
    → IsQueueOf (xs ++ p ∷ ys) (unlink_links s lv st)
unlink_after st lv xs p s [] q =
    let e = q.ends ∙ last_or-append k_nil p xs (s ∷ []) in
    subst (IsQueueOf (xs ++ p ∷ []))
      (sym (
        unlink_links_eq s lv st false true (front_ne st lv.head xs p s [] k_nil q.distinct q.leads)
          (ground (arith, e))))
      (unlinked_last st lv xs p s q)
unlink_after st lv xs p s (y ∷ ys) q =
    let e = q.ends ∙ last_or-append k_nil p xs (s ∷ y ∷ ys) in
    let n = last_ne s y ys (distinct_right xs (p ∷ s ∷ y ∷ ys) q.distinct).1.0 in
    subst (IsQueueOf (xs ++ p ∷ y ∷ ys))
      (sym (
        unlink_links_eq s lv st false false
          (front_ne st lv.head xs p s (y ∷ ys) k_nil q.distinct q.leads) (ground (arith, e, n))))
      (unlinked_middle st lv xs p s y ys q)

-- Where a level's links hold the queue `xs ++ s ∷ ys`, those that `unlink` leaves hold `xs ++ ys`.
pub unlink_links-IsQueue :
    (st : Store) (lv : Level) (xs : List ℕ) (s : ℕ) (ys : List ℕ)
    → IsQueue st lv (xs ++ s ∷ ys)
    → IsQueue (unlink_links s lv st).1 (unlink_links s lv st).0 (xs ++ ys)
unlink_links-IsQueue st lv xs s ys q = elim (snoc_cases xs) [
  | inl e ↦
      subst (λ (zs : List ℕ). IsQueueOf (zs ++ ys) (unlink_links s lv st)) (sym e)
        (unlink_first st lv s ys (subst (λ (zs : List ℕ). IsQueue st lv (zs ++ s ∷ ys)) e q))
  | inr r ↦
      let ws = r.0 in
      let p = r.1.0 in
      let q' = subst (λ (zs : List ℕ). IsQueue st lv (zs ++ s ∷ ys)) r.1.1 q in
      let q'' = subst (IsQueue st lv) (append_assoc ws (p ∷ []) (s ∷ ys)) q' in
      subst (λ (zs : List ℕ). IsQueueOf (zs ++ ys) (unlink_links s lv st)) (sym r.1.1)
        (subst (λ (zs : List ℕ). IsQueueOf zs (unlink_links s lv st))
          (sym (append_assoc ws (p ∷ []) ys)) (unlink_after st lv ws p s ys q''))
]
