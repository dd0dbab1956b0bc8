-- ===== src/OrderBook/Queues/Append.antt =====
-- include/exsim/order_book.hpp: an order put at the back of the queue of a level.
use exchange_sim.Base.{
  ℕ, ◌<◌, ◌==◌, if◌then◌else◌, Bool, true, false, ◌≡◌, ◌≢◌, refl, ap, ◌∙◌, sym, subst, List, [],
  ◌∷◌, ◌++◌, append_assoc, length, All, arith, inl, inr, get_or-set_self,
}
use exchange_sim.Domain.{Side}
use exchange_sim.OrderStore.{k_nil}
use exchange_sim.OrderStore.Records.{Store, order, next, link, set_prev}
use exchange_sim.OrderBook.Queues.{
  Leads, Backs, BacksRest, AreDistinct, AreInside, IsQueue, next-link_self, next-link_ne,
  next-set_prev, prev-set_prev_self, Leads-link, Leads-set_prev, Backs-set_prev, All-append_at,
  AreInside-same, slots-set_prev, links-set_prev, slots-link, links-link, last_or-append,
  BacksRest-link, snoc_cases,
}
use exchange_sim.OrderBook.{
  Book, Level, level, put_level, append_slot, occupy_level, add_qty, no_level,
}

Leads-append :
    (st : Store) (xs : List ℕ) (p s h : ℕ)
    → p < length st.links.next
    → next s st ≡ k_nil
    → p ≢ s
    → AreDistinct (xs ++ p ∷ [])
    → Leads st h (xs ++ p ∷ []) k_nil
    → Leads (link p s st) h (xs ++ p ∷ s ∷ []) k_nil
Leads-append st [] p s h b e n d f = (f.0, (next-link_self p s st b, next-link_ne p s s st n ∙ e))
Leads-append st (x ∷ xs) p s h b e n d f =
    let a = All-append_at (λ z. x ≢ z) xs p [] d.0 in
    (
      f.0,
      subst (λ (j : ℕ). Leads (link p s st) j (xs ++ p ∷ s ∷ []) k_nil)
          (sym (next-link_ne p x s st (λ e. a.0 (sym e))))
          (Leads-append st xs p s (next x st) b e n d.1 f.1),
    )

Backs-append :
    (st : Store) (xs : List ℕ) (p s q : ℕ)
    → (order s st).prev ≡ p
    → Backs st q (xs ++ p ∷ [])
    → Backs st q (xs ++ p ∷ s ∷ [])
Backs-append st [] p s q e f = (f.0, (e, tt))
Backs-append st (x ∷ xs) p s q e f = (f.0, Backs-append st xs p s x e f.1)

BacksRest-append :
    (st : Store) (xs : List ℕ) (p s : ℕ)
    → (order s st).prev ≡ p
    → BacksRest st (xs ++ p ∷ [])
    → BacksRest st (xs ++ p ∷ s ∷ [])
BacksRest-append st [] p s e f = (e, tt)
BacksRest-append st (x ∷ xs) p s e f = Backs-append st xs p s x e f

BacksRest-set_prev :
    (p v : ℕ) (st : Store) (ss : List ℕ)
    → All (λ x. p ≢ x) ss
    → BacksRest st ss
    → BacksRest (set_prev p v st) ss
BacksRest-set_prev p v st [] n f = tt
BacksRest-set_prev p v st (s ∷ ss) n f = Backs-set_prev p v st s ss n.1 f

All-snoc : (P : ℕ → Type 0) (xs : List ℕ) (y : ℕ) → All P xs → P y → All P (xs ++ y ∷ [])
All-snoc P [] y h h' = (h', tt)
All-snoc P (x ∷ xs) y h h' = (h.0, All-snoc P xs y h.1 h')

AreDistinct-snoc :
    (xs : List ℕ) (y : ℕ) → AreDistinct xs → All (λ x. y ≢ x) xs → AreDistinct (xs ++ y ∷ [])
AreDistinct-snoc [] y d n = (tt, tt)
AreDistinct-snoc (x ∷ xs) y d n =
    (All-snoc (λ z. x ≢ z) xs y d.0 (λ e. n.0 (sym e)), AreDistinct-snoc xs y d.1 n.1)

-- A slot that is not in the queue, with its links set as `rest` sets them.
prepared : ℕ → ℕ → Store → Store
prepared s t st = set_prev s t (link s k_nil st)

module _ (st : Store) (s : ℕ)
    (b : (s < length st.links.next) × ((s < length st.orders) × (s ≢ k_nil))) where
  next-prepared : (t : ℕ) → next s (prepared s t st) ≡ k_nil
  unfolding prepared
  next-prepared t = next-set_prev s s t (link s k_nil st) ∙ next-link_self s k_nil st b.0

  prev-prepared : (t : ℕ) → (order s (prepared s t st)).prev ≡ t
  unfolding prepared
  prev-prepared t =
      prev-set_prev_self s t (link s k_nil st) (omega (arith, b.1.0, slots-link s k_nil st))

  inside-prepared :
      (t : ℕ) (ss : List ℕ)
      → AreInside (length st.links.next) (length st.orders) ss
      → AreInside
          (length (prepared s t st).links.next)
          (length (prepared s t st).orders)
          (ss ++ s ∷ [])
  unfolding prepared
  inside-prepared t ss h =
      AreInside-same _ _ _ _ (ss ++ s ∷ [])
        (sym (links-set_prev s t (link s k_nil st) ∙ links-link s k_nil st))
        (sym (slots-set_prev s t (link s k_nil st) ∙ slots-link s k_nil st)) (All-snoc _ ss s h b)

  links_prepared : (t : ℕ) → length (prepared s t st).links.next ≡ length st.links.next
  unfolding prepared
  links_prepared t = links-set_prev s t (link s k_nil st) ∙ links-link s k_nil st

  Leads-prepared :
      (t h : ℕ) (ss : List ℕ)
      → All (λ x. s ≢ x) ss
      → Leads st h ss k_nil
      → Leads (prepared s t st) h ss k_nil
  unfolding prepared
  Leads-prepared t h ss n f =
      Leads-set_prev s t (link s k_nil st) h k_nil ss (Leads-link s k_nil st h k_nil ss n f)

  backs_prepared :
      (t : ℕ) (ss : List ℕ) → All (λ x. s ≢ x) ss → BacksRest st ss → BacksRest (prepared s t st) ss
  unfolding prepared
  backs_prepared t ss n f =
      BacksRest-set_prev s t (link s k_nil st) ss n (BacksRest-link s k_nil st ss f)

  append_first :
      (lv : Level) (q : ℕ)
      → IsQueue st lv []
      → IsQueue (prepared s lv.tail st) (record { qty = q; head = s; tail = s }) (s ∷ [])
  append_first lv q f = record {
    leads = (refl, next-prepared lv.tail);
    backs = tt;
    ends = refl;
    distinct = (tt, tt);
    inside = inside-prepared lv.tail [] tt;
  }

  append_behind :
      (lv : Level) (q : ℕ) (ws : List ℕ) (p : ℕ)
      → IsQueue st lv (ws ++ p ∷ [])
      → All (λ x. s ≢ x) (ws ++ p ∷ [])
      → lv.tail ≡ p
      → IsQueue
          (link lv.tail s (prepared s lv.tail st))
          (record { qty = q; head = lv.head; tail = s })
          ((ws ++ p ∷ []) ++ s ∷ [])
  append_behind lv q ws p f n e =
      let t = lv.tail in
      let st' = prepared s t st in
      let r =
        All-append_at (λ x. (x < length st.links.next) × ((x < length st.orders) × (x ≢ k_nil))) ws
          p [] f.inside in
      let m = All-append_at (λ x. s ≢ x) ws p [] n in
      let l = inside-prepared t (ws ++ p ∷ []) f.inside in
      subst
        (λ (j : ℕ).
          IsQueue (link j s st') (record { qty = q; head = lv.head; tail = s })
            ((ws ++ p ∷ []) ++ s ∷ []))
        (sym e)
        (record {
          leads =
              subst (λ (zs : List ℕ). Leads (link p s st') lv.head zs k_nil)
                (sym (append_assoc ws (p ∷ []) (s ∷ [])))
                (Leads-append st' ws p s lv.head (omega (arith, r.0.0, links_prepared t))
                  (next-prepared t) (λ d. m.0 (sym d)) f.distinct
                  (Leads-prepared t lv.head (ws ++ p ∷ []) n f.leads));
          backs = BacksRest-link p s st' ((ws ++ p ∷ []) ++ s ∷ []) (
              subst (BacksRest st') (sym (append_assoc ws (p ∷ []) (s ∷ []))) (
                BacksRest-append st' ws p s (prev-prepared t ∙ e)
                  (backs_prepared t (ws ++ p ∷ []) n f.backs)));
          ends = sym (last_or-append k_nil s (ws ++ p ∷ []) []);
          distinct = AreDistinct-snoc (ws ++ p ∷ []) s f.distinct n;
          inside =
              AreInside-same _ _ _ _ ((ws ++ p ∷ []) ++ s ∷ []) (sym (links-link p s st'))
                (sym (slots-link p s st')) l;
        })

store-occupy_level : (side : Side) (ix : ℕ) (b : Book) → (occupy_level side ix b).store ≡ b.store
unfolding occupy_level
store-occupy_level Side.buy ix b = refl
store-occupy_level Side.sell ix b = refl

level-occupy_level :
    (side : Side) (ix : ℕ) (b : Book) → level ix (occupy_level side ix b) ≡ level ix b
unfolding occupy_level level
level-occupy_level Side.buy ix b = refl
level-occupy_level Side.sell ix b = refl

store-put_level : (ix : ℕ) (lv : Level) (b : Book) → (put_level ix lv b).store ≡ b.store
unfolding put_level
store-put_level ix lv b = refl

IsQueue-same :
    (st st' : Store) (lv lv' : Level) (ss : List ℕ)
    → st' ≡ st
    → lv' ≡ lv
    → IsQueue st lv ss
    → IsQueue st' lv' ss
IsQueue-same st st' lv lv' ss e e' q =
    subst (λ (t : Store). IsQueue t lv' ss) (sym e)
      (subst (λ (l : Level). IsQueue st l ss) (sym e') q)

level-put_level :
    (ix : ℕ) (lv : Level) (b : Book) → ix < length b.levels → level ix (put_level ix lv b) ≡ lv
unfolding level put_level
level-put_level ix lv b h = get_or-set_self b.levels ix lv no_level h

-- The queue of the level `ix` of a book.
abbrev pub HasQueue : Book → ℕ → List ℕ → Type 0
HasQueue b ix ss = IsQueue b.store (level ix b) ss

-- `append_slot` by what its test gives.
appended : Bool → ℕ → Side → ℕ → ℕ → Book → Book
appended first s side ix qty b =
    let lv = level ix b in
    let st = prepared s lv.tail b.store in
    if first
    then occupy_level side ix (
        put_level ix (record { qty = add_qty lv.qty qty; head = s; tail = s })
          (record b { store = st }))
    else put_level ix (record { qty = add_qty lv.qty qty; head = lv.head; tail = s })
        (record b { store = link lv.tail s st })

append_slot_eq :
    (c : Bool) (s : ℕ) (side : Side) (ix qty : ℕ) (b : Book)
    → ((level ix b).tail == k_nil) ≡ c
    → append_slot s side ix qty b ≡ appended c s side ix qty b
unfolding append_slot appended prepared
append_slot_eq c s side ix qty b e = ap (λ (d : Bool). appended d s side ix qty b) e

module _ (s : ℕ) (side : Side) (ix qty : ℕ) (b : Book) (h : ix < length b.levels)
    (i : (s < length b.store.links.next) × ((s < length b.store.orders) × (s ≢ k_nil))) where
  append_to_empty : HasQueue b ix [] → HasQueue (appended true s side ix qty b) ix (s ∷ [])
  unfolding appended
  append_to_empty q =
      let lv' : Level = record { qty = add_qty (level ix b).qty qty; head = s; tail = s } in
      let b' : Book = record b { store = prepared s (level ix b).tail b.store } in
      IsQueue-same _ _ _ _ (s ∷ [])
        (store-occupy_level side ix (put_level ix lv' b') ∙ store-put_level ix lv' b')
        (level-occupy_level side ix (put_level ix lv' b') ∙ level-put_level ix lv' b' h)
        (append_first b.store s i (level ix b) (add_qty (level ix b).qty qty) q)

  append_to :
      (ws : List ℕ) (p : ℕ)
      → HasQueue b ix (ws ++ p ∷ [])
      → All (λ x. s ≢ x) (ws ++ p ∷ [])
      → HasQueue (appended false s side ix qty b) ix ((ws ++ p ∷ []) ++ s ∷ [])
  unfolding appended
  append_to ws p q n =
      let t = (level ix b).tail in
      let lv' : Level = record {
        qty = add_qty (level ix b).qty qty;
        head = (level ix b).head;
        tail = s;
      } in
      let b' : Book = record b { store = link t s (prepared s t b.store) } in
      IsQueue-same _ _ _ _ ((ws ++ p ∷ []) ++ s ∷ []) (store-put_level ix lv' b')
        (level-put_level ix lv' b' h)
        (append_behind b.store s i (level ix b) (add_qty (level ix b).qty qty) ws p q n
          (q.ends ∙ last_or-append k_nil p ws []))

  -- `append_slot` puts a slot that is not in the queue of a level at its back.
  pub append_slot-IsQueue :
      (ss : List ℕ)
      → IsQueue b.store (level ix b) ss
      → All (λ x. s ≢ x) ss
      → IsQueue
          (append_slot s side ix qty b).store
          (level ix (append_slot s side ix qty b))
          (ss ++ s ∷ [])
  append_slot-IsQueue ss q n = elim (snoc_cases ss) [
    | inl e ↦
        let q' = subst (IsQueue b.store (level ix b)) e q in
        subst (λ (zs : List ℕ). HasQueue (append_slot s side ix qty b) ix (zs ++ s ∷ [])) (sym e)
          (subst (λ (d : Book). HasQueue d ix (s ∷ []))
            (sym (append_slot_eq true s side ix qty b (ground (arith, q'.ends))))
            (append_to_empty q'))
    | inr r ↦
        let ws = r.0 in
        let p = r.1.0 in
        let q' = subst (IsQueue b.store (level ix b)) r.1.1 q in
        let n' = subst (All (λ x. s ≢ x)) r.1.1 n in
        let g =
          All-append_at
            (λ x. (x < length b.store.links.next) × ((x < length b.store.orders) × (x ≢ k_nil))) ws
            p [] q'.inside in
        let e : (level ix b).tail ≡ p = q'.ends ∙ last_or-append k_nil p ws [] in
        subst (λ (zs : List ℕ). HasQueue (append_slot s side ix qty b) ix (zs ++ s ∷ []))
          (sym r.1.1)
          (subst (λ (d : Book). HasQueue d ix ((ws ++ p ∷ []) ++ s ∷ []))
            (sym (append_slot_eq false s side ix qty b (ground (arith, e, g.0.1.1))))
            (append_to ws p q' n'))
  ]
