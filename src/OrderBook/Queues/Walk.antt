-- ===== src/OrderBook/Queues/Walk.antt =====
-- include/exsim/order_book.hpp: the walk of a queue by its forward links.
use exchange_sim.Base.{
  ℕ, suc, zero, ◌<◌, ◌==◌, true, false, ◌≡◌, refl, ap, ◌∙◌, List, [], ◌∷◌, length, arith,
}
use exchange_sim.OrderStore.{k_nil}
use exchange_sim.OrderStore.Records.{Store, next}
use exchange_sim.OrderBook.{Level}
use exchange_sim.OrderBook.Queries.{queue_from}
use exchange_sim.OrderBook.Queues.{Leads, IsQueue, AreInside}

queue_from-Leads :
    (st : Store) (ss : List ℕ) (h n a b : ℕ)
    → length ss < n
    → Leads st h ss k_nil
    → AreInside a b ss
    → queue_from n h st ≡ ss
unfolding queue_from
queue_from-Leads st ss h zero a b l f i = absurd (omega (arith, l))
queue_from-Leads st [] h (suc n) a b l f i =
    let e : (h == k_nil) ≡ true = ground (arith, f) in rw (e, queue_from) refl
queue_from-Leads st (s ∷ ss) h (suc n) a b l f i =
    let e : (h == k_nil) ≡ false = ground (arith, f.0, i.0.1.1) in
    let t : next h st ≡ next s st = ap (λ (j : ℕ). next j st) f.0 in
    rw (e, queue_from)
      (ap (λ (j : ℕ). h ∷ queue_from n j st) t
        ∙ ap (λ (zs : List ℕ). h ∷ zs)
            (queue_from-Leads st ss (next s st) n a b (omega (arith, l)) f.1 i.1)
        ∙ ap (λ (j : ℕ). j ∷ ss) f.0)

-- With more fuel than the queue has slots, the walk from the front of a level gives its queue.
pub queue_from-IsQueue :
    (st : Store) (lv : Level) (ss : List ℕ) (n : ℕ)
    → IsQueue st lv ss
    → length ss < n
    → queue_from n lv.head st ≡ ss
queue_from-IsQueue st lv ss n q h = queue_from-Leads st ss lv.head n _ _ h q.leads q.inside
