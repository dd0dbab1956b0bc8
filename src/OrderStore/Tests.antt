-- ===== src/OrderStore/Tests.antt =====
-- include/exsim/order_store.hpp: a store of three slots.
use exchange_sim.Base.{◌<◌, ◌≡◌, [], ◌∷◌, arith}
use exchange_sim.OrderStore.{k_nil, FreeList, build_free_list, alloc}
use exchange_sim.OrderStore.FreeSlots.{
  occurs, HasFree, slots, alloc_full, alloc_free, build_free_list-HasFree,
}

abbrev full : FreeList
full = (alloc (build_free_list 1)).1

abbrev one_used : FreeList
one_used = (alloc (build_free_list 3)).1

one_used-HasFree : HasFree one_used (1 ∷ 2 ∷ [])
unfolding slots
one_used-HasFree =
    (alloc_free (build_free_list 3) 0 (1 ∷ 2 ∷ []) (build_free_list-HasFree 3 (omega arith))).3

full-HasFree : HasFree full []
unfolding slots
full-HasFree = (alloc_free (build_free_list 1) 0 [] (build_free_list-HasFree 1 (omega arith))).3

alloc_full_example : alloc full ≡ (k_nil, full)
alloc_full_example = alloc_full full full-HasFree

alloc_free_example :
    ((alloc one_used).0 ≡ 1)
    × (occurs 1 (2 ∷ []) ≡ 0)
    × (1 < one_used.cap)
    × HasFree (alloc one_used).1 (2 ∷ [])
alloc_free_example = alloc_free one_used 1 (2 ∷ []) one_used-HasFree
