-- ===== src/OrderStore.antt =====
-- include/exsim/order_store.hpp: the slots of resting orders. The free slots form a list through the
-- `next` links; a slot in use has its link free for the queue of its level.
pub mod FreeSlots
pub mod Records
pub mod Layouts
pub mod Tests
use exchange_sim.Base.{
  ℕ, zero, suc, ◌+◌, ◌-◌, ◌%◌, ◌^◌, ◌==◌, ltb, if◌then◌else◌, List, [], ◌∷◌, get_or, set, replicate,
  Option,
}
use exchange_sim.Domain.{Side}

abbrev pub k_nil : ℕ
k_nil = 4294967295

-- `FreeListStore`, with the links of `Derived`.
pub record FreeList : Type 0 where
  pub next : List ℕ
  pub free : ℕ
  pub cap : ℕ
  pub live : ℕ

-- The links that the loop of `build_free_list` writes for the slots from `i` on, `n` of them.
unfoldable pub links : ℕ → ℕ → ℕ → List ℕ
links cap i zero = []
links cap i (suc n) = (if ltb (i + 1) cap then i + 1 else k_nil) ∷ links cap (i + 1) n

unfoldable pub build_free_list : ℕ → FreeList
build_free_list cap = record {
  next = links cap 0 cap;
  free = if cap == 0 then k_nil else 0;
  cap = cap;
  live = 0;
}

unfoldable pub alloc : FreeList → ℕ × FreeList
alloc f =
    if f.free == k_nil
    then (f.free, f)
    else (f.free, record f { free = get_or f.next f.free k_nil; live = (f.live + 1) % 2 ^ 32 })

unfoldable pub release : ℕ → FreeList → FreeList
release s f = record f {
  next = set f.next s f.free;
  free = s;
  live = (f.live + (2 ^ 32 - 1)) % 2 ^ 32;
}

-- A write of a slot's link, as the queues of the levels do on slots in use.
unfoldable pub set_next : ℕ → ℕ → FreeList → FreeList
set_next s v f = record f { next = set f.next s v }
