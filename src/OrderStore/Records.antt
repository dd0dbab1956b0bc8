-- ===== src/OrderStore/Records.antt =====
-- include/exsim/order_store.hpp: `AosStore`, the records of the orders with the free list. The `next`
-- link of a slot stands in the free list, where `FreeListStore` reads it.
use exchange_sim.Base.{ℕ, List, get_or, set, replicate}
use exchange_sim.Domain.{Side}
use exchange_sim.OrderStore.{FreeList, build_free_list, alloc, release, set_next, k_nil}

pub record Order : Type 0 where
  pub id : ℕ
  pub ts : ℕ
  pub qty : ℕ
  pub orig_qty : ℕ
  pub prev : ℕ
  pub level : ℕ
  pub owner : ℕ
  pub side : Side
  pub flags : ℕ

pub record Store : Type 0 where
  pub links : FreeList
  pub orders : List Order

-- The pages of a new store are zero.
abbrev pub no_order : Order
no_order = record {
  id = 0;
  ts = 0;
  qty = 0;
  orig_qty = 0;
  prev = 0;
  level = 0;
  owner = 0;
  side = Side.buy;
  flags = 0;
}

unfoldable pub new : ℕ → Store
new cap = record { links = build_free_list cap; orders = replicate cap no_order }

unfoldable pub order : ℕ → Store → Order
order s st = get_or st.orders s no_order

unfoldable pub next : ℕ → Store → ℕ
next s st = get_or st.links.next s k_nil

unfoldable pub put : ℕ → Order → Store → Store
put s o st = record st { orders = set st.orders s o }

unfoldable pub link : ℕ → ℕ → Store → Store
link s v st = record st { links = set_next s v st.links }

unfoldable pub set_prev : ℕ → ℕ → Store → Store
set_prev s v st = put s (record (order s st) { prev = v }) st

unfoldable pub set_qty : ℕ → ℕ → Store → Store
set_qty s q st = put s (record (order s st) { qty = q }) st

unfoldable pub init : ℕ → ℕ → ℕ → ℕ → ℕ → Side → ℕ → Store → Store
init s id qty level owner side ts st =
    put s
      (record (order s st) {
        id = id;
        ts = ts;
        qty = qty;
        orig_qty = qty;
        level = level;
        owner = owner;
        side = side;
        flags = 0;
      })
      st

unfoldable pub take_slot : Store → ℕ × Store
take_slot st = let r = alloc st.links in (r.0, record st { links = r.1 })

unfoldable pub free_slot : ℕ → Store → Store
free_slot s st = record st { links = release s st.links }
