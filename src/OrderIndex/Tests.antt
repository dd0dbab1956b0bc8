-- ===== src/OrderIndex/Tests.antt =====
-- include/exsim/order_index.hpp: a table of 16 slots.
use exchange_sim.Base.{
  ℕ, ◌≡◌, refl, ◌⊎◌, Bool, ◌%◌, true, none, some, Option, arith, ◌==◌, ◌^◌, ◌∷◌, replicate,
}
use exchange_sim.OrderStore.{k_nil}
use exchange_sim.OrderIndex.Search.{find_lem}
use exchange_sim.OrderIndex.Changes.{IsTable}
use exchange_sim.OrderIndex.Updates.{Inserts, Erases, insert-Inserts, erase-Erases}
use exchange_sim.OrderIndex.Order.{robin_hood_ordered-IsOrdered}
use exchange_sim.OrderIndex.{
  OrderIndex, locality, scatter, fold_high, ceil_bits, empty_slot, new, slot, after, home, dist,
  seek, position, find, place, insert, erase, ordered_from, robin_hood_ordered,
}

-- A store that keeps the order with id `i` in slot `i`.
abbrev same : ℕ → ℕ
same v = v

abbrev then_insert : ℕ → Option OrderIndex → Option OrderIndex
then_insert k none = none
then_insert k (some t) = insert locality k k t

-- Ids 1, 17 and 2: the second displaces nobody, the third is displaced by it.
abbrev three : Option OrderIndex
unfolding new
three = then_insert 2 (then_insert 17 (then_insert 1 (some (new 8))))

abbrev is_good : Option OrderIndex → Option (ℕ × ℕ)
is_good none = none
is_good (some t) = some (find locality 17 same t, find locality 33 same t)

finds : is_good three ≡ some (17, k_nil)
unfolding new ceil_bits locality insert place slot empty_slot after home dist seek position find
finds = refl

abbrev is_ordered : Option OrderIndex → Option (Bool × ℕ)
is_ordered none = none
is_ordered (some t) = some (robin_hood_ordered t, t.size)

ordered : is_ordered three ≡ some (true, 3)
unfolding new ceil_bits locality insert place slot empty_slot after home dist robin_hood_ordered
    ordered_from
ordered = refl

scatters : scatter 1 4 ≡ 0xb456bcfc34c2cb2c % 2 ^ 32
unfolding scatter fold_high
scatters = refl

-- The order with id 1 alone.
abbrev table : OrderIndex
unfolding empty_slot
table = record {
  mask = 15;
  bits = 4;
  slots = empty_slot ∷ record { fp = 1; value = 1 } ∷ replicate 14 empty_slot;
  size = 1;
}

in_order : robin_hood_ordered table ≡ true
unfolding robin_hood_ordered ordered_from slot empty_slot dist
in_order = refl

table-IsTable : IsTable table
unfolding empty_slot slot
table-IsTable = record {
  sized = refl;
  words = refl;
  two = omega arith;
  free = 0;
  in_table = omega arith;
  is_free = refl;
  ordered = robin_hood_ordered-IsOrdered table in_order;
}

find_lem_example :
    (seek (λ v. same v == 1) (locality 1 4) 15 table.slots 16 (home 15 (locality 1 4)) 0
      ≡ position locality 1 same table)
    × ((find locality 1 same table ≡ k_nil) ⊎ (same (find locality 1 same table) ≡ 1))
unfolding table
find_lem_example = find_lem locality 1 same table (omega arith) 16 (omega arith)

insert-Inserts_example : Inserts locality 17 17 same table (insert locality 17 17 table)
unfolding locality
insert-Inserts_example =
    insert-Inserts locality 17 same table table-IsTable (omega arith) 17 (omega arith) refl

erase-Erases_example : Erases locality 1 same table (erase locality 1 same table)
unfolding locality
erase-Erases_example = erase-Erases locality 1 same table table-IsTable (omega arith)
