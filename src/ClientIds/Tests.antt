-- ===== src/ClientIds/Tests.antt =====
-- include/exsim/client_ids.hpp: a map with the live orders of two owners.
use exchange_sim.Base.{ℕ, ◌<◌, ◌≡◌, refl, ◌↔◌, arith}
use exchange_sim.Base.Assoc.{lookup}
use exchange_sim.ClientIds.{
  Key, ClientIdMap, find_key, new, for_new, find, to_client, owner_of, live,
}
use exchange_sim.ClientIds.Bijection.{
  IsValid, new-IsValid, for_new-IsValid, find-for_new, to_client_iff,
}

abbrev key : ℕ → ℕ → Key
key id owner = record { client_id = id; symbol = 2; owner = owner }

abbrev map0 : ClientIdMap
map0 = new 10

abbrev map1 : ClientIdMap
map1 = (for_new (key 5 1) map0).1

abbrev map2 : ClientIdMap
map2 = (for_new (key 5 3) map1).1

map1-IsValid : IsValid map1
unfolding new
map1-IsValid = for_new-IsValid (key 5 1) map0 (new-IsValid 10 (omega arith)) (omega arith)

map2-IsValid : IsValid map2
unfolding new for_new find_key
map2-IsValid = for_new-IsValid (key 5 3) map1 map1-IsValid (omega arith)

new-IsValid_example : IsValid (new 10)
new-IsValid_example = new-IsValid 10 (omega arith)

find-for_new_example :
    (0 < (for_new (key 5 3) map1).0)
    × (find (key 5 3) (for_new (key 5 3) map1).1 ≡ (for_new (key 5 3) map1).0)
    × (to_client (for_new (key 5 3) map1).0 3 (for_new (key 5 3) map1).1 ≡ 5)
unfolding new for_new find_key
find-for_new_example = find-for_new (key 5 3) map1 map1-IsValid (omega arith) (omega arith)

to_client_iff_example :
    (to_client 11 3 map2 ≡ 5)
    ↔ ((s : ℕ) × (find (record { client_id = 5; symbol = s; owner = 3 }) map2 ≡ 11) × (0 < 11))
to_client_iff_example = to_client_iff map2 11 3 5 map2-IsValid (omega arith)

-- The other owner does not see the order.
other_viewer : (to_client 11 1 map2 ≡ 0) × (owner_of 11 map2 ≡ 3) × (live map2 ≡ 2)
unfolding new for_new find_key to_client owner_of live lookup
other_viewer = (refl, refl, refl)
