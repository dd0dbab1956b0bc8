-- ===== src/ClientIds.antt =====
-- include/exsim/client_ids.hpp: the gateway's translation between client order ids and exchange
-- ids. The maps are lists of pairs; the hash of the map's buckets does not show in its behaviour.
pub mod Bijection
pub mod Tests
use exchange_sim.Base.{
  ℕ, ◌+◌, ◌%◌, ◌^◌, ◌==◌, if◌then◌else◌, Bool, true, false, ◌&&◌, Option, none, some, List, [], ◌∷◌,
  length,
}
use exchange_sim.Base.Assoc

pub record Key : Type 0 where
  pub client_id : ℕ
  pub symbol : ℕ
  pub owner : ℕ

-- `operator==`
abbrev pub same_key : Key → Key → Bool
same_key a b = (a.client_id == b.client_id && a.symbol == b.symbol) && a.owner == b.owner

abbrev pub Forward : Type 0
Forward = List (Key × ℕ)

abbrev pub Reverse : Type 0
Reverse = List (ℕ × Key)

unfoldable pub find_key : Key → Forward → Option ℕ
find_key k [] = none
find_key k ((j, x) ∷ m) = if same_key j k then some x else find_key k m

-- A map has at most one pair of a key; every pair of the key goes.
unfoldable pub erase_key : Key → Forward → Forward
erase_key k [] = []
erase_key k ((j, x) ∷ m) = let rest = erase_key k m in if same_key j k then rest else (j, x) ∷ rest

pub record ClientIdMap : Type 0 where
  pub fwd : Forward
  pub rev : Reverse
  pub next : ℕ

unfoldable pub new : ℕ → ClientIdMap
new first_exchange_id = record { fwd = []; rev = []; next = first_exchange_id }

-- A live key's exchange id, or a fresh one; `try_emplace` inserts where the key is missing.
unfoldable pub for_new : Key → ClientIdMap → ℕ × ClientIdMap
for_new k m = if k.client_id == 0 then (0, m) else elim (find_key k m.fwd) [
  | some x ↦ (x, m)
  | none ↦ (
    m.next,
    record { fwd = (k, m.next) ∷ m.fwd; rev = (m.next, k) ∷ m.rev; next = (m.next + 1) % 2 ^ 64 },
  )
]

unfoldable pub find : Key → ClientIdMap → ℕ
find k m = elim (find_key k m.fwd) [ none ↦ 0 | some x ↦ x ]

unfoldable pub to_client : ℕ → ℕ → ClientIdMap → ℕ
to_client x viewer m = elim (Assoc.lookup x m.rev) [
  | none ↦ 0
  | some k ↦ if k.owner == viewer then k.client_id else 0
]

unfoldable pub owner_of : ℕ → ClientIdMap → ℕ
owner_of x m = elim (Assoc.lookup x m.rev) [ none ↦ 0 | some k ↦ k.owner ]

unfoldable pub retire : ℕ → ClientIdMap → ClientIdMap
retire x m = elim (Assoc.lookup x m.rev) [
  | none ↦ m
  | some k ↦ record m { fwd = erase_key k m.fwd; rev = Assoc.erase x m.rev }
]

unfoldable pub live : ClientIdMap → ℕ
live m = length m.rev
