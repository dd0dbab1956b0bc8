-- ===== src/Base/Assoc.antt =====
-- A hash map with number keys (`std::unordered_map`), as a list of pairs.
use exchange_sim.Base.{
  ℕ, ◌+◌, ◌≤◌, ◌<◌, ◌≡◌, refl, List, [], ◌∷◌, Option, none, some, arith, ◌==◌, if◌then◌else◌,
  length, ◌≢◌,
}

-- 1 at the key itself, 0 elsewhere.
abbrev pub hit : ℕ → ℕ → ℕ
hit k j = if j == k then 1 else 0

module _ {ℓ} {V : Type ℓ} where
  unfoldable pub lookup : ℕ → List (ℕ × V) → Option V
  lookup k [] = none
  lookup k ((j, v) ∷ m) = if j == k then some v else lookup k m

  -- `erase`: the first entry of the key goes.
  unfoldable pub erase : ℕ → List (ℕ × V) → List (ℕ × V)
  erase k [] = []
  erase k ((j, v) ∷ m) = if j == k then m else (j, v) ∷ erase k m

  -- How many entries a key has: at most one in a map.
  unfoldable pub count : ℕ → List (ℕ × V) → ℕ
  count k [] = 0
  count k ((j, v) ∷ m) = hit k j + count k m

  pub lookup_none : (k : ℕ) (m : List (ℕ × V)) → lookup k m ≡ none → count k m ≡ 0
  unfolding lookup count
  lookup_none k [] h = refl
  lookup_none k ((j, v) ∷ m) h = ground (arith, lookup_none k m)

  pub count_none : (k : ℕ) (m : List (ℕ × V)) → count k m ≡ 0 → lookup k m ≡ none
  unfolding lookup count
  count_none k [] h = refl
  count_none k ((j, v) ∷ m) h = ground (arith, count_none k m)

  pub count-erase :
      (k j : ℕ) (m : List (ℕ × V)) → 0 < count k m → count j (erase k m) + hit j k ≡ count j m
  unfolding erase count
  count-erase k j [] h = absurd (omega arith)
  count-erase k j ((i, v) ∷ m) h = ground (arith, count-erase k j m)

  pub length-erase : (k : ℕ) (m : List (ℕ × V)) → 0 < count k m → length (erase k m) + 1 ≡ length m
  unfolding erase count
  length-erase k [] h = absurd (omega arith)
  length-erase k ((i, v) ∷ m) h = ground (arith, length-erase k m)

  pub lookup-erase_ne : (k j : ℕ) (m : List (ℕ × V)) → j ≢ k → lookup j (erase k m) ≡ lookup j m
  unfolding erase lookup
  lookup-erase_ne k j [] h = refl
  lookup-erase_ne k j ((i, v) ∷ m) h = ground (arith, lookup-erase_ne k j m)

  pub lookup-erase_self : (k : ℕ) (m : List (ℕ × V)) → count k m ≤ 1 → lookup k (erase k m) ≡ none
  unfolding erase lookup count
  lookup-erase_self k [] h = refl
  lookup-erase_self k ((i, v) ∷ m) h = ground (arith, lookup-erase_self k m, count_none k m)

  pub lookup-some : (k : ℕ) (v : V) (m : List (ℕ × V)) → lookup k m ≡ some v → 0 < count k m
  unfolding lookup count
  lookup-some k v [] h = cc
  lookup-some k v ((i, w) ∷ m) h = ground (arith, lookup-some k v m)
