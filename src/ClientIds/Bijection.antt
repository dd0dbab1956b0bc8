-- ===== src/ClientIds/Bijection.antt =====
-- include/exsim/client_ids.hpp: the two maps as inverses of one another, and what a viewer is shown.
use exchange_sim.Base.{
  ℕ, ◌+◌, ◌%◌, ◌^◌, ◌≤◌, ◌<◌, ◌≡◌, refl, ◌≢◌, ◌↔◌, sym, ◌∙◌, ap, true, false, ◌==◌, none, some, [],
  ◌∷◌, arith, Bool-cases, Option-cases, inl, inr,
}
use exchange_sim.Base.Assoc.{
  lookup, erase, count, lookup-erase_ne, lookup-erase_self, lookup-some, lookup_none, count-erase,
}
use exchange_sim.ClientIds.{
  Key, same_key, Forward, find_key, erase_key, ClientIdMap, new, for_new, find, to_client, retire,
}

same_key→eq : (a b : Key) → same_key a b ≡ true → a ≡ b
same_key→eq a b h = ground arith

same_key_refl : (a : Key) → same_key a a ≡ true
same_key_refl a = ground arith

not_same : (k j : Key) → j ≢ k → same_key k j ≡ false
not_same k j n = elim (Bool-cases (same_key k j)) [
  | inl h ↦ absurd (n (sym (same_key→eq k j h)))
  | inr h ↦ h
]

-- Each map is the inverse of the other, an exchange id stands once, and every id in use is positive
-- and below the next one.
pub record IsValid (m : ClientIdMap) : Type 0 where
  pub forth : (k : Key) (x : ℕ) → find_key k m.fwd ≡ some x → lookup x m.rev ≡ some k
  pub back : (x : ℕ) (k : Key) → lookup x m.rev ≡ some k → find_key k m.fwd ≡ some x
  pub below :
      (x : ℕ) (k : Key) → lookup x m.rev ≡ some k → (0 < x) × (x < m.next) × (k.client_id ≢ 0)
  pub once : (x : ℕ) → count x m.rev ≤ 1
  pub named : 0 < m.next

find_key-erase_key_ne :
    (k j : Key) (f : Forward) → same_key k j ≡ false → find_key j (erase_key k f) ≡ find_key j f
unfolding find_key erase_key
find_key-erase_key_ne k j [] h = refl
find_key-erase_key_ne k j ((i, x) ∷ f) h = ground (arith, find_key-erase_key_ne k j f h)

find_key-erase_key_self : (k : Key) (f : Forward) → find_key k (erase_key k f) ≡ none
unfolding find_key erase_key
find_key-erase_key_self k [] = refl
find_key-erase_key_self k ((i, x) ∷ f) = ground (arith, find_key-erase_key_self k f)

-- A new map is valid.
pub new-IsValid : (first : ℕ) → 0 < first → IsValid (new first)
unfolding new find_key lookup count
new-IsValid first h = record {
  forth = λ k x e. cc;
  back = λ x k e. cc;
  below = λ x k e. cc;
  once = λ x. omega arith;
  named = h;
}

-- A valid map has no entry of the next id.
fresh : (m : ClientIdMap) → IsValid m → lookup m.next m.rev ≡ none
fresh m v = elim (Option-cases (lookup m.next m.rev)) [
  | inl h ↦ h
  | inr (k, h) ↦ let b = v.below m.next k h in absurd (omega arith)
]

insert-IsValid :
    (k : Key) (m : ClientIdMap)
    → IsValid m
    → m.next + 1 < 2 ^ 64
    → k.client_id ≢ 0
    → find_key k m.fwd ≡ none
    → IsValid (record {
      fwd = (k, m.next) ∷ m.fwd;
      rev = (m.next, k) ∷ m.rev;
      next = (m.next + 1) % 2 ^ 64;
    })
unfolding find_key lookup count
insert-IsValid k m v w n h = record {
  forth = λ j x e.
      ground (arith, v.forth j x, fresh m v, v.below x j, same_key→eq k j, same_key_refl k);
  back =
      λ x j e. ground (arith, v.back x j, fresh m v, v.below x j, same_key→eq k j, same_key_refl k);
  below = λ x j e. ground (arith, v.below x j, v.named, n);
  once = λ x. ground (arith, v.once x, fresh m v, lookup_none x m.rev);
  named = omega arith;
}

-- An id for a new order, fresh or not, leaves a valid map valid, so its two maps stay inverse to
-- one another: the counter of exchange ids is not about to wrap.
pub for_new-IsValid :
    (k : Key) (m : ClientIdMap) → IsValid m → m.next + 1 < 2 ^ 64 → IsValid (for_new k m).1
unfolding for_new
for_new-IsValid k m v w = elim (Bool-cases (k.client_id == 0)) [
  | inl z ↦ rw (z, for_new) v
  | inr n ↦ elim (Option-cases (find_key k m.fwd)) [
    | inl e ↦ rw (n, e, for_new) (insert-IsValid k m v w (ground arith) e)
    | inr (x, e) ↦ rw (n, e, for_new) v
  ]
]

kept_lookup :
    (x : ℕ) (k : Key) (y : ℕ) (j : Key) (m : ClientIdMap)
    → IsValid m
    → lookup x m.rev ≡ some k
    → lookup y (erase x m.rev) ≡ some j
    → lookup y m.rev ≡ some j
kept_lookup x k y j m v h e = elim (Bool-cases (y == x)) [
  | inl q ↦
      let p : lookup x (erase x m.rev) ≡ none = lookup-erase_self x m.rev (v.once x) in
      ground (arith, p, e)
  | inr q ↦ sym (lookup-erase_ne x y m.rev (ground arith)) ∙ e
]

kept_id :
    (x : ℕ) (k : Key) (y : ℕ) (j : Key) (m : ClientIdMap)
    → IsValid m
    → lookup x m.rev ≡ some k
    → lookup y (erase x m.rev) ≡ some j
    → find_key j (erase_key k m.fwd) ≡ some y
kept_id x k y j m v h e = elim (Bool-cases (same_key k j)) [
  | inl q ↦
      let p : lookup y m.rev ≡ some j = kept_lookup x k y j m v h e in
      let l : k ≡ j = same_key→eq k j q in
      let a : find_key j m.fwd ≡ some x = v.back x j (h ∙ ap some l) in
      ground (arith, a, v.back y j p, lookup-erase_self x m.rev (v.once x), e)
  | inr q ↦ find_key-erase_key_ne k j m.fwd q ∙ v.back y j (kept_lookup x k y j m v h e)
]

kept_key :
    (x : ℕ) (k j : Key) (y : ℕ) (m : ClientIdMap)
    → IsValid m
    → lookup x m.rev ≡ some k
    → find_key j (erase_key k m.fwd) ≡ some y
    → lookup y (erase x m.rev) ≡ some j
kept_key x k j y m v h e = elim (Bool-cases (same_key k j)) [
  | inl q ↦
      let l : k ≡ j = same_key→eq k j q in ground (arith, find_key-erase_key_self k m.fwd, e, l)
  | inr q ↦
      let p : lookup y m.rev ≡ some j = v.forth j y (sym (find_key-erase_key_ne k j m.fwd q) ∙ e) in
      lookup-erase_ne x y m.rev (λ i. ground (arith, p, h, i, same_key_refl k, q)) ∙ p
]

drop-IsValid :
    (x : ℕ) (k : Key) (m : ClientIdMap)
    → IsValid m
    → lookup x m.rev ≡ some k
    → IsValid (record m { fwd = erase_key k m.fwd; rev = erase x m.rev })
drop-IsValid x k m v h = record {
  forth = λ j y e. ground (arith, kept_key x k j y m v h e);
  back = λ y j e. ground (arith, kept_id x k y j m v h e);
  below = λ y j e. v.below y j (kept_lookup x k y j m v h e);
  once = λ y. ground (arith, v.once y, count-erase x y m.rev, lookup-some x k m.rev h);
  named = v.named;
}

-- Retiring an exchange id, live or not, leaves a valid map valid, so its two maps stay inverse to
-- one another.
pub retire-IsValid : (x : ℕ) (m : ClientIdMap) → IsValid m → IsValid (retire x m)
unfolding retire
retire-IsValid x m v = elim (Option-cases (lookup x m.rev)) [
  | inl h ↦ rw (h, retire) v
  | inr (k, h) ↦ rw (h, retire) (drop-IsValid x k m v h)
]

-- In a valid map whose counter is not about to wrap, the exchange id that a new order with a
-- client id other than 0 gets is positive; `find` gives it back from the key, and the order's own
-- owner is shown the client id again.
pub find-for_new :
    (k : Key) (m : ClientIdMap)
    → IsValid m
    → m.next + 1 < 2 ^ 64
    → k.client_id ≢ 0
    → (0 < (for_new k m).0)
      × (find k (for_new k m).1 ≡ (for_new k m).0)
      × (to_client (for_new k m).0 k.owner (for_new k m).1 ≡ k.client_id)
unfolding for_new find to_client find_key lookup
find-for_new k m v w n = elim (Option-cases (find_key k m.fwd)) [
  | inl e ↦ ground (arith, e, v.named, same_key_refl k)
  | inr (x, e) ↦
      let h : lookup x m.rev ≡ some k = v.forth k x e in ground (arith, e, h, v.below x k h)
]

found : (k : Key) (x : ℕ) (m : ClientIdMap) → find_key k m.fwd ≡ some x → find k m ≡ x
unfolding find
found k x m e = rw (e, find) refl

found_by :
    (k : Key) (x : ℕ) (m : ClientIdMap) {viewer c : ℕ}
    → find_key k m.fwd ≡ some x
    → (k.owner ≡ viewer) × (k.client_id ≡ c)
    → find (record { client_id = c; symbol = k.symbol; owner = viewer }) m ≡ x
found_by k x m e (p, q) = rw (← p, ← q) (found k x m e)

retire_lem :
    (x : ℕ) (k : Key) (m : ClientIdMap)
    → lookup x m.rev ≡ some k
    → retire x m ≡ record m { fwd = erase_key k m.fwd; rev = erase x m.rev }
unfolding retire
retire_lem x k m h = rw (h, retire) refl

-- In a valid map, a viewer is shown a client id other than 0 for an exchange id exactly when it
-- has a live order of that client id on some symbol and the exchange id is that order's: ids of
-- other owners' orders never show.
pub to_client_iff :
    (m : ClientIdMap) (x viewer c : ℕ)
    → IsValid m
    → c ≢ 0
    → (to_client x viewer m ≡ c)
      ↔ ((s : ℕ) × (find (record { client_id = c; symbol = s; owner = viewer }) m ≡ x) × (0 < x))
unfolding find to_client
to_client_iff m x viewer c v n = (shown, own)
  where
    shown :
        to_client x viewer m ≡ c
        → (s : ℕ) × (find (record { client_id = c; symbol = s; owner = viewer }) m ≡ x) × (0 < x)
    shown e = elim (Option-cases (lookup x m.rev)) [
      | inl h ↦ absurd (n (ground (arith, e, h)))
      | inr (k, h) ↦
          let o : (k.owner ≡ viewer) × (k.client_id ≡ c) = ground (arith, e, h, n) in
          (k.symbol, found_by k x m (v.back x k h) o, (v.below x k h).0)
    ]

    own :
        (s : ℕ) × (find (record { client_id = c; symbol = s; owner = viewer }) m ≡ x) × (0 < x)
        → to_client x viewer m ≡ c
    own (s, e, p) =
        let k : Key = record { client_id = c; symbol = s; owner = viewer } in
        let h : find_key k m.fwd ≡ some x = ground (arith, e, p) in ground (arith, v.forth k x h)

-- In a valid map, once a live order is retired its key has no exchange id, and a different key has
-- the one it had.
pub find-retire :
    (k j : Key) (m : ClientIdMap)
    → IsValid m
    → find k m ≢ 0
    → j ≢ k
    → (find k (retire (find k m) m) ≡ 0) × (find j (retire (find k m) m) ≡ find j m)
unfolding find
find-retire k j m v n u = elim (Option-cases (find_key k m.fwd)) [
  | inl e ↦ absurd (n (rw (e, find) refl))
  | inr (x, e) ↦
      let h : lookup x m.rev ≡ some k = v.forth k x e in
      rw (found k x m e, retire_lem x k m h)
        (
          ground (arith, find_key-erase_key_self k m.fwd),
          ground (arith, find_key-erase_key_ne k j m.fwd (not_same k j u)),
        )
]
