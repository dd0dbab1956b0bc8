-- ===== src/Capture/Seeds.antt =====
-- include/exsim/md.hpp: a seed is where a replay may start.
use exchange_sim.Base.{
  ℕ, ◌+◌, ◌^◌, length-append, ◌<◌, ◌≤◌, ◌≡◌, refl, ap, Option, none, some, List, [], ◌∷◌, ◌++◌,
  drop, All, arith, ltb, subst, Bool-cases, inl, inr,
}
use native.Mathlib.Nat.{mod-eq_of_lt}
use exchange_sim.Capture.{Record, first_at, last_at, wanted, seed_diff, seed_loop, find_seed}

-- The diff that the loop finds straddles the wanted update, and the diffs that it passes end before it.
pub record IsSeed (recs : List Record) (want : ℕ) (ds : List ℕ) (d : ℕ) : Type 0 where
  pub passed : List ℕ
  pub later : List ℕ
  pub split : ds ≡ passed ++ d ∷ later
  pub ended : All (λ (e : ℕ). last_at recs e < want) passed
  pub first : first_at recs d ≤ want
  pub last : want ≤ last_at recs d

-- The tail and the head of a seed's diffs.
parts : (x y : ℕ) (xs ys : List ℕ) → x ∷ xs ≡ y ∷ ys → (x ≡ y) × (xs ≡ ys)
parts x y xs ys e = (cc, cc)

module _ (recs : List Record) (want : ℕ) where
  -- A seed behind a diff that ends before the wanted update.
  unshift :
      (x d : ℕ) (ds ps later : List ℕ)
      → last_at recs x < want
      → x ∷ ds ≡ ps ++ d ∷ later
      → All (λ (e : ℕ). last_at recs e < want) ps
      → first_at recs d ≤ want
      → want ≤ last_at recs d
      → IsSeed recs want ds d
  unshift x d ds [] later h e w a b =
      let q = (parts x d ds later e).0 in absurd (omega (arith, ap (last_at recs) q, h, b))
  unshift x d ds (p ∷ ps) later h e w a b = record {
    passed = ps;
    later = later;
    split = (parts x p ds (ps ++ d ∷ later) e).1;
    ended = w.1;
    first = a;
    last = b;
  }

  -- A seed where the first diff does not end before the wanted update is that diff.
  at_head :
      (x d : ℕ) (ds ps later : List ℕ)
      → want ≤ last_at recs x
      → x ∷ ds ≡ ps ++ d ∷ later
      → All (λ (e : ℕ). last_at recs e < want) ps
      → x ≡ d
  at_head x d ds [] later h e w = (parts x d ds later e).0
  at_head x d ds (p ∷ ps) later h e w =
      let q = (parts x p ds (ps ++ d ∷ later) e).0 in
      absurd (omega (arith, ap (last_at recs) q, h, w.0))

  -- What the inner loop finds is a seed; where it finds none, there is none.
  pub Finding : List ℕ → Option ℕ → Type 0
  Finding ds none = (d : ℕ) → IsSeed recs want ds d → ⊥
  Finding ds (some d) = IsSeed recs want ds d

  Finding-later :
      (x : ℕ) (ds : List ℕ) (o : Option ℕ)
      → last_at recs x < want
      → Finding ds o
      → Finding (x ∷ ds) o
  unfolding Finding
  Finding-later x ds none h f =
      λ d g. f d (unshift x d ds g.passed g.later h g.split g.ended g.first g.last)
  Finding-later x ds (some d) h f = record {
    passed = x ∷ f.passed;
    later = f.later;
    split = ap (λ (ys : List ℕ). x ∷ ys) f.split;
    ended = (h, f.ended);
    first = f.first;
    last = f.last;
  }

  seed_diff-Finding : (ds : List ℕ) → Finding ds (seed_diff recs want ds)
  unfolding seed_diff Finding
  seed_diff-Finding [] = λ d g. ground (arith, g.split, length-append g.passed (d ∷ g.later))
  seed_diff-Finding (x ∷ ds) = elim (Bool-cases (ltb (last_at recs x) want)) [
    | inl t ↦
        rw (t, seed_diff)
          (Finding-later x ds (seed_diff recs want ds) (ground (arith, t)) (seed_diff-Finding ds))
    | inr f ↦
        let l : want ≤ last_at recs x = ground (arith, f) in
        elim (Bool-cases (ltb want (first_at recs x))) [
          | inl t ↦
              rw (f, t, seed_diff)
                (λ d g.
                  let q = at_head x d ds g.passed g.later l g.split g.ended in
                  ground (arith, t, ap (first_at recs) q, g.first))
          | inr n ↦
              rw (f, n, seed_diff)
                (record {
                  passed = [];
                  later = ds;
                  split = refl;
                  ended = tt;
                  first = ground (arith, n);
                  last = l;
                })
        ]
  ]

-- The update behind the last one of a snapshot.
abbrev pub next_update : List Record → ℕ → ℕ
next_update recs s = last_at recs s + 1

-- No diff may come first after the snapshot.
abbrev pub HasNoSeed : List Record → List ℕ → ℕ → Type 0
HasNoSeed recs ds s = (d : ℕ) → IsSeed recs (next_update recs s) ds d → ⊥

-- The snapshot `s` and the diff `d` are a seed, and the snapshots before have none.
pub record IsFirstSeed (recs : List Record) (ds snaps : List ℕ) (s d : ℕ) : Type 0 where
  pub before : List ℕ
  pub after : List ℕ
  pub split : snaps ≡ before ++ s ∷ after
  pub seed : IsSeed recs (next_update recs s) ds d
  pub none_before : All (HasNoSeed recs ds) before

abbrev pub Result : List Record → List ℕ → List ℕ → Option (ℕ × ℕ) → Type 0
Result recs ds snaps none = All (HasNoSeed recs ds) snaps
Result recs ds snaps (some r) = IsFirstSeed recs ds snaps r.0 r.1

module _ (recs : List Record) (ds : List ℕ) where
  Result-later :
      (s : ℕ) (snaps : List ℕ) (o : Option (ℕ × ℕ))
      → HasNoSeed recs ds s
      → Result recs ds snaps o
      → Result recs ds (s ∷ snaps) o
  Result-later s snaps none h f = (h, f)
  Result-later s snaps (some r) h f = record {
    before = s ∷ f.before;
    after = f.after;
    split = ap (λ (ys : List ℕ). s ∷ ys) f.split;
    seed = f.seed;
    none_before = (h, f.none_before);
  }

  wanted_lem : (s : ℕ) → last_at recs s + 1 < 2 ^ 64 → wanted recs s ≡ next_update recs s
  unfolding wanted
  wanted_lem s h = mod-eq_of_lt h

  Result-of :
      (s : ℕ) (snaps : List ℕ) (o : Option ℕ)
      → Finding recs (next_update recs s) ds o
      → Result recs ds snaps (seed_loop recs ds snaps)
      → Result recs ds
          (s ∷ snaps)
          (elim o [ some d ↦ some (s, d) | none ↦ seed_loop recs ds snaps ])
  unfolding Finding
  Result-of s snaps none f g = Result-later s snaps (seed_loop recs ds snaps) f g
  Result-of s snaps (some d) f g = record {
    before = [];
    after = snaps;
    split = refl;
    seed = f;
    none_before = tt;
  }

  seed_loop-Result :
      (snaps : List ℕ)
      → All (λ (s : ℕ). last_at recs s + 1 < 2 ^ 64) snaps
      → Result recs ds snaps (seed_loop recs ds snaps)
  unfolding seed_loop
  seed_loop-Result [] h = tt
  seed_loop-Result (s ∷ snaps) h =
      Result-of s snaps (seed_diff recs (wanted recs s) ds)
        (subst (λ (w : ℕ). Finding recs w ds (seed_diff recs (wanted recs s) ds)) (wanted_lem s h.0)
          (seed_diff-Finding recs (wanted recs s) ds))
        (seed_loop-Result snaps h.1)

-- What `find_seed` returns is a seed, and no snapshot before it has one; where it returns none, no
-- snapshot has one. A seed of a snapshot is a diff, from the position on, that has the update behind
-- the last one of the snapshot, where all diffs before it end before that update. The ids of the last
-- updates of the snapshots are below 2^64 - 1.
pub find_seed-Result :
    (recs : List Record) (diffs snaps : List ℕ) (from_diff_pos : ℕ)
    → All (λ (s : ℕ). last_at recs s + 1 < 2 ^ 64) snaps
    → Result recs (drop from_diff_pos diffs) snaps (find_seed recs diffs snaps from_diff_pos)
unfolding find_seed
find_seed-Result recs diffs snaps from_diff_pos h =
    seed_loop-Result recs (drop from_diff_pos diffs) snaps h
