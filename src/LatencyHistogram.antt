-- ===== src/LatencyHistogram.antt =====
-- include/exsim/latency_histogram.hpp: the buckets of the histogram and what is recorded in them.
pub mod Buckets
pub mod Tests
use exchange_sim.Base.{
  ℕ, suc, zero, ◌+◌, ◌-◌, ◌*◌, ◌/◌, ◌%◌, ◌^◌, min, max, ltb, leb, ◌==◌, if◌then◌else◌, Bool, true,
  false, List, [], ◌∷◌, get_or, set, replicate,
}

abbrev pub sub_bits : ℕ
sub_bits = 5

abbrev pub sub : ℕ
sub = 32

abbrev pub buckets : ℕ
buckets = (64 - sub_bits + 1) * sub

-- `63 - std::countl_zero(v)`: the position of the highest bit of a number that is not 0, by halving;
-- 64 halvings are enough for 64 bits.
unfoldable pub highest_bit : ℕ → ℕ → ℕ
highest_bit zero v = 0
highest_bit (suc n) v = elim (ltb v 2) [ true ↦ 0 | false ↦ suc (highest_bit n (v / 2)) ]

unfoldable pub index : ℕ → ℕ
index v =
    let shift = highest_bit 64 v - sub_bits in
    if ltb v sub then v else (shift + 1) * sub + v / 2 ^ shift - sub

unfoldable pub upper_bound : ℕ → ℕ
upper_bound i = if ltb i sub then i else ((i % sub + sub + 1) * 2 ^ (i / sub - 1)) - 1

pub record LatencyHistogram : Type 0 where
  pub counts : List ℕ
  pub count : ℕ
  pub sum : ℕ
  pub least : ℕ
  pub most : ℕ

unfoldable pub new : LatencyHistogram
new = record { counts = replicate buckets 0; count = 0; sum = 0; least = 2 ^ 64 - 1; most = 0 }

unfoldable pub add : ℕ → ℕ → ℕ
add a b = (a + b) % 2 ^ 64

unfoldable pub bump : ℕ → List ℕ → List ℕ
bump i counts = set counts i (add (get_or counts i 0) 1)

unfoldable pub record_value : ℕ → LatencyHistogram → LatencyHistogram
record_value v h = record {
  counts = bump (index v) h.counts;
  count = add h.count 1;
  sum = add h.sum v;
  least = min h.least v;
  most = max h.most v;
}

-- The loop of `percentile`, over the buckets from `i` on.
unfoldable pub bucket_of_rank : ℕ → ℕ → ℕ → ℕ → List ℕ → ℕ
bucket_of_rank rank most i cum [] = most
bucket_of_rank rank most i cum (c ∷ cs) =
    let cum' = add cum c in
    elim (leb rank cum') [
      | true ↦ min (upper_bound i) most
      | false ↦ bucket_of_rank rank most (i + 1) cum' cs
    ]

-- `percentile`, with the rank that its floating-point arithmetic gives.
unfoldable pub at_rank : ℕ → LatencyHistogram → ℕ
at_rank rank h = if h.count == 0 then 0 else bucket_of_rank (max 1 rank) h.most 0 0 h.counts

unfoldable pub merge_counts : List ℕ → List ℕ → List ℕ
merge_counts [] os = []
merge_counts (c ∷ cs) [] = c ∷ cs
merge_counts (c ∷ cs) (o ∷ os) = add c o ∷ merge_counts cs os

unfoldable pub merge : LatencyHistogram → LatencyHistogram → LatencyHistogram
merge o h = record {
  counts = merge_counts h.counts o.counts;
  count = add h.count o.count;
  sum = add h.sum o.sum;
  least = min h.least o.least;
  most = max h.most o.most;
}

unfoldable pub reset : LatencyHistogram → LatencyHistogram
reset h = new

unfoldable pub minimum : LatencyHistogram → ℕ
minimum h = if h.count == 0 then 0 else h.least
