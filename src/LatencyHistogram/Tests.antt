-- ===== src/LatencyHistogram/Tests.antt =====
-- include/exsim/latency_histogram.hpp: a few values.
use exchange_sim.Base.{◌≡◌, refl, ◌<◌, ◌≤◌, ◌-◌, ◌*◌, arith}
use exchange_sim.LatencyHistogram.Buckets.{upper_bound-index}
use exchange_sim.LatencyHistogram.{
  buckets, highest_bit, index, upper_bound, new, add, bump, record_value, bucket_of_rank, at_rank,
}

places : (index 31 ≡ 31) × ((index 1000 ≡ 190) × (upper_bound 190 ≡ 1007))
unfolding index highest_bit upper_bound
places = (refl, (refl, refl))

-- The second of three values, by its bucket.
middle : at_rank 2 (record_value 1000 (record_value 5 (record_value 7 new))) ≡ 7
unfolding at_rank record_value new add bump bucket_of_rank index highest_bit upper_bound
middle = refl

upper_bound-index_example :
    (index 1000 < buckets)
    × ((1000 ≤ upper_bound (index 1000)) × ((upper_bound (index 1000) - 1000) * 32 ≤ 1000))
upper_bound-index_example = upper_bound-index 1000 (omega arith)
