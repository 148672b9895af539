-- ===== src/Histogram/Tests.antt =====
-- The histogram on three samples.
use orderbook_c.Base.{All, List, [], arith, refl, suc, ℕ, ◌/◌, ◌<◌, ◌^◌, ◌∷◌, ◌≡◌, ◌≤◌}
use orderbook_c.Histogram.{
  add, between, bucket_of, find_rank, leading_zeros, lower_edge, mean_ns, new_histogram,
  percentile_ns,
}
use orderbook_c.Histogram.Buckets.{bucket_of-edges}
use orderbook_c.Histogram.Percentile.{HoldsRank, percentile_ns-HoldsRank}
use orderbook_c.Histogram.Samples.{Exact, Small, record_all, record_all-Exact}

-- The samples 100, 7 and 1000, the last one added first.
abbrev others : List ℕ
others = 7 ∷ 100 ∷ []

-- The median: `0.5 * count + 0.5`, truncated.
abbrev median : ℕ → ℕ
median n = suc n / 2

-- The bucket of 100 begins at 64.
median_of_three : percentile_ns (record_all (1000 ∷ others)) (between median) ≡ 64
unfolding percentile_ns record_all add new_histogram find_rank bucket_of leading_zeros
median_of_three = refl

Small-samples : All Small (1000 ∷ others)
Small-samples = (ground arith, (ground arith, (ground arith, tt)))

record_all-Exact_example : Exact (record_all (1000 ∷ others)) (1000 ∷ others)
record_all-Exact_example = record_all-Exact 1000 others Small-samples (ground arith)

percentile_ns-HoldsRank_example :
    HoldsRank 2 (percentile_ns (record_all (1000 ∷ others)) (between median)) (1000 ∷ others)
percentile_ns-HoldsRank_example =
    percentile_ns-HoldsRank 1000 others median Small-samples (ground arith)

bucket_of-edges_example :
    (bucket_of 100 < 64) × (lower_edge (bucket_of 100) ≤ 100) × (100 < 2 ^ suc (bucket_of 100))
bucket_of-edges_example = bucket_of-edges 100 (ground arith)

mean_ns_test : mean_ns 0 (λ n. n) (λ a b. a / b) (add (add new_histogram 3) 5) ≡ 4
unfolding mean_ns add new_histogram
mean_ns_test = refl
