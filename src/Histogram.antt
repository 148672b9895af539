-- ===== src/Histogram.antt =====
-- include/order_book/latency_hist.hpp: `LatencyHistogram`, with buckets by powers of two. Doubles are
-- a parameter of `mean_ns`, and a portion `p` of `percentile_ns` is what its two tests and
-- the rounded product with the count say of it.
pub mod Buckets
pub mod Samples
pub mod Percentile
pub mod Tests
use orderbook_c.Base.{
  List, Option, [], if◌then◌else◌, leb, ltb, modify_at, none, some, suc, zero, ℕ, ◌%◌, ◌-◌, ◌==◌,
  ◌^◌, ◌∷◌,
}
use orderbook_c.Types.{add64, u64_mod}

-- `__builtin_clzll` on the low `n` bits: how many of them stand above the highest bit that is set.
unfoldable pub leading_zeros : ℕ → ℕ → ℕ
leading_zeros zero x = 0
leading_zeros (suc n) x = let more = leading_zeros n x in if ltb x (2 ^ n) then suc more else 0

-- `ns | 1`.
abbrev pub or_one : ℕ → ℕ
or_one ns = if ns % 2 == 0 then suc ns else ns

unfoldable pub bucket_of : ℕ → ℕ
bucket_of ns = 63 - leading_zeros 64 (or_one ns)

pub record LatencyHistogram : Type 0 where
  pub buckets : List ℕ
  pub count : ℕ
  pub sum : ℕ
  pub min_ns : ℕ
  pub max_ns : ℕ

abbrev pub zeros : ℕ → List ℕ
zeros zero = []
zeros (suc n) = 0 ∷ zeros n

unfoldable pub new_histogram : LatencyHistogram
new_histogram = record { buckets = zeros 64; count = 0; sum = 0; min_ns = u64_mod - 1; max_ns = 0 }

abbrev pub increment : ℕ → ℕ
increment n = add64 n 1

unfoldable pub add : LatencyHistogram → ℕ → LatencyHistogram
add h ns = record {
  buckets = modify_at h.buckets (bucket_of ns) increment;
  count = increment h.count;
  sum = add64 h.sum ns;
  min_ns = if ltb ns h.min_ns then ns else h.min_ns;
  max_ns = if ltb h.max_ns ns then ns else h.max_ns;
}

unfoldable pub min_of : LatencyHistogram → ℕ
min_of h = if h.count == 0 then 0 else h.min_ns

unfoldable pub max_of : LatencyHistogram → ℕ
max_of h = if h.count == 0 then 0 else h.max_ns

-- With 0.0, the conversion of an integer to a double, and the quotient of two doubles as arguments.
unfoldable pub mean_ns : {D : Type 0} → D → (ℕ → D) → (D → D → D) → LatencyHistogram → D
mean_ns zero_d cast over h = if h.count == 0 then zero_d else over (cast h.sum) (cast h.count)

abbrev pub lower_edge : ℕ → ℕ
lower_edge b = if b == 0 then 0 else 2 ^ b

-- The loop of `percentile_ns` from bucket `b` on: `none` when the buckets run out.
unfoldable pub find_rank : ℕ → ℕ → ℕ → List ℕ → Option ℕ
find_rank b running rank [] = none
find_rank b running rank (c ∷ cs) =
    let running' = add64 running c in
    let later = find_rank (suc b) running' rank cs in
    if leb rank running' then some (lower_edge b) else later

abbrev pub clamp_rank : ℕ → ℕ → ℕ
clamp_rank target count = if target == 0 then 1 else (if ltb count target then count else target)

-- A portion as `percentile_ns` reads it: at most 0, at least 1, or between with
-- `p * count + 0.5` as a function of the count.
pub data Portion : Type 0 where
  at_most_zero at_least_one : Portion
  between : (ℕ → ℕ) → Portion

abbrev pub value_or : Option ℕ → ℕ → ℕ
value_or none d = d
value_or (some v) d = v

abbrev pub percentile_of : LatencyHistogram → Portion → ℕ
percentile_of h at_most_zero = h.min_ns
percentile_of h at_least_one = h.max_ns
percentile_of h (between target) =
    value_or (find_rank 0 0 (clamp_rank (target h.count) h.count) h.buckets) h.max_ns

unfoldable pub percentile_ns : LatencyHistogram → Portion → ℕ
percentile_ns h p = if h.count == 0 then 0 else percentile_of h p
