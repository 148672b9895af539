-- ===== src/Histogram/Percentile.antt =====
-- The percentiles of include/order_book/latency_hist.hpp.
use orderbook_c.Base.{
  All, Bool-cases, List, [], arith, false, if◌then◌else◌, inl, inr, leb, length, ltb, modify_at,
  refl, some, subst, suc, zero, ℕ, ◌+◌, ◌<◌, ◌==◌, ◌^◌, ◌∷◌, ◌≡◌, ◌≤◌,
}
use orderbook_c.Histogram.{
  add, between, bucket_of, clamp_rank, find_rank, increment, lower_edge, new_histogram,
  percentile_ns, zeros,
}
use orderbook_c.Histogram.Buckets.{bucket_of-below}
use orderbook_c.Histogram.Samples.{Small, record_all, record_all-count}
use orderbook_c.Types.{add64, u64_mod}

count_in : ℕ → List ℕ → ℕ
count_in b [] = 0
count_in b (x ∷ xs) = (if bucket_of x == b then 1 else 0) + count_in b xs

pub count_below : ℕ → List ℕ → ℕ
count_below e [] = 0
count_below e (x ∷ xs) = (if ltb x e then 1 else 0) + count_below e xs

-- The buckets from `b` to the last hold the counts of the samples.
abbrev HasCounts : ℕ → List ℕ → List ℕ → Type 0
HasCounts b [] xs = b ≡ 64
HasCounts b (c ∷ cs) xs = (c ≡ count_in b xs) × HasCounts (suc b) cs xs

count_in-length : (b : ℕ) (xs : List ℕ) → count_in b xs ≤ length xs
unfolding count_in
count_in-length b [] = omega arith
count_in-length b (x ∷ xs) = ground (arith, count_in-length b xs)

-- A bucket that a new sample is not in keeps its count.
HasCounts-later :
    (b x : ℕ) (cs xs : List ℕ) → bucket_of x < b → HasCounts b cs xs → HasCounts b cs (x ∷ xs)
unfolding count_in
HasCounts-later b x [] xs h v = v
HasCounts-later b x (c ∷ cs) xs h (e, v) =
    (ground arith, HasCounts-later (suc b) x cs xs (omega (arith, h)) v)

HasCounts-increment :
    (b i x : ℕ) (cs xs : List ℕ)
    → bucket_of x ≡ b + i
    → suc (length xs) < u64_mod
    → HasCounts b cs xs
    → HasCounts b (modify_at cs i increment) (x ∷ xs)
unfolding count_in
HasCounts-increment b i x [] xs q h v = v
HasCounts-increment b zero x (c ∷ cs) xs q h (e, v) =
    (ground (arith, count_in-length b xs), HasCounts-later (suc b) x cs xs (omega (arith, q)) v)
HasCounts-increment b (suc i) x (c ∷ cs) xs q h (e, v) =
    (ground arith, HasCounts-increment (suc b) i x cs xs (omega (arith, q)) h v)

zeros-HasCounts : (b n : ℕ) → b + n ≡ 64 → HasCounts b (zeros n) []
unfolding count_in
zeros-HasCounts b zero h = omega (arith, h)
zeros-HasCounts b (suc n) h = (refl, zeros-HasCounts (suc b) n (omega (arith, h)))

record_all-HasCounts : (xs : List ℕ) → length xs < u64_mod → HasCounts 0 (record_all xs).buckets xs
unfolding record_all add new_histogram
record_all-HasCounts [] h = zeros-HasCounts 0 64 refl
record_all-HasCounts (x ∷ xs) h =
    HasCounts-increment 0 (bucket_of x) x (record_all xs).buckets xs (omega arith) h
      (record_all-HasCounts xs (omega arith))

-- The samples below the upper edge of a bucket are those below its lower edge and its own.
count_below-suc :
    (b : ℕ) (xs : List ℕ)
    → All Small xs
    → count_below (2 ^ suc b) xs ≡ count_below (lower_edge b) xs + count_in b xs
unfolding count_below count_in
count_below-suc b [] s = refl
count_below-suc zero (x ∷ xs) (s, t) =
    ground (arith, count_below-suc zero xs t, bucket_of-below x 0 s)
count_below-suc (suc b) (x ∷ xs) (s, t) =
    ground (arith, count_below-suc (suc b) xs t, bucket_of-below x (suc b) s, bucket_of-below x b s)

count_below-length : (e : ℕ) (xs : List ℕ) → count_below e xs ≤ length xs
unfolding count_below
count_below-length e [] = omega arith
count_below-length e (x ∷ xs) = ground (arith, count_below-length e xs)

count_below-zero : (xs : List ℕ) → count_below 0 xs ≡ 0
unfolding count_below
count_below-zero [] = refl
count_below-zero (x ∷ xs) = ground (arith, count_below-zero xs)

count_below-all : (xs : List ℕ) → All Small xs → count_below u64_mod xs ≡ length xs
unfolding count_below
count_below-all [] s = refl
count_below-all (x ∷ xs) (s, t) = ground (arith, count_below-all xs t)

-- The bucket that holds the sample of a rank: fewer samples are below its lower edge, and at least
-- as many as the rank are below its upper edge.
pub record HoldsRank (rank edge : ℕ) (xs : List ℕ) : Type 0 where
  pub bucket : ℕ
  pub is_edge : edge ≡ lower_edge bucket
  pub fewer_below : count_below edge xs < rank
  pub enough_below : rank ≤ count_below (2 ^ suc bucket) xs

find_rank-HoldsRank :
    (b rank : ℕ) (cs xs : List ℕ)
    → All Small xs
    → length xs < u64_mod
    → HasCounts b cs xs
    → count_below (lower_edge b) xs < rank
    → rank ≤ length xs
    → (e : ℕ) × (find_rank b (count_below (lower_edge b) xs) rank cs ≡ some e) × HoldsRank rank e xs
unfolding find_rank
find_rank-HoldsRank b rank [] xs s h v fewer r =
    let all_below : count_below (lower_edge 64) xs < rank =
      subst (λ k. count_below (lower_edge k) xs < rank) v fewer in
    absurd (ground (arith, all_below, count_below-all xs s))
find_rank-HoldsRank b rank (c ∷ cs) xs s h (e, v) fewer r =
    let next : add64 (count_below (lower_edge b) xs) c ≡ count_below (2 ^ suc b) xs =
      ground (arith, count_below-suc b xs s, count_below-length (2 ^ suc b) xs) in
    elim (Bool-cases (leb rank (count_below (2 ^ suc b) xs))) [
      | inl here ↦ (
        lower_edge b,
        rw (next, here) refl,
        record { bucket = b; is_edge = refl; fewer_below = fewer; enough_below = ground arith },
      )
      | inr later ↦
          let edge : lower_edge (suc b) ≡ 2 ^ suc b = ground arith in
          let (k, q, r') =
            find_rank-HoldsRank (suc b) rank cs xs s h v (rw edge (ground arith)) r in
          (
            k,
            rw (next, later)
                (subst (λ m. find_rank (suc b) (count_below m xs) rank cs ≡ some k) edge q),
            r',
          )
    ]

-- With at least one and fewer than 2^64 samples, a percentile between 0 and 1 is the lower edge of
-- the bucket that holds the sample of the rank that the code computes, whatever its rounding.
pub percentile_ns-HoldsRank :
    (x : ℕ) (xs : List ℕ) (target : ℕ → ℕ)
    → All Small (x ∷ xs)
    → length (x ∷ xs) < u64_mod
    → HoldsRank
        (clamp_rank (target (length (x ∷ xs))) (length (x ∷ xs)))
        (percentile_ns (record_all (x ∷ xs)) (between target))
        (x ∷ xs)
unfolding percentile_ns
percentile_ns-HoldsRank x xs target s h =
    let n = length (x ∷ xs) in
    let counted : (record_all (x ∷ xs)).count ≡ n = record_all-count (x ∷ xs) h in
    let start : count_below (lower_edge 0) (x ∷ xs) ≡ 0 = count_below-zero (x ∷ xs) in
    let (e, q, holds) =
      find_rank-HoldsRank 0 (clamp_rank (target n) n) (record_all (x ∷ xs)).buckets (x ∷ xs) s h
        (record_all-HasCounts (x ∷ xs) h) (ground (arith, start)) (ground arith) in
    let some_samples : (n == 0) ≡ false = ground arith in
    let found : find_rank 0 0 (clamp_rank (target n) n) (record_all (x ∷ xs)).buckets ≡ some e =
      subst (λ k. find_rank 0 k (clamp_rank (target n) n) (record_all (x ∷ xs)).buckets ≡ some e)
        start q in
    rw (counted, some_samples, found) holds
