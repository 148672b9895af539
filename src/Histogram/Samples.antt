-- ===== src/Histogram/Samples.antt =====
-- What the histogram of include/order_book/latency_hist.hpp knows of the samples added to it.
use orderbook_c.Base.{
  All, All-mono, Bool, List, [], arith, false, length, refl, subst, sym, true, ℕ, ◌%◌, ◌+◌, ◌<◌,
  ◌==◌, ◌||◌, ◌∷◌, ◌≡◌, ◌≤◌,
}
use orderbook_c.Histogram.{LatencyHistogram, add, max_of, min_of, new_histogram}
use orderbook_c.Types.{u64_mod}

-- The histogram of the samples, the last one added first.
unfoldable pub record_all : List ℕ → LatencyHistogram
record_all [] = new_histogram
record_all (x ∷ xs) = add (record_all xs) x

abbrev pub Small : ℕ → Type 0
Small x = x < u64_mod

pub total : List ℕ → ℕ
total [] = 0
total (x ∷ xs) = x + total xs

pub occurs : ℕ → List ℕ → Bool
occurs n [] = false
occurs n (x ∷ xs) = n == x || occurs n xs

pub record_all-count : (xs : List ℕ) → length xs < u64_mod → (record_all xs).count ≡ length xs
unfolding record_all add new_histogram
record_all-count [] h = refl
record_all-count (x ∷ xs) h = omega (arith, record_all-count xs (omega arith))

record_all-sum : (xs : List ℕ) → (record_all xs).sum ≡ total xs % u64_mod
unfolding record_all add new_histogram total
record_all-sum [] = refl
record_all-sum (x ∷ xs) = omega (arith, record_all-sum xs)

record_all-min :
    (x : ℕ) (xs : List ℕ)
    → All Small (x ∷ xs)
    → (occurs (record_all (x ∷ xs)).min_ns (x ∷ xs) ≡ true)
      × All (λ y. (record_all (x ∷ xs)).min_ns ≤ y) (x ∷ xs)
unfolding record_all add new_histogram occurs
record_all-min x [] s = ground arith
record_all-min x (y ∷ xs) (s, t) =
    let (i, l) = record_all-min y xs t in
    (
      ground (arith, i),
      (
        ground arith,
        All-mono (λ z. (record_all (y ∷ xs)).min_ns ≤ z) (λ z. (record_all (x ∷ y ∷ xs)).min_ns ≤ z)
            (y ∷ xs) (λ z le. ground (arith, le)) l,
      ),
    )

record_all-max :
    (x : ℕ) (xs : List ℕ)
    → (occurs (record_all (x ∷ xs)).max_ns (x ∷ xs) ≡ true)
      × All (λ y. y ≤ (record_all (x ∷ xs)).max_ns) (x ∷ xs)
unfolding record_all add new_histogram occurs
record_all-max x [] = ground arith
record_all-max x (y ∷ xs) =
    let (i, l) = record_all-max y xs in
    (
      ground (arith, i),
      (
        ground arith,
        All-mono (λ z. z ≤ (record_all (y ∷ xs)).max_ns) (λ z. z ≤ (record_all (x ∷ y ∷ xs)).max_ns)
            (y ∷ xs) (λ z le. ground (arith, le)) l,
      ),
    )

-- What the accumulators say of the samples.
pub record Exact (h : LatencyHistogram) (xs : List ℕ) : Type 0 where
  pub counted : h.count ≡ length xs
  pub summed : h.sum ≡ total xs % u64_mod
  pub has_min : occurs (min_of h) xs ≡ true
  pub least : All (λ y. min_of h ≤ y) xs
  pub has_max : occurs (max_of h) xs ≡ true
  pub greatest : All (λ y. y ≤ max_of h) xs

-- After any samples, at least one and fewer than 2^64 of them, the count is their number, the sum is
-- theirs modulo 2^64, and the minimum and the maximum are the least and the greatest of them.
pub record_all-Exact :
    (x : ℕ) (xs : List ℕ)
    → All Small (x ∷ xs)
    → length (x ∷ xs) < u64_mod
    → Exact (record_all (x ∷ xs)) (x ∷ xs)
unfolding min_of max_of
record_all-Exact x xs s h =
    let n = record_all-count (x ∷ xs) h in
    let low : min_of (record_all (x ∷ xs)) ≡ (record_all (x ∷ xs)).min_ns = ground (arith, n) in
    let high : max_of (record_all (x ∷ xs)) ≡ (record_all (x ∷ xs)).max_ns = ground (arith, n) in
    let (i, l) = record_all-min x xs s in
    let (j, g) = record_all-max x xs in
    record {
      counted = n;
      summed = record_all-sum (x ∷ xs);
      has_min = subst (λ m. occurs m (x ∷ xs) ≡ true) (sym low) i;
      least = subst (λ m. All (λ y. m ≤ y) (x ∷ xs)) (sym low) l;
      has_max = subst (λ m. occurs m (x ∷ xs) ≡ true) (sym high) j;
      greatest = subst (λ m. All (λ y. y ≤ m) (x ∷ xs)) (sym high) g;
    }
