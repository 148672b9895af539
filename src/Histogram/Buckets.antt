-- ===== src/Histogram/Buckets.antt =====
-- The bucket of a sample is the one whose edges, powers of two, enclose it.
use native.Mathlib.Nat.{two-pow-succ, pow-le-pow_right}
use orderbook_c.Base.{
  Bool-cases, arith, inl, inr, leb, ltb, subst, suc, sym, zero, ℕ, ◌+◌, ◌<◌, ◌^◌, ◌≡◌, ◌≤◌,
}
use orderbook_c.Histogram.{bucket_of, leading_zeros, lower_edge, or_one}
use orderbook_c.Types.{u64_mod}

leading_zeros-top :
    (n x : ℕ)
    → 0 < x
    → x < 2 ^ n
    → (b : ℕ) × (leading_zeros n x + suc b ≡ n) × (2 ^ b ≤ x) × (x < 2 ^ suc b)
unfolding leading_zeros
leading_zeros-top zero x h small = absurd (ground arith)
leading_zeros-top (suc n) x h small = elim (Bool-cases (ltb x (2 ^ n))) [
  | inl e ↦
      let below : x < 2 ^ n = ground arith in
      let (b, q, l, u) = leading_zeros-top n x h below in (b, rw e (omega (arith, q)), l, u)
  | inr e ↦ (n, rw e (omega arith), ground arith, small)
]

-- An even power that is at most an odd number is at most the even number below it.
or_one-lower : (ns b : ℕ) → 2 ^ b ≤ or_one ns → lower_edge b ≤ ns
or_one-lower ns zero le = ground arith
or_one-lower ns (suc b) le = ground (arith, two-pow-succ b)

-- The bucket of a 64-bit sample is one of the 64, and its edges enclose the sample.
pub bucket_of-edges :
    (ns : ℕ)
    → ns < u64_mod
    → (bucket_of ns < 64) × (lower_edge (bucket_of ns) ≤ ns) × (ns < 2 ^ suc (bucket_of ns))
unfolding bucket_of
bucket_of-edges ns small =
    let odd_small : or_one ns < u64_mod = ground arith in
    let (b, q, l, u) = leading_zeros-top 64 (or_one ns) (ground arith) odd_small in
    let same : bucket_of ns ≡ b = omega (arith, q) in
    subst (λ c. (c < 64) × (lower_edge c ≤ ns) × (ns < 2 ^ suc c)) (sym same)
      (omega (arith, q), or_one-lower ns b l, ground (arith, u))

-- A sample is below the upper edge of a bucket exactly if its own bucket is no later.
pub bucket_of-below : (ns b : ℕ) → ns < u64_mod → ltb ns (2 ^ suc b) ≡ leb (bucket_of ns) b
bucket_of-below ns b small =
    let (w, l, u) = bucket_of-edges ns small in
    elim (Bool-cases (leb (bucket_of ns) b)) [
      | inl le ↦
          let wider : 2 ^ suc (bucket_of ns) ≤ 2 ^ suc b =
            pow-le-pow_right (ground arith) (ground arith) in
          ground (arith, wider, u, le)
      | inr gt ↦
          let wider : 2 ^ suc b ≤ 2 ^ bucket_of ns =
            pow-le-pow_right (ground arith) (ground arith) in
          ground (arith, wider, l, gt)
    ]
