-- ===== src/Queue/Capacity.antt =====
-- The capacity that the constructor of include/order_book/spsc_queue.hpp gives a queue.
use native.Mathlib.Nat.{two-pow-succ, mul-add, mul-mod_right, pow-le-pow_right}
use orderbook_c.Base.{
  Bool-cases, ap, arith, inl, inr, ltb, refl, subst, suc, sym, zero, ℕ, ◌%◌, ◌*◌, ◌+◌, ◌-◌, ◌<◌,
  ◌^◌, ◌∙◌, ◌≡◌, ◌≤◌, ◌⊎◌,
}
use orderbook_c.Queue.{round_up}
use orderbook_c.Types.{u64_mod}

right_zero : (k : ℕ) → k + 0 ≡ k
right_zero k = omega arith

right_suc : (k j : ℕ) → k + suc j ≡ suc (k + j)
right_suc k j = omega arith

pow_add : (k j : ℕ) → 2 ^ (k + j) ≡ 2 ^ k * 2 ^ j
pow_add k zero =
    let same : 2 ^ (k + 0) ≡ 2 ^ k = ap (λ n. 2 ^ n) (right_zero k) in omega (arith, same)
pow_add k (suc j) =
    let same : 2 ^ (k + suc j) ≡ 2 ^ suc (k + j) = ap (λ n. 2 ^ n) (right_suc k j) in
    let halves : 2 ^ k * 2 ^ suc j ≡ 2 ^ k * (2 ^ j + 2 ^ j) =
      ap (λ n. 2 ^ k * n) (two-pow-succ j) in
    omega (arith, same, halves, pow_add k j, two-pow-succ (k + j), mul-add (2 ^ k) (2 ^ j) (2 ^ j))

pub wrap-mod_pow : (k : ℕ) → k ≤ 64 → u64_mod % 2 ^ k ≡ 0
wrap-mod_pow k le =
    let rest : k + (64 - k) ≡ 64 = omega arith in
    let split : 2 ^ k * 2 ^ (64 - k) ≡ 2 ^ 64 = sym (pow_add k (64 - k)) ∙ ap (λ n. 2 ^ n) rest in
    subst (λ n. n % 2 ^ k ≡ 0) split (mul-mod_right (2 ^ k) (2 ^ (64 - k)))

-- A power of two that is at least what is asked for, and less than twice that unless it is 1.
pub record IsCapacity (c m : ℕ) : Type 0 where
  pub exponent : ℕ
  pub is_pow : c ≡ 2 ^ exponent
  pub small : exponent ≤ 63
  pub enough : m ≤ c
  pub tight : (c ≡ 1) ⊎ (c < m * 2)

pow_below : (k m : ℕ) → k ≤ 63 → 2 ^ k < m → m ≤ 2 ^ 63 → k < 63
pow_below k m small less h = elim (Bool-cases (ltb k 63)) [
  | inl lt ↦ ground arith
  | inr ge ↦
      let last : k ≡ 63 = ground arith in
      let less63 : 2 ^ 63 < m = subst (λ n. 2 ^ n < m) last less in absurd (omega (arith, less63))
]

round_up-from :
    (fuel k m : ℕ)
    → k + fuel ≡ 64
    → m ≤ 2 ^ 63
    → k ≤ 63
    → (2 ^ k ≡ 1) ⊎ (2 ^ k < m * 2)
    → IsCapacity (round_up fuel (2 ^ k) m) m
unfolding round_up
round_up-from zero k m q h small t = absurd (omega arith)
round_up-from (suc fuel) k m q h small t = elim (Bool-cases (ltb (2 ^ k) m)) [
  | inl more ↦
      let less : 2 ^ k < m = ground arith in
      let below : k < 63 = pow_below k m small less h in
      let no_wrap : 2 ^ suc k ≤ 2 ^ 63 = pow-le-pow_right (ground arith) below in
      let doubled : (2 ^ k * 2) % u64_mod ≡ 2 ^ suc k = omega (arith, two-pow-succ k, no_wrap) in
      let next =
        round_up-from fuel (suc k) m (omega (arith, q)) h below
          (inr (omega (arith, two-pow-succ k, less))) in
      rw more (subst (λ n. IsCapacity (round_up fuel n m) m) (sym doubled) next)
  | inr done ↦
      rw done
        (record { exponent = k; is_pow = refl; small = small; enough = ground arith; tight = t })
]

-- For a request of at most 2^63, the capacity is the least power of two that is at least as large,
-- and the loop that finds it ends.
pub round_up-IsCapacity : (m : ℕ) → m ≤ 2 ^ 63 → IsCapacity (round_up 64 1 m) m
round_up-IsCapacity m h = round_up-from 64 0 m refl h (ground arith) (inl refl)
