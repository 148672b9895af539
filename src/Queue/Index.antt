-- ===== src/Queue/Index.antt =====
-- Indices that wrap at 64 bits and at the capacity of a queue, and the reads after a write.
use native.Mathlib.Nat.{mul-le-mul_left, mod-mod_of_dvd, dvd_of_mod-eq-zero, div-add-mod, mul-suc}
use orderbook_c.Base.{
  Bool-cases, List, [], ap, arith, get_elem?, inl, inr, length, ltb, refl, set, some, suc, zero, ℕ,
  ◌%◌, ◌*◌, ◌++◌, ◌+◌, ◌/◌, ◌<◌, ◌∷◌, ◌≡◌, ◌≢◌, ◌≤◌, ◌⊎◌,
}
use orderbook_c.Types.{u64_mod}

-- Two indices less than a capacity apart have different slots.
pub mod_apart : (i j c : ℕ) → i < j → j < i + c → i % c ≢ j % c
mod_apart i j c lt near same = elim (Bool-cases (ltb (i / c) (j / c))) [
  | inl up ↦
      let more : c * suc (i / c) ≤ c * (j / c) = mul-le-mul_left c (ground arith) in
      ground (arith, div-add-mod i c, div-add-mod j c, mul-suc c (i / c), more)
  | inr down ↦
      let less : c * (j / c) ≤ c * (i / c) = mul-le-mul_left c (ground arith) in
      ground (arith, div-add-mod i c, div-add-mod j c, less)
]

-- Where the capacity divides 2^64, an index that has wrapped has the slot of its count.
pub mod-mod_wrap : (n c : ℕ) → u64_mod % c ≡ 0 → n % u64_mod % c ≡ n % c
mod-mod_wrap n c h = mod-mod_of_dvd c n (dvd_of_mod-eq-zero c h)

module _ {ℓ} {A : Type ℓ} where
  pub length-set : (xs : List A) (i : ℕ) (v : A) → length (set xs i v) ≡ length xs
  length-set [] i v = refl
  length-set (x ∷ xs) zero v = refl
  length-set (x ∷ xs) (suc i) v = omega (arith, length-set xs i v)

  pub get_elem?-set_same :
      (xs : List A) (i : ℕ) (v : A) → i < length xs → get_elem? (set xs i v) i ≡ some v
  get_elem?-set_same [] i v h = absurd (omega arith)
  get_elem?-set_same (x ∷ xs) zero v h = refl
  get_elem?-set_same (x ∷ xs) (suc i) v h = get_elem?-set_same xs i v (omega arith)

  pub get_elem?-set_other :
      (xs : List A) (i j : ℕ) (v : A) → i ≢ j → get_elem? (set xs i v) j ≡ get_elem? xs j
  get_elem?-set_other [] i j v h = refl
  get_elem?-set_other (x ∷ xs) zero zero v h = absurd (h refl)
  get_elem?-set_other (x ∷ xs) zero (suc j) v h = refl
  get_elem?-set_other (x ∷ xs) (suc i) zero v h = refl
  get_elem?-set_other (x ∷ xs) (suc i) (suc j) v h =
      get_elem?-set_other xs i j v (λ e. h (ap suc e))

  pub get_elem?-append :
      (xs : List A) (v w : A) (i : ℕ)
      → get_elem? (xs ++ (v ∷ [])) i ≡ some w
      → (get_elem? xs i ≡ some w) ⊎ ((i ≡ length xs) × (v ≡ w))
  get_elem?-append [] v w zero e = inr (refl, ground (arith, e))
  get_elem?-append [] v w (suc i) e = absurd (ground (arith, e))
  get_elem?-append (x ∷ xs) v w zero e = inl e
  get_elem?-append (x ∷ xs) v w (suc i) e = elim (get_elem?-append xs v w i e) [
    | inl k ↦ inl k
    | inr (k, q) ↦ inr (ap suc k, q)
  ]

  pub get_elem?-lt : (xs : List A) (i : ℕ) (v : A) → get_elem? xs i ≡ some v → i < length xs
  get_elem?-lt [] i v e = absurd (ground (arith, e))
  get_elem?-lt (x ∷ xs) zero v e = omega arith
  get_elem?-lt (x ∷ xs) (suc i) v e = omega (arith, get_elem?-lt xs i v e)
