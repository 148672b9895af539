-- ===== src/SideBook/Held.antt =====
-- Taking an order that rests on a side out of it keeps the side's invariant.
use orderbook_c.Base.{
  All, Bool-cases, List, [], arith, false, inl, inr, none, refl, some, subst, sym, true, ℕ, ◌%◌,
  ◌++◌, ◌+◌, ◌==◌, ◌∷◌, ◌≡◌, ◌⊎◌,
}
use orderbook_c.Base.Int.{==ℤ-eq, ==ℤ_refl, ℤ, ◌==ℤ◌}
use orderbook_c.SideBook.{
  PriceLevel, all_orders, is_empty, less_for_side, order_at, remove_order, unlink,
}
use orderbook_c.SideBook.Levels.{IsLevel, IsSide, Rests, sum_qty}
use orderbook_c.SideBook.Remove.{take_out}
use orderbook_c.SideBook.Sorted.{
  Below, Below-mono, IsSorted, IsSorted-of_Below, less_for_side_asymm, less_for_side_irrefl,
  less_for_side_trans,
}
use orderbook_c.Types.{Order, Side, sub64, u64_mod}

order_at-append :
    (k : ℕ) (os us : List Order)
    → order_at k (os ++ us) ≡ (elim (order_at k os) [ none ↦ order_at k us | some o ↦ some o ])
unfolding order_at
order_at-append k [] us = refl
order_at-append k (x ∷ os) us = ground (arith, order_at-append k os us)

order_at-Rests :
    (s : Side) (p : ℤ) (k : ℕ) (os : List Order) (o : Order)
    → All (Rests s p) os
    → order_at k os ≡ some o
    → Rests s p o
unfolding order_at
order_at-Rests s p k [] o v h = cc
order_at-Rests s p k (x ∷ os) o v h = elim (Bool-cases (x.slot == k)) [
  | inl e ↦
      let h' : some x ≡ some o = rw e at h in let same : x ≡ o = cc in subst (Rests s p) same v.0
  | inr e ↦ order_at-Rests s p k os o v.1 (rw e at h)
]

pub order_at-slot : (k : ℕ) (os : List Order) (o : Order) → order_at k os ≡ some o → o.slot ≡ k
unfolding order_at
order_at-slot k [] o h = cc
order_at-slot k (x ∷ os) o h = ground (arith, order_at-slot k os o)

-- A found order rests at the level in front or at one behind.
pub order_at-split :
    (k : ℕ) (os us : List Order) (o : Order)
    → order_at k (os ++ us) ≡ some o
    → (order_at k os ≡ some o) ⊎ (order_at k us ≡ some o)
order_at-split k os us o h = ground (arith, order_at-append k os us)

order_at-Below :
    (s : Side) (q : ℤ) (k : ℕ) (ls : List PriceLevel) (o : Order)
    → Below s q ls
    → All (IsLevel s) ls
    → order_at k (all_orders ls) ≡ some o
    → less_for_side s o.price q ≡ true
order_at-Below s q k [] o b v h = unfold order_at in cc
order_at-Below s q k (l ∷ ls) o b v h = elim (order_at-split k l.orders (all_orders ls) o h) [
  | inl e ↦ rw ((order_at-Rests s l.price k l.orders o v.0.resting e).price_eq) b.0
  | inr e ↦ less_for_side_trans s o.price l.price q (order_at-Below s l.price k ls o b.1 v.1 e) b.0
]

sum_qty-remove_order :
    (k : ℕ) (os : List Order) (o : Order)
    → order_at k os ≡ some o
    → sum_qty (remove_order k os) + o.qty ≡ sum_qty os
unfolding order_at remove_order
sum_qty-remove_order k [] o h = cc
sum_qty-remove_order k (x ∷ os) o h = ground (arith, sum_qty-remove_order k os o)

All-remove_order :
    (P : Order → Type 0) (k : ℕ) (os : List Order) → All P os → All P (remove_order k os)
unfolding remove_order
All-remove_order P k [] v = tt
All-remove_order P k (x ∷ os) v = elim (Bool-cases (x.slot == k)) [
  | inl e ↦ rw e v.1
  | inr e ↦ rw e (v.0, All-remove_order P k os v.1)
]

unlink-IsLevel :
    (s : Side) (o : Order) (l : PriceLevel)
    → IsLevel s l
    → order_at o.slot l.orders ≡ some o
    → is_empty (unlink o l).orders ≡ false
    → IsLevel s (unlink o l)
unlink-IsLevel s o l v h e = record {
  nonempty = e;
  total = unfold unlink in total;
  resting = unfold unlink in All-remove_order (Rests s l.price) o.slot l.orders v.resting;
}
  where
    total : sub64 l.total_qty o.qty ≡ sum_qty (remove_order o.slot l.orders) % u64_mod
    total = omega (
      arith,
      v.total,
      sum_qty-remove_order o.slot l.orders o h,
      (order_at-Rests s l.price o.slot l.orders o v.resting h).qty_lt,
    )

module _ (o : Order) (l : PriceLevel) (ls : List PriceLevel) where
  -- The cases of `take_out`: the level is gone, is shorter, or is passed over.
  pub take_out_cases {ℓ} :
      (P : List PriceLevel → Type ℓ)
      → (less_for_side o.side l.price o.price ≡ true → P (l ∷ ls))
      → (l.price ≡ o.price → is_empty (unlink o l).orders ≡ true → P ls)
      → (l.price ≡ o.price → is_empty (unlink o l).orders ≡ false → P (unlink o l ∷ ls))
      → ((l.price ==ℤ o.price) ≡ false → P (l ∷ take_out o ls))
      → P (take_out o (l ∷ ls))
  unfolding take_out
  take_out_cases P before gone shorter past =
      elim (Bool-cases (less_for_side o.side l.price o.price)) [
        | inl e ↦ rw e (before e)
        | inr e ↦ rw e (elim (Bool-cases (l.price ==ℤ o.price)) [
          | inl n ↦ rw n (elim (Bool-cases (is_empty (unlink o l).orders)) [
            | inl k ↦ rw k (gone (==ℤ-eq l.price o.price n) k)
            | inr k ↦ rw k (shorter (==ℤ-eq l.price o.price n) k)
          ])
          | inr n ↦ rw n (past n)
        ])
      ]

take_out-Below :
    (o : Order) (q : ℤ) (ls : List PriceLevel) → Below o.side q ls → Below o.side q (take_out o ls)
take_out-Below o q [] b = unfold take_out in tt
take_out-Below o q (l ∷ ls) b =
    take_out_cases o l ls (Below o.side q) (λ _. b) (λ _ _. Below-mono o.side l.price q ls b.0 b.1)
      (λ _ _. unfold unlink in b) (λ _. (b.0, take_out-Below o l.price ls b.1))

take_out-IsSorted :
    (o : Order) (ls : List PriceLevel) → IsSorted o.side ls → IsSorted o.side (take_out o ls)
take_out-IsSorted o [] b = unfold take_out in tt
take_out-IsSorted o (l ∷ ls) b =
    take_out_cases o l ls (IsSorted o.side) (λ _. b) (λ _ _. IsSorted-of_Below o.side l.price ls b)
      (λ _ _. unfold unlink in b) (λ _. take_out-Below o l.price ls b)

-- An order stands at the level of its price, when a level has that price.
pub order_at-level :
    (o : Order) (l : PriceLevel) (ls : List PriceLevel)
    → Below o.side l.price ls
    → All (IsLevel o.side) (l ∷ ls)
    → order_at o.slot (all_orders (l ∷ ls)) ≡ some o
    → l.price ≡ o.price
    → order_at o.slot l.orders ≡ some o
order_at-level o l ls b v h e = elim (order_at-split o.slot l.orders (all_orders ls) o h) [
  | inl k ↦ k
  | inr k ↦
      let behind = order_at-Below o.side l.price o.slot ls o b v.1 k in
      let same = less_for_side_irrefl o.side o.price in absurd (cc (behind, same, e))
]

pub order_at-past :
    (o : Order) (l : PriceLevel) (ls : List PriceLevel)
    → IsLevel o.side l
    → order_at o.slot (all_orders (l ∷ ls)) ≡ some o
    → (l.price ==ℤ o.price) ≡ false
    → order_at o.slot (all_orders ls) ≡ some o
order_at-past o l ls v h n = elim (order_at-split o.slot l.orders (all_orders ls) o h) [
  | inl k ↦
      let same = (order_at-Rests o.side l.price o.slot l.orders o v.resting k).price_eq in
      let r = ==ℤ_refl l.price in absurd (cc (same, n, r))
  | inr k ↦ k
]

take_out-IsLevel :
    (o : Order) (ls : List PriceLevel)
    → IsSorted o.side ls
    → All (IsLevel o.side) ls
    → order_at o.slot (all_orders ls) ≡ some o
    → All (IsLevel o.side) (take_out o ls)
take_out-IsLevel o [] b v h = unfold take_out in tt
take_out-IsLevel o (l ∷ ls) b v h =
    take_out_cases o l ls (All (IsLevel o.side)) (λ _. v) (λ _ _. v.1)
      (λ e k. (unlink-IsLevel o.side o l v.0 (order_at-level o l ls b v h e) k, v.1))
      (λ n. (
        v.0,
        take_out-IsLevel o ls (IsSorted-of_Below o.side l.price ls b) v.1
            (order_at-past o l ls v.0 h n),
      ))

-- An order that leaves keeps the side's invariant.
pub take_out-IsSide :
    (o : Order) (ls : List PriceLevel)
    → IsSide o.side ls
    → order_at o.slot (all_orders ls) ≡ some o
    → IsSide o.side (take_out o ls)
take_out-IsSide o ls v h = record {
  sorted = take_out-IsSorted o ls v.sorted;
  levels = take_out-IsLevel o ls v.sorted v.levels h;
}

-- An order that is found on a well-formed side names that side.
pub order_at-IsSide :
    (s : Side) (k : ℕ) (ls : List PriceLevel) (o : Order)
    → IsSide s ls
    → order_at k (all_orders ls) ≡ some o
    → o.side ≡ s
order_at-IsSide s k [] o v h = unfold order_at in cc
order_at-IsSide s k (l ∷ ls) o v h = elim (order_at-split k l.orders (all_orders ls) o h) [
  | inl e ↦ (order_at-Rests s l.price k l.orders o v.levels.0.resting e).side_eq
  | inr e ↦
      order_at-IsSide s k ls o
        (record { sorted = IsSorted-of_Below s l.price ls v.sorted; levels = v.levels.1 }) e
]

-- Nor does it stand behind a level that is worse than its price.
pub order_at-not_before :
    (o : Order) (l : PriceLevel) (ls : List PriceLevel)
    → IsSide o.side (l ∷ ls)
    → order_at o.slot (all_orders (l ∷ ls)) ≡ some o
    → less_for_side o.side l.price o.price ≡ false
order_at-not_before o l ls v h = elim (order_at-split o.slot l.orders (all_orders ls) o h) [
  | inl e ↦
      subst (λ p. less_for_side o.side l.price p ≡ false)
        (sym (order_at-Rests o.side l.price o.slot l.orders o v.levels.0.resting e).price_eq)
        (less_for_side_irrefl o.side l.price)
  | inr e ↦
      less_for_side_asymm o.side o.price l.price
        (order_at-Below o.side l.price o.slot ls o v.sorted v.levels.1 e)
]
