-- ===== src/SideBook/Counts.antt =====
-- How many resting orders pass a test, before and after an order joins or leaves a side.
use orderbook_c.Base.{
  Bool, Bool-cases, List, [], arith, false, inl, inr, refl, some, true, ℕ, ◌++◌, ◌+◌, ◌==◌, ◌∷◌,
  ◌≡◌,
}
use orderbook_c.SideBook.{
  PriceLevel, all_orders, is_empty, order_at, push_back, remove_order, unlink,
}
use orderbook_c.SideBook.Held.{order_at-level, order_at-not_before, order_at-past, take_out_cases}
use orderbook_c.SideBook.Insert.{put_in}
use orderbook_c.SideBook.Levels.{IsSide}
use orderbook_c.SideBook.Remove.{take_out}
use orderbook_c.SideBook.Sorted.{IsSorted-of_Below}
use orderbook_c.Types.{Order, Side}

abbrev pub one_if : Bool → ℕ
one_if true = 1
one_if false = 0

abbrev pub count_by : (Order → Bool) → List Order → ℕ
count_by f [] = 0
count_by f (o ∷ os) = one_if (f o) + count_by f os

module _ (f : Order → Bool) where
  pub count_by-append : (os us : List Order) → count_by f (os ++ us) ≡ count_by f os + count_by f us
  count_by-append [] us = omega arith
  count_by-append (o ∷ os) us = omega (arith, count_by-append os us)

  pub count_by-is_empty : (os : List Order) → is_empty os ≡ true → count_by f os ≡ 0
  count_by-is_empty [] h = refl
  count_by-is_empty (o ∷ os) h = cc

  pub count_by-put_in :
      (s : Side) (o : Order) (ls : List PriceLevel)
      → count_by f (all_orders (put_in s o ls)) ≡ one_if (f o) + count_by f (all_orders ls)
  unfolding put_in push_back
  count_by-put_in s o [] = omega arith
  count_by-put_in s o (l ∷ ls) = ground (
    arith,
    count_by-put_in s o ls,
    count_by-append l.orders (o ∷ []),
    count_by-append (l.orders ++ o ∷ []) (all_orders ls),
    count_by-append l.orders (all_orders ls),
    count_by-append l.orders (all_orders (put_in s o ls)),
  )

  count_by-remove_order :
      (os : List Order) (o : Order)
      → order_at o.slot os ≡ some o
      → one_if (f o) + count_by f (remove_order o.slot os) ≡ count_by f os
  unfolding order_at remove_order
  count_by-remove_order [] o h = cc
  count_by-remove_order (x ∷ os) o h = elim (Bool-cases (x.slot == o.slot)) [
    | inl e ↦ let h' : some x ≡ some o = rw e at h in let same : x ≡ o = cc in rw e (rw same refl)
    | inr e ↦ rw e (omega (arith, count_by-remove_order os o (rw e at h)))
  ]

  pub count_by-take_out :
      (o : Order) (ls : List PriceLevel)
      → IsSide o.side ls
      → order_at o.slot (all_orders ls) ≡ some o
      → one_if (f o) + count_by f (all_orders (take_out o ls)) ≡ count_by f (all_orders ls)
  count_by-take_out o [] v h = unfold order_at in cc
  count_by-take_out o (l ∷ ls) v h =
      take_out_cases o l ls
        (λ r. one_if (f o) + count_by f (all_orders r) ≡ count_by f (all_orders (l ∷ ls)))
        (λ e. absurd (let n = order_at-not_before o l ls v h in cc))
        (λ e z.
          unfold unlink in
          omega (
            arith,
            removed e,
            count_by-is_empty (remove_order o.slot l.orders) z,
            count_by-append l.orders (all_orders ls),
          ))
        (λ e z.
          unfold unlink in
          omega (
            arith,
            removed e,
            count_by-append (remove_order o.slot l.orders) (all_orders ls),
            count_by-append l.orders (all_orders ls),
          ))
        (λ n. omega (
          arith,
          count_by-take_out o ls
              (record {
                sorted = IsSorted-of_Below o.side l.price ls v.sorted;
                levels = v.levels.1;
              })
              (order_at-past o l ls v.levels.0 h n),
          count_by-append l.orders (all_orders ls),
          count_by-append l.orders (all_orders (take_out o ls)),
        ))
    where
      removed :
          l.price ≡ o.price
          → one_if (f o) + count_by f (remove_order o.slot l.orders) ≡ count_by f l.orders
      removed e = count_by-remove_order l.orders o (order_at-level o l ls v.sorted v.levels h e)
