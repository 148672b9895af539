-- ===== src/OrderBook/Slots.antt =====
-- The pool's slots: each is free or holds one resting order, and no call loses or doubles one.
pub mod Calls
use orderbook_c.Base.{Bool, List, [], arith, min, refl, ℕ, ◌+◌, ◌==◌, ◌∷◌, ◌≡◌}
use orderbook_c.Base.Int.{ℤ}
use orderbook_c.OrderBook.Match.{LevelMatch, Progress, fill_whole, match_orders}
use orderbook_c.OrderBook.State.{OrderBook}
use orderbook_c.OrderBook.Sweep.{best_match, sweep, sweep_cases}
use orderbook_c.SideBook.{PriceLevel, all_orders}
use orderbook_c.SideBook.Counts.{count_by, count_by-append, count_by-is_empty, one_if}
use orderbook_c.Types.{Order, sub64}

abbrev pub count : ℕ → List ℕ → ℕ
count k [] = 0
count k (x ∷ xs) = one_if (x == k) + count k xs

-- The test for the order at a slot.
abbrev pub stands_in : ℕ → Order → Bool
stands_in k o = o.slot == k

abbrev pub count_levels : ℕ → List PriceLevel → ℕ
count_levels k ls = count_by (stands_in k) (all_orders ls)

-- How often a slot occurs in the free list and among the resting orders.
abbrev pub uses : ℕ → OrderBook → ℕ
uses k b = count k b.free + count_levels k b.bids + count_levels k b.asks

match_orders-count :
    (k : ℕ) (taker : Order) (px : ℤ) (total : ℕ) (os : List Order) (p : Progress)
    → let r = match_orders taker px total os p in
      count k r.progress.free + count_by (stands_in k) r.orders
      ≡ count k p.free + count_by (stands_in k) os
unfolding match_orders
match_orders-count k taker px total [] p = omega arith
match_orders-count k taker px total (m ∷ os) p =
    ground
      (arith, match_orders-count k taker px (sub64 total (min p.qty m.qty)) os (fill_whole m p))

pub sweep-count :
    (k : ℕ) (taker : Order) (ls : List PriceLevel) (p : Progress)
    → let r = sweep taker ls p in
      count k r.progress.free + count_levels k r.levels ≡ count k p.free + count_levels k ls
sweep-count k taker [] p = unfold sweep in refl
sweep-count k taker (l ∷ ls) p =
    sweep_cases taker l ls p
      (λ r.
        count k r.progress.free + count_levels k r.levels
        ≡ count k p.free + count_levels k (l ∷ ls))
      (λ _. refl) (λ _. refl)
      (λ _ e. omega (
        arith,
        inner,
        before,
        count_by-is_empty (stands_in k) best.orders e,
        sweep-count k taker ls best.progress,
      ))
      (λ _ e.
        omega (arith, inner, before, count_by-append (stands_in k) best.orders (all_orders ls)))
  where
    best : LevelMatch
    best = best_match taker l ls p

    inner :
        count k best.progress.free + count_by (stands_in k) best.orders
        ≡ count k p.free + count_by (stands_in k) l.orders
    inner = match_orders-count k taker l.price l.total_qty l.orders p

    before : count_levels k (l ∷ ls) ≡ count_by (stands_in k) l.orders + count_levels k ls
    before = count_by-append (stands_in k) l.orders (all_orders ls)
