-- ===== src/OrderBook/Levels.antt =====
-- `match` keeps the invariant of the opposite side's levels.
use orderbook_c.Base.{All, List, [], arith, min, ℕ, ◌%◌, ◌+◌, ◌-◌, ◌<◌, ◌∷◌, ◌≡◌}
use orderbook_c.Base.Int.{ℤ}
use orderbook_c.OrderBook.Match.{Progress, fill_whole, match_orders}
use orderbook_c.OrderBook.Submit.{rest}
use orderbook_c.OrderBook.Sweep.{best_match, sweep, sweep_cases}
use orderbook_c.SideBook.{PriceLevel}
use orderbook_c.SideBook.Levels.{IsLevel, IsSide, Rests, sum_qty}
use orderbook_c.SideBook.Sorted.{Below, Below-mono, IsSorted, IsSorted-of_Below}
use orderbook_c.Types.{Order, Side, sub64, u64_mod}

filled_total :
    (total q n rest : ℕ)
    → n < u64_mod
    → total ≡ (n + rest) % u64_mod
    → (sub64 total (min q n) ≡ (n - min q n + rest) % u64_mod)
filled_total total q n rest h t = omega arith

-- The inner loop keeps the level's total equal to what its orders hold.
match_orders-total :
    (s : Side) (taker : Order) (px : ℤ) (total : ℕ) (os : List Order) (p : Progress)
    → total ≡ sum_qty os % u64_mod
    → All (Rests s px) os
    → let r = match_orders taker px total os p in r.total_qty ≡ sum_qty r.orders % u64_mod
unfolding match_orders
match_orders-total s taker px total [] p t v = t
match_orders-total s taker px total (m ∷ os) p t v = ground (
  arith,
  match_orders-total s taker px (sub64 total (min p.qty m.qty)) os (fill_whole m p),
  filled_total total p.qty m.qty (sum_qty os),
)

match_orders-Rests :
    (s : Side) (taker : Order) (px : ℤ) (total : ℕ) (os : List Order) (p : Progress)
    → All (Rests s px) os
    → All (Rests s px) (match_orders taker px total os p).orders
unfolding match_orders
match_orders-Rests s taker px total [] p v = tt
match_orders-Rests s taker px total (m ∷ os) p v =
    ground
      (arith, match_orders-Rests s taker px (sub64 total (min p.qty m.qty)) os (fill_whole m p))

pub sweep-Below :
    (s : Side) (q : ℤ) (taker : Order) (ls : List PriceLevel) (p : Progress)
    → Below s q ls
    → Below s q (sweep taker ls p).levels
sweep-Below s q taker [] p b = unfold sweep in tt
sweep-Below s q taker (l ∷ ls) p b =
    sweep_cases taker l ls p (λ r. Below s q r.levels) (λ _. b) (λ _. b)
      (λ _ _.
        sweep-Below s q taker ls (best_match taker l ls p).progress
          (Below-mono s l.price q ls b.0 b.1))
      (λ _ _. b)

sweep-IsSorted :
    (s : Side) (taker : Order) (ls : List PriceLevel) (p : Progress)
    → IsSorted s ls
    → IsSorted s (sweep taker ls p).levels
sweep-IsSorted s taker [] p b = unfold sweep in tt
sweep-IsSorted s taker (l ∷ ls) p b =
    sweep_cases taker l ls p (λ r. IsSorted s r.levels) (λ _. b) (λ _. b)
      (λ _ _.
        sweep-IsSorted s taker ls (best_match taker l ls p).progress
          (IsSorted-of_Below s l.price ls b))
      (λ _ _. b)

sweep-IsLevel :
    (s : Side) (taker : Order) (ls : List PriceLevel) (p : Progress)
    → All (IsLevel s) ls
    → All (IsLevel s) (sweep taker ls p).levels
sweep-IsLevel s taker [] p v = unfold sweep in tt
sweep-IsLevel s taker (l ∷ ls) p v =
    sweep_cases taker l ls p (λ r. All (IsLevel s) r.levels) (λ _. v) (λ _. v)
      (λ _ _. sweep-IsLevel s taker ls (best_match taker l ls p).progress v.1)
      (λ _ e. (
        record {
          nonempty = e;
          total = match_orders-total s taker l.price l.total_qty l.orders p v.0.total v.0.resting;
          resting = match_orders-Rests s taker l.price l.total_qty l.orders p v.0.resting;
        },
        v.1,
      ))

pub sweep-IsSide :
    (s : Side) (taker : Order) (ls : List PriceLevel) (p : Progress)
    → IsSide s ls
    → IsSide s (sweep taker ls p).levels
sweep-IsSide s taker ls p v = record {
  sorted = sweep-IsSorted s taker ls p v.sorted;
  levels = sweep-IsLevel s taker ls p v.levels;
}
