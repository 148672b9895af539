-- ===== src/OrderBook/Sweep.antt =====
-- `match` by structural recursion on the levels. On a sorted vector it is the code's loop, which
-- therefore ends by its own test within the fuel.
use mathlib.Core.List.{append-nil}
use orderbook_c.Base.{
  Bool-cases, List, [], ap, arith, false, if◌then◌else◌, inl, inr, length, min, refl, suc, true,
  zero, ℕ, ◌<◌, ◌==◌, ◌∙◌, ◌∷◌, ◌≡◌,
}
use orderbook_c.Base.Int.{ℤ}
use orderbook_c.OrderBook.Match.{
  BookMatch, LevelMatch, Progress, add_trades, fill_whole, match_loop, match_orders, may_trade,
}
use orderbook_c.OrderBook.State.{opposite}
use orderbook_c.SideBook.{PriceLevel, erase_if_empty, is_empty}
use orderbook_c.SideBook.Sorted.{Below, IsSorted, IsSorted-of_Below, erase_if_empty-best}
use orderbook_c.Types.{Order, sub64}

-- The level is left as it is when the taker has nothing left, and a level that keeps an order leaves
-- the taker nothing.
pub match_orders-stops :
    (taker : Order) (px : ℤ) (total : ℕ) (os : List Order) (p : Progress)
    → is_empty (match_orders taker px total os p).orders ≡ false
    → (match_orders taker px total os p).progress.qty ≡ 0
unfolding match_orders
match_orders-stops taker px total [] p h = cc
match_orders-stops taker px total (m ∷ os) p h =
    ground (arith, match_orders-stops taker px (sub64 total (min p.qty m.qty)) os (fill_whole m p))

abbrev pub stopped : List PriceLevel → Progress → BookMatch
stopped ls p = record { progress = p; trades = []; levels = ls; stuck = false }

-- The best level as the inner loop leaves it.
abbrev pub level_after : PriceLevel → LevelMatch → PriceLevel
level_after l r = record l { total_qty = r.total_qty; orders = r.orders }

unfoldable pub sweep : Order → List PriceLevel → Progress → BookMatch
sweep taker [] p = stopped [] p
sweep taker (l ∷ ls) p =
    let r = match_orders taker l.price l.total_qty l.orders p in
    let more = add_trades r.trades (sweep taker ls r.progress) in
    if p.qty == 0
    then stopped (l ∷ ls) p
    else (if may_trade taker l.price
        then (if is_empty r.orders then more else record {
          progress = r.progress;
          trades = r.trades;
          levels = level_after l r ∷ ls;
          stuck = false;
        })
        else stopped (l ∷ ls) p)

match_loop-done :
    (fuel : ℕ) (taker : Order) (ls : List PriceLevel) (p : Progress)
    → p.qty ≡ 0
    → 0 < fuel
    → match_loop fuel taker ls p ≡ stopped ls p
unfolding match_loop
match_loop-done zero taker ls p h k = absurd (omega arith)
match_loop-done (suc fuel) taker [] p h k = refl
match_loop-done (suc fuel) taker (l ∷ ls) p h k = ground arith

-- One round of the loop, when the round after it does what `sweep` does.
match_loop-round :
    (fuel : ℕ) (taker : Order) (l : PriceLevel) (ls : List PriceLevel) (p : Progress)
    → Below (opposite taker.side) l.price ls
    → 0 < fuel
    → (let r = match_orders taker l.price l.total_qty l.orders p in
        match_loop fuel taker ls r.progress ≡ sweep taker ls r.progress)
    → match_loop (suc fuel) taker (l ∷ ls) p ≡ sweep taker (l ∷ ls) p
unfolding match_loop sweep
match_loop-round fuel taker l ls p b k ih = elim (Bool-cases (is_empty r.orders)) [
  | inl e ↦ ground (arith, ih, best)
  | inr e ↦ ground (
    arith,
    best,
    match_loop-done fuel taker (level_after l r ∷ ls) r.progress
        (match_orders-stops taker l.price l.total_qty l.orders p e) k,
    append-nil r.trades,
  )
]
  where
    r : LevelMatch
    r = match_orders taker l.price l.total_qty l.orders p

    best :
        erase_if_empty (opposite taker.side) (level_after l r) (level_after l r ∷ ls)
        ≡ (elim (is_empty r.orders) [ true ↦ ls | false ↦ level_after l r ∷ ls ])
    best = erase_if_empty-best (opposite taker.side) (level_after l r) ls b

-- The recursion is never out of rounds.
pub sweep-ends :
    (taker : Order) (ls : List PriceLevel) (p : Progress) → (sweep taker ls p).stuck ≡ false
unfolding sweep
sweep-ends taker [] p = refl
sweep-ends taker (l ∷ ls) p =
    ground (arith, sweep-ends taker ls (match_orders taker l.price l.total_qty l.orders p).progress)

pub match_loop-sweep :
    (fuel : ℕ) (taker : Order) (ls : List PriceLevel) (p : Progress)
    → IsSorted (opposite taker.side) ls
    → length ls < fuel
    → match_loop fuel taker ls p ≡ sweep taker ls p
match_loop-sweep zero taker ls p s h = absurd (omega arith)
match_loop-sweep (suc fuel) taker [] p s h = unfold match_loop sweep in refl
match_loop-sweep (suc fuel) taker (l ∷ ls) p s h =
    match_loop-round fuel taker l ls p s (omega arith)
      (match_loop-sweep fuel taker ls _ (IsSorted-of_Below _ l.price ls s) (omega arith))

-- On a sorted side, the loop of `match` with more rounds than there are levels ends by its own test: it
-- is not stuck, and its result is that of the recursion on the levels.
pub match_loop-ends :
    (fuel : ℕ) (taker : Order) (ls : List PriceLevel) (p : Progress)
    → IsSorted (opposite taker.side) ls
    → length ls < fuel
    → ((match_loop fuel taker ls p).stuck ≡ false) × (match_loop fuel taker ls p ≡ sweep taker ls p)
match_loop-ends fuel taker ls p s h =
    let e = match_loop-sweep fuel taker ls p s h in (ap (λ r. r.stuck) e ∙ sweep-ends taker ls p, e)

module _ (taker : Order) (l : PriceLevel) (ls : List PriceLevel) (p : Progress) where
  -- The inner loop at the best level.
  abbrev pub best_match : LevelMatch
  best_match = match_orders taker l.price l.total_qty l.orders p

  -- The cases of `sweep`: nothing more is wanted, the price is out of reach, the level is used up,
  -- or it keeps some orders.
  pub sweep_cases {ℓ} :
      (P : BookMatch → Type ℓ)
      → ((p.qty == 0) ≡ true → P (stopped (l ∷ ls) p))
      → (may_trade taker l.price ≡ false → P (stopped (l ∷ ls) p))
      → (may_trade taker l.price ≡ true
          → is_empty best_match.orders ≡ true
          → P (add_trades best_match.trades (sweep taker ls best_match.progress)))
      → (may_trade taker l.price ≡ true
          → is_empty best_match.orders ≡ false
          → P (record {
            progress = best_match.progress;
            trades = best_match.trades;
            levels = level_after l best_match ∷ ls;
            stuck = false;
          }))
      → P (sweep taker (l ∷ ls) p)
  unfolding sweep
  sweep_cases P done out used kept = elim (Bool-cases (p.qty == 0)) [
    | inl z ↦ rw z (done z)
    | inr z ↦ rw z (elim (Bool-cases (may_trade taker l.price)) [
      | inl m ↦ rw m (elim (Bool-cases (is_empty best_match.orders)) [
        | inl e ↦ rw e (used m e)
        | inr e ↦ rw e (kept m e)
      ])
      | inr m ↦ rw m (out m)
    ])
  ]
