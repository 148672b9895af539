-- ===== src/OrderBook/Ids/Match.antt =====
-- `match` keeps the index in step with the orders, beside other orders that it does not touch.
use orderbook_c.Base.{List, [], arith, min, ℕ, ◌+◌, ◌∷◌, ◌≤◌}
use orderbook_c.Base.Int.{ℤ}
use orderbook_c.OrderBook.Ids.{
  count_entry, count_entry-erase_id, count_entry-le-key, count_id, count_key, count_key-erase_id,
  count_order, has_id, is_at,
}
use orderbook_c.OrderBook.Match.{LevelMatch, Progress, fill_whole, match_orders}
use orderbook_c.OrderBook.State.{erase_id}
use orderbook_c.OrderBook.Sweep.{best_match, sweep, sweep_cases}
use orderbook_c.SideBook.{PriceLevel, all_orders}
use orderbook_c.SideBook.Counts.{count_by-append, count_by-is_empty}
use orderbook_c.Types.{Order, sub64}

module _ (i s others : ℕ) where
  match_orders-live :
      (taker : Order) (px : ℤ) (total : ℕ) (os : List Order) (p : Progress)
      → count_key i p.id_index ≤ 1
      → count_entry i s p.id_index ≤ count_order i s os + others
      → let r = match_orders taker px total os p in
        (count_key i r.progress.id_index ≤ 1)
        × (count_entry i s r.progress.id_index ≤ count_order i s r.orders + others)
  unfolding match_orders
  match_orders-live taker px total [] p u h = (u, h)
  match_orders-live taker px total (m ∷ os) p u h = ground (
    arith,
    match_orders-live taker px (sub64 total (min p.qty m.qty)) os (fill_whole m p),
    count_key-erase_id m.id i p.id_index,
    count_entry-erase_id m.id i s p.id_index,
    count_entry-le-key i s (erase_id m.id p.id_index),
  )

  match_orders_complete :
      (taker : Order) (px : ℤ) (total : ℕ) (os : List Order) (p : Progress)
      → count_key i p.id_index ≤ 1
      → count_id i os + others ≤ count_key i p.id_index
      → let r = match_orders taker px total os p in
        count_id i r.orders + others ≤ count_key i r.progress.id_index
  unfolding match_orders
  match_orders_complete taker px total [] p u h = h
  match_orders_complete taker px total (m ∷ os) p u h = ground (
    arith,
    match_orders_complete taker px (sub64 total (min p.qty m.qty)) os (fill_whole m p),
    count_key-erase_id m.id i p.id_index,
  )

pub sweep-live :
    (i s others : ℕ) (taker : Order) (ls : List PriceLevel) (p : Progress)
    → count_key i p.id_index ≤ 1
    → count_entry i s p.id_index ≤ count_order i s (all_orders ls) + others
    → let r = sweep taker ls p in
      (count_key i r.progress.id_index ≤ 1)
      × (count_entry i s r.progress.id_index ≤ count_order i s (all_orders r.levels) + others)
sweep-live i s others taker [] p u h = unfold sweep in (u, h)
sweep-live i s others taker (l ∷ ls) p u h =
    sweep_cases taker l ls p
      (λ r.
        (count_key i r.progress.id_index ≤ 1)
        × (count_entry i s r.progress.id_index ≤ count_order i s (all_orders r.levels) + others))
      (λ _. (u, h)) (λ _. (u, h))
      (λ _ e.
        sweep-live i s others taker ls best.progress inner.0
          (omega (arith, inner.1, count_by-is_empty (is_at i s) best.orders e)))
      (λ _ e.
        (inner.0, omega (arith, inner.1, count_by-append (is_at i s) best.orders (all_orders ls))))
  where
    best : LevelMatch
    best = best_match taker l ls p

    inner :
        (count_key i best.progress.id_index ≤ 1)
        × (count_entry i s best.progress.id_index
            ≤ count_order i s best.orders + (count_order i s (all_orders ls) + others))
    inner =
        match_orders-live i s (count_order i s (all_orders ls) + others) taker l.price l.total_qty
          l.orders p u (omega (arith, h, count_by-append (is_at i s) l.orders (all_orders ls)))

pub sweep_complete :
    (i others : ℕ) (taker : Order) (ls : List PriceLevel) (p : Progress)
    → count_key i p.id_index ≤ 1
    → count_id i (all_orders ls) + others ≤ count_key i p.id_index
    → let r = sweep taker ls p in
      count_id i (all_orders r.levels) + others ≤ count_key i r.progress.id_index
sweep_complete i others taker [] p u h = unfold sweep in h
sweep_complete i others taker (l ∷ ls) p u h =
    sweep_cases taker l ls p
      (λ r. count_id i (all_orders r.levels) + others ≤ count_key i r.progress.id_index) (λ _. h)
      (λ _. h)
      (λ _ e.
        sweep_complete i others taker ls best.progress unique
          (omega (arith, inner, count_by-is_empty (has_id i) best.orders e)))
      (λ _ e. omega (arith, inner, count_by-append (has_id i) best.orders (all_orders ls)))
  where
    best : LevelMatch
    best = best_match taker l ls p

    unique : count_key i best.progress.id_index ≤ 1
    unique =
        (match_orders-live i 0 (count_entry i 0 p.id_index) taker l.price l.total_qty l.orders p u
          (omega arith)).0

    inner :
        count_id i best.orders + (count_id i (all_orders ls) + others)
        ≤ count_key i best.progress.id_index
    inner =
        match_orders_complete i 0 (count_id i (all_orders ls) + others) taker l.price l.total_qty
          l.orders p u (omega (arith, h, count_by-append (has_id i) l.orders (all_orders ls)))
