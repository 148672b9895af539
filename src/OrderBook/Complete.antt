-- ===== src/OrderBook/Complete.antt =====
-- Where no id is submitted twice, the index knows every resting order.
pub mod Run
use orderbook_c.Base.{
  Bool-cases, List, [], arith, inl, inr, ltb, min, ℕ, ◌&&◌, ◌+◌, ◌==◌, ◌∷◌, ◌≡◌, ◌≤◌,
}
use orderbook_c.Base.Int.{ℤ}
use orderbook_c.OrderBook.Ids.{
  IsComplete, count_id, count_key, count_key-emplace_fresh, count_key-erase_id, has_id,
}
use orderbook_c.OrderBook.Ids.Calls.{IsIndexed, resting, resting_side, resting_with_levels}
use orderbook_c.OrderBook.Ids.Cancel.{find_id_of_key}
use orderbook_c.OrderBook.Ids.Match.{sweep_complete}
use orderbook_c.OrderBook.Invariant.{IsBook, IsSide-of, match_book-IsBook, match_book-sweep}
use orderbook_c.OrderBook.Match.{
  BookMatch, Progress, fill_whole, match_book, match_orders, start_of,
}
use orderbook_c.OrderBook.State.{OrderBook, emplace, levels_of, opposite, put_levels}
use orderbook_c.OrderBook.Submit.{is_killed, is_limit, place, rest}
use orderbook_c.OrderBook.Sweep.{best_match, sweep, sweep_cases}
use orderbook_c.SideBook.{PriceLevel, all_orders}
use orderbook_c.SideBook.Counts.{count_by-put_in, one_if}
use orderbook_c.SideBook.Insert.{get_or_insert-put_in, put_in}
use orderbook_c.Types.{Order, Side, sub64}

module _ (i : ℕ) where
  match_orders-key :
      (taker : Order) (px : ℤ) (total : ℕ) (os : List Order) (p : Progress)
      → count_key i (match_orders taker px total os p).progress.id_index ≤ count_key i p.id_index
  unfolding match_orders
  match_orders-key taker px total [] p = omega arith
  match_orders-key taker px total (m ∷ os) p = ground (
    arith,
    match_orders-key taker px (sub64 total (min p.qty m.qty)) os (fill_whole m p),
    count_key-erase_id m.id i p.id_index,
  )

  -- `match` adds nothing to the index.
  sweep-key :
      (taker : Order) (ls : List PriceLevel) (p : Progress)
      → count_key i (sweep taker ls p).progress.id_index ≤ count_key i p.id_index
  sweep-key taker [] p = unfold sweep in omega arith
  sweep-key taker (l ∷ ls) p =
      sweep_cases taker l ls p (λ r. count_key i r.progress.id_index ≤ count_key i p.id_index)
        (λ _. omega arith) (λ _. omega arith)
        (λ _ e. omega (arith, inner, sweep-key taker ls (best_match taker l ls p).progress))
        (λ _ e. inner)
    where
      inner : count_key i (best_match taker l ls p).progress.id_index ≤ count_key i p.id_index
      inner = match_orders-key taker l.price l.total_qty l.orders p

abbrev pub Complete : OrderBook → Type 0
Complete b = IsComplete b.id_index (resting b)

match_book-Complete :
    (taker : Order) (b : OrderBook)
    → IsBook b
    → IsIndexed b
    → Complete b
    → Complete (match_book taker b).0
      × ((i : ℕ) → count_key i (match_book taker b).0.id_index ≤ count_key i b.id_index)
match_book-Complete taker b v x c = rw (match_book-sweep taker b v) (
  (λ i. omega (
    arith,
    kept i,
    resting_with_levels (has_id i) o r.levels r.progress.id_index r.progress.free b,
  )),
  λ i. sweep-key i taker (levels_of o b) (start_of taker b),
)
  where
    o : Side
    o = opposite taker.side

    r : BookMatch
    r = sweep taker (levels_of o b) (start_of taker b)

    kept :
        (i : ℕ)
        → count_id i (all_orders r.levels) + count_id i (all_orders (levels_of (opposite o) b))
          ≤ count_key i r.progress.id_index
    kept i =
        sweep_complete i (count_id i (all_orders (levels_of (opposite o) b))) taker (levels_of o b)
          (start_of taker b) (x.unique i) (omega (arith, c i, resting_side (has_id i) o b))

-- An order with an id that the index does not know rests.
rest-Complete :
    (o : Order) (b : OrderBook)
    → IsBook b
    → count_key o.id b.id_index ≡ 0
    → Complete b
    → Complete (rest o b)
      × ((i : ℕ) → count_key i (rest o b).id_index ≡ one_if (o.id == i) + count_key i b.id_index)
unfolding rest
rest-Complete o b v fresh c =
    let new = find_id_of_key o.id b.id_index fresh in
    rw (get_or_insert-put_in o.side o (levels_of o.side b) (IsSide-of o.side b v).sorted) (
      (λ i. omega (
        arith,
        c i,
        count_key-emplace_fresh o.id o.slot i b.id_index new,
        resting_side (has_id i) o.side b,
        count_by-put_in (has_id i) o.side o (levels_of o.side b),
        resting_with_levels (has_id i) o.side (put_in o.side o (levels_of o.side b))
            (emplace o.id o.slot b.id_index)
            (put_levels o.side (put_in o.side o (levels_of o.side b)) b).free b,
      )),
      λ i. count_key-emplace_fresh o.id o.slot i b.id_index new,
    )

-- The index after a call on a book knows every resting order, and at most one id more than before.
abbrev pub Grows : OrderBook → OrderBook → ℕ → Type 0
Grows b b' id =
    Complete b' × ((i : ℕ) → count_key i b'.id_index ≤ one_if (id == i) + count_key i b.id_index)

pub place-Complete :
    (o : Order) (b : OrderBook)
    → IsBook b
    → IsIndexed b
    → count_key o.id b.id_index ≡ 0
    → Complete b
    → Grows b (place o b).book o.id
unfolding place
place-Complete o b v x fresh c = elim (Bool-cases (is_killed o b)) [
  | inl k ↦ rw k (c, λ i. omega arith)
  | inr k ↦ rw k (elim (Bool-cases (ltb 0 p.qty && is_limit o.type)) [
    | inl r ↦
        let rested =
          rest-Complete (record o { qty = p.qty }) b' (match_book-IsBook o b v)
            (omega (arith, m.1 o.id)) m.0 in
        rw r (rested.0, λ i. omega (arith, rested.1 i, m.1 i))
    | inr r ↦ rw r (m.0, λ i. omega (arith, m.1 i))
  ])
]
  where
    b' : OrderBook
    b' = (match_book o b).0

    p : Progress
    p = (match_book o b).1

    m : Complete b' × ((i : ℕ) → count_key i b'.id_index ≤ count_key i b.id_index)
    m = match_book-Complete o b v x c
