-- ===== src/OrderBook/Ids/Calls.antt =====
-- `submit` and `cancel` keep the index in step with the resting orders.
use orderbook_c.Base.{
  Bool, Bool-cases, List, [], ap, arith, inl, inr, ltb, some, ℕ, ◌&&◌, ◌++◌, ◌+◌, ◌==◌, ◌∷◌, ◌≡◌,
  ◌≤◌,
}
use orderbook_c.Base.Int.{ℤ}
use orderbook_c.OrderBook.Ids.{
  IsIndex, count_entry, count_entry-emplace, count_key, count_key-emplace, count_order,
  find_id-entry, id_of_count, is_at, order_at_of_count,
}
use orderbook_c.OrderBook.Ids.Match.{sweep-live}
use orderbook_c.OrderBook.Invariant.{
  IsBook, IsSide-of, levels_of-other, levels_of-same, match_book-IsBook, match_book-sweep,
  with_levels,
}
use orderbook_c.OrderBook.Match.{BookMatch, Progress, match_book, start_of}
use orderbook_c.OrderBook.Slots.{stands_in, uses}
use orderbook_c.OrderBook.State.{
  Index, OrderBook, emplace, find_id, levels_of, opposite, put_levels,
}
use orderbook_c.OrderBook.Submit.{
  is_killed, is_limit, new_order, place, rest, submit, submit_with, tick_clock,
}
use orderbook_c.OrderBook.Sweep.{sweep}
use orderbook_c.SideBook.{PriceLevel, all_orders, order_at}
use orderbook_c.SideBook.Counts.{count_by, count_by-append, count_by-put_in}
use orderbook_c.SideBook.Insert.{get_or_insert-put_in, put_in}
use orderbook_c.Types.{Order, OrderType, Side, buy, sell}

-- Every order that rests in the book.
abbrev pub resting : OrderBook → List Order
resting b = all_orders b.bids ++ all_orders b.asks

abbrev pub IsIndexed : OrderBook → Type 0
IsIndexed b = IsIndex b.id_index (resting b)

-- How often a test passes among the resting orders, from one side and the other.
pub resting_side :
    (f : Order → Bool) (s : Side) (b : OrderBook)
    → count_by f (resting b)
      ≡ count_by f (all_orders (levels_of s b)) + count_by f (all_orders (levels_of (opposite s) b))
resting_side f buy b = count_by-append f (all_orders b.bids) (all_orders b.asks)
resting_side f sell b = omega (arith, count_by-append f (all_orders b.bids) (all_orders b.asks))

-- The same after a change of one side.
pub resting_with_levels :
    (f : Order → Bool) (s : Side) (ls : List PriceLevel) (index : Index) (free : List ℕ)
    (b : OrderBook)
    → count_by f (resting (with_levels s ls index free b))
      ≡ count_by f (all_orders ls) + count_by f (all_orders (levels_of (opposite s) b))
resting_with_levels f s ls index free b = omega (
  arith,
  resting_side f s (with_levels s ls index free b),
  ap (λ r. count_by f (all_orders r)) (levels_of-same s ls index free b),
  ap (λ r. count_by f (all_orders r)) (levels_of-other s ls index free b),
)

match_book-IsIndexed :
    (taker : Order) (b : OrderBook) → IsBook b → IsIndexed b → IsIndexed (match_book taker b).0
match_book-IsIndexed taker b v x = rw (match_book-sweep taker b v) (record {
  unique = λ i. (kept i 0).0;
  live = λ i s. omega (
    arith,
    (kept i s).1,
    resting_with_levels (is_at i s) o r.levels r.progress.id_index r.progress.free b,
  );
})
  where
    o : Side
    o = opposite taker.side

    r : BookMatch
    r = sweep taker (levels_of o b) (start_of taker b)

    kept :
        (i s : ℕ)
        → (count_key i r.progress.id_index ≤ 1)
          × (count_entry i s r.progress.id_index
              ≤ count_order i s (all_orders r.levels)
                + count_order i s (all_orders (levels_of (opposite o) b)))
    kept i s =
        sweep-live i s (count_order i s (all_orders (levels_of (opposite o) b))) taker
          (levels_of o b) (start_of taker b) (x.unique i)
          (omega (arith, x.live i s, resting_side (is_at i s) o b))

rest-IsIndexed : (o : Order) (b : OrderBook) → IsBook b → IsIndexed b → IsIndexed (rest o b)
unfolding rest
rest-IsIndexed o b v x =
    rw (get_or_insert-put_in o.side o (levels_of o.side b) (IsSide-of o.side b v).sorted) (record {
      unique = λ i. count_key-emplace o.id o.slot i b.id_index (x.unique i);
      live = λ i s. omega (
        arith,
        count_entry-emplace o.id o.slot i s b.id_index,
        x.live i s,
        resting_side (is_at i s) o.side b,
        count_by-put_in (is_at i s) o.side o (levels_of o.side b),
        resting_with_levels (is_at i s) o.side (put_in o.side o (levels_of o.side b))
            (emplace o.id o.slot b.id_index)
            (put_levels o.side (put_in o.side o (levels_of o.side b)) b).free b,
      );
    })

place-IsIndexed : (o : Order) (b : OrderBook) → IsBook b → IsIndexed b → IsIndexed (place o b).book
unfolding place
place-IsIndexed o b v x = elim (Bool-cases (is_killed o b)) [
  | inl k ↦ rw k x
  | inr k ↦ rw k (elim (Bool-cases (ltb 0 p.qty && is_limit o.type)) [
    | inl r ↦ rw r (rest-IsIndexed (record o { qty = p.qty }) b' (match_book-IsBook o b v) x')
    | inr r ↦ rw r x'
  ])
]
  where
    b' : OrderBook
    b' = (match_book o b).0

    p : Progress
    p = (match_book o b).1

    x' : IsIndexed b'
    x' = match_book-IsIndexed o b v x

-- `submit` keeps the index sound: no id is in it twice, and each entry leads to a resting order with
-- that id. The new order's id need not be new.
pub submit-IsIndexed :
    (b : OrderBook) (id : ℕ) (side : Side) (type : OrderType) (price : ℤ) (qty ts : ℕ)
    → IsBook b
    → IsIndexed b
    → IsIndexed (submit b id side type price qty ts).book
unfolding submit
submit-IsIndexed b id side type price qty ts v x = elim (Bool-cases (qty == 0)) [
  | inl z ↦ rw z x
  | inr z ↦ rw z (go b.free)
]
  where
    go : (free : List ℕ) → IsIndexed (submit_with free b id side type price qty ts).book
    go [] = unfold submit_with in x
    go (s ∷ free) =
        unfold submit_with in
        place-IsIndexed (new_order s id side type price qty ts b.clock)
          (record b { free = free; clock = tick_clock ts b.clock })
          (record { bids = v.bids; asks = v.asks; apart = v.apart }) x

-- Every slot is used at most once.
abbrev pub NoSharing : OrderBook → Type 0
NoSharing b = (k : ℕ) → uses k b ≤ 1

-- What the index names rests in the book, under that id.
pub find_id-resting :
    (b : OrderBook) (id s : ℕ)
    → IsIndexed b
    → NoSharing b
    → find_id id b.id_index ≡ some s
    → (o : Order) × (order_at s (resting b) ≡ some o) × (o.id ≡ id)
find_id-resting b id s x n h =
    let (o, f) = order_at_of_count id s (resting b) there in
    (
      o,
      f,
      id_of_count id s (resting b) o
          (omega
            (arith, n s, count_by-append (stands_in s) (all_orders b.bids) (all_orders b.asks)))
          f there,
    )
  where
    there : 1 ≤ count_order id s (resting b)
    there = omega (arith, x.live id s, find_id-entry id s b.id_index h)
