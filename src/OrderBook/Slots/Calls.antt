-- ===== src/OrderBook/Slots/Calls.antt =====
-- `submit` and `cancel` keep every slot's use.
use orderbook_c.Base.{
  Bool, Bool-cases, List, Option-cases, [], ap, arith, inl, inr, none-ne-some, refl, second_of_some,
  some, sym, ℕ, ◌++◌, ◌+◌, ◌==◌, ◌∙◌, ◌∷◌, ◌≡◌,
}
use orderbook_c.Base.Int.{ℤ}
use orderbook_c.OrderBook.Cancel.{cancel, without}
use orderbook_c.OrderBook.Invariant.{
  IsBook, IsSide-of, match_book-IsBook, match_book-sweep, with_levels,
}
use orderbook_c.OrderBook.Invariant.Cancel.{order_at-side}
use orderbook_c.OrderBook.Match.{BookMatch, match_book, start_of}
use orderbook_c.OrderBook.Slots.{count, count_levels, stands_in, sweep-count, uses}
use orderbook_c.OrderBook.State.{
  Index, OrderBook, emplace, erase_id, find_id, levels_of, opposite, put_levels,
}
use orderbook_c.OrderBook.Submit.{new_order, place, rest, submit, submit_with, tick_clock}
use orderbook_c.OrderBook.Sweep.{sweep}
use orderbook_c.SideBook.{PriceLevel, all_orders, order_at}
use orderbook_c.SideBook.Counts.{count_by-put_in, count_by-take_out, one_if}
use orderbook_c.SideBook.Held.{order_at-slot}
use orderbook_c.SideBook.Insert.{get_or_insert-put_in, put_in}
use orderbook_c.SideBook.Remove.{take_out, unlink_in-take_out}
use orderbook_c.Types.{Order, OrderType, Side, buy, sell}

uses-side :
    (k : ℕ) (s : Side) (b : OrderBook)
    → uses k b
      ≡ count k b.free + count_levels k (levels_of s b) + count_levels k (levels_of (opposite s) b)
uses-side k buy b = refl
uses-side k sell b = omega arith

uses-with_levels :
    (k : ℕ) (s : Side) (ls : List PriceLevel) (index : Index) (free : List ℕ) (b : OrderBook)
    → uses k (with_levels s ls index free b)
      ≡ count k free + count_levels k ls + count_levels k (levels_of (opposite s) b)
uses-with_levels k buy ls index free b = refl
uses-with_levels k sell ls index free b = omega arith

free-put_levels :
    (s : Side) (ls : List PriceLevel) (b : OrderBook) → (put_levels s ls b).free ≡ b.free
free-put_levels buy ls b = refl
free-put_levels sell ls b = refl

match_book-uses :
    (k : ℕ) (taker : Order) (b : OrderBook) → IsBook b → uses k (match_book taker b).0 ≡ uses k b
match_book-uses k taker b v = rw (match_book-sweep taker b v) (
    omega (
      arith,
      uses-with_levels k o r.levels r.progress.id_index r.progress.free b,
      uses-side k o b,
      sweep-count k taker (levels_of o b) (start_of taker b),
    ))
  where
    o : Side
    o = opposite taker.side

    r : BookMatch
    r = sweep taker (levels_of o b) (start_of taker b)

rest-uses :
    (k : ℕ) (o : Order) (b : OrderBook)
    → IsBook b
    → uses k (rest o b) ≡ one_if (o.slot == k) + uses k b
unfolding rest
rest-uses k o b v = rw (get_or_insert-put_in o.side o ls (IsSide-of o.side b v).sorted) (
    omega (
      arith,
      uses-with_levels k o.side (put_in o.side o ls) (emplace o.id o.slot b.id_index)
          (put_levels o.side (put_in o.side o ls) b).free b,
      ap (count k) (free-put_levels o.side (put_in o.side o ls) b),
      uses-side k o.side b,
      count_by-put_in (stands_in k) o.side o ls,
    ))
  where
    ls : List PriceLevel
    ls = levels_of o.side b

place-uses :
    (k : ℕ) (o : Order) (b : OrderBook)
    → IsBook b
    → uses k (place o b).book ≡ one_if (o.slot == k) + uses k b
unfolding place
place-uses k o b v = ground (
  arith,
  match_book-uses k o b v,
  rest-uses k (record o { qty = (match_book o b).1.qty }) (match_book o b).0
      (match_book-IsBook o b v),
)

-- `submit` neither loses a slot nor uses one twice: every slot occurs as often as before in the free
-- list and among the resting orders together.
pub submit-uses :
    (k : ℕ) (b : OrderBook) (id : ℕ) (side : Side) (type : OrderType) (price : ℤ) (qty ts : ℕ)
    → IsBook b
    → uses k (submit b id side type price qty ts).book ≡ uses k b
unfolding submit
submit-uses k b id side type price qty ts v = elim (Bool-cases (qty == 0)) [
  | inl z ↦ rw z refl
  | inr z ↦ rw z (go b.free refl)
]
  where
    go :
        (free : List ℕ)
        → b.free ≡ free
        → uses k (submit_with free b id side type price qty ts).book ≡ uses k b
    go [] e = unfold submit_with in refl
    go (s ∷ free) e =
        unfold submit_with in
        omega (
          arith,
          place-uses k (new_order s id side type price qty ts b.clock)
              (record b { free = free; clock = tick_clock ts b.clock })
              (record { bids = v.bids; asks = v.asks; apart = v.apart }),
          ap (count k) e,
        )

without-uses :
    (k : ℕ) (b : OrderBook) (id s : ℕ) (o : Order)
    → IsBook b
    → o.slot ≡ s
    → order_at o.slot (all_orders (levels_of o.side b)) ≡ some o
    → uses k (without b id s o) ≡ uses k b
without-uses k b id s o v e h =
    rw (unlink_in-take_out o ls (IsSide-of o.side b v).sorted, ← e)
      (omega (
        arith,
        uses-with_levels k o.side (take_out o ls) (erase_id id b.id_index)
            (o.slot ∷ (put_levels o.side (take_out o ls) b).free) b,
        ap (count k) (free-put_levels o.side (take_out o ls) b),
        uses-side k o.side b,
        count_by-take_out (stands_in k) o ls (IsSide-of o.side b v) h,
      ))
  where
    ls : List PriceLevel
    ls = levels_of o.side b

-- `cancel` gives the order's slot back to the free list, and keeps the use of every slot.
pub cancel-uses :
    (k : ℕ) (b b' : OrderBook) (id : ℕ) (found : Bool)
    → IsBook b
    → cancel b id ≡ some (found, b')
    → uses k b' ≡ uses k b
unfolding cancel
cancel-uses k b b' id found v h = elim (Option-cases (find_id id b.id_index)) [
  | inl e ↦ ap (uses k) (sym (second_of_some (rw (e, cancel) at h)))
  | inr (s, e) ↦ elim (Option-cases (order_at s (all_orders b.bids ++ all_orders b.asks))) [
    | inl n ↦ none-ne-some (rw (e, n, cancel) at h)
    | inr (o, n) ↦
        ap (uses k) (sym (second_of_some (rw (e, n, cancel) at h)))
        ∙ without-uses k b id s o v (order_at-slot s _ o n) (order_at-side b s o v n)
  ]
]
