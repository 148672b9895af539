-- ===== src/OrderBook/Ended.antt =====
-- Every call of `match` (src/order_book.cpp) comes back.
use orderbook_c.Base.{
  Bool, Bool-cases, List, Option-cases, [], ap, arith, inl, inr, modify_at, none-ne-some, refl,
  second_of_some, some, sym, ℕ, ◌++◌, ◌==◌, ◌∙◌, ◌∷◌, ◌≡◌,
}
use orderbook_c.Base.Int.{ℤ}
use orderbook_c.OrderBook.Cancel.{cancel}
use orderbook_c.OrderBook.Invariant.{IsBook, match_book-sweep}
use orderbook_c.OrderBook.Match.{match_book, start_of}
use orderbook_c.OrderBook.State.{OrderBook, find_id, levels_of, opposite, put_levels}
use orderbook_c.OrderBook.Submit.{place, rest, submit, submit_with, tick_clock}
use orderbook_c.OrderBook.Sweep.{sweep}
use orderbook_c.SideBook.{PriceLevel, all_orders, get_or_insert, order_at, push_back}
use orderbook_c.SideBook.Remove.{unlink_in}
use orderbook_c.Types.{Order, OrderType, Side, buy, sell}

stuck-put_levels :
    (s : Side) (ls : List PriceLevel) (b : OrderBook) → (put_levels s ls b).stuck ≡ b.stuck
stuck-put_levels buy ls b = refl
stuck-put_levels sell ls b = refl

match_book-stuck :
    (taker : Order) (b : OrderBook) → IsBook b → (match_book taker b).0.stuck ≡ b.stuck
match_book-stuck taker b v = rw (match_book-sweep taker b v) (
    stuck-put_levels (opposite taker.side)
      (sweep taker (levels_of (opposite taker.side) b) (start_of taker b)).levels b)

rest-stuck : (o : Order) (b : OrderBook) → (rest o b).stuck ≡ b.stuck
unfolding rest
rest-stuck o b =
    let (i, ls) = get_or_insert o.side o.price (levels_of o.side b) in
    stuck-put_levels o.side (modify_at ls i (push_back o)) b

place-stuck : (o : Order) (b : OrderBook) → IsBook b → (place o b).book.stuck ≡ b.stuck
unfolding place
place-stuck o b v = ground (
  arith,
  match_book-stuck o b v,
  rest-stuck (record o { qty = (match_book o b).1.qty }) (match_book o b).0,
)

pub submit-stuck :
    (b : OrderBook) (id : ℕ) (side : Side) (type : OrderType) (price : ℤ) (qty ts : ℕ)
    → IsBook b
    → (submit b id side type price qty ts).book.stuck ≡ b.stuck
unfolding submit
submit-stuck b id side type price qty ts v = elim (Bool-cases (qty == 0)) [
  | inl z ↦ rw z refl
  | inr z ↦ rw z (by_slots b.free)
]
  where
    by_slots : (free : List ℕ) → (submit_with free b id side type price qty ts).book.stuck ≡ b.stuck
    by_slots [] = unfold submit_with in refl
    by_slots (s ∷ free) =
        unfold submit_with in
        place-stuck _ (record b { free = free; clock = tick_clock ts b.clock })
          (record { bids = v.bids; asks = v.asks; apart = v.apart })

pub cancel-stuck :
    (b b' : OrderBook) (id : ℕ) (found : Bool) → cancel b id ≡ some (found, b') → b'.stuck ≡ b.stuck
unfolding cancel
cancel-stuck b b' id found h = elim (Option-cases (find_id id b.id_index)) [
  | inl e ↦ ap (λ c. c.stuck) (sym (second_of_some (rw (e, cancel) at h)))
  | inr (s, e) ↦ elim (Option-cases (order_at s (all_orders b.bids ++ all_orders b.asks))) [
    | inl n ↦ none-ne-some (rw (e, n, cancel) at h)
    | inr (o, n) ↦
        ap (λ c. c.stuck) (sym (second_of_some (rw (e, n, cancel) at h)))
        ∙ stuck-put_levels o.side (unlink_in o (levels_of o.side b)) b
  ]
]
