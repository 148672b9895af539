-- ===== src/OrderBook/Invariant/Submit.antt =====
-- `submit` keeps the invariant of the book.
use orderbook_c.Base.{
  Bool-cases, List, [], arith, false, inl, inr, ltb, refl, true, ℕ, ◌&&◌, ◌<◌, ◌==◌, ◌∷◌, ◌≡◌,
}
use orderbook_c.Base.Int.{ℤ}
use orderbook_c.OrderBook.Invariant.{
  IsBook, match_book-Clear, match_book-IsBook, match_book-qty-le, rest-IsBook,
}
use orderbook_c.OrderBook.Match.{Progress, is_market, match_book}
use orderbook_c.OrderBook.State.{OrderBook, release}
use orderbook_c.OrderBook.Submit.{is_killed, is_limit, place, submit, submit_with, tick_clock}
use orderbook_c.Types.{Order, OrderType, Side, limit, u64_mod}

not_market_of_limit : (t : OrderType) → is_limit t ≡ true → is_market t ≡ false
not_market_of_limit limit h = refl
not_market_of_limit t h = cc

IsBook-release : (s : ℕ) (b : OrderBook) → IsBook b → IsBook (release s b)
IsBook-release s b v = record { bids = v.bids; asks = v.asks; apart = v.apart }

place-IsBook : (o : Order) (b : OrderBook) → IsBook b → o.qty < u64_mod → IsBook (place o b).book
unfolding place
place-IsBook o b v lt = elim (Bool-cases (is_killed o b)) [
  | inl k ↦ rw k (IsBook-release o.slot b v)
  | inr k ↦ rw k (elim (Bool-cases (ltb 0 p.qty && is_limit o.type)) [
    | inl r ↦ rw r (
        rest-IsBook (record o { qty = p.qty }) b' (match_book-IsBook o b v)
          (record {
            side_eq = refl;
            price_eq = refl;
            qty_pos = ground arith;
            qty_lt = omega (arith, match_book-qty-le o b v);
          })
          (match_book-Clear o b v (not_market_of_limit o.type (ground arith)) (ground arith)))
    | inr r ↦ rw r (IsBook-release o.slot b' (match_book-IsBook o b v))
  ])
]
  where
    b' : OrderBook
    b' = (match_book o b).0

    p : Progress
    p = (match_book o b).1

-- `submit` keeps the invariant: the levels stay sorted, without an empty one and with exact totals,
-- and the book does not become crossed.
pub submit-IsBook :
    (b : OrderBook) (id : ℕ) (side : Side) (type : OrderType) (price : ℤ) (qty ts : ℕ)
    → IsBook b
    → qty < u64_mod
    → IsBook (submit b id side type price qty ts).book
unfolding submit
submit-IsBook b id side type price qty ts v lt = elim (Bool-cases (qty == 0)) [
  | inl z ↦ rw z v
  | inr z ↦ rw z (go b.free)
]
  where
    go : (free : List ℕ) → IsBook (submit_with free b id side type price qty ts).book
    go [] = unfold submit_with in v
    go (s ∷ free) =
        unfold submit_with in
        place-IsBook _ (record b { free = free; clock = tick_clock ts b.clock })
          (record { bids = v.bids; asks = v.asks; apart = v.apart }) lt
