-- ===== src/OrderBook/Priority.antt =====
-- Price-time priority: the trades of `match` against a greedy allocation over the offers in reach.
use mathlib.Core.List.{append-nil}
use orderbook_c.Base.{
  Bool-cases, List, [], ap, arith, if◌then◌else◌, inl, inr, length, min, refl, sub_sub, suc, sym,
  zero_sub, ℕ, ◌++◌, ◌+◌, ◌-◌, ◌==◌, ◌∙◌, ◌∷◌, ◌≡◌, ◌≤◌,
}
use orderbook_c.Base.Int.{ℤ}
use orderbook_c.OrderBook.Match.{
  Progress, fill_whole, match_book, match_orders, may_trade, trade_of,
}
use orderbook_c.OrderBook.State.{OrderBook, levels_of, opposite}
use orderbook_c.OrderBook.Sweep.{match_loop-sweep, match_orders-stops, sweep}
use orderbook_c.SideBook.{PriceLevel}
use orderbook_c.SideBook.Sorted.{IsSorted}
use orderbook_c.Types.{Order, Trade, sub64}

-- A resting order with the price of its level.
abbrev pub Offer : Type 0
Offer = ℤ × Order

abbrev pub offers_at : ℤ → List Order → List Offer
offers_at px [] = []
offers_at px (o ∷ os) = (px, o) ∷ offers_at px os

-- The offers that a taker may trade with: the levels from the best on, up to the first price that it
-- does not accept, and in each level the orders from the oldest on.
unfoldable pub reachable : Order → List PriceLevel → List Offer
reachable taker [] = []
reachable taker (l ∷ ls) =
    let more = offers_at l.price l.orders ++ reachable taker ls in
    if may_trade taker l.price then more else []

-- Each offer is taken whole before the next one is touched, until the quantity is used up.
unfoldable pub allocate : Order → ℕ → List Offer → List Trade
allocate taker q [] = []
allocate taker q ((px, o) ∷ os) =
    let more = trade_of taker px o (min q o.qty) ∷ allocate taker (q - o.qty) os in
    if q == 0 then [] else more

abbrev pub offered : List Offer → ℕ
offered [] = 0
offered ((px, o) ∷ os) = o.qty + offered os

allocate-zero : (taker : Order) (xs : List Offer) → allocate taker 0 xs ≡ []
unfolding allocate
allocate-zero taker [] = refl
allocate-zero taker ((px, o) ∷ xs) = refl

allocate-nil : (taker : Order) (q : ℕ) → allocate taker q [] ≡ []
unfolding allocate
allocate-nil taker q = refl

pub offered-append : (xs ys : List Offer) → offered (xs ++ ys) ≡ offered xs + offered ys
offered-append [] ys = omega arith
offered-append ((px, o) ∷ xs) ys = omega (arith, offered-append xs ys)

allocate-append :
    (taker : Order) (q : ℕ) (xs ys : List Offer)
    → allocate taker q (xs ++ ys) ≡ allocate taker q xs ++ allocate taker (q - offered xs) ys
unfolding allocate
allocate-append taker q [] ys = ap (λ k. allocate taker k ys) (omega arith)
allocate-append taker q ((px, o) ∷ xs) ys = ground (
  arith,
  allocate-append taker (q - o.qty) xs ys,
  allocate-zero taker ys,
  sub_sub q o.qty (offered xs),
  zero_sub (o.qty + offered xs),
)

allocate_over : (taker : Order) (q n : ℕ) (xs : List Offer) → q ≤ n → allocate taker (q - n) xs ≡ []
allocate_over taker q n xs h =
    ap (λ k. allocate taker k xs) (let e : q - n ≡ 0 = omega arith in e) ∙ allocate-zero taker xs

sub_min : (a b : ℕ) → b ≤ a → a - min a b ≡ a - b
sub_min a b h = omega arith

-- The inner loop allocates the taker's quantity over the level's orders.
pub match_orders-allocate :
    (taker : Order) (px : ℤ) (total : ℕ) (os : List Order) (p : Progress)
    → let r = match_orders taker px total os p in
      (r.trades ≡ allocate taker p.qty (offers_at px os))
      × (r.progress.qty ≡ p.qty - offered (offers_at px os))
unfolding match_orders allocate
match_orders-allocate taker px total [] p = (refl, omega arith)
match_orders-allocate taker px total (m ∷ os) p = ground (
  arith,
  match_orders-allocate taker px (sub64 total (min p.qty m.qty)) os (fill_whole m p),
  allocate_over taker p.qty m.qty (offers_at px os),
  sub_min p.qty m.qty,
)

-- The whole of `sweep` allocates it over the offers in reach.
pub sweep-allocate :
    (taker : Order) (ls : List PriceLevel) (p : Progress)
    → let r = sweep taker ls p in
      (r.trades ≡ allocate taker p.qty (reachable taker ls))
      × (r.progress.qty ≡ p.qty - offered (reachable taker ls))
unfolding sweep reachable
sweep-allocate taker [] p = (sym (allocate-nil taker p.qty), omega arith)
sweep-allocate taker (l ∷ ls) p = elim (Bool-cases (may_trade taker l.price)) [
  | inl e ↦ rw e (
      ground (
        arith,
        sweep-allocate taker ls (match_orders taker l.price l.total_qty l.orders p).progress,
        match_orders-allocate taker l.price l.total_qty l.orders p,
        match_orders-stops taker l.price l.total_qty l.orders p,
        allocate-append taker p.qty (offers_at l.price l.orders) (reachable taker ls),
        offered-append (offers_at l.price l.orders) (reachable taker ls),
        allocate-zero taker (reachable taker ls),
        allocate-zero taker (offers_at l.price l.orders ++ reachable taker ls),
        append-nil (allocate taker p.qty (offers_at l.price l.orders)),
      ))
  | inr e ↦ rw e (ground (arith, allocate-nil taker p.qty))
]

-- `match` trades in price-time priority: on a sorted opposite side its trades are the greedy
-- allocation of the taker's quantity over the offers in reach, and what is left is what those offers
-- fall short of.
pub match_book-allocate :
    (taker : Order) (b : OrderBook)
    → IsSorted (opposite taker.side) (levels_of (opposite taker.side) b)
    → let (b', p, ts) = match_book taker b in
      let reach = reachable taker (levels_of (opposite taker.side) b) in
      (ts ≡ allocate taker taker.qty reach) × (p.qty ≡ taker.qty - offered reach)
unfolding match_book
match_book-allocate taker b s =
    rw (match_loop-sweep (suc (length ls)) taker ls start s (omega arith))
      (sweep-allocate taker ls start)
  where
    ls : List PriceLevel
    ls = levels_of (opposite taker.side) b

    start : Progress
    start = record { qty = taker.qty; id_index = b.id_index; free = b.free }
