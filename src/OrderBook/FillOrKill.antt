-- ===== src/OrderBook/FillOrKill.antt =====
-- Fill-or-kill orders: the check in `submit` against what `match` would trade.
use orderbook_c.Base.{
  All, List, [], arith, if◌then◌else◌, leb, min, refl, subst, sym, true, ℕ, ◌%◌, ◌+◌, ◌-◌, ◌<◌, ◌∷◌,
  ◌≡◌, ◌≤◌,
}
use orderbook_c.Base.Int.{ℤ}
use orderbook_c.OrderBook.Invariant.{IsBook, IsSide-of}
use orderbook_c.OrderBook.Match.{may_trade}
use orderbook_c.OrderBook.Priority.{
  Offer, allocate, match_book-allocate, offered, offered-append, offers_at, reachable,
}
use orderbook_c.OrderBook.State.{OrderBook, levels_of, levels_of-slot, opposite, release}
use orderbook_c.OrderBook.Submit.{
  fok_needed, is_killed, new_order, place, submit, submit-place, tick_clock,
}
use orderbook_c.SideBook.{PriceLevel}
use orderbook_c.SideBook.Levels.{IsLevel, sum_qty}
use orderbook_c.Types.{Order, Side, Trade, fok, u64_mod}

abbrev pub traded : List Trade → ℕ
traded [] = 0
traded (t ∷ ts) = t.qty + traded ts

pub traded-allocate :
    (taker : Order) (q : ℕ) (xs : List Offer) → traded (allocate taker q xs) ≡ min q (offered xs)
unfolding allocate
traded-allocate taker q [] = omega arith
traded-allocate taker q ((px, o) ∷ xs) = ground (arith, traded-allocate taker (q - o.qty) xs)

-- No level of a side holds so much that its total wraps.
abbrev pub NoWrap : List PriceLevel → Type 0
NoWrap ls = All (λ l. sum_qty l.orders < u64_mod) ls

offered-offers_at : (px : ℤ) (os : List Order) → offered (offers_at px os) ≡ sum_qty os
offered-offers_at px [] = refl
offered-offers_at px (o ∷ os) = omega (arith, offered-offers_at px os)

fok_needed-zero : (s : Side) (p : ℤ) (ls : List PriceLevel) → fok_needed s p 0 ls ≡ 0
unfolding fok_needed
fok_needed-zero s p [] = refl
fok_needed-zero s p (l ∷ ls) = refl

-- The check counts exactly what is in reach.
fok_needed-offered :
    (taker : Order) (s : Side) (q : ℕ) (ls : List PriceLevel)
    → taker.type ≡ fok
    → All (IsLevel s) ls
    → NoWrap ls
    → fok_needed taker.side taker.price q ls ≡ q - offered (reachable taker ls)
unfolding fok_needed reachable may_trade
fok_needed-offered taker s q [] k v n = omega arith
fok_needed-offered taker s q (l ∷ ls) k v n = ground (
  arith,
  fok_needed-offered taker s (if leb q l.total_qty then 0 else q - l.total_qty) ls k v.1 n.1,
  fok_needed-zero taker.side taker.price ls,
  offered-offers_at l.price l.orders,
  offered-append (offers_at l.price l.orders) (reachable taker ls),
  level_total l.total_qty (sum_qty l.orders) v.0.total n.0,
)
  where
    level_total : (t n : ℕ) → t ≡ n % u64_mod → n < u64_mod → t ≡ n
    level_total t n e h = omega arith

place_fok :
    (o : Order) (b : OrderBook)
    → o.type ≡ fok
    → IsBook b
    → NoWrap (levels_of (opposite o.side) b)
    → let reach = reachable o (levels_of (opposite o.side) b) in
      (o.qty ≤ offered reach → traded (place o b).trades ≡ o.qty)
      × (offered reach < o.qty
          → place o b ≡ record { accepted = true; trades = []; book = release o.slot b })
unfolding place is_killed
place_fok o b k v n = ground (
  arith,
  fok_needed-offered o (opposite o.side) o.qty ls k (IsSide-of (opposite o.side) b v).levels n,
  match_book-allocate o b (IsSide-of (opposite o.side) b v).sorted,
  traded-allocate o o.qty (reachable o ls),
)
  where
    ls : List PriceLevel
    ls = levels_of (opposite o.side) b

-- A fill-or-kill order is all or nothing. If the offers in reach cover its quantity, its trades add
-- up to that quantity; if they do not, it trades nothing and leaves the book as it was, but for the
-- clock. The levels' totals must not have wrapped, and the pool must have a slot for the order.
pub submit_fok :
    (b : OrderBook) (id : ℕ) (side : Side) (price : ℤ) (qty ts s : ℕ) (free : List ℕ)
    → b.free ≡ s ∷ free
    → 0 < qty
    → IsBook b
    → NoWrap (levels_of (opposite side) b)
    → let taker = new_order s id side fok price qty ts b.clock in
      let reach = reachable taker (levels_of (opposite side) b) in
      let r = submit b id side fok price qty ts in
      (qty ≤ offered reach → traded r.trades ≡ qty)
      × (offered reach < qty
          → (r.trades ≡ []) × (r.book ≡ record b { clock = tick_clock ts b.clock }))
submit_fok b id side price qty ts s free e h v n =
    rw (submit-place b id side fok price qty ts s free e h)
      ((λ q. done.0 (rw same q)), (λ q. ground (arith, done.1 (rw same q), e)))
  where
    rest_of : OrderBook
    rest_of = record b { free = free; clock = tick_clock ts b.clock }

    same : levels_of (opposite side) rest_of ≡ levels_of (opposite side) b
    same = levels_of-slot (opposite side) b free (tick_clock ts b.clock)

    taker : Order
    taker = new_order s id side fok price qty ts b.clock

    done :
        (qty ≤ offered (reachable taker (levels_of (opposite side) rest_of))
          → traded (place taker rest_of).trades ≡ qty)
        × (offered (reachable taker (levels_of (opposite side) rest_of)) < qty
            → place taker rest_of
              ≡ record { accepted = true; trades = []; book = release s rest_of })
    done =
        place_fok taker rest_of refl (record { bids = v.bids; asks = v.asks; apart = v.apart })
          (subst NoWrap (sym same) n)
