-- ===== src/OrderBook/Outcome.antt =====
-- The whole effect of `submit` on the trades and on both sides of the book.
use mathlib.Core.Path.{subst₂}
use orderbook_c.Base.{
  Bool-cases, List, ap, false, if◌then◌else◌, inl, inr, ltb, refl, subst, true, ℕ, ◌&&◌, ◌++◌, ◌-◌,
  ◌<◌, ◌∙◌, ◌∷◌, ◌≡◌, ◌≢◌,
}
use orderbook_c.Base.Int.{ℤ}
use orderbook_c.OrderBook.Invariant.{
  IsBook, IsSide-of, levels_of-other, levels_of-same, match_book-IsBook, match_book-sweep,
  opposite-opposite, with_levels,
}
use orderbook_c.OrderBook.Match.{BookMatch, Progress, match_book, start_of}
use orderbook_c.OrderBook.Priority.{allocate, match_book-allocate, offered, reachable}
use orderbook_c.OrderBook.Remaining.{beyond, consume, match_book-consume, offers}
use orderbook_c.OrderBook.State.{OrderBook, levels_of, levels_of-slot, opposite, release}
use orderbook_c.OrderBook.Submit.{
  Submitted, is_fok, is_killed, is_limit, new_order, place, rest, submit, submit-place, tick_clock,
}
use orderbook_c.OrderBook.Sweep.{sweep}
use orderbook_c.SideBook.{PriceLevel}
use orderbook_c.SideBook.Insert.{get_or_insert-put_in, put_in}
use orderbook_c.Types.{Order, OrderType, Side, buy, fok, ioc, limit, market, sell}

-- `match` leaves the taker's own side alone.
match_book-own :
    (taker : Order) (b : OrderBook)
    → IsBook b
    → levels_of taker.side (match_book taker b).0 ≡ levels_of taker.side b
match_book-own taker b v = rw (match_book-sweep taker b v) (
    subst
      (λ s.
        levels_of s (with_levels o r.levels r.progress.id_index r.progress.free b) ≡ levels_of s b)
      (opposite-opposite taker.side)
      (levels_of-other o r.levels r.progress.id_index r.progress.free b))
  where
    o : Side
    o = opposite taker.side

    r : BookMatch
    r = sweep taker (levels_of o b) (start_of taker b)

rest_levels :
    (o : Order) (b : OrderBook)
    → IsBook b
    → (levels_of o.side (rest o b) ≡ put_in o.side o (levels_of o.side b))
      × (levels_of (opposite o.side) (rest o b) ≡ levels_of (opposite o.side) b)
unfolding rest
rest_levels o b v =
    rw (get_or_insert-put_in o.side o (levels_of o.side b) (IsSide-of o.side b v).sorted)
      (levels_of-same o.side _ _ _ b, levels_of-other o.side _ _ _ b)

not_fok : (t : OrderType) → t ≢ fok → is_fok t ≡ false
not_fok limit h = refl
not_fok market h = refl
not_fok ioc h = refl
not_fok fok h = absurd (h refl)

-- What is left of the order rests on its own side if it is a limit order.
abbrev pub own_after : Order → ℕ → List PriceLevel → List PriceLevel
own_after o left ls =
    if ltb 0 left && is_limit o.type then put_in o.side (record o { qty = left }) ls else ls

-- The four parts of the effect of an order that is not fill-or-kill, from the other side's levels
-- and its own.
abbrev pub Agrees : Order → Submitted → List PriceLevel → List PriceLevel → Type 0
Agrees o r theirs ours =
    (r.accepted ≡ true)
    × (r.trades ≡ allocate o o.qty (reachable o theirs))
    × (offers (levels_of (opposite o.side) r.book)
        ≡ consume o.qty (reachable o theirs) ++ beyond o theirs)
    × (levels_of o.side r.book ≡ own_after o (o.qty - offered (reachable o theirs)) ours)

abbrev pub Outcome : Order → OrderBook → Submitted → Type 0
Outcome o b r = Agrees o r (levels_of (opposite o.side) b) (levels_of o.side b)

levels_of-release :
    (s : Side) (slot : ℕ) (b : OrderBook) → levels_of s (release slot b) ≡ levels_of s b
levels_of-release buy slot b = refl
levels_of-release sell slot b = refl

pub place-Outcome : (o : Order) (b : OrderBook) → o.type ≢ fok → IsBook b → Outcome o b (place o b)
unfolding place is_killed
place-Outcome o b k v = rw (not_fok o.type k) (elim (Bool-cases (ltb 0 p.qty && is_limit o.type)) [
  | inl e ↦ rw e (
    refl,
    trades.0,
    ap offers (rest_levels o' b' v').1 ∙ match_book-consume o b v,
    (rest_levels o' b' v').0 ∙ ap (put_in o.side o') own ∙ left_over e,
  )
  | inr e ↦ rw e (
    refl,
    trades.0,
    ap offers (levels_of-release (opposite o.side) o.slot b') ∙ match_book-consume o b v,
    levels_of-release o.side o.slot b' ∙ own ∙ nothing e,
  )
])
  where
    b' : OrderBook
    b' = (match_book o b).0

    p : Progress
    p = (match_book o b).1

    o' : Order
    o' = record o { qty = p.qty }

    v' : IsBook b'
    v' = match_book-IsBook o b v

    trades :
        ((match_book o b).2 ≡ allocate o o.qty (reachable o (levels_of (opposite o.side) b)))
        × (p.qty ≡ o.qty - offered (reachable o (levels_of (opposite o.side) b)))
    trades = match_book-allocate o b (IsSide-of (opposite o.side) b v).sorted

    own : levels_of o.side b' ≡ levels_of o.side b
    own = match_book-own o b v

    left_over :
        (ltb 0 p.qty && is_limit o.type) ≡ true
        → put_in o.side o' (levels_of o.side b)
          ≡ own_after o
              (o.qty - offered (reachable o (levels_of (opposite o.side) b)))
              (levels_of o.side b)
    left_over e =
        subst (λ n. put_in o.side o' (levels_of o.side b) ≡ own_after o n (levels_of o.side b))
          trades.1 (rw e refl)

    nothing :
        (ltb 0 p.qty && is_limit o.type) ≡ false
        → levels_of o.side b
          ≡ own_after o
              (o.qty - offered (reachable o (levels_of (opposite o.side) b)))
              (levels_of o.side b)
    nothing e =
        subst (λ n. levels_of o.side b ≡ own_after o n (levels_of o.side b)) trades.1 (rw e refl)

-- An order that is not fill-or-kill: its trades are the greedy allocation of its quantity over the
-- offers in reach, in price-time priority; those offers lose that quantity from the front, and the
-- offers beyond its price stay; what is left joins the back of its price's level on its own side if
-- the order is a limit order, and otherwise nothing of it rests. The quantity is positive, and the
-- pool has a slot for the order.
pub submit-Outcome :
    (b : OrderBook) (id : ℕ) (side : Side) (type : OrderType) (price : ℤ) (qty ts s : ℕ)
    (free : List ℕ)
    → b.free ≡ s ∷ free
    → 0 < qty
    → type ≢ fok
    → IsBook b
    → Outcome (new_order s id side type price qty ts b.clock) b (submit b id side type price qty ts)
submit-Outcome b id side type price qty ts s free e h k v =
    rw (submit-place b id side type price qty ts s free e h) (
      subst₂ (Agrees o (place o c)) (levels_of-slot (opposite side) b free clock')
        (levels_of-slot side b free clock')
        (place-Outcome o c k (record { bids = v.bids; asks = v.asks; apart = v.apart })))
  where
    clock' : ℕ
    clock' = tick_clock ts b.clock

    c : OrderBook
    c = record b { free = free; clock = clock' }

    o : Order
    o = new_order s id side type price qty ts b.clock
