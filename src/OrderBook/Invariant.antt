-- ===== src/OrderBook/Invariant.antt =====
-- The invariant of the book: both sides are well formed, and the best bid is below the best ask.
-- `submit` and `cancel` keep it.
pub mod Submit
pub mod Cancel
use orderbook_c.Base.{List, [], arith, false, length, refl, suc, ℕ, ◌<◌, ◌∷◌, ◌≡◌, ◌≤◌}
use orderbook_c.OrderBook.Crossing.{
  Apart, Apart-put_in, Apart-sym, Clear, Clear-sweep, sweep-exhausts,
}
use orderbook_c.OrderBook.Levels.{sweep-IsSide}
use orderbook_c.OrderBook.Match.{BookMatch, Progress, is_market, match_book, start_of}
use orderbook_c.OrderBook.Priority.{match_book-allocate}
use orderbook_c.OrderBook.State.{Index, OrderBook, levels_of, opposite, put_levels}
use orderbook_c.OrderBook.Submit.{rest}
use orderbook_c.OrderBook.Sweep.{match_loop-sweep, sweep, sweep-ends}
use orderbook_c.SideBook.{PriceLevel}
use orderbook_c.SideBook.Insert.{get_or_insert-put_in, put_in}
use orderbook_c.SideBook.Levels.{IsSide, Rests, put_in-IsSide}
use orderbook_c.SideBook.Sorted.{IsSorted}
use orderbook_c.Types.{Order, Side, buy, sell}

pub record IsBook (b : OrderBook) : Type 0 where
  pub bids : IsSide buy b.bids
  pub asks : IsSide sell b.asks
  pub apart : Apart buy b.bids b.asks

pub IsSide-of : (s : Side) (b : OrderBook) → IsBook b → IsSide s (levels_of s b)
IsSide-of buy b v = v.bids
IsSide-of sell b v = v.asks

pub Apart-of :
    (s : Side) (b : OrderBook) → IsBook b → Apart s (levels_of s b) (levels_of (opposite s) b)
Apart-of buy b v = v.apart
Apart-of sell b v = Apart-sym buy b.bids b.asks v.apart

pub opposite-opposite : (s : Side) → opposite (opposite s) ≡ s
opposite-opposite buy = refl
opposite-opposite sell = refl

abbrev pub with_levels : Side → List PriceLevel → Index → List ℕ → OrderBook → OrderBook
with_levels s ls index free b = record (put_levels s ls b) { id_index = index; free = free }

module _ (s : Side) (ls : List PriceLevel) (index : Index) (free : List ℕ) (b : OrderBook) where
  pub levels_of-same : levels_of s (with_levels s ls index free b) ≡ ls
  levels_of-same = elim s as (λ s. levels_of s (with_levels s ls index free b) ≡ ls) [
    | buy ↦ refl
    | sell ↦ refl
  ]

  pub levels_of-other :
      levels_of (opposite s) (with_levels s ls index free b) ≡ levels_of (opposite s) b
  levels_of-other =
      elim s
        as (λ s.
          levels_of (opposite s) (with_levels s ls index free b) ≡ levels_of (opposite s) b) [
            | buy ↦ refl
            | sell ↦ refl
          ]

pub IsBook-with_levels :
    (s : Side) (ls : List PriceLevel) (index : Index) (free : List ℕ) (b : OrderBook)
    → IsSide s ls
    → IsBook b
    → Apart s ls (levels_of (opposite s) b)
    → IsBook (with_levels s ls index free b)
IsBook-with_levels buy ls index free b h v a = record { bids = h; asks = v.asks; apart = a }
IsBook-with_levels sell ls index free b h v a = record {
  bids = v.bids;
  asks = h;
  apart = Apart-sym sell ls b.bids a;
}

Apart-sweep :
    (s : Side) (ours theirs : List PriceLevel) (taker : Order) (p : Progress)
    → IsSorted (opposite s) theirs
    → Apart s ours theirs
    → Apart s ours (sweep taker theirs p).levels
Apart-sweep s [] theirs taker p b a = tt
Apart-sweep s (l ∷ ls) theirs taker p b a = Clear-sweep s l.price taker theirs p b a

-- `match` is `sweep`, on a book that satisfies the invariant.
pub match_book-sweep :
    (taker : Order) (b : OrderBook)
    → IsBook b
    → let s = opposite taker.side in
      let r = sweep taker (levels_of s b) (start_of taker b) in
      match_book taker b
      ≡ (with_levels s r.levels r.progress.id_index r.progress.free b, r.progress, r.trades)
unfolding match_book
match_book-sweep taker b v =
    rw
      (
        match_loop-sweep (suc (length ls)) taker ls (start_of taker b) (IsSide-of s b v).sorted
            (omega arith),
        sweep-ends taker ls (start_of taker b),
      )
      refl
  where
    s : Side
    s = opposite taker.side

    ls : List PriceLevel
    ls = levels_of s b

pub match_book-IsBook : (taker : Order) (b : OrderBook) → IsBook b → IsBook (match_book taker b).0
match_book-IsBook taker b v = rw (match_book-sweep taker b v) (
    IsBook-with_levels s r.levels r.progress.id_index r.progress.free b
      (sweep-IsSide s taker ls (start_of taker b) (IsSide-of s b v)) v
      (rw (opposite-opposite taker.side) (
        Apart-sym taker.side _ _ (
          Apart-sweep taker.side _ ls taker (start_of taker b) (IsSide-of s b v).sorted
            (Apart-of taker.side b v)))))
  where
    s : Side
    s = opposite taker.side

    ls : List PriceLevel
    ls = levels_of s b

    r : BookMatch
    r = sweep taker ls (start_of taker b)

-- A limit order that is left with some quantity is clear of what `match` leaves.
pub match_book-Clear :
    (taker : Order) (b : OrderBook)
    → IsBook b
    → is_market taker.type ≡ false
    → let (b', p, ts) = match_book taker b in
      0 < p.qty → Clear taker.side taker.price (levels_of (opposite taker.side) b')
match_book-Clear taker b v m = rw (match_book-sweep taker b v) λ h.
    rw (levels_of-same (opposite taker.side) _ _ _ b)
      (sweep-exhausts taker _ (start_of taker b) m h)

pub rest-IsBook :
    (o : Order) (b : OrderBook)
    → IsBook b
    → Rests o.side o.price o
    → Clear o.side o.price (levels_of (opposite o.side) b)
    → IsBook (rest o b)
unfolding rest
rest-IsBook o b v r c = rw (get_or_insert-put_in o.side o ls (IsSide-of o.side b v).sorted) (
    IsBook-with_levels o.side (put_in o.side o ls) _ _ b
      (put_in-IsSide o.side o ls r (IsSide-of o.side b v)) v
      (Apart-put_in o.side o ls _ c (Apart-of o.side b v)))
  where
    ls : List PriceLevel
    ls = levels_of o.side b

-- `match` leaves the taker no more than it came with.
pub match_book-qty-le :
    (taker : Order) (b : OrderBook) → IsBook b → (match_book taker b).1.qty ≤ taker.qty
match_book-qty-le taker b v =
    omega (arith, (match_book-allocate taker b (IsSide-of (opposite taker.side) b v).sorted).1)
