-- ===== src/OrderBook/Remaining.antt =====
-- What `match` leaves on the opposite side, against taking the taker's quantity off the offers.
use mathlib.Core.List.{append_assoc}
use orderbook_c.Base.{
  ==_iff, All, All-append, All-mono, Bool-cases, List, [], ap, arith, if◌then◌else◌, inl, inr, ltb,
  min, refl, sub_zero_eq, sym, ℕ, ◌++◌, ◌-◌, ◌<◌, ◌∙◌, ◌∷◌, ◌≡◌,
}
use orderbook_c.Base.Int.{ℤ}
use orderbook_c.OrderBook.Invariant.{IsBook, IsSide-of, levels_of-same, match_book-sweep}
use orderbook_c.OrderBook.Match.{
  LevelMatch, Progress, fill_whole, match_book, match_orders, may_trade, start_of,
}
use orderbook_c.OrderBook.Priority.{Offer, offers_at, reachable}
use orderbook_c.OrderBook.State.{OrderBook, levels_of, opposite}
use orderbook_c.OrderBook.Sweep.{best_match, sweep, sweep_cases}
use orderbook_c.SideBook.{PriceLevel, is_empty}
use orderbook_c.SideBook.Levels.{IsLevel, Rests}
use orderbook_c.Types.{Order, Side, sub64}

-- The offers of a side in priority order.
abbrev pub offers : List PriceLevel → List Offer
offers [] = []
offers (l ∷ ls) = offers_at l.price l.orders ++ offers ls

-- The offers behind the first price that the taker does not accept.
unfoldable pub beyond : Order → List PriceLevel → List Offer
beyond taker [] = []
beyond taker (l ∷ ls) = if may_trade taker l.price then beyond taker ls else offers (l ∷ ls)

-- A quantity is taken off the front of the offers.
unfoldable pub consume : ℕ → List Offer → List Offer
consume q [] = []
consume q ((px, o) ∷ os) =
    let more = consume (q - o.qty) os in
    if ltb q o.qty then (px, record o { qty = o.qty - q }) ∷ os else more

abbrev pub Positive : List Order → Type 0
Positive = All (λ o. 0 < o.qty)

consume_eq : (a b : ℕ) (xs : List Offer) → a ≡ b → consume a xs ≡ consume b xs
consume_eq a b xs e = ap (λ k. consume k xs) e

consume_full : (q : ℕ) (o : Order) → q ≡ 0 → record o { qty = o.qty - q } ≡ o
consume_full q o e = ground (arith, sub_zero_eq o.qty q)

-- Where the level keeps an order the quantity is used up, and otherwise all of it is gone.
match_orders-consume :
    (taker : Order) (px : ℤ) (total : ℕ) (os : List Order) (p : Progress) (more : List Offer)
    → Positive os
    → let r = match_orders taker px total os p in
      consume p.qty (offers_at px os ++ more)
      ≡ (if is_empty r.orders then consume r.progress.qty more else offers_at px r.orders ++ more)
unfolding match_orders consume
match_orders-consume taker px total [] p more v = refl
match_orders-consume taker px total (m ∷ os) p more v = ground (
  arith,
  match_orders-consume taker px (sub64 total (min p.qty m.qty)) os (fill_whole m p) more,
  consume_eq (p.qty - min p.qty m.qty) (p.qty - m.qty) (offers_at px os ++ more),
  consume_full p.qty m,
)

offers-split :
    (taker : Order) (ls : List PriceLevel) → offers ls ≡ reachable taker ls ++ beyond taker ls
unfolding reachable beyond
offers-split taker [] = refl
offers-split taker (l ∷ ls) = elim (Bool-cases (may_trade taker l.price)) [
  | inl e ↦ rw e (
      ap (◌++◌ (offers_at l.price l.orders)) (offers-split taker ls)
      ∙ sym (append_assoc (offers_at l.price l.orders) (reachable taker ls) (beyond taker ls)))
  | inr e ↦ rw e refl
]

abbrev PositiveOffers : List Offer → Type 0
PositiveOffers = All (λ x. 0 < x.1.qty)

consume-zero : (q : ℕ) (xs : List Offer) → q ≡ 0 → PositiveOffers xs → consume q xs ≡ xs
unfolding consume
consume-zero q [] e v = refl
consume-zero q ((px, o) ∷ xs) e v = ground (arith, consume_full q o)

Positive-of_resting : (s : Side) (p : ℤ) (os : List Order) → All (Rests s p) os → Positive os
Positive-of_resting s p os = All-mono (Rests s p) (λ o. 0 < o.qty) os (λ o r. r.qty_pos)

PositiveOffers-at : (px : ℤ) (os : List Order) → Positive os → PositiveOffers (offers_at px os)
PositiveOffers-at px [] v = tt
PositiveOffers-at px (o ∷ os) v = (v.0, PositiveOffers-at px os v.1)

positive_reachable :
    (s : Side) (taker : Order) (ls : List PriceLevel)
    → All (IsLevel s) ls
    → PositiveOffers (reachable taker ls)
unfolding reachable
positive_reachable s taker [] v = tt
positive_reachable s taker (l ∷ ls) v = elim (Bool-cases (may_trade taker l.price)) [
  | inl e ↦ rw e (
      All-append (λ x. 0 < x.1.qty) (offers_at l.price l.orders) (reachable taker ls)
        (PositiveOffers-at l.price l.orders (Positive-of_resting s l.price l.orders v.0.resting))
        (positive_reachable s taker ls v.1))
  | inr e ↦ rw e tt
]

sweep-consume :
    (s : Side) (taker : Order) (ls : List PriceLevel) (p : Progress)
    → All (IsLevel s) ls
    → offers (sweep taker ls p).levels ≡ consume p.qty (reachable taker ls) ++ beyond taker ls
unfolding reachable beyond
sweep-consume s taker [] p v = unfold sweep consume in refl
sweep-consume s taker (l ∷ ls) p v =
    sweep_cases taker l ls p
      (λ r. offers r.levels ≡ consume p.qty (reachable taker (l ∷ ls)) ++ beyond taker (l ∷ ls))
      (λ z.
        offers-split taker (l ∷ ls)
        ∙ ap (λ xs. xs ++ beyond taker (l ∷ ls))
            (sym (consume-zero p.qty _ ((==_iff _ _).0 z) (positive_reachable s taker (l ∷ ls) v))))
      (λ m. rw m (unfold consume in refl))
      (λ m e. rw m (rw taken (rw e (sweep-consume s taker ls best.progress v.1))))
      (λ m e. rw m (
        rw taken (
          rw e (
            ap (◌++◌ (offers_at l.price best.orders)) (offers-split taker ls)
            ∙ sym (
                append_assoc (offers_at l.price best.orders) (reachable taker ls)
                  (beyond taker ls))))))
  where
    best : LevelMatch
    best = best_match taker l ls p

    taken : consume p.qty (offers_at l.price l.orders ++ reachable taker ls) ≡ (
        if is_empty best.orders
        then consume best.progress.qty (reachable taker ls)
        else offers_at l.price best.orders ++ reachable taker ls)
    taken =
        match_orders-consume taker l.price l.total_qty l.orders p (reachable taker ls)
          (Positive-of_resting s l.price l.orders v.0.resting)

-- What `match` leaves on the opposite side is what was there, in the same order, with the taker's
-- quantity taken off the front of the offers in reach; the offers beyond its price are untouched.
pub match_book-consume :
    (taker : Order) (b : OrderBook)
    → IsBook b
    → let ls = levels_of (opposite taker.side) b in
      offers (levels_of (opposite taker.side) (match_book taker b).0)
      ≡ consume taker.qty (reachable taker ls) ++ beyond taker ls
match_book-consume taker b v =
    rw (match_book-sweep taker b v, levels_of-same (opposite taker.side) _ _ _ b)
      (sweep-consume (opposite taker.side) taker _ (start_of taker b)
        (IsSide-of (opposite taker.side) b v).levels)
