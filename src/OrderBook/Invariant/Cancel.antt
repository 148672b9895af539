-- ===== src/OrderBook/Invariant/Cancel.antt =====
-- `cancel` keeps the invariant of the book.
use mathlib.Core.Path.{subst₂}
use orderbook_c.Base.{
  Bool, List, Option-cases, inl, inr, none-ne-some, second_of_some, some, subst, sym, ℕ, ◌++◌, ◌≡◌,
}
use orderbook_c.OrderBook.Cancel.{cancel}
use orderbook_c.OrderBook.Crossing.{Apart-take_out}
use orderbook_c.OrderBook.Invariant.{Apart-of, IsBook, IsBook-with_levels, IsSide-of, with_levels}
use orderbook_c.OrderBook.State.{Index, OrderBook, find_id, levels_of}
use orderbook_c.SideBook.{all_orders, order_at}
use orderbook_c.SideBook.Held.{order_at-IsSide, order_at-slot, order_at-split, take_out-IsSide}
use orderbook_c.SideBook.Remove.{unlink_in, unlink_in-take_out}
use orderbook_c.Types.{Order, Side, buy, sell}

-- Taking out an order that rests on its side keeps the invariant.
take_out-IsBook :
    (o : Order) (index : Index) (free : List ℕ) (b : OrderBook)
    → IsBook b
    → order_at o.slot (all_orders (levels_of o.side b)) ≡ some o
    → IsBook (with_levels o.side (unlink_in o (levels_of o.side b)) index free b)
take_out-IsBook o index free b v h = rw (unlink_in-take_out o _ (IsSide-of o.side b v).sorted) (
    IsBook-with_levels o.side _ index free b (take_out-IsSide o _ (IsSide-of o.side b v) h) v
      (Apart-take_out o _ _ (IsSide-of o.side b v).sorted (Apart-of o.side b v)))

-- An order that is found stands on the side that it names.
pub order_at-side :
    (b : OrderBook) (k : ℕ) (o : Order)
    → IsBook b
    → order_at k (all_orders b.bids ++ all_orders b.asks) ≡ some o
    → order_at o.slot (all_orders (levels_of o.side b)) ≡ some o
order_at-side b k o v h = elim (order_at-split k (all_orders b.bids) (all_orders b.asks) o h) [
  | inl e ↦ there buy (order_at-IsSide buy k b.bids o v.bids e) (order_at-slot k _ o e) e
  | inr e ↦ there sell (order_at-IsSide sell k b.asks o v.asks e) (order_at-slot k _ o e) e
]
  where
    there :
        (s : Side)
        → o.side ≡ s
        → o.slot ≡ k
        → order_at k (all_orders (levels_of s b)) ≡ some o
        → order_at o.slot (all_orders (levels_of o.side b)) ≡ some o
    there s p q e =
        subst₂ (λ t n. order_at n (all_orders (levels_of t b)) ≡ some o) (sym p) (sym q) e

-- `cancel` keeps the invariant.
pub cancel-IsBook :
    (b b' : OrderBook) (id : ℕ) (found : Bool)
    → IsBook b
    → cancel b id ≡ some (found, b')
    → IsBook b'
unfolding cancel
cancel-IsBook b b' id found v h = elim (Option-cases (find_id id b.id_index)) [
  | inl e ↦ subst IsBook (second_of_some (rw (e, cancel) at h)) v
  | inr (s, e) ↦ elim (Option-cases (order_at s (all_orders b.bids ++ all_orders b.asks))) [
    | inl k ↦ none-ne-some (rw (e, k, cancel) at h)
    | inr (o, k) ↦
        subst IsBook (second_of_some (rw (e, k, cancel) at h))
          (take_out-IsBook o _ _ b v (order_at-side b s o v k))
  ]
]
