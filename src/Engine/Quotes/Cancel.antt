-- ===== src/Engine/Quotes/Cancel.antt =====
-- `cancel` of a quote.
use orderbook_c.Base.{List, Option, [], arith, none, refl, some, true, ℕ, ◌==◌, ◌∙◌, ◌∷◌, ◌≡◌}
use orderbook_c.Base.Int.{==ℤ_refl}
use orderbook_c.Engine.Quotes.{Quote, book_of, quote_levels, quote_order}
use orderbook_c.OrderBook.Cancel.{cancel}
use orderbook_c.OrderBook.State.{erase_id, find_id}
use orderbook_c.SideBook.{order_at, remove_order, unlink}
use orderbook_c.SideBook.Remove.{take_out, unlink_in, unlink_in-take_out}
use orderbook_c.SideBook.Sorted.{less_for_side_irrefl}
use orderbook_c.Types.{Order, Side, buy, sell}

pub ==_refl : (n : ℕ) → (n == n) ≡ true
==_refl n = ground arith

order_at-first : (o : Order) (os : List Order) → order_at o.slot (o ∷ os) ≡ some o
unfolding order_at
order_at-first o os = rw (==_refl o.slot) refl

take_out-quote :
    (id : ℕ) (side : Side) (q : Quote)
    → take_out (quote_order id side q) (quote_levels id side (some q)) ≡ []
unfolding take_out unlink remove_order
take_out-quote id side q =
    rw (less_for_side_irrefl side q.price, ==ℤ_refl q.price, ==_refl q.slot) refl

unlink_in-quote :
    (id : ℕ) (side : Side) (q : Quote)
    → unlink_in (quote_order id side q) (quote_levels id side (some q)) ≡ []
unlink_in-quote id side q =
    unlink_in-take_out (quote_order id side q) (quote_levels id side (some q)) tt
    ∙ take_out-quote id side q

pub cancel-bid :
    (free : List ℕ) (clock : ℕ) (q : Quote) (ask : Option Quote)
    → cancel (book_of free clock (some q) ask) 1
      ≡ some (true, book_of (q.slot ∷ free) clock none ask)
unfolding cancel find_id erase_id
cancel-bid free clock q none =
    rw (order_at-first (quote_order 1 buy q) [], unlink_in-quote 1 buy q, cancel) refl
cancel-bid free clock q (some a) =
    rw
      (
        order_at-first (quote_order 1 buy q) (quote_order 2 sell a ∷ []),
        unlink_in-quote 1 buy q,
        cancel,
      )
      refl

pub cancel-ask :
    (free : List ℕ) (clock : ℕ) (q : Quote)
    → cancel (book_of free clock none (some q)) 2
      ≡ some (true, book_of (q.slot ∷ free) clock none none)
unfolding cancel find_id erase_id
cancel-ask free clock q =
    rw (order_at-first (quote_order 2 sell q) [], unlink_in-quote 2 sell q, cancel) refl
