-- ===== src/Engine/Quotes.antt =====
-- The engine's book: at most one bid, with the id 1, and at most one ask, with the id 2.
pub mod Cancel
pub mod Submit
pub mod Take
use orderbook_c.Base.{List, Option, [], false, none, some, ℕ, ◌∷◌}
use orderbook_c.Base.Int.{ℤ}
use orderbook_c.OrderBook.State.{Index, OrderBook}
use orderbook_c.SideBook.{PriceLevel}
use orderbook_c.Types.{Order, Side, buy, limit, sell}

pub record Quote : Type 0 where
  pub slot : ℕ
  pub price : ℤ
  pub qty : ℕ
  pub ts : ℕ

abbrev pub quote_order : ℕ → Side → Quote → Order
quote_order id side q = record {
  slot = q.slot;
  id = id;
  price = q.price;
  qty = q.qty;
  ts = q.ts;
  side = side;
  type = limit;
}

abbrev pub quote_levels : ℕ → Side → Option Quote → List PriceLevel
quote_levels id side none = []
quote_levels id side (some q) =
    record { price = q.price; total_qty = q.qty; orders = quote_order id side q ∷ [] } ∷ []

abbrev pub entries : ℕ → Option Quote → Index → Index
entries id none m = m
entries id (some q) m = (id, q.slot) ∷ m

abbrev pub book_of : List ℕ → ℕ → Option Quote → Option Quote → OrderBook
book_of free clock bid ask = record {
  free = free;
  bids = quote_levels 1 buy bid;
  asks = quote_levels 2 sell ask;
  id_index = entries 2 ask (entries 1 bid []);
  clock = clock;
  stuck = false;
}
