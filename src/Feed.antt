-- ===== src/Feed.antt =====
-- include/order_book/feed.hpp: the events that a feed passes to the engine.
pub mod Numbers
pub mod Parse
pub mod Agree
pub mod Synthetic
pub mod Thread
pub mod Delivery
pub mod Ending
pub mod Tests
use orderbook_c.Base.{ℕ}
use orderbook_c.Base.Int.{ℤ}
use orderbook_c.OrderBook.State.{best_ask, best_bid}

pub data MarketEventKind : Type 0 where
  book_ticker error : MarketEventKind

pub record MarketEvent : Type 0 where
  pub kind : MarketEventKind
  pub best_bid : ℤ
  pub best_ask : ℤ
  pub bid_qty : ℕ
  pub ask_qty : ℕ
  pub last_trade : ℤ
  pub ts : ℕ

abbrev pub price_scale : ℕ
price_scale = 100

abbrev pub quantity_scale : ℕ
quantity_scale = 1000000
