-- ===== src/Engine/State.antt =====
-- The state of `TradingEngine` (include/order_book/trading_engine.hpp) and `equity_at`.
use mathlib.Core.Option
use orderbook_c.Base.{Bool, Option, false, ℕ}
use orderbook_c.Base.Int.{pos, ℤ, ◌*ℤ◌, ◌+ℤ◌, ◌/ℤ◌}
use orderbook_c.Feed.{quantity_scale}
use orderbook_c.OrderBook.State.{OrderBook, new_book}
use orderbook_c.Risk.{RiskConfig, RiskManager, new_manager}
use orderbook_c.Types.{Side}

pub record Position : Type 0 where
  pub btc_qty : ℤ
  pub cash : ℤ
  pub gross_volume : ℕ
  pub fills : ℕ

pub record Fill : Type 0 where
  pub side : Side
  pub price : ℤ
  pub qty : ℕ
  pub event_ts : ℕ
  pub ts : ℕ

pub record TradingEngine : Type 0 where
  pub risk : Option RiskManager
  pub position : Position
  pub next_id : ℕ
  pub last_mid : ℤ
  pub book : OrderBook
  pub bid_quote_live : Bool
  pub ask_quote_live : Bool
  pub cur_bid : ℤ
  pub cur_ask : ℤ
  pub cur_bid_qty : ℕ
  pub cur_ask_qty : ℕ

abbrev pub bid_quote_id : ℕ
bid_quote_id = 1

abbrev pub ask_quote_id : ℕ
ask_quote_id = 2

-- A new engine after `set_risk`, or without it; the code's book has 2^20 slots.
unfoldable pub new_engine : ℕ → Option RiskConfig → TradingEngine
new_engine capacity cfg = record {
  risk = Option.map new_manager cfg;
  position = record { btc_qty = pos 0; cash = pos 0; gross_volume = 0; fills = 0 };
  next_id = 3;
  last_mid = pos 0;
  book = new_book capacity;
  bid_quote_live = false;
  ask_quote_live = false;
  cur_bid = pos 0;
  cur_ask = pos 0;
  cur_bid_qty = 0;
  cur_ask_qty = 0;
}

-- A product or a sum beyond 64 bits is undefined in C++ and not in the model.
unfoldable pub equity_at : TradingEngine → ℤ → ℤ
equity_at e px = e.position.cash +ℤ ((e.position.btc_qty *ℤ px) /ℤ pos quantity_scale)
