-- ===== src/Engine/Quoting.antt =====
-- `refresh_quotes` of src/trading_engine.cpp. `none` stands for undefined behaviour of `cancel`.
use orderbook_c.Base.{Bool, Option, false, if◌then◌else◌, ltb, none, some, true, ℕ, ◌||◌}
use orderbook_c.Base.Int.{ltb_ℤ, pos, ℤ, ◌==ℤ◌}
use orderbook_c.Engine.State.{TradingEngine, ask_quote_id, bid_quote_id}
use orderbook_c.OrderBook.Cancel.{cancel}
use orderbook_c.OrderBook.Submit.{submit}
use orderbook_c.Strategy.{MarketSnapshot}
use orderbook_c.Types.{buy, limit, sell}

-- The two cancellations of `refresh_quotes`.
unfoldable pub cancel_bid : TradingEngine → Option TradingEngine
cancel_bid e =
    if e.bid_quote_live
    then elim (cancel e.book bid_quote_id) [
      | none ↦ none
      | some (found, b) ↦ some (record e { book = b; bid_quote_live = false })
    ]
    else some e

unfoldable pub cancel_ask : TradingEngine → Option TradingEngine
cancel_ask e =
    if e.ask_quote_live
    then elim (cancel e.book ask_quote_id) [
      | none ↦ none
      | some (found, b) ↦ some (record e { book = b; ask_quote_live = false })
    ]
    else some e

-- A submission of a quote, which is live if it is accepted.
unfoldable pub put_bid : TradingEngine → TradingEngine
put_bid e =
    let r = submit e.book bid_quote_id buy limit e.cur_bid e.cur_bid_qty 0 in
    record e { book = r.book; bid_quote_live = if r.accepted then true else e.bid_quote_live }

unfoldable pub put_ask : TradingEngine → TradingEngine
put_ask e =
    let r = submit e.book ask_quote_id sell limit e.cur_ask e.cur_ask_qty 0 in
    record e { book = r.book; ask_quote_live = if r.accepted then true else e.ask_quote_live }

-- Zero and crossed prices.
abbrev pub is_skipped : MarketSnapshot → Bool
is_skipped s = s.best_bid ==ℤ pos 0 || s.best_ask ==ℤ pos 0 || ltb_ℤ s.best_ask s.best_bid

abbrev pub set_quotes : ℤ → ℤ → ℕ → ℕ → TradingEngine → TradingEngine
set_quotes bid ask bid_qty ask_qty e = record e {
  cur_bid = bid;
  cur_ask = ask;
  cur_bid_qty = bid_qty;
  cur_ask_qty = ask_qty;
}

unfoldable pub rest_quotes : TradingEngine → TradingEngine
rest_quotes e =
    let e1 = if ltb 0 e.cur_bid_qty then put_bid e else e in
    if ltb 0 e1.cur_ask_qty then put_ask e1 else e1

-- `refresh_quotes` after the cancellations.
unfoldable pub show_quotes : MarketSnapshot → TradingEngine → TradingEngine
show_quotes s e =
    let e1 = set_quotes s.best_bid s.best_ask s.bid_qty s.ask_qty e in
    if is_skipped s
    then set_quotes (pos 0) (pos 0) 0 0 e
    else (if ltb_ℤ s.best_bid s.best_ask then rest_quotes e1 else e1)

unfoldable pub refresh_quotes : TradingEngine → MarketSnapshot → Option TradingEngine
refresh_quotes e s = elim (cancel_bid e) [
  | none ↦ none
  | some e1 ↦ elim (cancel_ask e1) [ none ↦ none | some e2 ↦ some (show_quotes s e2) ]
]
