-- ===== src/Engine/Tests.antt =====
-- The engine on concrete events, with a strategy that buys ten at every event.
use orderbook_c.Base.{
  All, List, Option, [], arith, inr, none, refl, some, true, ℕ, ◌+◌, ◌∷◌, ◌≡◌, ◌≤◌,
}
use orderbook_c.Base.Int.{pos}
use orderbook_c.Engine.Actions.{apply_action-Filled}
use orderbook_c.Engine.Fills.{Filled}
use orderbook_c.Engine.Loop.{Tick, run_engine, snapshot_of}
use orderbook_c.Engine.Quotes.{Quote, book_of}
use orderbook_c.Engine.Quoting.{refresh_quotes}
use orderbook_c.Engine.Refresh.{Between, SameRest, Shown}
use orderbook_c.Engine.Run.{IsStrategy, run_engine-book, run_engine-halted}
use orderbook_c.Engine.Shown.{Follows, refresh_quotes-Shown}
use orderbook_c.Engine.State.{TradingEngine, new_engine}
use orderbook_c.Engine.Taking.{apply_action}
use orderbook_c.Engine.Ticks.{IsEvent}
use orderbook_c.Feed.{MarketEvent, book_ticker}
use orderbook_c.OrderBook.State.{resting_orders}
use orderbook_c.Risk.{RiskConfig, RiskManager}
use orderbook_c.Strategy.{MarketSnapshot, StrategyAction}
use orderbook_c.Types.{buy}

abbrev always_buy : ℕ → MarketSnapshot → Option StrategyAction × ℕ
always_buy n s = (some (record { side = buy; qty = 10 }), n + 1)

abbrev event_at : ℕ → ℕ → MarketEvent
event_at bid ask = record {
  kind = book_ticker;
  best_bid = pos bid;
  best_ask = pos ask;
  bid_qty = 5;
  ask_qty = 3;
  last_trade = pos bid;
  ts = 7;
}

abbrev events : List Tick
events = (event_at 100 102, 8) ∷ (event_at 100 100, 9) ∷ (event_at 101 102, 10) ∷ []

abbrev four : RiskConfig
four = record { max_position_qty = pos 4; max_notional = pos 0; max_drawdown = pos 0 }

always_buy-IsStrategy : IsStrategy always_buy
always_buy-IsStrategy st s a e = ground (arith, e)

small_events-All : All (λ t. IsEvent t.0) events
small_events-All = omega arith

run_engine-book_example :
    (e : TradingEngine) × (n : ℕ) × (run_engine always_buy (new_engine 3 none) 0 events
      ≡ some (e, n))
    × Between e
    × (resting_orders e.book ≤ 2)
run_engine-book_example = run_engine-book always_buy none 3 0 events small_events-All (omega arith)

-- Both sides are shown, with one slot left for a taker.
abbrev bid_quote : Quote
bid_quote = record { slot = 0; price = pos 100; qty = 5; ts = 1 }

abbrev ask_quote : Quote
ask_quote = record { slot = 1; price = pos 102; qty = 3; ts = 2 }

abbrev halted_manager : RiskManager
halted_manager = record { cfg = four; peak_equity = pos 20; halted = true }

abbrev showing : Option RiskManager → TradingEngine
showing risk = record {
  risk = risk;
  position = record { btc_qty = pos 0; cash = pos 0; gross_volume = 0; fills = 0 };
  next_id = 3;
  last_mid = pos 101;
  book = book_of (2 ∷ []) 2 (some bid_quote) (some ask_quote);
  bid_quote_live = true;
  ask_quote_live = true;
  cur_bid = pos 100;
  cur_ask = pos 102;
  cur_bid_qty = 5;
  cur_ask_qty = 3;
}

showing-Between : (risk : Option RiskManager) → Between (showing risk)
showing-Between risk = record {
  free = 2 ∷ [];
  clock = 2;
  bid = some bid_quote;
  ask = some ask_quote;
  book_is = refl;
  bid_live = refl;
  ask_live = refl;
  room = omega arith;
}

showing-Shown : Shown (showing none)
unfolding showing-Between
showing-Shown = record {
  between = showing-Between none;
  bid_small = omega arith;
  ask_small = omega arith;
  shows = inr (refl, (refl, refl, omega arith), (refl, refl, omega arith));
}

abbrev ten : StrategyAction
ten = record { side = buy; qty = 10 }

apply_action-Filled_example :
    Filled 9 ten
      (snapshot_of (event_at 100 102))
      (showing none)
      (apply_action 9 ten (snapshot_of (event_at 100 102)) (showing none))
apply_action-Filled_example =
    apply_action-Filled 9 ten ten (snapshot_of (event_at 100 102)) (showing none) showing-Shown
      (omega arith) refl (omega arith) refl (omega arith)

refresh_quotes-Shown_example :
    (e : TradingEngine) × (refresh_quotes (showing none) (snapshot_of (event_at 101 103)) ≡ some e)
    × Shown e
    × SameRest (showing none) e
    × Follows (snapshot_of (event_at 101 103)) e
refresh_quotes-Shown_example =
    refresh_quotes-Shown (showing none) (snapshot_of (event_at 101 103)) (omega arith)
      (showing-Between none)

run_engine-halted_example :
    (e : TradingEngine) × (n : ℕ) × (run_engine always_buy (showing (some halted_manager)) 0 events
      ≡ some (e, n))
    × (e.position ≡ (showing (some halted_manager)).position)
run_engine-halted_example =
    run_engine-halted always_buy (showing (some halted_manager)) 0 events small_events-All
      (showing-Between (some halted_manager)) refl
