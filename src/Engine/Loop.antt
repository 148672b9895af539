-- ===== src/Engine/Loop.antt =====
-- The loop `run` of src/trading_engine.cpp. The strategy is an argument: its state and its `on_tick`.
use mathlib.Core.Option
use orderbook_c.Base.{List, Option, [], none, some, ℕ, ◌∷◌}
use orderbook_c.Engine.Quoting.{refresh_quotes}
use orderbook_c.Engine.State.{Fill, TradingEngine, equity_at}
use orderbook_c.Engine.Taking.{apply_action}
use orderbook_c.Feed.{MarketEvent, book_ticker, error}
use orderbook_c.Risk.{observe_equity}
use orderbook_c.Strategy.{MarketSnapshot, StrategyAction, mid}

abbrev pub snapshot_of : MarketEvent → MarketSnapshot
snapshot_of ev = record {
  best_bid = ev.best_bid;
  best_ask = ev.best_ask;
  bid_qty = ev.bid_qty;
  ask_qty = ev.ask_qty;
  last_trade = ev.last_trade;
  event_ts = ev.ts;
}

-- The store of the mid-price and the observation of the equity.
unfoldable pub observe : MarketSnapshot → TradingEngine → TradingEngine
observe s e = record e {
  last_mid = mid s;
  risk = Option.map (λ r. observe_equity r (equity_at e (mid s))) e.risk;
}

-- An event that the loop has popped, with the time at which its fill would be stamped.
abbrev pub Tick : Type 0
Tick = MarketEvent × ℕ

module _ {S : Type 0} (on_tick : S → MarketSnapshot → Option StrategyAction × S) where
  abbrev pub react_to :
      ℕ
      → MarketSnapshot
      → TradingEngine
      → Option StrategyAction × S
      → (TradingEngine × Option Fill) × S
  react_to now s e (none, st) = ((e, none), st)
  react_to now s e (some a, st) = (apply_action now a s e, st)

  -- One round of the loop of `run` that pops an event.
  unfoldable pub tick : TradingEngine → S → Tick → Option ((TradingEngine × Option Fill) × S)
  tick e st (ev, now) =
      let s = snapshot_of ev in
      elim ev.kind [
        | error ↦ some ((e, none), st)
        | book_ticker ↦ elim (refresh_quotes (observe s e) s) [
          | none ↦ none
          | some e1 ↦ some (react_to now s e1 (on_tick st s))
        ]
      ]

  -- `run` over the events that it pops; a round that pops none changes nothing.
  unfoldable pub run_engine : TradingEngine → S → List Tick → Option (TradingEngine × S)
  run_engine e st [] = some (e, st)
  run_engine e st (t ∷ ts) = elim (tick e st t) [
    | none ↦ none
    | some ((e', fill), st') ↦ run_engine e' st' ts
  ]
