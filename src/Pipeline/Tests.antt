-- ===== src/Pipeline/Tests.antt =====
-- A pipeline of src/live_trade.cpp that fetches one quote and buys from it.
use orderbook_c.Base.{All, List, Option, [], arith, none, some, ℕ, ◌+◌, ◌∷◌, ◌≡◌}
use orderbook_c.Base.Int.{pos, ◌≤ℤ◌}
use orderbook_c.Engine.Run.{IsStrategy}
use orderbook_c.Feed.{MarketEvent, book_ticker}
use orderbook_c.Pipeline.{
  Pipeline, PipelineEvent, engine_steps, engine_stopped, feed_steps, feed_stopped, new_pipeline,
  run_pipeline,
}
use orderbook_c.Pipeline.Run.{Accounted, run_pipeline-Accounted, run_pipeline-within}
use orderbook_c.Pipeline.Served.{IsPipelineEvent}
use orderbook_c.Risk.{RiskConfig, abs_ℤ}
use orderbook_c.Strategy.{MarketSnapshot, StrategyAction}
use orderbook_c.Types.{buy}

abbrev buy_ten : ℕ → MarketSnapshot → Option StrategyAction × ℕ
buy_ten n s = (some (record { side = buy; qty = 10 }), n + 1)

abbrev a_quote : MarketEvent
a_quote = record {
  kind = book_ticker;
  best_bid = pos 100;
  best_ask = pos 102;
  bid_qty = 5;
  ask_qty = 3;
  last_trade = pos 101;
  ts = 7;
}

abbrev up_to_four : RiskConfig
up_to_four = record { max_position_qty = pos 4; max_notional = pos 0; max_drawdown = pos 0 }

-- The quote is fetched and pushed while the engine looks once into the empty queue, then it is popped,
-- and the two are stopped.
abbrev quote_events : List PipelineEvent
quote_events =
    feed_steps (some a_quote)
    ∷ engine_steps 8
    ∷ feed_steps none
    ∷ engine_steps 8
    ∷ feed_steps none
    ∷ feed_steps none
    ∷ engine_steps 9
    ∷ engine_steps 9
    ∷ engine_steps 9
    ∷ engine_stopped
    ∷ engine_steps 12
    ∷ engine_steps 13
    ∷ feed_stopped
    ∷ []

abbrev quote_pipeline : Pipeline ℕ
quote_pipeline = new_pipeline a_quote 2 3 (some up_to_four) 0

quote_events-All : All IsPipelineEvent quote_events
quote_events-All = omega arith

run_pipeline-Accounted_example :
    (p : Pipeline ℕ) × (run_pipeline buy_ten quote_pipeline quote_events ≡ some p)
    × Accounted buy_ten a_quote 2 3 (some up_to_four) 0 p
run_pipeline-Accounted_example =
    run_pipeline-Accounted buy_ten a_quote 2 3 (some up_to_four) 0 quote_events (omega arith)
      (omega arith) quote_events-All

buy_ten-IsStrategy : IsStrategy buy_ten
buy_ten-IsStrategy st s a e = ground (arith, e)

run_pipeline-within_example :
    (p : Pipeline ℕ) × (run_pipeline buy_ten quote_pipeline quote_events ≡ some p)
    × (abs_ℤ p.engine.position.btc_qty ≤ℤ pos 4)
run_pipeline-within_example =
    run_pipeline-within buy_ten a_quote 2 3 up_to_four 0 quote_events buy_ten-IsStrategy
      (omega arith) (omega arith) (omega arith) quote_events-All
