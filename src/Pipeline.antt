-- ===== src/Pipeline.antt =====
-- A pipeline of src/live_trade.cpp with a feed that polls (`BinanceFeed`, `SyntheticFeed`) and pushes into the queue, the engine whose thread pops from
-- it, and the callback that takes the engine's fills. The threads of the feed and of the engine and the
-- one that stops them take steps in any order.
pub mod Handled
pub mod Served
pub mod Run
pub mod Tests
use orderbook_c.Base.{
  Bool, List, Option, [], false, if◌then◌else◌, none, some, true, ℕ, ◌++◌, ◌>>=◌, ◌∷◌,
}
use orderbook_c.Engine.Ledger.{fills_of}
use orderbook_c.Engine.Loop.{Tick, tick}
use orderbook_c.Engine.State.{Fill, TradingEngine, new_engine}
use orderbook_c.Feed.{MarketEvent}
use orderbook_c.Feed.Thread.{
  FeedSystem, feeder_steps, popper_steps, started_feed, step_feed, stop_called,
}
use orderbook_c.Histogram.{LatencyHistogram, new_histogram}
use orderbook_c.Options.Pipeline.{on_fill}
use orderbook_c.Queue.{Consumer, c_idle, c_publish, c_read, c_reload}
use orderbook_c.Risk.{RiskConfig}
use orderbook_c.Strategy.{MarketSnapshot, StrategyAction}

-- The thread of the engine, while it runs, calls `try_pop`, one step at a time, and handles what it pops;
-- `handled` and `fills` list the events that it has handled and the calls of the callback.
pub record Pipeline (S : Type 0) : Type 0 where
  pub feed : FeedSystem MarketEvent
  pub engine : TradingEngine
  pub strategy : S
  pub engine_running : Bool
  pub lat_hist : LatencyHistogram
  pub handled : List Tick
  pub fills : List Fill

-- A step of the feed's thread, with the outcome of a fetch; one of the engine's thread, with the time
-- that a fill is stamped with; or a call of `stop` of the one or the other.
pub data PipelineEvent : Type 0 where
  feed_steps : Option MarketEvent → PipelineEvent
  engine_steps : ℕ → PipelineEvent
  feed_stopped engine_stopped : PipelineEvent

-- The callback, if there is a fill.
abbrev pub add_latency : Option Fill → LatencyHistogram → LatencyHistogram
add_latency none h = h
add_latency (some f) h = on_fill f h

module _ {S : Type 0} where
  abbrev pub report : Option Fill → Pipeline S → Pipeline S
  report fill p = record p {
    lat_hist = add_latency fill p.lat_hist;
    fills = p.fills ++ fills_of fill;
  }

  -- The step of `try_pop`.
  abbrev pub pop_step : Pipeline S → Pipeline S
  pop_step p = record p { feed = step_feed p.feed popper_steps }

  -- A pipeline that has just been started: the code's queue has 1024 places, its book 2^20 slots.
  abbrev pub new_pipeline : MarketEvent → ℕ → ℕ → Option RiskConfig → S → Pipeline S
  new_pipeline value capacity slots cfg st = record {
    feed = started_feed value capacity;
    engine = new_engine slots cfg;
    strategy = st;
    engine_running = true;
    lat_hist = new_histogram;
    handled = [];
    fills = [];
  }

module _ {S : Type 0} (on_tick : S → MarketSnapshot → Option StrategyAction × S) where
  -- The rest of the engine's round with the event that it popped.
  unfoldable pub handle : MarketEvent → ℕ → Pipeline S → Option (Pipeline S)
  handle ev now p = do
    ((e, fill), st) ← tick on_tick p.engine p.strategy (ev, now)
    some (
        report fill (record p { engine = e; strategy = st; handled = p.handled ++ (ev, now) ∷ [] }))

  -- A step of the engine's thread, which stands at this place of `try_pop`: outside it, it tests
  -- `running_` first; the last step of a call that returns `true` is followed by the round.
  unfoldable pub step_engine : Consumer MarketEvent → ℕ → Pipeline S → Option (Pipeline S)
  step_engine c_idle now p = some (if p.engine_running then pop_step p else p)
  step_engine c_reload now p = some (pop_step p)
  step_engine c_read now p = some (pop_step p)
  step_engine (c_publish ev) now p = handle ev now (pop_step p)

  unfoldable pub step_pipeline : Pipeline S → PipelineEvent → Option (Pipeline S)
  step_pipeline p (feed_steps outcome) =
      some (record p { feed = step_feed p.feed (feeder_steps outcome) })
  step_pipeline p (engine_steps now) = step_engine p.feed.system.consumer now p
  step_pipeline p feed_stopped = some (record p { feed = step_feed p.feed stop_called })
  step_pipeline p engine_stopped = some (record p { engine_running = false })

  unfoldable pub run_pipeline : Pipeline S → List PipelineEvent → Option (Pipeline S)
  run_pipeline p [] = some p
  run_pipeline p (e ∷ es) = step_pipeline p e >>= λ q. run_pipeline q es
