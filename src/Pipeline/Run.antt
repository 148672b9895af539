-- ===== src/Pipeline/Run.antt =====
-- What a pipeline of src/live_trade.cpp has done after any run.
use orderbook_c.Base.{
  All, List, Option, [], ap, length, some, subst, sym, ℕ, ◌++◌, ◌^◌, ◌∙◌, ◌∷◌, ◌≡◌, ◌≤◌,
}
use orderbook_c.Base.Int.{pos, ◌<ℤ◌, ◌≤ℤ◌}
use orderbook_c.Engine.Ledger.{ledger}
use orderbook_c.Engine.Loop.{Tick, run_engine}
use orderbook_c.Engine.Run.{IsStrategy, run_engine-within}
use orderbook_c.Engine.State.{TradingEngine, new_engine}
use orderbook_c.Engine.Ticks.{IsEvent}
use orderbook_c.Feed.{MarketEvent}
use orderbook_c.Feed.Delivery.{pending}
use orderbook_c.Histogram.Samples.{record_all}
use orderbook_c.Pipeline.{Pipeline, PipelineEvent, new_pipeline, run_pipeline}
use orderbook_c.Pipeline.Handled.{events_of, newest_first, no_position}
use orderbook_c.Pipeline.Served.{
  IsPipelineEvent, Served, delivered, new_pipeline-Served, popped-All, run_pipeline-keeps,
}
use orderbook_c.Risk.{RiskConfig, abs_ℤ}
use orderbook_c.Strategy.{MarketSnapshot, StrategyAction, on_tick}

handled-All : (ts : List Tick) → All IsEvent (events_of ts) → All (λ t. IsEvent t.0) ts
handled-All [] h = tt
handled-All (t ∷ ts) h = (h.0, handled-All ts h.1)

module _ {S : Type 0} (on_tick : S → MarketSnapshot → Option StrategyAction × S)
    (value : MarketEvent) (m n : ℕ) (cfg : Option RiskConfig) (st0 : S) where
  -- What a pipeline has done: it has handled the events that were fetched, in their order, but for those
  -- on their way; the engine is where the loop of `run` over them ends; its position is the ledger of
  -- the fills, and the histogram has their latencies.
  pub record Accounted (p : Pipeline S) : Type 0 where
    pub on_their_way : List MarketEvent
    pub in_order : p.feed.fetched ≡ events_of p.handled ++ (on_their_way ++ pending p.feed.feeder)
    pub few : length on_their_way ≤ length p.feed.system.queue.slots
    pub ran : run_engine on_tick (new_engine n cfg) st0 p.handled ≡ some (p.engine, p.strategy)
    pub accounted : p.engine.position ≡ ledger no_position p.fills
    pub timed : p.lat_hist ≡ record_all (newest_first [] p.fills)

  Served-Accounted :
      (p : Pipeline S) → m ≤ 2 ^ 63 → Served on_tick value m n cfg st0 p → Accounted p
  Served-Accounted p h x =
      let ((waiting, d, l), q) = delivered on_tick value m n cfg st0 p.feed x.steps h x.reached in
      record {
        on_their_way = waiting;
        in_order = d ∙ ap (λ t. t ++ (waiting ++ pending p.feed.feeder)) (sym x.in_order);
        few = l;
        ran = x.ran;
        accounted = x.accounted;
        timed = x.timed;
      }

  -- A pipeline with a feed that polls (`BinanceFeed`, `SyntheticFeed`), just started, whatever the order of the
  -- steps of its threads, and with any strategy and limits, follows no dangling pointer. It has handled the events that the feed fetched, in
  -- their order, none lost or doubled, but for those in the queue, at most as many as its capacity, and
  -- at most one that the feed has not pushed; its engine is where `run` over these events ends; its
  -- position is what the fills that the callback was called with come to, a purchase adding its quantity
  -- and paying its price, a sale the other way round; and the histogram is that of their latencies. Quantities of the events are those of their
  -- type, the pool has at least three slots, and the capacity asked for is at most 2^63.
  pub run_pipeline-Accounted :
      (es : List PipelineEvent)
      → m ≤ 2 ^ 63
      → 3 ≤ n
      → All IsPipelineEvent es
      → (p : Pipeline S) × (run_pipeline on_tick (new_pipeline value m n cfg st0) es ≡ some p)
        × Accounted p
  run_pipeline-Accounted es h r g =
      let (p, is, x) =
        run_pipeline-keeps on_tick value m n cfg st0 es (new_pipeline value m n cfg st0) h g
          (new_pipeline-Served on_tick value m n cfg st0 r) in
      (p, is, Served-Accounted p h x)

-- With a position limit, no order of the steps of the threads of a pipeline with a feed that polls, no events and no strategy
-- take the position of its engine beyond the limit. Quantities are those of their type, the pool has at
-- least three slots, and the capacity asked for is at most 2^63.
pub run_pipeline-within :
    {S : Type 0} (on_tick : S → MarketSnapshot → Option StrategyAction × S) (value : MarketEvent)
    (m n : ℕ) (limits : RiskConfig) (st : S) (es : List PipelineEvent)
    → IsStrategy on_tick
    → m ≤ 2 ^ 63
    → 3 ≤ n
    → pos 0 <ℤ limits.max_position_qty
    → All IsPipelineEvent es
    → (p : Pipeline S) × (run_pipeline on_tick (new_pipeline value m n (some limits) st) es
        ≡ some p)
      × (abs_ℤ p.engine.position.btc_qty ≤ℤ limits.max_position_qty)
run_pipeline-within {S = S} on_tick value m n limits st es q h r w g =
    let cfg = some limits in
    let (p, is, x) =
      run_pipeline-keeps on_tick value m n cfg st es (new_pipeline value m n cfg st) h g
        (new_pipeline-Served on_tick value m n cfg st r) in
    let popped = popped-All on_tick value m n cfg st p.feed x.steps h x.reached x.good in
    let events = handled-All p.handled (subst (All IsEvent) (sym x.in_order) popped) in
    let (e, st', ran, bounded) = run_engine-within on_tick limits n st p.handled q events w r in
    let same : ◌≡◌ {A = Option (TradingEngine × S)} (some (e, st')) (some (p.engine, p.strategy)) =
      sym ran ∙ x.ran in
    let same_engine : e ≡ p.engine = cc in
    (p, is, subst (λ a. abs_ℤ a.position.btc_qty ≤ℤ limits.max_position_qty) same_engine bounded)
