-- ===== src/Pipeline/Served.antt =====
-- The invariant of the steps of a pipeline of src/live_trade.cpp.
use mathlib.Core.List.{append-nil}
use orderbook_c.Base.{
  All, All-parts, List, Option, [], ap, false, if_cases, if◌then◌else◌, length, none, refl, some,
  subst, sym, true, ℕ, ◌++◌, ◌^◌, ◌∙◌, ◌∷◌, ◌≡◌, ◌≤◌,
}
use orderbook_c.Engine.Ledger.{fills_of, ledger, ledger-append}
use orderbook_c.Engine.Loop.{run_engine}
use orderbook_c.Engine.Refresh.{Between}
use orderbook_c.Engine.Run.{new_engine-Between}
use orderbook_c.Engine.State.{Fill, new_engine}
use orderbook_c.Engine.Ticks.{IsEvent, tick-Ticked}
use orderbook_c.Feed.{MarketEvent}
use orderbook_c.Feed.Delivery.{gave_up, pending, run_feed-delivers}
use orderbook_c.Feed.Thread.{
  FeedEvent, FeedSystem, feeder_steps, popper_steps, run_feed, started_feed, step_feed, stop_called,
}
use orderbook_c.Histogram.{LatencyHistogram, add}
use orderbook_c.Histogram.Samples.{record_all}
use orderbook_c.Options.Pipeline.{fill_latency, on_fill}
use orderbook_c.Pipeline.{
  Pipeline, PipelineEvent, add_latency, engine_steps, engine_stopped, feed_steps, feed_stopped,
  handle, new_pipeline, pop_step, report, run_pipeline, step_engine, step_pipeline,
}
use orderbook_c.Pipeline.Handled.{
  AllOf, events_of, events_of-append, newest_first, newest_first-append, no_position, popped_by,
  run_engine-append, run_feed-append, step_consumer-popped, step_feeder-All, step_feeder-popped,
}
use orderbook_c.Queue.{Consumer, c_idle, c_publish, c_read, c_reload, step, step_consumer}
use orderbook_c.Risk.{RiskConfig}
use orderbook_c.Strategy.{MarketSnapshot, StrategyAction}

-- The events of the feeds have quantities of their type.
abbrev pub IsPipelineEvent : PipelineEvent → Type 0
IsPipelineEvent (feed_steps outcome) = AllOf IsEvent outcome
IsPipelineEvent e = Unit

module _ {S : Type 0} (on_tick : S → MarketSnapshot → Option StrategyAction × S)
    (value : MarketEvent) (m n : ℕ) (cfg : Option RiskConfig) (st0 : S) where
  pub record Served (p : Pipeline S) : Type 0 where
    pub steps : List (FeedEvent MarketEvent)
    pub reached : p.feed ≡ run_feed (started_feed value m) steps
    pub good : All IsEvent p.feed.fetched
    pub in_order : events_of p.handled ≡ p.feed.system.popped
    pub ran : run_engine on_tick (new_engine n cfg) st0 p.handled ≡ some (p.engine, p.strategy)
    pub between : Between p.engine
    pub accounted : p.engine.position ≡ ledger no_position p.fills
    pub timed : p.lat_hist ≡ record_all (newest_first [] p.fills)

  -- A step of the feed or of the queue that pops nothing.
  moved-Served :
      (p : Pipeline S) (e : FeedEvent MarketEvent)
      → All IsEvent (step_feed p.feed e).fetched
      → (step_feed p.feed e).system.popped ≡ p.feed.system.popped
      → Served p
      → Served (record p { feed = step_feed p.feed e })
  moved-Served p e g q x = record {
    steps = x.steps ++ e ∷ [];
    reached =
        ap (λ s. step_feed s e) x.reached ∙ sym (run_feed-append (started_feed value m) x.steps e);
    good = g;
    in_order = x.in_order ∙ sym q;
    ran = x.ran;
    between = x.between;
    accounted = x.accounted;
    timed = x.timed;
  }

  -- The callback keeps the histogram of the fills.
  report-timed :
      (f : Option Fill) (h : LatencyHistogram) (fs : List Fill)
      → h ≡ record_all (newest_first [] fs)
      → add_latency f h ≡ record_all (newest_first [] (fs ++ fills_of f))
  unfolding on_fill record_all
  report-timed none h fs e = e ∙ ap (λ l. record_all (newest_first [] l)) (sym (append-nil fs))
  report-timed (some f) h fs e =
      ap (λ l. add l (fill_latency f)) e ∙ sym (ap record_all (newest_first-append [] fs f))

  pub delivered :
      (s : FeedSystem MarketEvent) (es : List (FeedEvent MarketEvent))
      → m ≤ 2 ^ 63
      → s ≡ run_feed (started_feed value m) es
      → ((waiting : List MarketEvent) × (s.fetched
            ≡ s.system.popped ++ (waiting ++ pending s.feeder))
          × (length waiting ≤ length s.system.queue.slots))
        × (s.running ≡ true → gave_up s.feeder ≡ false)
  delivered s es h e =
      subst
        (λ t.
          ((waiting : List MarketEvent) × (t.fetched
              ≡ t.system.popped ++ (waiting ++ pending t.feeder))
            × (length waiting ≤ length t.system.queue.slots))
          × (t.running ≡ true → gave_up t.feeder ≡ false))
        (sym e) (run_feed-delivers value m es h)

  -- What has come out of the queue was fetched.
  pub popped-All :
      (s : FeedSystem MarketEvent) (es : List (FeedEvent MarketEvent))
      → m ≤ 2 ^ 63
      → s ≡ run_feed (started_feed value m) es
      → All IsEvent s.fetched
      → All IsEvent s.system.popped
  popped-All s es h e g =
      let ((waiting, d, l), q) = delivered s es h e in
      (All-parts IsEvent s.system.popped (waiting ++ pending s.feeder) (subst (All IsEvent) d g)).0

  -- The round of the engine with an event that it has just popped.
  handle-Served :
      (ev : MarketEvent) (now : ℕ) (p : Pipeline S)
      → m ≤ 2 ^ 63
      → p.feed.system.consumer ≡ c_publish ev
      → Served p
      → (q : Pipeline S) × (handle on_tick ev now (pop_step p) ≡ some q) × Served q
  unfolding handle step_feed step step_consumer
  handle-Served ev now p h c x =
      let r = pop_step p in
      let reached =
        ap (λ s. step_feed s popper_steps) x.reached
        ∙ sym (run_feed-append (started_feed value m) x.steps popper_steps) in
      let out : r.feed.system.popped ≡ p.feed.system.popped ++ ev ∷ [] =
        ap (λ k. (step_consumer k p.feed.system).popped) c in
      let all =
        subst (All IsEvent) out
          (popped-All r.feed (x.steps ++ popper_steps ∷ []) h reached x.good) in
      let here = (All-parts IsEvent p.feed.system.popped (ev ∷ []) all).1.0 in
      let (e', f, st', is, t) = tick-Ticked on_tick p.engine p.strategy ev now here x.between in
      let q : Pipeline S = record r {
        engine = e';
        strategy = st';
        handled = p.handled ++ (ev, now) ∷ [];
      } in
      (
        report f q,
        rw is refl,
        record {
          steps = x.steps ++ popper_steps ∷ [];
          reached = reached;
          good = x.good;
          in_order =
              events_of-append p.handled (ev, now) ∙ (ap (λ l. l ++ ev ∷ []) x.in_order ∙ sym out);
          ran =
              run_engine-append on_tick p.handled (ev, now) (new_engine n cfg) p.engine e' st0
                p.strategy st' f x.ran is;
          between = t.between;
          accounted =
              t.accounted
              ∙ (ap (λ a. ledger a (fills_of f)) x.accounted
                  ∙ sym (ledger-append no_position p.fills (fills_of f)));
          timed = report-timed f p.lat_hist p.fills x.timed;
        },
      )

  -- A step of `try_pop` that is not its last.
  pop_step-Served :
      (p : Pipeline S) → popped_by p.feed.system.consumer ≡ [] → Served p → Served (pop_step p)
  unfolding step_feed step
  pop_step-Served p e x =
      moved-Served p popper_steps x.good
        (step_consumer-popped p.feed.system.consumer p.feed.system
          ∙ (ap (λ l. p.feed.system.popped ++ l) e ∙ append-nil p.feed.system.popped))
        x

  step_engine-Served :
      (c : Consumer MarketEvent) (now : ℕ) (p : Pipeline S)
      → m ≤ 2 ^ 63
      → p.feed.system.consumer ≡ c
      → Served p
      → (q : Pipeline S) × (step_engine on_tick c now p ≡ some q) × Served q
  unfolding step_engine
  step_engine-Served c_idle now p h e x = (
    if p.engine_running then pop_step p else p,
    refl,
    if_cases Served p.engine_running (pop_step p) p (λ r. pop_step-Served p (ap popped_by e) x)
        (λ r. x),
  )
  step_engine-Served c_reload now p h e x = (pop_step p, refl, pop_step-Served p (ap popped_by e) x)
  step_engine-Served c_read now p h e x = (pop_step p, refl, pop_step-Served p (ap popped_by e) x)
  step_engine-Served (c_publish ev) now p h e x = handle-Served ev now p h e x

  step_pipeline-Served :
      (p : Pipeline S) (e : PipelineEvent)
      → m ≤ 2 ^ 63
      → IsPipelineEvent e
      → Served p
      → (q : Pipeline S) × (step_pipeline on_tick p e ≡ some q) × Served q
  unfolding step_pipeline step_feed
  step_pipeline-Served p (feed_steps outcome) h g x = (
    record p { feed = step_feed p.feed (feeder_steps outcome) },
    refl,
    moved-Served p (feeder_steps outcome)
        (step_feeder-All IsEvent p.feed.feeder outcome p.feed g x.good)
        (step_feeder-popped p.feed.feeder outcome p.feed) x,
  )
  step_pipeline-Served p (engine_steps now) h g x =
      step_engine-Served p.feed.system.consumer now p h refl x
  step_pipeline-Served p feed_stopped h g x = (
    record p { feed = step_feed p.feed stop_called },
    refl,
    moved-Served p stop_called x.good refl x,
  )
  step_pipeline-Served p engine_stopped h g x = (
    record p { engine_running = false },
    refl,
    record {
      steps = x.steps;
      reached = x.reached;
      good = x.good;
      in_order = x.in_order;
      ran = x.ran;
      between = x.between;
      accounted = x.accounted;
      timed = x.timed;
    },
  )

  pub run_pipeline-keeps :
      (es : List PipelineEvent) (p : Pipeline S)
      → m ≤ 2 ^ 63
      → All IsPipelineEvent es
      → Served p
      → (q : Pipeline S) × (run_pipeline on_tick p es ≡ some q) × Served q
  unfolding run_pipeline
  run_pipeline-keeps [] p h g x = (p, refl, x)
  run_pipeline-keeps (e ∷ es) p h g x =
      let (q, is, y) = step_pipeline-Served p e h g.0 x in
      let (r, is', z) = run_pipeline-keeps es q h g.1 y in (r, rw (is, run_pipeline) is', z)

  pub new_pipeline-Served : 3 ≤ n → Served (new_pipeline value m n cfg st0)
  unfolding run_feed run_engine ledger record_all new_engine
  new_pipeline-Served r = record {
    steps = [];
    reached = refl;
    good = tt;
    in_order = refl;
    ran = refl;
    between = new_engine-Between n cfg r;
    accounted = refl;
    timed = refl;
  }
