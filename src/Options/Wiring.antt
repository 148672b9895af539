-- ===== src/Options/Wiring.antt =====
-- What src/live_trade.cpp builds from its settings and publishes: the sinks, the feed of a symbol, and the
-- records of a run. Doubles are a parameter: `cast` of an integer and the quotient by an integer.
use text.Mathlib.Text.{◌==◌}
use orderbook_c.Base.{Bool, List, Option, codes, if◌then◌else◌, ltb, none, not, some, sym, ℕ}
use orderbook_c.Base.Int.{ltb_ℤ, pos, ℤ}
use orderbook_c.Engine.State.{Fill, TradingEngine, equity_at}
use orderbook_c.Feed.{price_scale, quantity_scale}
use orderbook_c.Feed.Parse.{BinanceMarket}
use orderbook_c.Histogram.{LatencyHistogram, Portion, max_of, mean_ns, min_of, percentile_ns}
use orderbook_c.Options.Arguments.{Settings}
use orderbook_c.Options.Pipeline.{fill_latency, join_symbols}
use orderbook_c.Telemetry.Fields.{TelemetryRecord, make_fill, make_meta, make_status}
use orderbook_c.Telemetry.Sinks.{FileSink, WsSink, make_ws_sink, open_file}

-- `SyntheticFeed::Config`
pub record SyntheticConfig (D : Type 0) : Type 0 where
  pub initial_price : D
  pub spread : D
  pub sigma : D
  pub drift : D
  pub seed : ℕ

-- The feed of a pipeline, with the arguments of its constructor.
pub data FeedChoice (D : Type 0) : Type 0 where
  ws_feed : List ℕ → BinanceMarket → FeedChoice D
  rest_feed : List ℕ → ℤ → BinanceMarket → FeedChoice D
  synthetic_feed : ℤ → SyntheticConfig D → FeedChoice D

unfoldable pub choose_feed : {D : Type 0} → D → Settings D → BinanceMarket → List ℕ → FeedChoice D
choose_feed half_dollar s bm sym =
    if s.source == "binance"
    then (if s.feed_kind == "ws" then ws_feed sym bm else rest_feed sym s.poll_ms bm)
    else synthetic_feed s.poll_ms (record {
      initial_price = s.start_price;
      spread = half_dollar;
      sigma = s.sigma;
      drift = s.drift;
      seed = s.seed;
    })

-- The sinks of the publisher: none without `--log` and `--serve`, or an error about the file.
pub data Sinks : Type 0 where
  no_publisher cannot_open : Sinks
  publishes_to : Option FileSink → Option WsSink → Sinks

abbrev server_sink : ℤ → Bool → Option WsSink
server_sink port bound = if ltb_ℤ (pos 0) port then some (make_ws_sink bound) else none

-- Whether the file opens and the port is bound are arguments.
unfoldable pub open_sinks : {D : Type 0} → Settings D → Bool → Bool → Sinks
open_sinks s opens bound =
    if s.log_path == ""
    then (if ltb_ℤ (pos 0) s.serve_port
        then publishes_to none (server_sink s.serve_port bound)
        else no_publisher)
    else (let sink = open_file opens in
        if not sink.good
        then cannot_open
        else publishes_to (some sink) (server_sink s.serve_port bound))

module _ {D : Type 0} (zero_d : D) (cast : ℤ → D) (over : D → ℕ → D) where
  unfoldable pub from_price : ℤ → D
  from_price p = over (cast p) price_scale

  unfoldable pub from_qty : ℕ → D
  from_qty q = over (cast (pos q)) quantity_scale

  -- The first record.
  unfoldable pub meta_telemetry : ℕ → Settings D → List (List ℕ) → TelemetryRecord D
  meta_telemetry now s symbols =
      make_meta zero_d now (codes s.source) (codes s.feed_kind) (join_symbols symbols)

  -- The record of a fill.
  unfoldable pub fill_telemetry : ℕ → List ℕ → Fill → TelemetryRecord D
  fill_telemetry now sym f =
      make_fill zero_d now sym f.side (from_price f.price) (from_qty f.qty)
        (over (cast (pos (fill_latency f))) 1000)

  -- The record of the state of an engine, whose position, mid-price and equity are read one after the
  -- other, each from the state that the engine is in then.
  unfoldable pub status_telemetry :
      ℕ → List ℕ → TradingEngine → TradingEngine → TradingEngine → TelemetryRecord D
  status_telemetry now sym e1 e2 e3 =
      let p = e1.position in
      let mid_px = e2.last_mid in
      let eq = if ltb_ℤ (pos 0) mid_px then equity_at e3 mid_px else p.cash in
      make_status zero_d now sym (from_price mid_px) (from_price mid_px) (from_price mid_px)
        (over (cast p.btc_qty) quantity_scale) (over (cast p.cash) price_scale)
        (over (cast eq) price_scale) p.fills

-- The numbers of a pipeline that are printed at the end.
pub record Stats (D : Type 0) : Type 0 where
  pub fills : ℕ
  pub min_us : D
  pub p50_us : D
  pub p99_us : D
  pub max_us : D
  pub mean_us : D

-- The portions 0.50 and 0.99 are arguments, and so are 0.0, the conversion to a double and the quotient.
unfoldable pub final_stats :
    {D : Type 0}
    → D
    → (ℕ → D)
    → (D → D → D)
    → Portion
    → Portion
    → LatencyHistogram
    → Option (Stats D)
final_stats zero_d cast over half most h =
    let to_us = λ (ns : ℕ). over (cast ns) (cast 1000) in
    if ltb 0 h.count
    then some (record {
      fills = h.count;
      min_us = to_us (min_of h);
      p50_us = to_us (percentile_ns h half);
      p99_us = to_us (percentile_ns h most);
      max_us = to_us (max_of h);
      mean_us = over (mean_ns zero_d cast over h) (cast 1000);
    })
    else none
