-- ===== src/Options/Tests.antt =====
-- Runs of the options and of the symbol list on small inputs.
use Prim.Native.String.{String}
use text.Mathlib.Text.{◌==◌}
use orderbook_c.Base.{
  List, [], arith, codes, false, length, none, refl, some, suc, true, zero, ℕ, ◌++◌, ◌+◌, ◌/◌, ◌∷◌,
  ◌≡◌,
}
use orderbook_c.Base.Int.{negsuc, pos, ℤ, ◌==ℤ◌}
use orderbook_c.Engine.State.{new_engine}
use orderbook_c.Feed.Parse.{spot, to_price, to_qty}
use orderbook_c.Histogram.{
  add, at_least_one, between, bucket_of, find_rank, leading_zeros, max_of, mean_ns, min_of,
  new_histogram, percentile_ns,
}
use orderbook_c.Options.Arguments.{
  Settings, check_settings, helped, missing_value, parse_arguments, parsed, unknown_market,
}
use orderbook_c.Options.Override.{all_arguments, parse_arguments-override}
use orderbook_c.Options.Pipeline.{fill_latency, join_symbols, risk_limits, risk_on}
use orderbook_c.Options.Split.{parse_symbols-split, split_at_commas, trimmed_pieces}
use orderbook_c.Options.Symbols.{
  find_comma, find_first_not_blank, find_last_not_blank, parse_symbols, push_trimmed, symbol_loop,
}
use orderbook_c.Options.Wiring.{
  cannot_open, choose_feed, fill_telemetry, final_stats, from_price, from_qty, no_publisher,
  open_sinks, publishes_to, rest_feed, status_telemetry,
}
use orderbook_c.Telemetry.Fields.{make_fill, make_meta, make_status, set_field, text_of}
use orderbook_c.Telemetry.Sinks.{make_ws_sink, open_file}
use orderbook_c.Types.{sell}

abbrev two_symbols : List ℕ
two_symbols = codes " BTCUSDT,, \tETHUSDT ,"

parse_symbols_test : parse_symbols two_symbols ≡ codes "BTCUSDT" ∷ codes "ETHUSDT" ∷ []
unfolding parse_symbols symbol_loop find_comma push_trimmed find_first_not_blank find_last_not_blank
parse_symbols_test = refl

parse_symbols-split_example :
    parse_symbols two_symbols ≡ trimmed_pieces (split_at_commas two_symbols)
parse_symbols-split_example = parse_symbols-split two_symbols

-- The texts of the few numbers here.
abbrev int_in : String → ℤ
int_in s =
    pos (elim (s == "250") [ true ↦ 250 | false ↦ elim (s == "42") [ true ↦ 42 | false ↦ 0 ] ])

abbrev text_of_small : ℤ → String
text_of_small n = elim (n ==ℤ pos 250) [
  | true ↦ "250"
  | false ↦ elim (n ==ℤ pos 42) [ true ↦ "42" | false ↦ "0" ]
]

abbrev defaults : Settings String
defaults = record {
  source = "synthetic";
  feed_kind = "ws";
  market = "futures";
  symbol = "BTCUSDT";
  poll_ms = pos 250;
  run_seconds = pos 0;
  seed = 42;
  start_price = "80000.0";
  sigma = "5.0";
  drift = "0.0";
  max_pos_btc = "0.0";
  max_notional = "0.0";
  max_drawdown = "0.0";
  log_path = "";
  serve_port = pos 0;
}

missing_value_test :
    parse_arguments int_in (λ s. s) ("--market" ∷ "spot" ∷ "--sigma" ∷ []) defaults
    ≡ missing_value "--sigma"
unfolding parse_arguments
missing_value_test = refl

help_test : parse_arguments int_in (λ s. s) ("-h" ∷ "--what" ∷ []) defaults ≡ helped
unfolding parse_arguments
help_test = refl

unknown_market_test :
    check_settings (record defaults { source = "binance"; market = "margin" })
    ≡ unknown_market "margin"
unfolding check_settings
unknown_market_test = refl

parse_arguments-override_example :
    parse_arguments int_in
      (λ s. s)
      (("--market" ∷ "spot" ∷ []) ++ all_arguments int_in (λ s. s) text_of_small (λ x. x) defaults)
      defaults
    ≡ parsed defaults
unfolding parse_arguments
parse_arguments-override_example =
    parse_arguments-override int_in (λ s. s) text_of_small (λ x. x) ("--market" ∷ "spot" ∷ [])
      defaults (record defaults { market = "spot" }) defaults (refl, (refl, (refl, (refl, tt))))
      (refl, (refl, (refl, (refl, (refl, (refl, tt)))))) (omega arith) refl

join_symbols_test : join_symbols (codes "BTC" ∷ codes "ETH" ∷ []) ≡ codes "\"BTC\",\"ETH\""
unfolding join_symbols
join_symbols_test = refl

-- The list of 26 symbols of seven letters has 259 bytes, and the record of it ends inside the last.
abbrev many_symbols : ℕ → List (List ℕ)
many_symbols zero = []
many_symbols (suc n) = codes "BTCUSDT" ∷ many_symbols n

cut_symbols_test :
    (length (join_symbols (many_symbols 26)) ≡ 259)
    × (length (text_of (make_meta {D = ℕ} 0 0 [] [] (join_symbols (many_symbols 26))).meta_symbols)
        ≡ 255)
unfolding join_symbols make_meta set_field text_of
cut_symbols_test = (refl, refl)

-- With the two other limits at zero, the position's limit alone turns the gate on.
risk_on_test :
    risk_on (risk_limits (λ x k. x) int_in (record defaults { max_pos_btc = "42" })) ≡ true
unfolding risk_on risk_limits to_qty to_price
risk_on_test = refl

risk_off_test : risk_on (risk_limits (λ x k. x) int_in defaults) ≡ false
unfolding risk_on risk_limits to_qty to_price
risk_off_test = refl

abbrev shown_price : ℕ → ℕ → ℕ
shown_price p scale = p / scale

-- A log that does not open ends the program, also with a server asked for.
cannot_open_test :
    open_sinks (record defaults { log_path = "run.jsonl"; serve_port = pos 8080 }) false true
    ≡ cannot_open
unfolding open_sinks open_file
cannot_open_test = refl

no_publisher_test : open_sinks defaults true true ≡ no_publisher
unfolding open_sinks
no_publisher_test = refl

two_sinks_test :
    open_sinks (record defaults { log_path = "run.jsonl"; serve_port = pos 8080 }) true true
    ≡ publishes_to (some (open_file true)) (some (make_ws_sink true))
unfolding open_sinks open_file
two_sinks_test = refl

rest_feed_test :
    choose_feed "0.5"
      (record defaults { source = "binance"; feed_kind = "rest" })
      spot
      (codes "BTCUSDT")
    ≡ rest_feed (codes "BTCUSDT") (pos 250) spot
unfolding choose_feed
rest_feed_test = refl

-- A fill before its event is shown without latency.
fill_telemetry_test :
    let r =
      fill_telemetry 0
        (λ x. elim x [ pos n ↦ n | negsuc n ↦ 0 ])
        shown_price
        5
        (codes "BTC")
        (record { side = sell; price = pos 200000000; qty = 300000000; event_ts = 9; ts = 8 }) in
    (text_of r.sym ≡ codes "BTC") × ((r.amount ≡ 300) × (r.lat_us ≡ 0))
unfolding fill_telemetry make_fill from_qty fill_latency set_field text_of
fill_telemetry_test = (refl, (refl, refl))

-- An engine without a price yet shows its cash as its equity.
first_status_test :
    (status_telemetry 0
      (λ x. elim x [ pos n ↦ n | negsuc n ↦ 0 ])
      (λ p k. p)
      5
      (codes "BTC")
      (new_engine 3 none)
      (new_engine 3 none)
      (new_engine 3 none)).equity
    ≡ 0
unfolding status_telemetry make_status new_engine from_price
first_status_test = refl

-- Two fills, of 4 and 6 microseconds: the middle one is shown as the lower edge of its bucket.
final_stats_test :
    final_stats 0
      (λ n. n)
      (λ a b. a / b)
      (between (λ n. (n + 1) / 2))
      at_least_one
      (add (add new_histogram 4096) 6000)
    ≡ some (record { fills = 2; min_us = 4; p50_us = 4; p99_us = 6; max_us = 6; mean_us = 5 })
unfolding final_stats add new_histogram min_of max_of percentile_ns find_rank mean_ns bucket_of
    leading_zeros
final_stats_test = refl
