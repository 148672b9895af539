-- ===== src/Options/Arguments.antt =====
-- The options of src/live_trade.cpp: the loop over the arguments and the checks behind it.
use Prim.Native.String.{String}
use text.Mathlib.Text.{◌==◌}
use orderbook_c.Base.{
  List, Option, [], codes, if◌then◌else◌, none, not, some, suc, sym, ℕ, ◌%◌, ◌&&◌, ◌-◌, ◌||◌, ◌∷◌,
}
use orderbook_c.Base.Int.{negsuc, pos, ℤ}
use orderbook_c.Feed.Parse.{BinanceMarket, futures, spot}
use orderbook_c.Options.Symbols.{parse_symbols}

pub record Settings (D : Type 0) : Type 0 where
  pub source : String
  pub feed_kind : String
  pub market : String
  pub symbol : String
  pub poll_ms : ℤ
  pub run_seconds : ℤ
  pub seed : ℕ
  pub start_price : D
  pub sigma : D
  pub drift : D
  pub max_pos_btc : D
  pub max_notional : D
  pub max_drawdown : D
  pub log_path : String
  pub serve_port : ℤ

-- How the loop ends: with settings, after the help text, or with an error about an argument.
pub data Parsing (D : Type 0) : Type 0 where
  parsed : Settings D → Parsing D
  helped : Parsing D
  missing_value unknown_argument : String → Parsing D

-- `static_cast<unsigned>` of an `int`.
abbrev pub to_uint : ℤ → ℕ
to_uint (pos n) = n % 4294967296
to_uint (negsuc n) = (4294967296 - suc n % 4294967296) % 4294967296

module _ {D : Type 0} (atoi : String → ℤ) (atof : String → D) where
  -- What an option that takes a value does with it.
  abbrev pub option_of : String → Option (String → Settings D → Settings D)
  option_of a =
      if a == "--source"
      then some (λ v s. record s { source = v })
      else if a == "--feed"
      then some (λ v s. record s { feed_kind = v })
      else if a == "--market"
      then some (λ v s. record s { market = v })
      else if a == "--symbol"
      then some (λ v s. record s { symbol = v })
      else if a == "--poll-ms"
      then some (λ v s. record s { poll_ms = atoi v })
      else if a == "--seconds"
      then some (λ v s. record s { run_seconds = atoi v })
      else if a == "--seed"
      then some (λ v s. record s { seed = to_uint (atoi v) })
      else if a == "--start-price"
      then some (λ v s. record s { start_price = atof v })
      else if a == "--sigma"
      then some (λ v s. record s { sigma = atof v })
      else if a == "--drift"
      then some (λ v s. record s { drift = atof v })
      else if a == "--max-pos"
      then some (λ v s. record s { max_pos_btc = atof v })
      else if a == "--max-notional"
      then some (λ v s. record s { max_notional = atof v })
      else if a == "--max-drawdown"
      then some (λ v s. record s { max_drawdown = atof v })
      else if a == "--log"
      then some (λ v s. record s { log_path = v })
      else if a == "--serve"
      then some (λ v s. record s { serve_port = atoi v })
      else none

  abbrev pub without_value : String → Parsing D
  without_value a = if (a == "-h") || (a == "--help") then helped else unknown_argument a

  -- The loop; the arguments are those behind the program's name.
  unfoldable pub parse_arguments : List String → Settings D → Parsing D
  parse_arguments [] s = parsed s
  parse_arguments (a ∷ []) s = elim (option_of a) [
    | none ↦ without_value a
    | some assign ↦ missing_value a
  ]
  parse_arguments (a ∷ v ∷ args) s = elim (option_of a) [
    | none ↦ without_value a
    | some assign ↦ parse_arguments args (assign v s)
  ]

-- The checks of the settings: the market to trade and the symbols, or what is refused.
pub data Check : Type 0 where
  ready : BinanceMarket → List (List ℕ) → Check
  unknown_market unknown_feed unknown_source : String → Check
  no_symbols : String → Check

abbrev with_symbols : BinanceMarket → String → List (List ℕ) → Check
with_symbols bm symbol [] = no_symbols symbol
with_symbols bm symbol (sym ∷ syms) = ready bm (sym ∷ syms)

module _ {D : Type 0} where
  abbrev check_feed : BinanceMarket → Settings D → Check
  check_feed bm s =
      if not (s.feed_kind == "ws") && not (s.feed_kind == "rest")
      then unknown_feed s.feed_kind
      else with_symbols bm s.symbol (parse_symbols (codes s.symbol))

  unfoldable pub check_settings : Settings D → Check
  check_settings s =
      if s.source == "binance"
      then (if s.market == "futures"
          then check_feed futures s
          else if s.market == "spot"
          then check_feed spot s
          else unknown_market s.market)
      else if not (s.source == "synthetic")
      then unknown_source s.source
      else with_symbols futures s.symbol (parse_symbols (codes s.symbol))
