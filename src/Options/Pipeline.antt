-- ===== src/Options/Pipeline.antt =====
-- What src/live_trade.cpp computes from its settings, and from each fill.
-- The symbols in quotes, with commas between them.
use orderbook_c.Base.{Bool, List, [], codes, if◌then◌else◌, ltb, not, sym, ℕ, ◌&&◌, ◌++◌, ◌-◌, ◌∷◌}
use orderbook_c.Base.Int.{negsuc, pos, ℤ, ◌==ℤ◌}
use orderbook_c.Engine.State.{Fill}
use orderbook_c.Feed.Parse.{to_price, to_qty}
use orderbook_c.Histogram.{LatencyHistogram, add}
use orderbook_c.Options.Arguments.{Settings}
use orderbook_c.Risk.{RiskConfig}

abbrev quoted : List ℕ → List ℕ
quoted sym = codes "\"" ++ (sym ++ codes "\"")

unfoldable pub join_symbols : List (List ℕ) → List ℕ
join_symbols [] = []
join_symbols (sym ∷ []) = quoted sym
join_symbols (sym ∷ next ∷ syms) = quoted sym ++ (codes "," ++ join_symbols (next ∷ syms))

-- `static_cast<std::int64_t>` of a `Quantity`.
abbrev pub to_signed : ℕ → ℤ
to_signed n = if ltb n 9223372036854775808 then pos n else negsuc (18446744073709551615 - n)

module _ {D : Type 0} (scaled : D → ℕ → D) (llround : D → ℤ) where
  unfoldable pub risk_limits : Settings D → RiskConfig
  risk_limits s = record {
    max_position_qty = to_signed (to_qty scaled llround s.max_pos_btc);
    max_notional = to_price scaled llround s.max_notional;
    max_drawdown = to_price scaled llround s.max_drawdown;
  }

-- The bits of three numbers are all clear exactly if each of them is zero.
unfoldable pub risk_on : RiskConfig → Bool
risk_on c =
    not ((c.max_position_qty ==ℤ pos 0) && (c.max_notional ==ℤ pos 0) && (c.max_drawdown ==ℤ pos 0))

-- The latency that the callback of a fill adds to the histogram.
unfoldable pub fill_latency : Fill → ℕ
fill_latency f = if ltb f.event_ts f.ts then f.ts - f.event_ts else 0

unfoldable pub on_fill : Fill → LatencyHistogram → LatencyHistogram
on_fill f h = add h (fill_latency f)
