-- ===== src/Engine/Taking.antt =====
-- `apply_action` of src/trading_engine.cpp. The clock that stamps a fill is an argument.
use orderbook_c.Base.{Bool, List, Option, [], false, if◌then◌else◌, none, some, ℕ, ◌==◌, ◌||◌, ◌∷◌}
use orderbook_c.Base.Int.{pos, ℤ, ◌*ℤ◌, ◌+ℤ◌, ◌-ℤ◌, ◌/ℤ◌, ◌==ℤ◌}
use orderbook_c.Engine.Quoting.{put_ask, put_bid}
use orderbook_c.Engine.State.{Fill, Position, TradingEngine}
use orderbook_c.Feed.{quantity_scale}
use orderbook_c.OrderBook.State.{best_ask, best_bid}
use orderbook_c.OrderBook.Submit.{submit}
use orderbook_c.Risk.{RiskManager, along, gate, to_i64}
use orderbook_c.Strategy.{MarketSnapshot, StrategyAction}
use orderbook_c.Types.{Side, Trade, add64, buy, ioc, sell}

-- The quote that a taker of a side crosses.
abbrev pub quote_px : Side → TradingEngine → ℤ
quote_px buy e = e.cur_ask
quote_px sell e = e.cur_bid

abbrev pub quote_qty : Side → TradingEngine → ℕ
quote_qty buy e = e.cur_ask_qty
quote_qty sell e = e.cur_bid_qty

abbrev pub quote_live : Side → TradingEngine → Bool
quote_live buy e = e.ask_quote_live
quote_live sell e = e.bid_quote_live

unfoldable pub ensure_quote : Side → TradingEngine → TradingEngine
ensure_quote buy e = if e.ask_quote_live then e else put_ask e
ensure_quote sell e = if e.bid_quote_live then e else put_bid e

-- What `collect` adds up.
pub record Collected : Type 0 where
  pub filled : ℕ
  pub cash_delta : ℤ
  pub agg_volume : ℕ
  pub last_px : ℤ

abbrev pub trade_notional : Trade → ℤ
trade_notional t = (to_i64 t.qty *ℤ t.price) /ℤ pos quantity_scale

abbrev pub signed_cash : Side → ℤ → ℤ
signed_cash buy x = pos 0 -ℤ x
signed_cash sell x = x

abbrev pub collect : Side → Collected → Trade → Collected
collect side c t = record {
  filled = add64 c.filled t.qty;
  cash_delta = c.cash_delta +ℤ signed_cash side (trade_notional t);
  agg_volume = add64 c.agg_volume t.qty;
  last_px = t.price;
}

unfoldable pub collect_all : Side → Collected → List Trade → Collected
collect_all side c [] = c
collect_all side c (t ∷ ts) = collect_all side (collect side c t) ts

abbrev pub nothing_collected : Collected
nothing_collected = record { filled = 0; cash_delta = pos 0; agg_volume = 0; last_px = pos 0 }

-- A quote that the taker has used up is no longer live.
abbrev pub drop_used_quote : Side → TradingEngine → TradingEngine
drop_used_quote buy e = record e {
  ask_quote_live = if best_ask e.book ==ℤ pos 0 then false else e.ask_quote_live;
}
drop_used_quote sell e = record e {
  bid_quote_live = if best_bid e.book ==ℤ pos 0 then false else e.bid_quote_live;
}

abbrev pub moved_position : Side → Collected → Position → Position
moved_position side c p = record {
  btc_qty = p.btc_qty +ℤ along side (to_i64 c.filled);
  cash = p.cash +ℤ c.cash_delta;
  gross_volume = add64 p.gross_volume c.agg_volume;
  fills = add64 p.fills 1;
}

-- The end of `apply_action`, from `if (filled == 0)` on.
unfoldable pub book_fill :
    ℕ → StrategyAction → MarketSnapshot → Collected → TradingEngine → TradingEngine × Option Fill
book_fill now a s c e = if c.filled == 0 then (e, none) else (
  record e { position = moved_position a.side c e.position },
  some (record {
    side = a.side;
    price = c.last_px;
    qty = c.filled;
    event_ts = s.event_ts;
    ts = now;
  }),
)

-- The taker, from its id on.
unfoldable pub take_quote :
    ℕ → StrategyAction → MarketSnapshot → TradingEngine → TradingEngine × Option Fill
take_quote now a s e =
    let r = submit e.book e.next_id a.side ioc (quote_px a.side e) a.qty 0 in
    let e1 : TradingEngine = record e { book = r.book; next_id = add64 e.next_id 1 } in
    book_fill now a s (collect_all a.side nothing_collected r.trades) (drop_used_quote a.side e1)

-- `apply_action` after the gate.
unfoldable pub cross_quote :
    ℕ → StrategyAction → MarketSnapshot → TradingEngine → TradingEngine × Option Fill
cross_quote now a s e =
    let e1 = ensure_quote a.side e in
    if quote_px a.side e ==ℤ pos 0 || quote_qty a.side e == 0
    then (e, none)
    else (if quote_live a.side e1 then take_quote now a s e1 else (e1, none))

abbrev pub gated_by : Option RiskManager → TradingEngine → StrategyAction → Option StrategyAction
gated_by none e a = some a
gated_by (some r) e a = gate r a e.position.btc_qty (quote_px a.side e)

abbrev pub gated : TradingEngine → StrategyAction → Option StrategyAction
gated e a = gated_by e.risk e a

unfoldable pub apply_action :
    ℕ → StrategyAction → MarketSnapshot → TradingEngine → TradingEngine × Option Fill
apply_action now a s e = if a.qty == 0 then (e, none) else elim (gated e a) [
  | none ↦ (e, none)
  | some a' ↦ if a'.qty == 0 then (e, none) else cross_quote now a' s e
]
