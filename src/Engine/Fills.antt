-- ===== src/Engine/Fills.antt =====
-- What a fill against one quote is, and how `apply_action` books it (src/trading_engine.cpp).
use orderbook_c.Base.{Option, [], arith, false, min, refl, some, ℕ, ◌%◌, ◌+◌, ◌<◌, ◌==◌, ◌∷◌, ◌≡◌}
use orderbook_c.Base.Int.{add_ℤ_parts, eq_of_parts, pos, sub_ℤ_parts, ℤ, ◌*ℤ◌, ◌+ℤ◌, ◌-ℤ◌, ◌/ℤ◌}
use orderbook_c.Engine.Refresh.{Between}
use orderbook_c.Engine.State.{Fill, Position, TradingEngine}
use orderbook_c.Engine.Taking.{
  Collected, book_fill, collect_all, moved_position, nothing_collected, quote_px, quote_qty,
  signed_cash, trade_notional,
}
use orderbook_c.Feed.{quantity_scale}
use orderbook_c.Risk.{along, to_i64}
use orderbook_c.Strategy.{MarketSnapshot, StrategyAction}
use orderbook_c.Types.{Side, Trade, buy, sell, u64_mod}

-- A buyer's quantity goes up and its cash down, a seller's the other way round.
abbrev gained : Side → ℤ → ℤ → ℤ
gained buy n x = n +ℤ x
gained sell n x = n -ℤ x

abbrev paid : Side → ℤ → ℤ → ℤ
paid buy n x = n -ℤ x
paid sell n x = n +ℤ x

-- A position with a fill entered: its quantity, its cash at the fill's price, its volume and its count.
abbrev pub entered : Position → Fill → Position
entered p f = record {
  btc_qty = gained f.side p.btc_qty (to_i64 f.qty);
  cash = paid f.side p.cash ((to_i64 f.qty *ℤ f.price) /ℤ pos quantity_scale);
  gross_volume = (p.gross_volume + f.qty) % u64_mod;
  fills = (p.fills + 1) % u64_mod;
}

module _ (now : ℕ) (a : StrategyAction) (s : MarketSnapshot) (e : TradingEngine) where
  -- The lesser of what is asked for and what is shown.
  abbrev pub fill_qty : ℕ
  fill_qty = min a.qty (quote_qty a.side e)

  abbrev pub fill_cash : ℤ
  fill_cash = signed_cash a.side ((to_i64 fill_qty *ℤ quote_px a.side e) /ℤ pos quantity_scale)

  abbrev pub filled_position : Position
  filled_position =
      moved_position a.side
        (record {
          filled = fill_qty;
          cash_delta = fill_cash;
          agg_volume = fill_qty;
          last_px = quote_px a.side e;
        })
        e.position

  abbrev pub the_fill : Fill
  the_fill = record {
    side = a.side;
    price = quote_px a.side e;
    qty = fill_qty;
    event_ts = s.event_ts;
    ts = now;
  }

  -- One fill at the price of the quote, booked in the position and reported.
  pub record Filled (r : TradingEngine × Option Fill) : Type 0 where
    pub between : Between r.0
    pub same_risk : r.0.risk ≡ e.risk
    pub booked : r.0.position ≡ entered e.position the_fill
    pub reported : r.1 ≡ some the_fill

add_negated : (n x : ℤ) → n +ℤ (pos 0 -ℤ x) ≡ n -ℤ x
add_negated n x =
    eq_of_parts (n +ℤ (pos 0 -ℤ x)) (n -ℤ x)
      (omega (arith, add_ℤ_parts n (pos 0 -ℤ x), sub_ℤ_parts (pos 0) x, sub_ℤ_parts n x))

add_along : (n x : ℤ) → n +ℤ along sell x ≡ n -ℤ x
add_along n x =
    eq_of_parts (n +ℤ along sell x) (n -ℤ x)
      (ground (arith, add_ℤ_parts n (along sell x), sub_ℤ_parts n x))

-- What the code books is the entry of the fill.
pub filled_position-entered :
    (now : ℕ) (a : StrategyAction) (s : MarketSnapshot) (e : TradingEngine)
    → filled_position now a s e ≡ entered e.position (the_fill now a s e)
filled_position-entered now a s e = by_side a.side
  where
    by_side :
        (side : Side)
        → let b : StrategyAction = record { side = side; qty = a.qty } in
          filled_position now b s e ≡ entered e.position (the_fill now b s e)
    by_side buy =
        rw
          (add_negated e.position.cash
            ((to_i64 (min a.qty e.cur_ask_qty) *ℤ e.cur_ask) /ℤ pos quantity_scale))
          refl
    by_side sell = rw (add_along e.position.btc_qty (to_i64 (min a.qty e.cur_bid_qty))) refl

zero-add_ℤ : (x : ℤ) → pos 0 +ℤ x ≡ x
zero-add_ℤ x = eq_of_parts (pos 0 +ℤ x) x (omega (arith, add_ℤ_parts (pos 0) x))

pub collect_one :
    (side : Side) (t : Trade)
    → t.qty < u64_mod
    → collect_all side nothing_collected (t ∷ []) ≡ record {
      filled = t.qty;
      cash_delta = signed_cash side (trade_notional t);
      agg_volume = t.qty;
      last_px = t.price;
    }
unfolding collect_all
collect_one side t h =
    let m : (0 + t.qty) % u64_mod ≡ t.qty = omega arith in
    rw (m, zero-add_ℤ (signed_cash side (trade_notional t))) refl

pub book_fill-some :
    (now : ℕ) (a : StrategyAction) (s : MarketSnapshot) (c : Collected) (e : TradingEngine)
    → 0 < c.filled
    → book_fill now a s c e ≡ (
      record e { position = moved_position a.side c e.position },
      some (record {
        side = a.side;
        price = c.last_px;
        qty = c.filled;
        event_ts = s.event_ts;
        ts = now;
      }),
    )
unfolding book_fill
book_fill-some now a s c e h = let k : (c.filled == 0) ≡ false = ground arith in rw k refl
