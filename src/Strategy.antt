-- ===== src/Strategy.antt =====
-- include/order_book/strategy.hpp and `MeanReversion::on_tick` of src/trading_engine.cpp. The mean and
-- the deviation from it are doubles: the two tests of the deviation are arguments of the model.
pub mod Window
pub mod Tests
use orderbook_c.Base.{Bool, List, Option, [], if◌then◌else◌, length, ltb, none, some, ℕ, ◌++◌, ◌∷◌}
use orderbook_c.Base.Int.{pos, ℤ, ◌+ℤ◌, ◌-ℤ◌, ◌/ℤ◌, ◌==ℤ◌}
use orderbook_c.Types.{Side, add64, buy, sell}

pub record MarketSnapshot : Type 0 where
  pub best_bid : ℤ
  pub best_ask : ℤ
  pub bid_qty : ℕ
  pub ask_qty : ℕ
  pub last_trade : ℤ
  pub event_ts : ℕ

-- A sum beyond 64 bits is undefined in C++ and not in the model.
unfoldable pub mid : MarketSnapshot → ℤ
mid s = (s.best_bid +ℤ s.best_ask) /ℤ pos 2

pub record StrategyAction : Type 0 where
  pub side : Side
  pub qty : ℕ

-- `Config`, with the two tests of the deviation in place of `entry_bps`: of the sum of the window, its
-- size and the current mid-price.
pub record ReversionConfig : Type 0 where
  pub window : ℕ
  pub is_low : ℤ → ℕ → ℤ → Bool
  pub is_high : ℤ → ℕ → ℤ → Bool
  pub trade_qty : ℕ
  pub cool_down : ℕ

-- The window from its front, the oldest price first.
pub record MeanReversion : Type 0 where
  pub prices : List ℤ
  pub sum : ℤ
  pub since_action : ℕ

abbrev pub new_reversion : MeanReversion
new_reversion = record { prices = []; sum = pos 0; since_action = 0 }

-- `sum_ -= window_.front(); window_.pop_front()`.
abbrev pub pop_front : MeanReversion → MeanReversion
pop_front m = elim m.prices [ [] ↦ m | p ∷ ps ↦ record m { prices = ps; sum = m.sum -ℤ p } ]

unfoldable pub slide : ReversionConfig → ℤ → MeanReversion → MeanReversion
slide cfg px m =
    let m' = record m { prices = m.prices ++ (px ∷ []); sum = m.sum +ℤ px } in
    if ltb cfg.window (length m'.prices) then pop_front m' else m'

abbrev pub react : ReversionConfig → ℤ → MeanReversion → Option StrategyAction × MeanReversion
react cfg px m =
    let acted : MeanReversion = record m { since_action = 0 } in
    if cfg.is_low m.sum (length m.prices) px
    then (some (record { side = buy; qty = cfg.trade_qty }), acted)
    else (if cfg.is_high m.sum (length m.prices) px
        then (some (record { side = sell; qty = cfg.trade_qty }), acted)
        else (none, m))

unfoldable pub on_tick :
    ReversionConfig → MeanReversion → MarketSnapshot → Option StrategyAction × MeanReversion
on_tick cfg m s =
    let px = mid s in
    let m1 = slide cfg px m in
    let m2 : MeanReversion = record m1 { since_action = add64 m1.since_action 1 } in
    if px ==ℤ pos 0
    then (none, m)
    else (if ltb (length m1.prices) cfg.window
        then (none, m1)
        else (if ltb m1.since_action cfg.cool_down then (none, m2) else react cfg px m2))
