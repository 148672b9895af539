-- ===== src/Risk.antt =====
-- include/order_book/risk.hpp: the drawdown halt and the gate on proposed actions. Signed 64-bit
-- values are integers: an overflow of theirs is undefined in C++ and not in the model.
pub mod Halt
pub mod Position
pub mod Notional
pub mod Tests
use orderbook_c.Base.{Bool, Option, false, if◌then◌else◌, ltb, none, not, some, ℕ, ◌&&◌, ◌^◌}
use orderbook_c.Base.Int.{leb_ℤ, ltb_ℤ, neg_part, pos, pos_part, sub_ℕ, ℤ, ◌*ℤ◌, ◌+ℤ◌, ◌-ℤ◌, ◌/ℤ◌}
use orderbook_c.Strategy.{StrategyAction}
use orderbook_c.Types.{Side, buy, sell}

pub record RiskConfig : Type 0 where
  pub max_position_qty : ℤ
  pub max_notional : ℤ
  pub max_drawdown : ℤ

pub record RiskManager : Type 0 where
  pub cfg : RiskConfig
  pub peak_equity : ℤ
  pub halted : Bool

abbrev pub new_manager : RiskConfig → RiskManager
new_manager cfg = record { cfg = cfg; peak_equity = pos 0; halted = false }

unfoldable pub observe_equity : RiskManager → ℤ → RiskManager
observe_equity m equity =
    let peak = if ltb_ℤ m.peak_equity equity then equity else m.peak_equity in
    record m {
      peak_equity = peak;
      halted =
          if not m.halted && ltb_ℤ (pos 0) m.cfg.max_drawdown
          then ltb_ℤ m.cfg.max_drawdown (peak -ℤ equity)
          else m.halted;
    }

abbrev pub risk_quantity_scale : ℕ
risk_quantity_scale = 1000000

-- The value of an unsigned 64-bit number after a cast to a signed one.
abbrev pub to_i64 : ℕ → ℤ
to_i64 n = if ltb n (2 ^ 63) then pos n else sub_ℕ n (2 ^ 64)

-- `dir * x`, with `dir` 1 for a buy and -1 for a sell.
abbrev pub along : Side → ℤ → ℤ
along buy x = x
along sell x = sub_ℕ (neg_part x) (pos_part x)

abbrev pub abs_ℤ : ℤ → ℤ
abs_ℤ x = if ltb_ℤ x (pos 0) then sub_ℕ (neg_part x) (pos_part x) else x

-- The end of both limits: no room rejects the action, less room than asked for reduces it.
abbrev pub within_room : ℤ → ℤ → Option ℤ
within_room room allowed =
    if leb_ℤ room (pos 0) then none else some (if ltb_ℤ room allowed then room else allowed)

-- A position beyond 64 bits is undefined in C++ and not in the model.
unfoldable pub position_limit : RiskConfig → Side → ℤ → ℤ → Option ℤ
position_limit cfg side cur allowed =
    if ltb_ℤ (pos 0) cfg.max_position_qty
      && ltb_ℤ cfg.max_position_qty (abs_ℤ (cur +ℤ along side allowed))
    then within_room (cfg.max_position_qty -ℤ along side cur) allowed
    else some allowed

unfoldable pub notional_of : ℤ → ℤ → ℤ
notional_of qty px = (abs_ℤ qty *ℤ px) /ℤ pos risk_quantity_scale

unfoldable pub max_abs_qty : RiskConfig → ℤ → ℤ
max_abs_qty cfg px = (cfg.max_notional *ℤ pos risk_quantity_scale) /ℤ px

unfoldable pub notional_limit : RiskConfig → Side → ℤ → ℤ → ℤ → Option ℤ
notional_limit cfg side cur px allowed =
    if (ltb_ℤ (pos 0) cfg.max_notional && ltb_ℤ (pos 0) px)
      && ltb_ℤ cfg.max_notional (notional_of (cur +ℤ along side allowed) px)
    then within_room (max_abs_qty cfg px -ℤ along side cur) allowed
    else some allowed

-- The end of `gate`, with the cast back to an unsigned quantity.
abbrev pub allow : Side → ℤ → Option StrategyAction
allow side allowed =
    if leb_ℤ allowed (pos 0) then none else some (record { side = side; qty = pos_part allowed })

unfoldable pub gate : RiskManager → StrategyAction → ℤ → ℤ → Option StrategyAction
gate m a cur px = if m.halted then none else elim (position_limit m.cfg a.side cur (to_i64 a.qty)) [
  | none ↦ none
  | some q ↦ elim (notional_limit m.cfg a.side cur px q) [ none ↦ none | some q' ↦ allow a.side q' ]
]
