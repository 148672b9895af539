-- ===== src/Risk/Tests.antt =====
-- The risk manager at concrete limits.
use orderbook_c.Base.{[], arith, false, refl, some, ◌<◌, ◌∷◌, ◌≡◌, ◌≤◌}
use orderbook_c.Base.Int.{negsuc, pos, ◌*ℤ◌, ◌+ℤ◌, ◌-ℤ◌, ◌/ℤ◌}
use orderbook_c.Risk.{
  RiskConfig, gate, max_abs_qty, new_manager, notional_limit, notional_of, position_limit,
}
use orderbook_c.Risk.Halt.{has_drawdown, observe_all, observe_all-drawdown}
use orderbook_c.Risk.Notional.{ValueLimited, gate-ValueLimited}
use orderbook_c.Risk.Position.{Limited, gate-Limited, gate-largest, gate-reduces}
use orderbook_c.Strategy.{StrategyAction}
use orderbook_c.Types.{buy, sell}

abbrev limits : RiskConfig
limits = record { max_position_qty = pos 5; max_notional = pos 0; max_drawdown = pos 10 }

abbrev priced : RiskConfig
priced = record { max_position_qty = pos 0; max_notional = pos 50; max_drawdown = pos 0 }

abbrev order : StrategyAction
order = record { side = sell; qty = 30 }

abbrev purchase : StrategyAction
purchase = record { side = buy; qty = 4000000 }

-- From 10, a sale of 30 is reduced to 15, which ends at the limit on the other side.
passed : gate (new_manager limits) order (pos 10) (pos 7) ≡ some (record { side = sell; qty = 15 })
unfolding gate position_limit notional_limit ◌+ℤ◌ ◌-ℤ◌
passed = refl

-- At a price of 20 a purchase of four million is reduced to the two and a half whose value is 50.
priced_passed :
    gate (new_manager priced) purchase (pos 0) (pos 20)
    ≡ some (record { side = buy; qty = 2500000 })
unfolding gate position_limit notional_limit notional_of max_abs_qty ◌+ℤ◌ ◌-ℤ◌ ◌*ℤ◌ ◌/ℤ◌
priced_passed = refl

observe_all-drawdown_example :
    (observe_all (new_manager limits) (pos 20 ∷ pos 15 ∷ pos 9 ∷ [])).halted
    ≡ has_drawdown (pos 10) (pos 0 ∷ pos 20 ∷ pos 15 ∷ pos 9 ∷ [])
observe_all-drawdown_example =
    observe_all-drawdown limits (pos 20 ∷ pos 15 ∷ pos 9 ∷ []) (ground arith)

gate-reduces_example : (false ≡ false) × (sell ≡ sell) × (0 < 15) × (15 ≤ 30)
gate-reduces_example =
    gate-reduces (new_manager limits) order (pos 10) (pos 7) (record { side = sell; qty = 15 })
      (ground arith) passed

gate-Limited_example : Limited (pos 5) (pos 10) (negsuc 4)
unfolding ◌+ℤ◌
gate-Limited_example =
    gate-Limited (new_manager limits) order (pos 10) (pos 7) (record { side = sell; qty = 15 })
      (ground arith) passed

gate-ValueLimited_example : ValueLimited priced (pos 20) (pos 0) (pos 2500000)
unfolding ◌+ℤ◌
gate-ValueLimited_example =
    gate-ValueLimited (new_manager priced) purchase (pos 0) (pos 20)
      (record { side = buy; qty = 2500000 }) (ground arith) (ground arith) priced_passed

gate-largest_example :
    (a' : StrategyAction) × (gate (new_manager limits) order (pos 10) (pos 7) ≡ some a')
    × (15 ≤ a'.qty)
unfolding ◌+ℤ◌
gate-largest_example =
    gate-largest (new_manager limits) order (pos 10) (pos 7) 15 refl (ground arith) (ground arith)
      (ground arith) (ground arith) (ground arith)
