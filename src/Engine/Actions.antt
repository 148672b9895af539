-- ===== src/Engine/Actions.antt =====
-- `apply_action` after `refresh_quotes`: it fills exactly the actions that the gate passes and a quote
-- can meet.
use orderbook_c.Base.{
  Bool-cases, Option, Option-cases, arith, false, inl, inr, none, refl, some, subst, sym, ℕ, ◌<◌,
  ◌==◌, ◌||◌, ◌≡◌, ◌⊎◌,
}
use orderbook_c.Base.Int.{pos, ◌==ℤ◌}
use orderbook_c.Engine.Crossing.{cross_quote-side}
use orderbook_c.Engine.Fills.{Filled}
use orderbook_c.Engine.Refresh.{Between, Shown}
use orderbook_c.Engine.State.{Fill, TradingEngine}
use orderbook_c.Engine.Taking.{apply_action, cross_quote, gated, quote_px, quote_qty}
use orderbook_c.Strategy.{MarketSnapshot, StrategyAction}

-- After `refresh_quotes`, an action that the gate passes, of a positive quantity, against a quote with
-- a nonzero price and quantity, fills at once: the lesser of the two quantities, at the quote's price.
-- The fill is reported and entered in the position: a purchase adds its quantity and takes what it costs
-- from the cash, a sale the other way round, and the volume and the count of fills go up. The book then
-- again holds the live quotes only.
pub apply_action-Filled :
    (now : ℕ) (a a' : StrategyAction) (s : MarketSnapshot) (e : TradingEngine)
    → Shown e
    → 0 < a.qty
    → gated e a ≡ some a'
    → 0 < a'.qty
    → (quote_px a'.side e ==ℤ pos 0) ≡ false
    → 0 < quote_qty a'.side e
    → Filled now a' s e (apply_action now a s e)
unfolding apply_action
apply_action-Filled now a a' s e x h g h' z k =
    let some_a : (a.qty == 0) ≡ false = ground arith in
    let some_a' : (a'.qty == 0) ≡ false = ground arith in
    subst (Filled now a' s e) (sym (rw (some_a, g, some_a', apply_action) refl))
      (cross_quote-side now a'.qty s a'.side e x z h' k)

-- Nothing happens, or a fill of an action that the gate passed.
pub record Idle (e : TradingEngine) (r : TradingEngine × Option Fill) : Type 0 where
  pub between : Between r.0
  pub same_risk : r.0.risk ≡ e.risk
  pub same_position : r.0.position ≡ e.position
  pub silent : r.1 ≡ none

still : (e : TradingEngine) → Shown e → Idle e (e, none)
still e x = record { between = x.between; same_risk = refl; same_position = refl; silent = refl }

pub apply_action-cases :
    (now : ℕ) (a : StrategyAction) (s : MarketSnapshot) (e : TradingEngine)
    → Shown e
    → Idle e (apply_action now a s e)
      ⊎ ((a' : StrategyAction) × (gated e a ≡ some a')
          × (0 < a'.qty)
          × (0 < quote_qty a'.side e)
          × Filled now a' s e (apply_action now a s e))
unfolding apply_action cross_quote
apply_action-cases now a s e x = elim (Bool-cases (a.qty == 0)) [
  | inl zero_qty ↦ inl (rw (zero_qty, apply_action) (still e x))
  | inr some_qty ↦ elim (Option-cases (gated e a)) [
    | inl refused ↦ inl (rw (some_qty, refused, apply_action) (still e x))
    | inr (a', passed) ↦ elim (Bool-cases (a'.qty == 0)) [
      | inl zero_left ↦ inl (rw (some_qty, passed, zero_left, apply_action) (still e x))
      | inr some_left ↦
          elim (Bool-cases (quote_px a'.side e ==ℤ pos 0 || quote_qty a'.side e == 0)) [
            | inl no_quote ↦
                inl (
                  rw (some_qty, passed, some_left, no_quote, apply_action, cross_quote) (still e x))
            | inr quoted ↦ inr (
              a',
              passed,
              ground arith,
              ground arith,
              apply_action-Filled now a a' s e x (ground arith) passed (ground arith) (ground arith)
                  (ground arith),
            )
          ]
    ]
  ]
]
