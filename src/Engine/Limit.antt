-- ===== src/Engine/Limit.antt =====
-- What the engine's fills make of the gate's promises (src/trading_engine.cpp).
use orderbook_c.Base.{
  Option, ap, arith, inl, inr, none, refl, some, subst, sym, true, ℕ, ◌<◌, ◌∙◌, ◌≡◌, ◌≢◌,
}
use orderbook_c.Base.Int.{pos, ℤ, ◌+ℤ◌, ◌<ℤ◌, ◌≤ℤ◌}
use orderbook_c.Engine.Fills.{fill_qty, filled_position}
use orderbook_c.Engine.State.{Fill, TradingEngine}
use orderbook_c.Engine.Taking.{gated, gated_by, quote_px, quote_qty}
use orderbook_c.Engine.Ticks.{Ticked, Within, config_of, is_halted}
use orderbook_c.Risk.{RiskConfig, RiskManager, abs_ℤ, along, to_i64}
use orderbook_c.Risk.Position.{Limited, gate-Passed, position_limit-Limited}
use orderbook_c.Strategy.{MarketSnapshot, StrategyAction}
use orderbook_c.Types.{u64_mod}

limited_within :
    (bound cur post : ℤ) → Limited bound cur post → abs_ℤ cur ≤ℤ bound → abs_ℤ post ≤ℤ bound
limited_within bound cur post (inl le) h = le
limited_within bound cur post (inr lt) h = nearer (abs_ℤ post) (abs_ℤ cur) bound lt h
  where
    nearer : (p c b : ℤ) → p <ℤ c → c ≤ℤ b → p ≤ℤ b
    nearer p c b lt le = omega arith

-- The gate of a halted risk manager passes nothing.
halted-refuses :
    (e : TradingEngine) (a a' : StrategyAction) → is_halted e.risk ≡ true → gated e a ≢ some a'
halted-refuses e a a' h g = by_risk e.risk h g
  where
    by_risk : (r : Option RiskManager) → is_halted r ≡ true → gated_by r e a ≡ some a' → ⊥
    by_risk none h g = absurd (ground (arith, h))
    by_risk (some r) h g =
        let going = (gate-Passed r a e.position.btc_qty (quote_px a.side e) a' g).running in
        absurd (ground (arith, h, going))

pub halted-position :
    (e : TradingEngine) (act : Option StrategyAction) (e' : TradingEngine) (f : Option Fill)
    → Ticked e act e' f
    → is_halted e.risk ≡ true
    → e'.position ≡ e.position
halted-position e act e' f t h = elim t.moved [
  | inl same ↦ same
  | inr (at, s, a, a', e1, proposed, p, c, stays, g, z, k, booked) ↦
      absurd (halted-refuses e1 a a' (stays h) g)
]

-- A part of what the gate passes keeps the position within the limit.
pub filled-within :
    (cfg : RiskConfig) (now : ℕ) (s : MarketSnapshot) (a a' : StrategyAction) (e : TradingEngine)
    → a.qty < u64_mod
    → pos 0 <ℤ cfg.max_position_qty
    → config_of e.risk ≡ some cfg
    → Within cfg e
    → gated e a ≡ some a'
    → 0 < a'.qty
    → 0 < quote_qty a'.side e
    → abs_ℤ (filled_position now a' s e).btc_qty ≤ℤ cfg.max_position_qty
filled-within cfg now s a a' e small m c w g z k = by_risk e.risk refl c g
  where
    by_risk :
        (r : Option RiskManager)
        → e.risk ≡ r
        → config_of r ≡ some cfg
        → gated_by r e a ≡ some a'
        → abs_ℤ (filled_position now a' s e).btc_qty ≤ℤ cfg.max_position_qty
    by_risk none is c g = absurd (ground (arith, c))
    by_risk (some r) is c g =
        let p = gate-Passed r a e.position.btc_qty (quote_px a.side e) a' g in
        let n = fill_qty now a' s e in
        let same_cfg : r.cfg ≡ cfg = ground (arith, c) in
        let some_n : 0 < n = ground arith in
        let whole : to_i64 n ≡ pos n = ground (arith, p.le_proposed) in
        let limited =
          position_limit-Limited r.cfg a.side e.position.btc_qty (to_i64 a.qty) p.q (pos n)
            (subst (λ x. pos 0 <ℤ x.max_position_qty) (sym same_cfg) m) p.by_position
            (ground (arith, some_n)) (ground (arith, p.le_position)) in
        let at_cfg =
          subst
            (λ x.
              Limited x.max_position_qty e.position.btc_qty
                (e.position.btc_qty +ℤ along a.side (pos n)))
            same_cfg limited in
        let moved : along a.side (pos n) ≡ along a'.side (to_i64 n) =
          ap (λ x. along x (pos n)) (sym p.same_side) ∙ ap (along a'.side) (sym whole) in
        subst (λ x. abs_ℤ (e.position.btc_qty +ℤ x) ≤ℤ cfg.max_position_qty) moved
          (limited_within cfg.max_position_qty e.position.btc_qty
            (e.position.btc_qty +ℤ along a.side (pos n)) at_cfg w)
