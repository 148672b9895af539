-- ===== src/Risk/Notional.antt =====
-- What the gate of include/order_book/risk.hpp promises of the notional.
use native.Mathlib.Nat.{le-div_iff_mul-le, div-le_of_le-mul, mul_comm}
use orderbook_c.Base.{
  ap, arith, inl, inr, some, subst, sym, ℕ, ◌*◌, ◌+◌, ◌/◌, ◌<◌, ◌∙◌, ◌≡◌, ◌≤◌, ◌⊎◌,
}
use orderbook_c.Base.Int.{
  add_ℤ_parts, div_pos_pos, mul_pos_pos, neg_part, negsuc, pos, pos_part, sub_ℤ_parts, ℤ, ◌*ℤ◌,
  ◌+ℤ◌, ◌-ℤ◌, ◌/ℤ◌, ◌<ℤ◌, ◌≤ℤ◌,
}
use orderbook_c.Risk.{
  RiskConfig, RiskManager, abs_ℤ, along, gate, max_abs_qty, notional_limit, notional_of,
  risk_quantity_scale,
}
use orderbook_c.Risk.Position.{Limited, gate-Passed}
use orderbook_c.Strategy.{StrategyAction}
use orderbook_c.Types.{Side, buy, sell}

-- The whole part of a quotient, against the rounded bound that the gate solves for.
div_within : (x p b s : ℕ) → 0 < p → x ≤ b * s / p → x * p / s ≤ b
div_within x p b s h le =
    div-le_of_le-mul s (subst (λ y. x * p ≤ y) (mul_comm b s) ((le-div_iff_mul-le h).0 le))

-- With a positive price and bound, the products and quotients are those of natural numbers.
notional_of_pos :
    (n p : ℕ) (q : ℤ) → abs_ℤ q ≡ pos n → notional_of q (pos p) ≡ pos (n * p / risk_quantity_scale)
unfolding notional_of
notional_of_pos n p q e =
    ap (λ x. (x *ℤ pos p) /ℤ pos risk_quantity_scale) e
    ∙ (ap (λ x. x /ℤ pos risk_quantity_scale) (mul_pos_pos n p)
        ∙ div_pos_pos (n * p) risk_quantity_scale)

max_abs_qty_pos :
    (cfg : RiskConfig) (b p : ℕ)
    → cfg.max_notional ≡ pos b
    → max_abs_qty cfg (pos p) ≡ pos (b * risk_quantity_scale / p)
unfolding max_abs_qty
max_abs_qty_pos cfg b p e =
    ap (λ x. (x *ℤ pos risk_quantity_scale) /ℤ pos p) e
    ∙ (ap (λ x. x /ℤ pos p) (mul_pos_pos b risk_quantity_scale)
        ∙ div_pos_pos (b * risk_quantity_scale) p)

abs_pos : (q : ℤ) → abs_ℤ q ≡ pos (pos_part q + neg_part q)
abs_pos q = ground arith

notional_within :
    (cfg : RiskConfig) (b p : ℕ) (q : ℤ)
    → 0 < p
    → cfg.max_notional ≡ pos b
    → abs_ℤ q ≤ℤ max_abs_qty cfg (pos p)
    → notional_of q (pos p) ≤ℤ cfg.max_notional
notional_within cfg b p q h e le =
    let n = pos_part q + neg_part q in
    let within : n ≤ b * risk_quantity_scale / p =
      ground (arith, abs_pos q, max_abs_qty_pos cfg b p e) in
    ground (arith, div_within n p b risk_quantity_scale h within, notional_of_pos n p q (abs_pos q))

room_left :
    (side : Side) (bound cur q : ℤ)
    → pos 0 <ℤ q
    → q ≤ℤ bound -ℤ along side cur
    → Limited bound cur (cur +ℤ along side q)
room_left buy bound cur q h le =
    ground (arith, add_ℤ_parts cur (along buy q), sub_ℤ_parts bound (along buy cur))
room_left sell bound cur q h le =
    ground (arith, add_ℤ_parts cur (along sell q), sub_ℤ_parts bound (along sell cur))

notional_limit-room :
    (cfg : RiskConfig) (side : Side) (cur px allowed q : ℤ)
    → pos 0 <ℤ cfg.max_notional
    → pos 0 <ℤ px
    → notional_limit cfg side cur px allowed ≡ some q
    → (notional_of (cur +ℤ along side q) px ≤ℤ cfg.max_notional)
      ⊎ (q ≤ℤ max_abs_qty cfg px -ℤ along side cur)
unfolding notional_limit
notional_limit-room cfg side cur px allowed q m h e = ground arith

-- The value of the position after the trade is within the limit, or the position nearer to zero
-- than before.
abbrev pub ValueLimited : RiskConfig → ℤ → ℤ → ℤ → Type 0
ValueLimited cfg px cur post = (notional_of post px ≤ℤ cfg.max_notional) ⊎ (abs_ℤ post <ℤ abs_ℤ cur)

notional_limit-ValueLimited :
    (cfg : RiskConfig) (side : Side) (cur px allowed q : ℤ)
    → pos 0 <ℤ cfg.max_notional
    → pos 0 <ℤ px
    → notional_limit cfg side cur px allowed ≡ some q
    → pos 0 <ℤ q
    → ValueLimited cfg px cur (cur +ℤ along side q)
notional_limit-ValueLimited cfg side cur (negsuc p) allowed q m h e some_q = absurd (ground arith)
notional_limit-ValueLimited cfg side cur (pos p) allowed q m h e some_q =
    let bound : cfg.max_notional ≡ pos (pos_part cfg.max_notional) = ground arith in
    elim (notional_limit-room cfg side cur (pos p) allowed q m h e) [
      | inl kept ↦ inl kept
      | inr le ↦ elim (room_left side (max_abs_qty cfg (pos p)) cur q some_q le) [
        | inl within ↦ inl (
            notional_within cfg (pos_part cfg.max_notional) p (cur +ℤ along side q) (ground arith)
              bound within)
        | inr nearer ↦ inr nearer
      ]
    ]

-- With a notional limit and a positive price, an action that the gate passes leaves the value of the
-- position within the limit, or the position nearer to zero than it was.
pub gate-ValueLimited :
    (m : RiskManager) (a : StrategyAction) (cur px : ℤ) (a' : StrategyAction)
    → pos 0 <ℤ m.cfg.max_notional
    → pos 0 <ℤ px
    → gate m a cur px ≡ some a'
    → ValueLimited m.cfg px cur (cur +ℤ along a'.side (pos a'.qty))
gate-ValueLimited m a cur px a' bounded h e =
    let p = gate-Passed m a cur px a' e in
    let ok =
      notional_limit-ValueLimited m.cfg a.side cur px p.q (pos a'.qty) bounded h p.by_notional
        (ground (arith, p.some_qty)) in
    subst (λ s. ValueLimited m.cfg px cur (cur +ℤ along s (pos a'.qty))) (sym p.same_side) ok
