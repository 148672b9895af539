-- ===== src/Risk/Position.antt =====
-- What the gate of include/order_book/risk.hpp promises of the action and of the position.
use orderbook_c.Base.{
  Bool-cases, Option-cases, ap, arith, false, if◌then◌else◌, inl, inr, leb, min, none-ne-some, refl,
  some, subst, sym, true, ℕ, ◌&&◌, ◌<◌, ◌^◌, ◌∙◌, ◌≡◌, ◌≤◌, ◌⊎◌,
}
use orderbook_c.Base.Int.{add_ℤ_parts, ltb_ℤ, negsuc, pos, sub_ℤ_parts, ℤ, ◌+ℤ◌, ◌-ℤ◌, ◌<ℤ◌, ◌≤ℤ◌}
use orderbook_c.Risk.{
  RiskConfig, RiskManager, abs_ℤ, allow, along, gate, notional_limit, position_limit, to_i64,
  within_room,
}
use orderbook_c.Strategy.{StrategyAction}
use orderbook_c.Types.{Side, buy, sell}

-- The position after the trade is within the limit, or nearer to zero than before.
abbrev pub Limited : ℤ → ℤ → ℤ → Type 0
Limited bound cur post = (abs_ℤ post ≤ℤ bound) ⊎ (abs_ℤ post <ℤ abs_ℤ cur)

pub position_limit-Limited :
    (cfg : RiskConfig) (side : Side) (cur allowed q q' : ℤ)
    → pos 0 <ℤ cfg.max_position_qty
    → position_limit cfg side cur allowed ≡ some q
    → pos 0 <ℤ q'
    → q' ≤ℤ q
    → Limited cfg.max_position_qty cur (cur +ℤ along side q')
unfolding position_limit
position_limit-Limited cfg buy cur allowed q q' m e p le = ground (
  arith,
  add_ℤ_parts cur (along buy q'),
  add_ℤ_parts cur (along buy allowed),
  sub_ℤ_parts cfg.max_position_qty (along buy cur),
)
position_limit-Limited cfg sell cur allowed q q' m e p le = ground (
  arith,
  add_ℤ_parts cur (along sell q'),
  add_ℤ_parts cur (along sell allowed),
  sub_ℤ_parts cfg.max_position_qty (along sell cur),
)

position_limit-le :
    (cfg : RiskConfig) (side : Side) (cur allowed q : ℤ)
    → position_limit cfg side cur allowed ≡ some q
    → q ≤ℤ allowed
unfolding position_limit
position_limit-le cfg side cur allowed q e = ground arith

notional_limit-le :
    (cfg : RiskConfig) (side : Side) (cur px allowed q : ℤ)
    → notional_limit cfg side cur px allowed ≡ some q
    → q ≤ℤ allowed
unfolding notional_limit
notional_limit-le cfg side cur px allowed q e = ground arith

-- What the two limits gave when the gate lets an action through.
pub record Passed (m : RiskManager) (a : StrategyAction) (cur px : ℤ) (a' : StrategyAction)
    : Type 0 where
  pub running : m.halted ≡ false
  pub q : ℤ
  pub by_position : position_limit m.cfg a.side cur (to_i64 a.qty) ≡ some q
  pub by_notional : notional_limit m.cfg a.side cur px q ≡ some (pos a'.qty)
  pub some_qty : 0 < a'.qty
  pub same_side : a'.side ≡ a.side
  pub le_position : pos a'.qty ≤ℤ q
  pub le_proposed : pos a'.qty ≤ℤ to_i64 a.qty

allow-some :
    (side : Side) (q : ℤ) (a' : StrategyAction)
    → allow side q ≡ some a'
    → (q ≡ pos a'.qty) × (0 < a'.qty) × (a'.side ≡ side)
allow-some side (pos q) a' e = ground arith
allow-some side (negsuc q) a' e = ground arith

allow_pos :
    (side : Side) (q : ℕ) → 0 < q → allow side (pos q) ≡ some (record { side = side; qty = q })
allow_pos side q h = ground arith

pub gate-Passed :
    (m : RiskManager) (a : StrategyAction) (cur px : ℤ) (a' : StrategyAction)
    → gate m a cur px ≡ some a'
    → Passed m a cur px a'
unfolding gate
gate-Passed m a cur px a' e = elim (Bool-cases m.halted) [
  | inl h ↦ none-ne-some (rw (h, gate) at e)
  | inr h ↦ elim (Option-cases (position_limit m.cfg a.side cur (to_i64 a.qty))) [
    | inl k ↦ none-ne-some (rw (h, k, gate) at e)
    | inr (q, by_q) ↦ elim (Option-cases (notional_limit m.cfg a.side cur px q)) [
      | inl k ↦ none-ne-some (rw (h, by_q, k, gate) at e)
      | inr (q', by_q') ↦
          let (x, y, z) = allow-some a.side q' a' (rw (h, by_q, by_q', gate) at e) in
          record {
            running = h;
            q = q;
            by_position = by_q;
            by_notional = by_q' ∙ ap some x;
            some_qty = y;
            same_side = z;
            le_position = ground (arith, notional_limit-le m.cfg a.side cur px q q');
            le_proposed = ground (
              arith,
              notional_limit-le m.cfg a.side cur px q q',
              position_limit-le m.cfg a.side cur (to_i64 a.qty) q,
            );
          }
    ]
  ]
]

-- The gate passes an action only while the manager is not halted, keeps its side, and gives it a
-- positive quantity that is at most the one proposed. The quantity is below 2^63.
pub gate-reduces :
    (m : RiskManager) (a : StrategyAction) (cur px : ℤ) (a' : StrategyAction)
    → a.qty < 2 ^ 63
    → gate m a cur px ≡ some a'
    → (m.halted ≡ false) × (a'.side ≡ a.side) × (0 < a'.qty) × (a'.qty ≤ a.qty)
gate-reduces m a cur px a' small e =
    let p = gate-Passed m a cur px a' e in
    (p.running, p.same_side, p.some_qty, ground (arith, p.le_proposed))

-- With a position limit, an action that the gate passes leaves the position within the limit, or
-- nearer to zero than it was.
pub gate-Limited :
    (m : RiskManager) (a : StrategyAction) (cur px : ℤ) (a' : StrategyAction)
    → pos 0 <ℤ m.cfg.max_position_qty
    → gate m a cur px ≡ some a'
    → Limited m.cfg.max_position_qty cur (cur +ℤ along a'.side (pos a'.qty))
gate-Limited m a cur px a' bounded e =
    let p = gate-Passed m a cur px a' e in
    let ok =
      position_limit-Limited m.cfg a.side cur (to_i64 a.qty) p.q (pos a'.qty) bounded p.by_position
        (ground (arith, p.some_qty)) p.le_position in
    subst (λ s. Limited m.cfg.max_position_qty cur (cur +ℤ along s (pos a'.qty))) (sym p.same_side)
      ok

within_room-enough :
    (room : ℤ) (n k : ℕ)
    → pos k ≤ℤ room
    → 0 < k
    → k ≤ n
    → (q : ℕ) × (within_room room (pos n) ≡ some (pos q)) × (k ≤ q)
within_room-enough (pos r) n k le h ok =
    let some_room : leb r 0 ≡ false = ground arith in
    let read : within_room (pos r) (pos n) ≡ some (pos (min r n)) = ground arith in
    (min r n, read, ground arith)
within_room-enough (negsuc r) n k le h ok = absurd (ground arith)

room_enough :
    (side : Side) (bound cur : ℤ) (k : ℕ)
    → abs_ℤ (cur +ℤ along side (pos k)) ≤ℤ bound
    → pos k ≤ℤ bound -ℤ along side cur
room_enough buy bound cur k ok =
    ground (arith, add_ℤ_parts cur (along buy (pos k)), sub_ℤ_parts bound (along buy cur))
room_enough sell bound cur k ok =
    ground (arith, add_ℤ_parts cur (along sell (pos k)), sub_ℤ_parts bound (along sell cur))

position_limit-room :
    (cfg : RiskConfig) (side : Side) (cur : ℤ) (n k : ℕ)
    → 0 < k
    → k ≤ n
    → abs_ℤ (cur +ℤ along side (pos k)) ≤ℤ cfg.max_position_qty
    → (q : ℕ) × (position_limit cfg side cur (pos n) ≡ some (pos q)) × (k ≤ q)
unfolding position_limit
position_limit-room cfg side cur n k h le ok =
    elim (ltb_ℤ (pos 0) cfg.max_position_qty
        && ltb_ℤ cfg.max_position_qty (abs_ℤ (cur +ℤ along side (pos n))))
      as (λ b.
        (q : ℕ) × ((if b
            then within_room (cfg.max_position_qty -ℤ along side cur) (pos n)
            else some (pos n))
          ≡ some (pos q))
        × (k ≤ q)) [
          | true ↦
              within_room-enough (cfg.max_position_qty -ℤ along side cur) n k
                (room_enough side cfg.max_position_qty cur k ok) h le
          | false ↦ (n, refl, le)
        ]

notional_limit-off :
    (cfg : RiskConfig) (side : Side) (cur px q : ℤ)
    → cfg.max_notional ≤ℤ pos 0
    → notional_limit cfg side cur px q ≡ some q
unfolding notional_limit
notional_limit-off cfg side cur px q off = ground arith

-- The gate reduces no more than it has to: not halted and without a notional limit, it passes at least any positive part of the proposed quantity that keeps
-- the position within the limit. The quantity is below 2^63.
pub gate-largest :
    (m : RiskManager) (a : StrategyAction) (cur px : ℤ) (k : ℕ)
    → m.halted ≡ false
    → m.cfg.max_notional ≤ℤ pos 0
    → a.qty < 2 ^ 63
    → 0 < k
    → k ≤ a.qty
    → abs_ℤ (cur +ℤ along a.side (pos k)) ≤ℤ m.cfg.max_position_qty
    → (a' : StrategyAction) × (gate m a cur px ≡ some a') × (k ≤ a'.qty)
unfolding gate
gate-largest m a cur px k going off small h le ok =
    let whole : to_i64 a.qty ≡ pos a.qty = ground arith in
    let (q, e, more) = position_limit-room m.cfg a.side cur a.qty k h le ok in
    (
      record { side = a.side; qty = q },
      rw (going, whole, e, notional_limit-off m.cfg a.side cur px (pos q) off, gate)
          (allow_pos a.side q (ground arith)),
      more,
    )
