-- ===== src/OrderBook/Submit.antt =====
-- `rest` and `submit` of src/order_book.cpp.
use orderbook_c.Base.{
  Bool, List, [], ap, arith, false, if◌then◌else◌, leb, ltb, modify_at, true, ℕ, ◌&&◌, ◌-◌, ◌<◌,
  ◌==◌, ◌∷◌, ◌≡◌,
}
use orderbook_c.Base.Int.{ℤ}
use orderbook_c.OrderBook.Match.{match_book, price_crosses}
use orderbook_c.OrderBook.State.{OrderBook, emplace, levels_of, opposite, put_levels, release}
use orderbook_c.SideBook.{PriceLevel, get_or_insert, push_back}
use orderbook_c.Types.{Order, OrderType, Side, Trade, add64, fok, limit}

unfoldable pub rest : Order → OrderBook → OrderBook
rest o b =
    let (i, ls) = get_or_insert o.side o.price (levels_of o.side b) in
    record (put_levels o.side (modify_at ls i (push_back o)) b) {
      id_index = emplace o.id o.slot b.id_index;
    }

-- What a fill-or-kill order still needs after the levels that it may reach, best first.
unfoldable pub fok_needed : Side → ℤ → ℕ → List PriceLevel → ℕ
fok_needed side price needed [] = needed
fok_needed side price needed (l ∷ ls) =
    let more =
      fok_needed side price (if leb needed l.total_qty then 0 else needed - l.total_qty) ls in
    if needed == 0 then needed else (if price_crosses side price l.price then more else needed)

abbrev pub is_fok : OrderType → Bool
is_fok fok = true
is_fok t = false

-- A fill-or-kill order that the book cannot fill is given up.
unfoldable pub is_killed : Order → OrderBook → Bool
is_killed o b =
    is_fok o.type && ltb 0 (fok_needed o.side o.price o.qty (levels_of (opposite o.side) b))

abbrev pub is_limit : OrderType → Bool
is_limit limit = true
is_limit t = false

pub record Submitted : Type 0 where
  pub accepted : Bool
  pub trades : List Trade
  pub book : OrderBook

-- `submit` once the pool has given out the order's slot.
unfoldable pub place : Order → OrderBook → Submitted
place o b =
    let (b', p, ts) = match_book o b in
    let done =
      if ltb 0 p.qty && is_limit o.type
      then rest (record o { qty = p.qty }) b'
      else release o.slot b' in
    if is_killed o b
    then record { accepted = true; trades = []; book = release o.slot b }
    else record { accepted = true; trades = ts; book = done }

-- `ts == 0 ? ++clock_ : ts` leaves this clock.
abbrev pub tick_clock : ℕ → ℕ → ℕ
tick_clock ts clock = if ts == 0 then add64 clock 1 else clock

abbrev pub new_order : ℕ → ℕ → Side → OrderType → ℤ → ℕ → ℕ → ℕ → Order
new_order s id side type price qty ts clock = record {
  slot = s;
  id = id;
  price = price;
  qty = qty;
  ts = if ts == 0 then tick_clock ts clock else ts;
  side = side;
  type = type;
}

-- `submit` with the pool's free list: an empty one is `acquire` returning `nullptr`.
unfoldable pub submit_with : List ℕ → OrderBook → ℕ → Side → OrderType → ℤ → ℕ → ℕ → Submitted
submit_with [] b id side type price qty ts = record { accepted = false; trades = []; book = b }
submit_with (s ∷ free) b id side type price qty ts =
    place (new_order s id side type price qty ts b.clock)
      (record b { free = free; clock = tick_clock ts b.clock })

unfoldable pub submit : OrderBook → ℕ → Side → OrderType → ℤ → ℕ → ℕ → Submitted
submit b id side type price qty ts =
    if qty == 0
    then record { accepted = true; trades = []; book = b }
    else submit_with b.free b id side type price qty ts

-- `submit` of a positive quantity on a book whose pool has a slot left is `place`.
pub submit-place :
    (b : OrderBook) (id : ℕ) (side : Side) (type : OrderType) (price : ℤ) (qty ts s : ℕ)
    (free : List ℕ)
    → b.free ≡ s ∷ free
    → 0 < qty
    → submit b id side type price qty ts
      ≡ place
          (new_order s id side type price qty ts b.clock)
          (record b { free = free; clock = tick_clock ts b.clock })
unfolding submit submit_with
submit-place b id side type price qty ts s free e h =
    let some_qty : (qty == 0) ≡ false = ground arith in
    rw some_qty (ap (λ f. submit_with f b id side type price qty ts) e)
