-- ===== src/OrderBook/Match.antt =====
-- `match` and `price_crosses` of src/order_book.cpp. The trades that go to `on_trade` are returned
-- in order.
use orderbook_c.Base.{
  Bool, List, [], false, if◌then◌else◌, length, min, suc, true, zero, ℕ, ◌++◌, ◌-◌, ◌==◌, ◌||◌, ◌∷◌,
}
use orderbook_c.Base.Int.{leb_ℤ, ℤ}
use orderbook_c.OrderBook.State.{Index, OrderBook, erase_id, levels_of, opposite, put_levels}
use orderbook_c.SideBook.{PriceLevel, erase_if_empty}
use orderbook_c.Types.{Order, OrderType, Side, Trade, buy, market, sell, sub64}

unfoldable pub price_crosses : Side → ℤ → ℤ → Bool
price_crosses buy taker_px book_px = leb_ℤ book_px taker_px
price_crosses sell taker_px book_px = leb_ℤ taker_px book_px

-- What the loops of `match` change beside the levels: the taker's quantity, the index, the pool.
pub record Progress : Type 0 where
  pub qty : ℕ
  pub id_index : Index
  pub free : List ℕ

pub record LevelMatch : Type 0 where
  pub progress : Progress
  pub trades : List Trade
  pub total_qty : ℕ
  pub orders : List Order

abbrev pub trade_of : Order → ℤ → Order → ℕ → Trade
trade_of taker px maker fill = record {
  maker_id = maker.id;
  taker_id = taker.id;
  price = px;
  qty = fill;
  ts = taker.ts;
}

abbrev pub add_trade : Trade → LevelMatch → LevelMatch
add_trade t r = record r { trades = t ∷ r.trades }

-- The maker is filled whole: its id leaves the index and its slot goes back to the pool.
abbrev pub fill_whole : Order → Progress → Progress
fill_whole maker p = record {
  qty = p.qty - min p.qty maker.qty;
  id_index = erase_id maker.id p.id_index;
  free = maker.slot ∷ p.free;
}

-- The inner loop of `match`, over the orders of the best level from its head. A maker keeps a
-- quantity only when the taker has none left, and then the loop's test ends it.
unfoldable pub match_orders : Order → ℤ → ℕ → List Order → Progress → LevelMatch
match_orders taker px total [] p = record {
  progress = p;
  trades = [];
  total_qty = total;
  orders = [];
}
match_orders taker px total (maker ∷ rest) p =
    let fill = min p.qty maker.qty in
    let done = match_orders taker px (sub64 total fill) rest (fill_whole maker p) in
    if p.qty == 0
    then record { progress = p; trades = []; total_qty = total; orders = maker ∷ rest }
    else add_trade (trade_of taker px maker fill) (
        if maker.qty - fill == 0 then done else record {
          progress = record p { qty = p.qty - fill };
          trades = [];
          total_qty = sub64 total fill;
          orders = record maker { qty = maker.qty - fill } ∷ rest;
        })

pub record BookMatch : Type 0 where
  pub progress : Progress
  pub trades : List Trade
  pub levels : List PriceLevel
  pub stuck : Bool

abbrev pub is_market : OrderType → Bool
is_market market = true
is_market t = false

-- `taker.type == OrderType::Market` lifts the price limit.
unfoldable pub may_trade : Order → ℤ → Bool
may_trade taker px = is_market taker.type || price_crosses taker.side taker.price px

abbrev pub add_trades : List Trade → BookMatch → BookMatch
add_trades ts r = record r { trades = ts ++ r.trades }

-- The outer loop of `match` on the opposite side, with fuel for its rounds; without fuel it is stuck.
unfoldable pub match_loop : ℕ → Order → List PriceLevel → Progress → BookMatch
match_loop zero taker ls p = record { progress = p; trades = []; levels = ls; stuck = true }
match_loop (suc fuel) taker [] p = record { progress = p; trades = []; levels = []; stuck = false }
match_loop (suc fuel) taker (best ∷ ls) p =
    let r = match_orders taker best.price best.total_qty best.orders p in
    let best' : PriceLevel = record best { total_qty = r.total_qty; orders = r.orders } in
    let next = add_trades r.trades (
      match_loop fuel taker (erase_if_empty (opposite taker.side) best' (best' ∷ ls)) r.progress) in
    if p.qty == 0
    then record { progress = p; trades = []; levels = best ∷ ls; stuck = false }
    else (if may_trade taker best.price
        then next
        else record { progress = p; trades = []; levels = best ∷ ls; stuck = false })

abbrev pub start_of : Order → OrderBook → Progress
start_of taker b = record { qty = taker.qty; id_index = b.id_index; free = b.free }

-- `match`: every round but the last erases a level, so the rounds are at most one more than the
-- levels.
unfoldable pub match_book : Order → OrderBook → OrderBook × Progress × List Trade
match_book taker b =
    let side = opposite taker.side in
    let ls = levels_of side b in
    let r =
      match_loop (suc (length ls)) taker ls
        (record { qty = taker.qty; id_index = b.id_index; free = b.free }) in
    let b' = put_levels side r.levels b in
    (
      record b' {
        id_index = r.progress.id_index;
        free = r.progress.free;
        stuck = r.stuck || b'.stuck;
      },
      r.progress,
      r.trades,
    )
