-- ===== src/Memory/Fill.antt =====
-- The inner loop of `match` of src/order_book.cpp on the links: it fills the makers from the head of the
-- best level, and takes a maker that is filled whole off the list, out of the index, and back to the
-- pool.
use orderbook_c.Base.{
  List, Option, [], if◌then◌else◌, min, none, some, suc, zero, ℕ, ◌++◌, ◌-◌, ◌==◌, ◌>>=◌, ◌∷◌,
}
use orderbook_c.Memory.{LinkedLevel, LinkedPool, link_prev, load, pool_release, set_qty}
use orderbook_c.OrderBook.Match.{trade_of}
use orderbook_c.OrderBook.State.{Index, erase_id}
use orderbook_c.Types.{Order, Trade, sub64}

pub record Filling : Type 0 where
  pub qty : ℕ
  pub id_index : Index
  pub pool : LinkedPool
  pub level : LinkedLevel
  pub trades : List Trade

-- `best->head = maker->next` and the links of the new head, then `erase` and `release`.
unfoldable pub drop_maker : ℕ → ℕ → Filling → Option Filling
drop_maker a id f = do
  n ← load a f.pool.1
  (tail, m) ← link_prev n.next none f.level.tail f.pool.1
  pool ← pool_release (some a) f.pool.0 m
  some (record f {
    id_index = erase_id id f.id_index;
    pool = pool;
    level = record f.level { head = n.next; tail = tail };
  })

-- The quantities of a fill, written to the taker, the maker and the level.
unfoldable pub fill_maker : Order → ℕ → Order → Filling → Option Filling
fill_maker taker a maker f =
    let fill = min f.qty maker.qty in
    do
      m ← set_qty a (maker.qty - fill) f.pool.1
      some (record f {
        qty = f.qty - fill;
        pool = (f.pool.0, m);
        level = record f.level { total_qty = sub64 f.level.total_qty fill };
        trades = f.trades ++ trade_of taker f.level.price maker fill ∷ [];
      })

-- A round of the loop with the maker at `a`.
unfoldable pub fill_round : Order → ℕ → Filling → Option Filling
fill_round taker a f = do
  n ← load a f.pool.1
  g ← fill_maker taker a n.order f
  if n.order.qty - min f.qty n.order.qty == 0 then drop_maker a n.order.id g else some g

-- The loop, with fuel for its rounds; without fuel it has no result.
unfoldable pub fill_loop : ℕ → Order → Filling → Option Filling
fill_loop zero taker f = none
fill_loop (suc fuel) taker f = if f.qty == 0 then some f else elim f.level.head [
  | none ↦ some f
  | some a ↦ fill_round taker a f >>= fill_loop fuel taker
]
