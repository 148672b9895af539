-- ===== src/OrderBook/Cancel.antt =====
-- `cancel` of src/order_book.cpp.
use orderbook_c.Base.{Bool, Option, false, none, some, true, ℕ, ◌++◌}
use orderbook_c.OrderBook.State.{OrderBook, erase_id, find_id, levels_of, put_levels, release}
use orderbook_c.SideBook.{all_orders, order_at}
use orderbook_c.SideBook.Remove.{unlink_in}
use orderbook_c.Types.{Order}

-- What `cancel` leaves once the index has given the address `s` and the order `o` stands there.
abbrev pub without : OrderBook → ℕ → ℕ → Order → OrderBook
without b id s o = release s (record (put_levels o.side (unlink_in o (levels_of o.side b)) b) {
  id_index = erase_id id b.id_index;
})

-- `none` stands for the access through a dangling pointer, which is undefined.
unfoldable pub cancel : OrderBook → ℕ → Option (Bool × OrderBook)
cancel b id = elim (find_id id b.id_index) [
  | none ↦ some (false, b)
  | some s ↦ elim (order_at s (all_orders b.bids ++ all_orders b.asks)) [
    | none ↦ none
    | some o ↦ some (true, without b id s o)
  ]
]
