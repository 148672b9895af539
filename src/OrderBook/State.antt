-- ===== src/OrderBook/State.antt =====
-- The state of the class OrderBook (include/order_book/order_book.hpp): the index of resting orders,
-- the pool's free list, the two sides and the clock, with the queries on it.
use orderbook_c.Base.{
  Bool, List, Option, [], false, if◌then◌else◌, length, none, refl, some, suc, zero, ℕ, ◌==◌, ◌∷◌,
  ◌≡◌,
}
use orderbook_c.Base.Int.{pos, ℤ}
use orderbook_c.SideBook.{PriceLevel}
use orderbook_c.Types.{Side, buy, sell}

-- `id_index_` maps an id to the address of its order.
abbrev pub Index : Type 0
Index = List (ℕ × ℕ)

unfoldable pub find_id : ℕ → Index → Option ℕ
find_id id [] = none
find_id id ((k, s) ∷ m) = if k == id then some s else find_id id m

unfoldable pub erase_id : ℕ → Index → Index
erase_id id [] = []
erase_id id ((k, s) ∷ m) = if k == id then m else (k, s) ∷ erase_id id m

-- `emplace` leaves an entry that is there already as it is.
unfoldable pub emplace : ℕ → ℕ → Index → Index
emplace id s m = elim (find_id id m) [ none ↦ (id, s) ∷ m | some old ↦ m ]

-- `free` lists the slots of the pool's free list, from `free_head_` on. `stuck` is set by a call of
-- `match` that the rounds given to its loop do not bring to an end.
pub record OrderBook : Type 0 where
  pub free : List ℕ
  pub bids : List PriceLevel
  pub asks : List PriceLevel
  pub id_index : Index
  pub clock : ℕ
  pub stuck : Bool

-- The slots of a new pool stand in its free list from the first to the last.
unfoldable pub slots_from : ℕ → ℕ → List ℕ
slots_from s zero = []
slots_from s (suc n) = s ∷ slots_from (suc s) n

-- A new book. The capacity is at least one: the constructor of the pool is undefined at zero.
unfoldable pub new_book : ℕ → OrderBook
new_book capacity = record {
  free = slots_from 0 capacity;
  bids = [];
  asks = [];
  id_index = [];
  clock = 0;
  stuck = false;
}

unfoldable pub best_price : List PriceLevel → ℤ
best_price [] = pos 0
best_price (l ∷ ls) = l.price

unfoldable pub best_bid : OrderBook → ℤ
best_bid b = best_price b.bids

unfoldable pub best_ask : OrderBook → ℤ
best_ask b = best_price b.asks

unfoldable pub resting_orders : OrderBook → ℕ
resting_orders b = length b.id_index

abbrev pub opposite : Side → Side
opposite buy = sell
opposite sell = buy

abbrev pub levels_of : Side → OrderBook → List PriceLevel
levels_of buy b = b.bids
levels_of sell b = b.asks

abbrev pub put_levels : Side → List PriceLevel → OrderBook → OrderBook
put_levels buy ls b = record b { bids = ls }
put_levels sell ls b = record b { asks = ls }

abbrev pub release : ℕ → OrderBook → OrderBook
release s b = record b { free = s ∷ b.free }

pub levels_of-slot :
    (s : Side) (b : OrderBook) (free : List ℕ) (clock : ℕ)
    → levels_of s (record b { free = free; clock = clock }) ≡ levels_of s b
levels_of-slot buy b free clock = refl
levels_of-slot sell b free clock = refl
