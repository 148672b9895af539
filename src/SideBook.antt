-- ===== src/SideBook.antt =====
-- include/order_book/price_level.hpp and the class SideBook of include/order_book/order_book.hpp.
-- A side's levels are listed from the back of the vector `levels_`, so the best level comes first.
-- The intrusive list of a level is the list of its orders from `head` to `tail`.
pub mod Sorted
pub mod Insert
pub mod Remove
pub mod Reference
pub mod Levels
pub mod Held
pub mod Counts
use orderbook_c.Base.{
  Bool, List, Option, [], false, get_elem?, if◌then◌else◌, insert_at, none, remove_at, some, suc,
  true, zero, ℕ, ◌++◌, ◌-◌, ◌==◌, ◌∷◌,
}
use orderbook_c.Base.Int.{ltb_ℤ, ℤ, ◌==ℤ◌}
use orderbook_c.Types.{Order, Side, add64, buy, sell, sub64}

pub record PriceLevel : Type 0 where
  pub price : ℤ
  pub total_qty : ℕ
  pub orders : List Order

-- PriceLevel::empty, `head == nullptr`.
abbrev pub is_empty : List Order → Bool
is_empty [] = true
is_empty (o ∷ os) = false

unfoldable pub push_back : Order → PriceLevel → PriceLevel
push_back o lvl = record lvl {
  orders = lvl.orders ++ o ∷ [];
  total_qty = add64 lvl.total_qty o.qty;
}

-- The list without the order at an address.
unfoldable pub remove_order : ℕ → List Order → List Order
remove_order s [] = []
remove_order s (o ∷ os) = if o.slot == s then os else o ∷ remove_order s os

unfoldable pub unlink : Order → PriceLevel → PriceLevel
unlink o lvl = record lvl {
  orders = remove_order o.slot lvl.orders;
  total_qty = sub64 lvl.total_qty o.qty;
}

unfoldable pub less_for_side : Side → ℤ → ℤ → Bool
less_for_side buy a b = ltb_ℤ a b
less_for_side sell a b = ltb_ℤ b a

-- std::lower_bound: the number of levels from the iterator's level to the back of the vector. It is
-- 0 for `end()`, and otherwise the iterator's level is the last one counted.
unfoldable pub find_level : Side → ℤ → List PriceLevel → ℕ
find_level side p [] = 0
find_level side p (l ∷ ls) =
    let more = find_level side p ls in if less_for_side side l.price p then 0 else suc more

-- The level at such an iterator, `none` at `end()`.
abbrev pub level_at : List PriceLevel → ℕ → Option PriceLevel
level_at ls zero = none
level_at ls (suc k) = get_elem? ls k

-- `it != end() && it->price == p`.
unfoldable pub stands_at : Option PriceLevel → ℤ → Bool
stands_at none p = false
stands_at (some l) p = l.price ==ℤ p

abbrev pub new_level : ℤ → PriceLevel
new_level p = record { price = p; total_qty = 0; orders = [] }

-- The rest of get_or_insert, from the iterator on: the position of the level, counted from the back,
-- and the vector.
abbrev pub insert_if_absent : ℤ → List PriceLevel → ℕ → ℕ × List PriceLevel
insert_if_absent p ls it =
    if stands_at (level_at ls it) p then (it - 1, ls) else (it, insert_at ls it (new_level p))

unfoldable pub get_or_insert : Side → ℤ → List PriceLevel → ℕ × List PriceLevel
get_or_insert side p ls = insert_if_absent p ls (find_level side p ls)

abbrev pub position : ℤ → List PriceLevel → ℕ → Option ℕ
position p ls it = if stands_at (level_at ls it) p then some (it - 1) else none

unfoldable pub find : Side → ℤ → List PriceLevel → Option ℕ
find side p ls = position p ls (find_level side p ls)

abbrev pub erase_if_there : ℤ → List PriceLevel → ℕ → List PriceLevel
erase_if_there p ls it = if stands_at (level_at ls it) p then remove_at ls (it - 1) else ls

unfoldable pub erase_if_empty : Side → PriceLevel → List PriceLevel → List PriceLevel
erase_if_empty side lvl ls =
    if is_empty lvl.orders then erase_if_there lvl.price ls (find_level side lvl.price ls) else ls

abbrev pub all_orders : List PriceLevel → List Order
all_orders [] = []
all_orders (l ∷ ls) = l.orders ++ all_orders ls

-- The order at an address, `none` if no resting order stands there.
unfoldable pub order_at : ℕ → List Order → Option Order
order_at s [] = none
order_at s (o ∷ os) = if o.slot == s then some o else order_at s os
