-- ===== src/SideBook/Reference.antt =====
-- What adding an order to a side and taking one out are, as one pass over the levels from the best one
-- that does not use the code's operations, and the operations of include/order_book/order_book.hpp and
-- include/order_book/price_level.hpp against them.
use orderbook_c.Base.{
  Bool, List, [], arith, if◌then◌else◌, length, refl, ℕ, ◌%◌, ◌++◌, ◌+◌, ◌-◌, ◌==◌, ◌∙◌, ◌∷◌, ◌≡◌,
}
use orderbook_c.Base.Int.{ltb_ℤ, ℤ, ◌==ℤ◌}
use orderbook_c.SideBook.{
  PriceLevel, get_or_insert, is_empty, less_for_side, push_back, remove_order, unlink,
}
use orderbook_c.SideBook.Insert.{get_or_insert-put_in, put_at, put_in}
use orderbook_c.SideBook.Remove.{take_out, unlink_in, unlink_in-take_out}
use orderbook_c.SideBook.Sorted.{IsSorted}
use orderbook_c.Types.{Order, Side, buy, sell, u64_mod}

-- The first price stands in front of the second.
abbrev is_better : Side → ℤ → ℤ → Bool
is_better buy p q = ltb_ℤ q p
is_better sell p q = ltb_ℤ p q

less_for_side-is_better : (s : Side) (p q : ℤ) → less_for_side s p q ≡ is_better s q p
unfolding less_for_side
less_for_side-is_better buy p q = refl
less_for_side-is_better sell p q = refl

-- An order joins the back of its price's level, whose total then has its quantity, modulo 2^64; without
-- such a level it makes one, in front of the first level that its price is better than.
unfoldable pub with_order : Side → Order → List PriceLevel → List PriceLevel
with_order s o [] = record { price = o.price; total_qty = o.qty % u64_mod; orders = o ∷ [] } ∷ []
with_order s o (l ∷ ls) =
    let later = l ∷ with_order s o ls in
    let joined : PriceLevel = record {
      price = l.price;
      total_qty = (l.total_qty + o.qty) % u64_mod;
      orders = l.orders ++ o ∷ [];
    } in
    if is_better s o.price l.price
    then record { price = o.price; total_qty = o.qty % u64_mod; orders = o ∷ [] } ∷ l ∷ ls
    else (if l.price ==ℤ o.price then joined ∷ ls else later)

put_in-with_order :
    (s : Side) (o : Order) (ls : List PriceLevel) → put_in s o ls ≡ with_order s o ls
unfolding put_in with_order push_back
put_in-with_order s o [] =
    let k : (0 + o.qty) % u64_mod ≡ o.qty % u64_mod = omega arith in rw k refl
put_in-with_order s o (l ∷ ls) =
    let k : (0 + o.qty) % u64_mod ≡ o.qty % u64_mod = omega arith in
    rw (k, less_for_side-is_better s l.price o.price, put_in-with_order s o ls) refl

-- On a sorted vector, `get_or_insert` and `push_back` do what adding the order in one pass from the best
-- level does.
pub get_or_insert-with_order :
    (s : Side) (o : Order) (ls : List PriceLevel)
    → IsSorted s ls
    → put_at o (get_or_insert s o.price ls) ≡ with_order s o ls
get_or_insert-with_order s o ls h = get_or_insert-put_in s o ls h ∙ put_in-with_order s o ls

-- The orders without the first one at an address.
unfoldable pub orders_without : ℕ → List Order → List Order
orders_without a [] = []
orders_without a (o ∷ os) = let later = o ∷ orders_without a os in if o.slot == a then os else later

remove_order-orders_without : (a : ℕ) (os : List Order) → remove_order a os ≡ orders_without a os
unfolding remove_order orders_without
remove_order-orders_without a [] = refl
remove_order-orders_without a (o ∷ os) = rw (remove_order-orders_without a os) refl

-- The level of the order's price loses the order, and its quantity, modulo 2^64, and goes with its last
-- order; the other levels stay, and all of them if no level has that price.
unfoldable pub without_order : Order → List PriceLevel → List PriceLevel
without_order o [] = []
without_order o (l ∷ ls) =
    let later = l ∷ without_order o ls in
    let left = orders_without o.slot l.orders in
    if is_better o.side o.price l.price
    then l ∷ ls
    else (if l.price ==ℤ o.price
        then (if length left == 0
            then ls
            else record {
              price = l.price;
              total_qty = (l.total_qty + u64_mod - o.qty) % u64_mod;
              orders = left;
            }
              ∷ ls)
        else later)

is_empty-length : (os : List Order) → is_empty os ≡ (length os == 0)
is_empty-length [] = refl
is_empty-length (o ∷ os) = ground arith

take_out-without_order : (o : Order) (ls : List PriceLevel) → take_out o ls ≡ without_order o ls
unfolding take_out without_order unlink
take_out-without_order o [] = refl
take_out-without_order o (l ∷ ls) =
    rw
      (
        less_for_side-is_better o.side l.price o.price,
        remove_order-orders_without o.slot l.orders,
        is_empty-length (orders_without o.slot l.orders),
        take_out-without_order o ls,
      )
      refl

-- On a sorted vector, `find`, `unlink` and `erase_if_empty` do what taking the order out in one pass from
-- the best level does.
pub unlink_in-without_order :
    (o : Order) (ls : List PriceLevel) → IsSorted o.side ls → unlink_in o ls ≡ without_order o ls
unlink_in-without_order o ls h = unlink_in-take_out o ls h ∙ take_out-without_order o ls
