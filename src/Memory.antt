-- ===== src/Memory.antt =====
-- The pool of include/order_book/pool_allocator.hpp and the intrusive lists of
-- include/order_book/price_level.hpp, with their links. An address is the number of a slot, `none` is
-- `nullptr`; a result of `none` is the access through a pointer to a slot that holds no order, which
-- is undefined.
pub mod Seg
pub mod Relink
pub mod PushBack
pub mod Unlink
pub mod Fill
pub mod Filled
pub mod Rounds
pub mod FreeList
pub mod Pool
pub mod Tests
use orderbook_c.Base.{Option, if◌then◌else◌, none, some, suc, zero, ℕ, ◌==◌, ◌>>=◌}
use orderbook_c.Base.Int.{ℤ}
use orderbook_c.Types.{Order, add64, sub64}

-- An order with its links.
pub record Node : Type 0 where
  pub order : Order
  pub prev : Option ℕ
  pub next : Option ℕ

-- `Slot`, the union of an order and the link of the free list.
pub data Slot : Type 0 where
  live : Node → Slot
  unused : Option ℕ → Slot

abbrev pub Memory : Type 0
Memory = ℕ → Slot

abbrev pub write : Memory → ℕ → Slot → Memory
write m a c b = if b == a then c else m b

abbrev pub node_in : Slot → Option Node
node_in (live n) = some n
node_in (unused q) = none

-- `*p`
abbrev pub load : ℕ → Memory → Option Node
load p m = node_in (m p)

-- `p->next = q` and `p->prev = q`
unfoldable pub set_next : ℕ → Option ℕ → Memory → Option Memory
set_next p q m = do n ← load p m; some (write m p (live (record n { next = q })))

unfoldable pub set_prev : ℕ → Option ℕ → Memory → Option Memory
set_prev p q m = do n ← load p m; some (write m p (live (record n { prev = q })))

unfoldable pub set_qty : ℕ → ℕ → Memory → Option Memory
set_qty p qty m = do
  n ← load p m
  some (write m p (live (record n { order = record n.order { qty = qty } })))

-- `PriceLevel`
pub record LinkedLevel : Type 0 where
  pub price : ℤ
  pub total_qty : ℕ
  pub head : Option ℕ
  pub tail : Option ℕ

-- `if (tail) tail->next = o; else head = o;`, with the tail and what it gets as arguments: the new head
-- and the memory.
unfoldable pub link_next : Option ℕ → Option ℕ → Option ℕ → Memory → Option (Option ℕ × Memory)
link_next none q head m = some (q, m)
link_next (some t) q head m = do m' ← set_next t q m; some (head, m')

-- `if (o->next) o->next->prev = q; else tail = q;`
unfoldable pub link_prev : Option ℕ → Option ℕ → Option ℕ → Memory → Option (Option ℕ × Memory)
link_prev none q tail m = some (q, m)
link_prev (some h) q tail m = do m' ← set_prev h q m; some (tail, m')

-- `PriceLevel::push_back`
unfoldable pub linked_push_back : ℕ → LinkedLevel → Memory → Option (LinkedLevel × Memory)
linked_push_back o lvl m = do
  m1 ← set_prev o lvl.tail m
  m2 ← set_next o none m1
  (head, m3) ← link_next lvl.tail (some o) lvl.head m2
  n ← load o m3
  some (record lvl { head = head; tail = some o; total_qty = add64 lvl.total_qty n.order.qty }, m3)

-- `PriceLevel::unlink`
unfoldable pub linked_unlink : ℕ → LinkedLevel → Memory → Option (LinkedLevel × Memory)
linked_unlink o lvl m = do
  n ← load o m
  (head, m1) ← link_next n.prev n.next lvl.head m
  n1 ← load o m1
  (tail, m2) ← link_prev n1.next n1.prev lvl.tail m1
  n2 ← load o m2
  m3 ← set_next o none m2
  m4 ← set_prev o none m3
  some (record lvl { head = head; tail = tail; total_qty = sub64 lvl.total_qty n2.order.qty }, m4)

-- The head of the free list, and the memory.
abbrev pub LinkedPool : Type 0
LinkedPool = Option ℕ × Memory

-- `ObjectPool`, with the order that `acquire` puts into the slot as an argument: the address and
-- the new pool. A link read out of a slot that holds an order is undefined.
abbrev take_slot : ℕ → Slot → Order → Memory → Option (Option ℕ × LinkedPool)
take_slot s (live n) o m = none
take_slot s (unused q) o m =
    some (some s, (q, write m s (live (record { order = o; prev = none; next = none }))))

unfoldable pub pool_acquire : Option ℕ → Order → Memory → Option (Option ℕ × LinkedPool)
pool_acquire none o m = some (none, (none, m))
pool_acquire (some s) o m = take_slot s (m s) o m

-- `release`, with the head of the free list: the new pool.
unfoldable pub pool_release : Option ℕ → Option ℕ → Memory → Option LinkedPool
pool_release none head m = some (head, m)
pool_release (some p) head m = do n ← load p m; some (some p, write m p (unused head))

-- The loop of the constructor from slot `i` on, with the rounds that are left.
unfoldable pub link_slots : ℕ → ℕ → Memory → Memory
link_slots zero i m = m
link_slots (suc k) i m = link_slots k (suc i) (write m i (unused (some (suc i))))

-- The constructor. `back()` and `front()` of an empty vector are undefined.
unfoldable pub new_pool : ℕ → Option LinkedPool
new_pool zero = none
new_pool (suc n) = some (some 0, write (link_slots n 0 (λ s. unused none)) n (unused none))
