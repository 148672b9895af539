-- ===== src/Memory/Tests.antt =====
-- Runs of the links and of the pool on small inputs.
use orderbook_c.Base.{List, Option, [], none, refl, some, ℕ, ◌∷◌, ◌≡◌}
use orderbook_c.Base.Int.{pos}
use orderbook_c.Memory.{
  LinkedLevel, LinkedPool, Memory, link_prev, linked_push_back, linked_unlink, new_pool,
  pool_release, set_prev, set_qty, unused, write,
}
use orderbook_c.Memory.Fill.{Filling, drop_maker, fill_loop, fill_maker, fill_round}
use orderbook_c.Memory.Filled.{Filled, Stands, listed}
use orderbook_c.Memory.Pool.{
  IsPool, PoolCall, acquires, linked_calls, list_call, list_calls, new_pool-IsPool, releases,
}
use orderbook_c.Memory.PushBack.{linked_push_back-IsLinked}
use orderbook_c.Memory.Rounds.{fill_loop-refines}
use orderbook_c.Memory.Seg.{IsLinked, SameOutside, node}
use orderbook_c.Memory.Unlink.{linked_unlink-IsLinked}
use orderbook_c.OrderBook.State.{slots_from}
use orderbook_c.SideBook.{PriceLevel, order_at, push_back, unlink}
use orderbook_c.Types.{Order, buy, limit, sell}

abbrev order_in : ℕ → ℕ → ℕ → Order
order_in s id qty = record {
  slot = s;
  id = id;
  price = pos 100;
  qty = qty;
  ts = 1;
  side = sell;
  type = limit;
}

-- Two makers at the slots 4 and 2, a fresh order at slot 0, and a free list of the slots 3 and 1.
abbrev first : Order
first = order_in 4 7 5

abbrev second : Order
second = order_in 2 8 6

abbrev fresh : Order
fresh = order_in 0 9 3

abbrev memory : Memory
memory =
    write
      (write (write (write (λ s. unused none) 3 (unused (some 1))) 0 (node fresh none none)) 4
        (node first none (some 2)))
      2 (node second (some 4) none)

abbrev two_makers : LinkedLevel
two_makers = record { price = pos 100; total_qty = 11; head = some 4; tail = some 2 }

abbrev two_listed : PriceLevel
two_listed = record { price = pos 100; total_qty = 11; orders = first ∷ second ∷ [] }

two_makers-IsLinked : IsLinked memory two_makers two_listed
two_makers-IsLinked = record {
  price_eq = refl;
  total_eq = refl;
  chain = (refl, (some 2, refl, (refl, (none, refl, (refl, refl)))));
  apart = (refl, (refl, tt));
}

linked_push_back-IsLinked_example :
    (p : LinkedLevel) × (g : Memory) × (linked_push_back 0 two_makers memory ≡ some (p, g))
    × IsLinked g p (push_back fresh two_listed)
    × SameOutside (fresh ∷ first ∷ second ∷ []) memory g
linked_push_back-IsLinked_example =
    linked_push_back-IsLinked fresh memory none none two_makers two_listed two_makers-IsLinked refl
      refl

linked_unlink-IsLinked_example :
    (p : LinkedLevel) × (g : Memory) × (linked_unlink 4 two_makers memory ≡ some (p, g))
    × IsLinked g p (unlink first two_listed)
    × (g 4 ≡ node first none none)
    × SameOutside (first ∷ second ∷ []) memory g
unfolding order_at
linked_unlink-IsLinked_example =
    linked_unlink-IsLinked first memory two_makers two_listed two_makers-IsLinked refl

-- A taker of 8 fills the first maker whole and the second in part.
abbrev taker : Order
taker = record (order_in 9 20 8) { side = buy }

abbrev at_start : Filling
at_start = record {
  qty = 8;
  id_index = (7, 4) ∷ (8, 2) ∷ [];
  pool = (some 3, memory);
  level = two_makers;
  trades = [];
}

at_start-Stands : Stands at_start (first ∷ second ∷ []) (3 ∷ 1 ∷ [])
at_start-Stands = record {
  chain = two_makers-IsLinked.chain;
  apart = (refl, (refl, tt));
  free_chain = (refl, (some 1, refl, (refl, (none, refl, refl))));
}

fill_loop-refines_example :
    (g : Filling) × (fill_loop 3 taker at_start ≡ some g)
    × Filled at_start g
        (first ∷ second ∷ [])
        (listed taker at_start (first ∷ second ∷ []) (3 ∷ 1 ∷ []))
fill_loop-refines_example =
    fill_loop-refines taker (first ∷ second ∷ []) (3 ∷ 1 ∷ []) at_start at_start-Stands

abbrev left_head : Option Filling → Option ℕ
left_head none = none
left_head (some g) = g.level.head

fill_loop_test : left_head (fill_loop 3 taker at_start) ≡ some 2
unfolding fill_loop fill_round fill_maker drop_maker set_qty link_prev set_prev pool_release
fill_loop_test = refl

-- The pool of two slots runs empty, and gives the slot that was released last.
abbrev some_calls : List PoolCall
some_calls = acquires first ∷ acquires second ∷ acquires fresh ∷ releases 0 ∷ acquires fresh ∷ []

new_pool-IsPool_example :
    (start : LinkedPool) × (new_pool 2 ≡ some start)
    × (q : LinkedPool) × (linked_calls some_calls start
        ≡ some (some 0 ∷ some 1 ∷ none ∷ none ∷ some 0 ∷ [], q))
    × IsPool 2 q (record { free = []; held = 0 ∷ 1 ∷ [] })
unfolding list_calls list_call slots_from
new_pool-IsPool_example =
    new_pool-IsPool 1 some_calls (some 0 ∷ some 1 ∷ none ∷ none ∷ some 0 ∷ [])
      (record { free = []; held = 0 ∷ 1 ∷ [] }) refl
