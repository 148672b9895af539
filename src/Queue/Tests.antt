-- ===== src/Queue/Tests.antt =====
-- A queue of two slots under one interleaving.
use orderbook_c.Base.{List, [], arith, refl, ℕ, ◌∷◌, ◌≡◌, ◌≢◌}
use orderbook_c.Queue.{
  Event, System, c_read, consumer_steps, new_queue, new_system, p_write, producer_steps, round_up,
  run_events, slot_index, step, step_consumer, step_producer,
}
use orderbook_c.Queue.Capacity.{IsCapacity, round_up-IsCapacity}
use orderbook_c.Queue.Fifo.{InOrder, run_events-InOrder, run_events-apart}

abbrev schedule : List (Event ℕ)
schedule =
    producer_steps 7
    ∷ producer_steps 7
    ∷ consumer_steps
    ∷ producer_steps 7
    ∷ consumer_steps
    ∷ producer_steps 8
    ∷ []

abbrev after : System ℕ
after = run_events (new_system 0 2) schedule

-- The first value is in, the second about to be written while the first is about to be read.
before_write : (after.producer ≡ p_write 8) × (after.consumer ≡ c_read)
unfolding run_events step step_producer step_consumer new_queue round_up
before_write = (refl, refl)

run_events-InOrder_example : InOrder after
run_events-InOrder_example = run_events-InOrder 0 2 schedule (ground arith)

run_events-apart_example :
    slot_index after.queue after.queue.head ≢ slot_index after.queue after.queue.tail
run_events-apart_example =
    run_events-apart 0 2 schedule 8 (ground arith) before_write.0 before_write.1

round_up-IsCapacity_example : IsCapacity (round_up 64 1 1000) 1000
round_up-IsCapacity_example = round_up-IsCapacity 1000 (ground arith)
