-- ===== src/OrderBook/Tests.antt =====
-- The scenarios of tests/test_order_book.cpp, and the theorems at a concrete book.
use orderbook_c.Base.{List, [], arith, false, refl, some, true, ℕ, ◌<◌, ◌∷◌, ◌≡◌, ◌≤◌}
use orderbook_c.Base.Int.{pos}
use orderbook_c.OrderBook.Cancel.{cancel}
use orderbook_c.OrderBook.Complete.{Complete}
use orderbook_c.OrderBook.Complete.Run.{CancelsResting, run-CancelsResting}
use orderbook_c.OrderBook.FillOrKill.{submit_fok, traded}
use orderbook_c.OrderBook.Ids.{count_id}
use orderbook_c.OrderBook.Ids.Calls.{IsIndexed, NoSharing, resting}
use orderbook_c.OrderBook.Ids.Cancel.{Cancels, cancel-Cancels}
use orderbook_c.OrderBook.Invariant.{IsBook}
use orderbook_c.OrderBook.Match.{
  match_book, match_loop, match_orders, may_trade, price_crosses, start_of,
}
use orderbook_c.OrderBook.Outcome.{Outcome, submit-Outcome}
use orderbook_c.OrderBook.Priority.{offered, reachable}
use orderbook_c.OrderBook.Run.{Call, IsSound, cancels, run, run-new_book, step, submits}
use orderbook_c.OrderBook.State.{OrderBook, emplace, erase_id, find_id, new_book, slots_from}
use orderbook_c.OrderBook.Submit.{
  fok_needed, is_killed, new_order, place, rest, submit, submit_with,
}
use orderbook_c.OrderBook.Sweep.{match_loop-ends, sweep}
use orderbook_c.SideBook.{
  PriceLevel, erase_if_empty, find, find_level, get_or_insert, less_for_side, order_at, push_back,
  remove_order, stands_at, unlink,
}
use orderbook_c.SideBook.Insert.{put_at}
use orderbook_c.SideBook.Reference.{
  get_or_insert-with_order, unlink_in-without_order, with_order, without_order,
}
use orderbook_c.SideBook.Remove.{unlink_in}
use orderbook_c.Types.{Order, Side, buy, fok, limit, sell}

abbrev resting_order : ℕ → ℕ → Side → ℕ → ℕ → Order
resting_order slot id side px qty = record {
  slot = slot;
  id = id;
  price = pos px;
  qty = qty;
  ts = id;
  side = side;
  type = limit;
}

-- Two sells at 100, one at 102, and a buy at 98, in a pool of six slots.
abbrev ask_levels : List PriceLevel
ask_levels =
    record {
      price = pos 100;
      total_qty = 10;
      orders = resting_order 0 1 sell 100 5 ∷ resting_order 1 2 sell 100 5 ∷ [];
    }
    ∷ record { price = pos 102; total_qty = 7; orders = resting_order 2 3 sell 102 7 ∷ [] }
    ∷ []

abbrev bid_levels : List PriceLevel
bid_levels = record { price = pos 98; total_qty = 9; orders = resting_order 3 4 buy 98 9 ∷ [] } ∷ []

abbrev sample : OrderBook
sample = record {
  free = 4 ∷ 5 ∷ [];
  bids = bid_levels;
  asks = ask_levels;
  id_index = (1, 0) ∷ (2, 1) ∷ (3, 2) ∷ (4, 3) ∷ [];
  clock = 0;
  stuck = false;
}

sample-IsBook : IsBook sample
unfolding less_for_side price_crosses
sample-IsBook = record {
  bids = record { sorted = tt; levels = ground arith };
  asks = record { sorted = (refl, tt); levels = ground arith };
  apart = refl;
}

-- `sample` is the book after these calls.
abbrev history : List Call
history =
    submits 1 sell limit (pos 100) 5 1
    ∷ submits 2 sell limit (pos 100) 5 2
    ∷ submits 3 sell limit (pos 102) 7 3
    ∷ submits 4 buy limit (pos 98) 9 4
    ∷ cancels 9
    ∷ []

history-sample :
    run (new_book 6) history
    ≡ some (record sample { id_index = (4, 3) ∷ (3, 2) ∷ (2, 1) ∷ (1, 0) ∷ [] })
unfolding run step new_book slots_from submit submit_with place is_killed match_book match_loop
    match_orders may_trade price_crosses rest get_or_insert find_level stands_at less_for_side
    push_back emplace find_id cancel fok_needed erase_if_empty
history-sample = refl

run-new_book_example : (b : OrderBook) × (run (new_book 6) history ≡ some b) × IsSound 6 b
run-new_book_example = run-new_book 6 history (omega arith) (omega arith)

run-CancelsResting_example :
    (b : OrderBook) × (run (new_book 6) history ≡ some b)
    × ((i : ℕ) → count_id i (resting b) ≤ 1)
    × Complete b
    × CancelsResting b
run-CancelsResting_example = run-CancelsResting 6 history (omega arith) (λ i. ground arith)

sample-IsIndexed : IsIndexed sample
sample-IsIndexed = record { unique = λ i. ground arith; live = λ i s. ground arith }

sample-NoSharing : NoSharing sample
sample-NoSharing k = ground arith

-- A buy of 12 up to 101 takes both orders at 100 and rests with 2.
submit-Outcome_example :
    Outcome
      (new_order 4 7 buy limit (pos 101) 12 9 0)
      sample
      (submit sample 7 buy limit (pos 101) 12 9)
submit-Outcome_example =
    submit-Outcome sample 7 buy limit (pos 101) 12 9 4 (5 ∷ []) refl (omega arith) (λ e. cc)
      sample-IsBook

submit_fok_example :
    let taker = new_order 4 7 buy fok (pos 101) 11 0 0 in
    let reach = reachable taker ask_levels in
    let r = submit sample 7 buy fok (pos 101) 11 0 in
    (11 ≤ offered reach → traded r.trades ≡ 11)
    × (offered reach < 11 → (r.trades ≡ []) × (r.book ≡ record sample { clock = 1 }))
submit_fok_example =
    submit_fok sample 7 buy (pos 101) 11 0 4 (5 ∷ []) refl (omega arith) sample-IsBook (omega arith)

cancel-Cancels_example : Cancels sample 2
cancel-Cancels_example = cancel-Cancels sample 2 sample-IsBook sample-IsIndexed sample-NoSharing

sample_cancelled : OrderBook
sample_cancelled = record sample {
  free = 3 ∷ 4 ∷ 5 ∷ [];
  bids = [];
  id_index = (1, 0) ∷ (2, 1) ∷ (3, 2) ∷ [];
}

cancel-sample : cancel sample 4 ≡ some (true, sample_cancelled)
unfolding cancel sample_cancelled find_id order_at unlink_in find find_level stands_at less_for_side
    unlink remove_order erase_if_empty erase_id
cancel-sample = refl

get_or_insert-with_order_example :
    put_at (resting_order 4 7 sell 101 6) (get_or_insert sell (pos 101) ask_levels)
    ≡ with_order sell (resting_order 4 7 sell 101 6) ask_levels
unfolding less_for_side
get_or_insert-with_order_example =
    get_or_insert-with_order sell (resting_order 4 7 sell 101 6) ask_levels (refl, tt)

unlink_in-without_order_example :
    unlink_in (resting_order 2 3 sell 102 7) ask_levels
    ≡ without_order (resting_order 2 3 sell 102 7) ask_levels
unfolding less_for_side
unlink_in-without_order_example =
    unlink_in-without_order (resting_order 2 3 sell 102 7) ask_levels (refl, tt)

match_loop-ends_example :
    let taker = resting_order 4 7 buy 101 12 in
    let r = match_loop 3 taker ask_levels (start_of taker sample) in
    (r.stuck ≡ false) × (r ≡ sweep taker ask_levels (start_of taker sample))
unfolding less_for_side
match_loop-ends_example =
    match_loop-ends 3 (resting_order 4 7 buy 101 12) ask_levels
      (start_of (resting_order 4 7 buy 101 12) sample) (refl, tt) (omega arith)
