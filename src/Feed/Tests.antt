-- ===== src/Feed/Tests.antt =====
-- Runs of the parsers and of the synthetic feed on small inputs.
use Prim.Native.String.{String}
use text.Mathlib.Text.{◌==◌}
use orderbook_c.Base.{
  List, Option, [], arith, codes, false, if◌then◌else◌, length, ltb, none, refl, some, suc, true,
  zero, ℕ, ◌*◌, ◌++◌, ◌+◌, ◌-◌, ◌/◌, ◌∷◌, ◌≡◌, ◌≤◌,
}
use orderbook_c.Base.Int.{pos, ◌+ℤ◌, ◌/ℤ◌}
use orderbook_c.Feed.{book_ticker}
use orderbook_c.Feed.Agree.{Parsed, parse_ws_book_ticker-Parsed}
use orderbook_c.Feed.Delivery.{gave_up, pending, run_feed-delivers}
use orderbook_c.Feed.Ending.{is_ended, run_feed-ends}
use orderbook_c.Feed.Parse.{
  fetch_once, futures, lower, new_event, parse_ws_book_ticker, performed, read_quote, set_quote,
  to_price, to_qty, ws_url,
}
use orderbook_c.Feed.Synthetic.{next_mid, synthetic_event, synthetic_events}
use orderbook_c.Feed.Thread.{
  FeedEvent, FeedSystem, ended, feeder_steps, popper_steps, run_feed, started_feed, step_feed,
  step_feeder, stop_called,
}
use orderbook_c.Queue.{new_queue, round_up, step, step_consumer, step_producer}

-- An object as a list of members, each with its text; a text of one number.
abbrev Members : Type 0
Members = List (String × List ℕ)

abbrev member : Members → String → Option Members
member [] key = none
member ((k, v) ∷ ms) key = if k == key then some ((k, v) ∷ []) else member ms key

abbrev text_in : Members → Option (List ℕ)
text_in [] = none
text_in ((k, v) ∷ ms) = some v

abbrev number_in : List ℕ → Option ℕ
number_in (n ∷ []) = some n
number_in s = none

-- A text that starts with 1 is a message, with 2 a body, with 3 a message without sizes.
abbrev members_in : List ℕ → Option Members
members_in (suc zero ∷ s) =
    some (("b", 99 ∷ []) ∷ ("a", 101 ∷ []) ∷ ("B", 2 ∷ []) ∷ ("A", 3 ∷ []) ∷ [])
members_in (suc (suc zero) ∷ s) =
    some (
      ("bidPrice", 99 ∷ []) ∷ ("bidQty", 2 ∷ []) ∷ ("askPrice", 101 ∷ []) ∷ ("askQty", 3 ∷ []) ∷ [])
members_in (suc (suc (suc zero)) ∷ s) = some (("b", 99 ∷ []) ∷ ("a", 101 ∷ []) ∷ [])
members_in s = none

abbrev product : ℕ → ℕ → ℕ
product x k = x * k

parse_test :
    parse_ws_book_ticker product pos members_in member text_in number_in (1 ∷ []) new_event ≡ (
      true,
      record new_event {
        best_bid = pos 9900;
        best_ask = pos 10100;
        bid_qty = 2000000;
        ask_qty = 3000000;
        last_trade = pos 10000;
      },
    )
unfolding parse_ws_book_ticker read_quote set_quote to_price to_qty ◌/ℤ◌ ◌+ℤ◌
parse_test = refl

missing_member_test :
    parse_ws_book_ticker product pos members_in member text_in number_in (3 ∷ []) new_event
    ≡ (false, new_event)
unfolding parse_ws_book_ticker read_quote
missing_member_test = refl

ws_url_test :
    ws_url futures (codes "BTCUSDT") ≡ codes "wss://fstream.binance.com/ws/btcusdt@bookTicker"
unfolding ws_url lower
ws_url_test = refl

parse_ws_book_ticker-Parsed_example :
    Parsed product pos members_in member text_in number_in
      (1 ∷ [])
      new_event
      (parse_ws_book_ticker product pos members_in member text_in number_in (1 ∷ []) new_event)
parse_ws_book_ticker-Parsed_example =
    parse_ws_book_ticker-Parsed product pos members_in member text_in number_in (1 ∷ []) new_event

-- Whole dollars; a difference stops at zero, and a half rounds down.
abbrev plus_dollars : ℕ → ℕ → ℕ
plus_dollars x y = x + y

abbrev minus_dollars : ℕ → ℕ → ℕ
minus_dollars x y = x - y

abbrev half_dollars : ℕ → ℕ
half_dollars x = x / 2

synthetic_test :
    synthetic_events product pos plus_dollars minus_dollars half_dollars ltb 1 4 800 ((3, 10) ∷ [])
    ≡ record {
      kind = book_ticker;
      best_bid = pos 80100;
      best_ask = pos 80500;
      bid_qty = 1000000;
      ask_qty = 1000000;
      last_trade = pos 80300;
      ts = 10;
    }
      ∷ []
unfolding synthetic_events synthetic_event next_mid to_price to_qty
synthetic_test = refl

fetch_once_test :
    (fetch_once product pos members_in member text_in number_in
      (performed true 200 (2 ∷ []))
      77
      new_event).0
    ≡ true
unfolding fetch_once read_quote
fetch_once_test = refl

-- A feed of numbers on a queue of two places: 7 is fetched, pushed and popped, 8 is fetched, and the feed
-- is stopped before it is pushed.
abbrev feed_events : List (FeedEvent ℕ)
feed_events =
    feeder_steps (some 7)
    ∷ feeder_steps none
    ∷ feeder_steps none
    ∷ feeder_steps none
    ∷ feeder_steps (some 8)
    ∷ popper_steps
    ∷ popper_steps
    ∷ popper_steps
    ∷ popper_steps
    ∷ stop_called
    ∷ feeder_steps none
    ∷ feeder_steps none
    ∷ []

run_feed_test :
    ((run_feed (started_feed 0 2) feed_events).system.popped ≡ 7 ∷ [])
    × ((run_feed (started_feed 0 2) feed_events).feeder ≡ ended (some 8))
unfolding run_feed step_feed step_feeder step step_producer step_consumer new_queue round_up
run_feed_test = (refl, refl)

run_feed-delivers_example :
    let s = run_feed (started_feed 0 2) feed_events in
    ((waiting : List ℕ) × (s.fetched ≡ s.system.popped ++ (waiting ++ pending s.feeder))
      × (length waiting ≤ length s.system.queue.slots))
    × (s.running ≡ true → gave_up s.feeder ≡ false)
run_feed-delivers_example = run_feed-delivers 0 2 feed_events (omega arith)

-- Stopped inside a call of `try_push`, the thread ends, with a step of the other thread in between.
abbrev in_a_call : FeedSystem ℕ
in_a_call = run_feed (started_feed 0 2) (feeder_steps (some 7) ∷ feeder_steps none ∷ [])

abbrev last_events : List (FeedEvent ℕ)
last_events =
    feeder_steps none
    ∷ popper_steps
    ∷ feeder_steps none
    ∷ feeder_steps (some 8)
    ∷ feeder_steps none
    ∷ feeder_steps none
    ∷ []

run_feed-ends_example :
    is_ended (run_feed (step_feed in_a_call stop_called) last_events).feeder ≡ true
run_feed-ends_example = run_feed-ends in_a_call last_events (omega arith)
