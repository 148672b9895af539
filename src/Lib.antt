-- ===== src/Lib.antt =====
-- A model of the order book and its matching engine, with proofs.
--
-- The program. `SideBook` (include/order_book/order_book.hpp) keeps one side of the book as a vector of
-- price levels, best price last; a `PriceLevel` (include/order_book/price_level.hpp) is an intrusive
-- list of orders with their total quantity. `OrderBook` (include/order_book/order_book.hpp,
-- src/order_book.cpp) has two sides, an index from ids to resting orders, a clock, and an `ObjectPool`
-- (include/order_book/pool_allocator.hpp) that the orders live in. `submit` takes a slot from the pool,
-- matches the order against the other side and rests or releases what is left; `cancel` finds an order
-- by its id, unlinks it, and releases it.
--
-- live_trade (src/live_trade.cpp) builds, for each symbol, a feed that pushes market events into an
-- `SPSCQueue`, and a `TradingEngine` that pops them: it keeps its own quotes in an `OrderBook`, asks a
-- strategy for an action, passes the action through the `RiskManager` and trades it against its quotes.
-- Each fill goes to a `LatencyHistogram` and, as a record, to the one `TelemetryPublisher`.
--
-- The files.
--   Base        names of the library passed on, tests, lists, and signed integers (Base/Int)
--   Types       include/order_book/types.hpp: `Side`, `OrderType`, `Trade`, `Order`
--   SideBook    `PriceLevel` (`push_back`, `unlink`) and `SideBook` (`find_level`, `get_or_insert`,
--               `find`, `erase_if_empty`). A vector is listed from its back, so the best level is the
--               head. Children: Sorted (the order of the levels), Insert and Remove (the operations
--               as one pass over the levels), Reference (that pass without the code's operations), Levels (the invariant of a side), Held and Counts (the
--               orders that a side holds)
--   OrderBook   State (`OrderBook`, the index, the pool's free list, `best_bid`, `best_ask`), Match
--               (`price_crosses`, `match`), Submit (`rest`, `submit`), Cancel (`cancel`). The other
--               children are proofs: Sweep (the loop of `match` as a recursion on the levels),
--               Priority, Levels, Crossing, Invariant, FillOrKill, Remaining, Outcome, Slots (the
--               pool), Ids and Complete (the index), Ended (the calls
--               that come back) and Run (histories of calls). Tests has the runs
--               at concrete books
--   Memory      include/order_book/pool_allocator.hpp and include/order_book/price_level.hpp on their links:
--               orders with `prev` and `next`, `push_back` and `unlink`, and `ObjectPool` with its free
--               list (`acquire`, `release`, the constructor). Fill has the inner loop of `match` on
--               these. Seg, FreeList and Relink (the makers and the free slots as lists), PushBack,
--               Unlink, Filled, Rounds and Pool are the proofs
--   Strategy    include/order_book/strategy.hpp: `MarketSnapshot`, `StrategyAction`, and `MeanReversion`
--               with `on_tick` of src/trading_engine.cpp. Window has the proofs
--   Risk        include/order_book/risk.hpp: `RiskConfig`, `RiskManager` with `observe_equity` and `gate`,
--               whose two limits are definitions of their own. Halt (sequences of observations),
--               Position and Notional are the proofs
--   Feed        include/order_book/feed.hpp and src/feed.cpp: `MarketEvent` and the scales. Numbers (casts
--               and the mean of two prices), Parse (`parse_ws_book_ticker`, `fetch_once`, the URLs),
--               Synthetic (the rounds of `SyntheticFeed`), Thread (the loop that fetches and pushes,
--               with `start` and `stop`, for the feeds that poll); Agree has the proofs on the parsers, Delivery and Ending
--               those on the thread
--   Engine      include/order_book/trading_engine.hpp and src/trading_engine.cpp: State (`TradingEngine`,
--               `equity_at`), Quoting (`refresh_quotes`), Taking (`apply_action`), Loop (`run`). The other
--               children are proofs: Quotes (the engine's book), Refresh and Shown, Fills, Takers,
--               Crossing and Actions, Ticks, Limit and Run
--   Telemetry   include/order_book/telemetry.hpp: Fields (`TelemetryRecord`, `set_field`, `make_meta`,
--               `make_status`, `make_fill`), Json (`to_json_line`), Publisher (`TelemetryPublisher`, with
--               `publish`, `run` and `stop` as the steps of its threads), Sinks (`FileSink`, and `WsSink`
--               of src/telemetry_ws.cpp). Fits, Drain, Kept, Stop and Lines are the proofs
--   Queue       include/order_book/spsc_queue.hpp: `SPSCQueue`, with `try_push` and `try_pop` as the steps of
--               two threads. Index and Capacity (indices that wrap, the constructor's loop), Invariant,
--               Push, Pop and Fifo (what the interleavings keep) are the proofs
--   Histogram   include/order_book/latency_hist.hpp: `LatencyHistogram` with `add`, `min`, `max` and
--               `percentile_ns`, and `mean_ns`. Buckets, Samples and Percentile are the proofs
--   Options     src/live_trade.cpp: Arguments (the loop over `argv` and the checks behind it), Symbols
--               (`parse_symbols`), Pipeline (the limits of the gate, the latency of a fill, the joined
--               symbols), Wiring (the sinks, the feed of a symbol, the records that are published and
--               the final numbers); Override and Split have the proofs
--   Pipeline    src/live_trade.cpp: `Pipeline`, with the steps of the feed's thread, of the engine's
--               thread in `run` of src/trading_engine.cpp, and of `stop` of both. Handled, Served and Run
--               are the proofs
--
-- The state. A price is an integer, every other number a natural number, with the wrap-around at 64 bits
-- written out where the code adds or subtracts. An order carries the pool slot that it lives in, which
-- stands for its address: the id index maps an id to a slot, the pool is the list of free slots, and an
-- access through the index is a search for the order that lives in the slot. An access through a
-- dangling pointer is undefined in C++, and `none` in the model. OrderBook takes the orders of a level
-- and the free slots as lists; Memory has the links that the code keeps, and relates the two. The callback `on_trade` is the list of
-- the trades in the order of its calls.
--
-- Fuel. Four loops run on fuel. The outer loop of `match` has one round more than the side that it walks
-- has levels: every round that does not end the loop erases a level. A loop that uses its rounds up leaves
-- the book `stuck` for good, so that a call which does not come back is told from one that does. The inner loop on the links has
-- one round more than the level has orders: a round that does not end it fills a maker whole. The loop
-- that rounds a queue's
-- capacity up to a power of two has 64 rounds, which a request of at most 2^63 does not use up; beyond
-- that the code's own loop does not end. The loop of `parse_symbols` has one round more than the list has bytes: a round
-- that does not end it moves behind a comma.
--
-- Threads. A step of a thread of the queue does at most one access to what the threads share, and the
-- steps interleave in any order. The code's release stores and acquire loads of the two indices are
-- what makes this view adequate. In the publisher of the telemetry a step is what a thread does in one
-- hold of the mutex, and a wait that is about to block holds it: no record is published then, but `stop`,
-- which takes no lock, may step in between. A record's push and its notification are one step. The thread of a feed
-- takes the steps of the queue's producer inside a call of `try_push`; its fetch is one step. In a pipeline
-- the engine's thread takes the steps of the queue's consumer, and its round with an event that it popped
-- belongs to the last of them: nothing that it touches is shared with the thread of the feed.
--
-- Arithmetic. Signed 64-bit values of the risk manager and the strategy are integers: an overflow of
-- theirs is undefined in C++ and not in the model. Doubles are not modelled: the portion of `percentile_ns` is
-- given by what its comparisons and its product with the count, rounded, yield, and the two tests of a
-- deviation from the mean in `on_tick` are arguments. In the feeds and the telemetry the type of
-- doubles, their operations and their printing are parameters, and so are the JSON library, `atoi` and `atof`.
--
-- Not modelled. The loop of `WebSocketBinanceFeed`, whose callback parses messages
-- also after `stop` and gives them up; the whole book on links: `rest`, `cancel` and the outer loop of `match` use the lists of
-- OrderBook; the network and the JSON library; the streams and sockets below the sinks of the
-- telemetry; printing, signals and the clock of live_trade; the demo and benchmarks. The compiler hints of include/order_book/cache.hpp have no effect
-- on results.
pub mod Base
pub mod Types
pub mod SideBook
pub mod OrderBook
pub mod Memory
pub mod Strategy
pub mod Risk
pub mod Feed
pub mod Engine
pub mod Telemetry
pub mod Queue
pub mod Histogram
pub mod Options
pub mod Pipeline
