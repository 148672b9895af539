-- ===== src/OrderBook.antt =====
-- The class OrderBook: include/order_book/order_book.hpp and src/order_book.cpp.
pub mod State
pub mod Match
pub mod Submit
pub mod Cancel
pub mod Sweep
pub mod Priority
pub mod Levels
pub mod Crossing
pub mod Invariant
pub mod FillOrKill
pub mod Remaining
pub mod Outcome
pub mod Slots
pub mod Ids
pub mod Ended
pub mod Run
pub mod Complete
mod Tests
