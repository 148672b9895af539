-- ===== src/Engine.antt =====
-- include/order_book/trading_engine.hpp and src/trading_engine.cpp: `TradingEngine`, on top of the
-- order book and the risk manager.
pub mod State
pub mod Quoting
pub mod Taking
pub mod Loop
pub mod Quotes
pub mod Refresh
pub mod Shown
pub mod Fills
pub mod Ledger
pub mod Takers
pub mod Crossing
pub mod Actions
pub mod Ticks
pub mod Limit
pub mod Run
pub mod Tests
