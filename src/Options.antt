-- ===== src/Options.antt =====
-- src/live_trade.cpp: the list of symbols and the options of the command line.
pub mod Symbols
pub mod Split
pub mod Arguments
pub mod Override
pub mod Pipeline
pub mod Wiring
pub mod Tests
