-- ===== src/Telemetry.antt =====
-- include/order_book/telemetry.hpp: the records, their lines, and the publisher that writes the lines
-- to its sinks.
pub mod Fields
pub mod Json
pub mod Fits
pub mod Publisher
pub mod Drain
pub mod Kept
pub mod Stop
pub mod Sinks
pub mod Lines
pub mod Tests
