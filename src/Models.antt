-- ===== src/Models.antt =====
-- The data models of src/models: the canonical tick, the order book and what is derived from it, and
-- the candle.
pub mod Tick
pub mod Validation
pub mod Checked
pub mod Depth
pub mod Ohlcv
pub mod Averages
mod Tests
