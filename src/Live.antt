-- ===== src/Live.antt =====
-- The live-candle engine of src/engine/live_candles.py.
mod Defs
pub mod Sources
pub mod Candles
mod Tests
unfoldable pub use Defs.*
