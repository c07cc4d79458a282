-- ===== src/Candles.antt =====
-- The bars of src/engine/intraday_builder.py.
mod Defs
pub mod Bars
mod Tests
unfoldable pub use Defs.*
