-- ===== src/Charts.antt =====
-- The candles that src/api/endpoints/superbrain.py serves, with the adjustment of
-- src/engine/corp_actions.py for splits.
pub mod Bars
pub mod Adjust
pub mod Scale
pub mod Session
pub mod History
pub mod Order
pub mod Days
pub mod Repeat
mod Tests
