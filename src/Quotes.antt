-- ===== src/Quotes.antt =====
-- The quotes that src/api/endpoints/superbrain.py serves: one, or many at once.
pub mod Shape
pub mod Flight
pub mod Live
pub mod Batch
pub mod Cores
pub mod Gathered
pub mod Bulk
pub mod Answers
pub mod Range
pub mod Opens
mod Tests
