-- ===== src/Tickertape.antt =====
-- The client of Tickertape (src/engine/tickertape.py): the search for a stock's id, the points of a
-- session, and the quotes of many symbols.
pub mod Search
pub mod Pacing
pub mod Resolve
pub mod Ids
pub mod Points
pub mod Volumes
pub mod Batch
pub mod Chunks
pub mod Mood
mod Tests
