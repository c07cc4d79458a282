-- ===== src/Cache.antt =====
-- The ticker cache of src/cache/ticker_cache.py, on top of the store.
pub mod Ticks
pub mod Reads
mod Tests
