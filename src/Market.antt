-- ===== src/Market.antt =====
-- `MarketDataService` of src/engine/market_data.py: the ticker names of the history feed, the intraday
-- curve with its cache, and the search for details.
pub mod Series
pub mod Kept
mod Tests
