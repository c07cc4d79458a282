-- ===== src/Lib.antt =====
-- A market-data server: it fetches quotes of the Indian exchanges from several providers, in order of
-- rank, behind one circuit breaker each, and answers by the clock and calendar of the exchanges.
--
-- The parts, the files that model them, and how they interact:
-- - Breaker, `CircuitBreaker` of src/engine/circuit_breaker.py. A record of its fields; `read_state`
--   is the property `state`, which moves an open circuit to half-open when it is read. `execute` is
--   cut at its await: `admit` before the call, `settle` after it, and in between an arbitrary
--   function on the breaker for what other tasks do. Breaker/Recovery has a step relation for
--   interleaved calls.
-- - Failover, `FailoverController` of src/engine/failover.py over the providers of
--   src/providers/base.py. Each provider goes through its breaker. `fetch_quote` is the cascade
--   (Failover/Cascade), `fetch_bulk` is in Failover/Bulk, registration, toggles and status in
--   Failover/Registry. What a provider does when it is asked is an input, `Attempt`.
-- - Calendar, src/config/holidays.py, on top of the dates of Python's `datetime.date`
--   (Calendar/Date).
-- - Clock, src/utils/ist_clock.py, which asks the calendar. A datetime is a date, the microseconds
--   of its day, and its zone: none, or a fixed offset from UTC.
-- - Limiter, `TokenBucketRateLimiter` of src/engine/rate_limiter.py.
-- - Proxies, `ProxyPool` of src/providers/proxy_pool.py.
-- - Store, `MemoryStore` of src/cache/memory_store.py: keys and hashes with expiry, and streams, each
--   a bounded deque of messages with the places of its groups. Store/PubSub adds the queues of
--   subscribers and the pipeline of buffered commands.
-- - Cache, `TickerCache` of src/cache/ticker_cache.py, which writes ticks and depths to the store
--   through pipelines.
-- - Candles, `points_to_ohlc` of src/engine/intraday_builder.py, which makes bars of price points.
-- - Live, `LiveCandleEngine` of src/engine/live_candles.py: the samples of each symbol, kept to one
--   source at a time (`record`), and the candles made of them (`build`).
-- - Models, the data models of src/models: the tick, the order book with the prices derived from it
--   (`FullMarketDepth`), and the candle.
-- - Serving, `_TTLCache` of src/api/endpoints/superbrain.py, bounded by a budget of bytes. Serving/TtlCache/Ages
--   and Serving/TtlCache/Kept follow an entry of it while other keys are read and put.
-- - Quotes, the quotes of src/api/endpoints/superbrain.py: their shape (Quotes/Shape), the endpoint
--   for one of them (Quotes/Batch, `sb_quote`) and for many (Quotes/Bulk, `sb_quotes`), run by one
--   task over a record of the module's caches, `Desk`; the clock and the feeds are the fields of
--   `World`. Quotes/Flight has `_live_quote` as steps of tasks that interleave.
-- - Charts, the candles of src/api/endpoints/superbrain.py: the adjustment for splits of
--   src/engine/corp_actions.py (Charts/Adjust), the daily and intraday endpoints (Charts/Session)
--   and the dated history over the caches of Serving (Charts/History, `sb_history`). The feeds are
--   the fields of `Feeds` and `Calls`.
-- - Market, parts of `MarketDataService` of src/engine/market_data.py: the ticker names of the history
--   feed, the intraday curve with its cache, and the search for details.
-- - Tickertape, the client of src/engine/tickertape.py. Its globals are the record `Tape`; `search`
--   (Tickertape/Search) is the paced and locked search for a stock's id, `resolve`
--   (Tickertape/Resolve) the lookup by cache, seed, list and search, `fetch_intraday_points`
--   (Tickertape/Points) the curve of a session, whose points are those of Candles, `fetch_quotes`
--   (Tickertape/Batch) the quotes of many symbols, and `fetch_mmi` (Tickertape/Mood) the mood index.
-- - Feeds, the providers of the exchanges. Feeds/NseQuote parses the reply of
--   src/providers/nse_scraper.py into the tick of Models (Models/Validation checks its fields),
--   Feeds/NseSession has the cookies and the proxies of Proxies, and Feeds/NseFetch the requests of a
--   quote, with the counters of Failover/Provider. Feeds/Archive loads the daily file of
--   src/providers/nse_archive.py and Feeds/ArchiveQuote serves quotes of it. Feeds/Bse and
--   Feeds/BseFetch are src/providers/bse_scraper.py. What a request brings is an input.
-- - Api, the endpoints of src/api/endpoints/quotes.py over the hashes of Cache: a quote's shape
--   (Api/Shape), one quote (Api/Quotes, `get_quote`), many quotes and the order book (Api/Bulk). What
--   the market data service and the database give are the fields of `QuoteFeeds`.
-- - Common, text as lists of code points, dictionaries as association lists in insertion order,
--   Boolean tests, and predicates on lists.
--
-- Bounds and fuel. The two loops of the calendar have fuel 10: the weekends and the holidays of
-- the tables leave no run of ten days without trading. `acquire` of the limiter takes the
-- clock's readings as a list, one for each round, and gives the round that got the token: these are the
-- rounds of one task while no other one takes tokens. The loop
-- of `_TTLCache.put` has more fuel than there are entries, and evicts one in each round. The chunks
-- of `fetch_quotes` have as much fuel as there are ids, and take one at least. Clocks are
-- read as natural numbers in a fixed unit, and floats are exact: the tokens of the limiter are
-- counted in parts of its period, the ratios of a provider's metrics are pairs of numerator and
-- denominator. Texts are lowered and raised as ASCII.
--
-- Not modelled: the failover controller is used by one task at a time; its health checks, live tests
-- and disconnects, and the status of the proxy pool, are left out; so are logging, HTTP, SQL, the
-- tasks that sample live quotes, the feeds of src/providers and the endpoints of src/api that are not
-- named above, and the reports of the modelled feeds that only map fields. The tasks that a feed or a
-- batch runs at once run one after the other in the model. A cancellation inside the connection of a
-- provider, and one between a search's request and the write of its time, have no case. The quote of a
-- cached hash takes the exchange as it is, which was checked when the tick was made.
pub mod Common
pub mod Breaker
pub mod Failover
pub mod Calendar
pub mod Clock
pub mod Limiter
pub mod Proxies
pub mod Api
pub mod Cache
pub mod Candles
pub mod Charts
pub mod Feeds
pub mod Live
pub mod Market
pub mod Models
pub mod Quotes
pub mod Serving
pub mod Store
pub mod Tickertape
