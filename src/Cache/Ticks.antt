-- ===== src/Cache/Ticks.antt =====
-- `TickerCache` (src/cache/ticker_cache.py). Times are whole seconds. `str`, `isoformat` and `float`
-- are arguments, and so is the JSON of a tick.
use bharat_ticker.Common.{
  ℕ, zero, suc, ◌+◌, ◌*◌, leb, Bool, true, false, Option, none, some, List, [], ◌∷◌, ◌++◌, map,
}
use bharat_ticker.Common.Text.{Text, codes}
use bharat_ticker.Common.Dict.{Dict, lookup, insert}
use bharat_ticker.Common.Integers.{ℤ, difference}
use bharat_ticker.Models.Tick.{MarketDepthLevel, MarketDepth, Tick}
use bharat_ticker.Store.{get, set, incr, expire, hgetall}
use bharat_ticker.Store.PubSub.{Backend, Command, Result, Value, run_pipeline}

pub record Render : Type 0 where
  pub str : ℕ → Text
  pub str_signed : ℤ → Text
  pub iso_now : Text
  pub float : Text → Option ℕ
  pub int : Value → Option ℕ
  pub json : Tick → Text

-- The lifetimes of src/config/settings.py.
abbrev pub redis_tick_ttl_seconds : ℕ
redis_tick_ttl_seconds = 5

abbrev pub redis_depth_ttl_seconds : ℕ
redis_depth_ttl_seconds = 2

unfoldable pub tick_key : Text → Text → Text
tick_key exchange symbol = codes "stock:" ++ exchange ++ codes ":" ++ symbol ++ codes ":latest"

unfoldable pub depth_key : Text → Text → Text
depth_key exchange symbol = codes "stock:" ++ exchange ++ codes ":" ++ symbol ++ codes ":depth"

-- `tick.isin or ""`
abbrev pub or_empty : Option Text → Text
or_empty none = []
or_empty (some s) = s

-- `str(x) if x else ""`
abbrev pub str_or_empty : Render → Option ℕ → Text
str_or_empty w none = []
str_or_empty w (some zero) = []
str_or_empty w (some (suc n)) = w.str (suc n)

-- `_tick_to_hash`, at the time `now`.
unfoldable pub tick_to_hash : Render → ℕ → Tick → Dict Text
tick_to_hash w now tick =
    (codes "symbol", tick.symbol)
    ∷ (codes "exchange", tick.exchange)
    ∷ (codes "isin", or_empty tick.isin)
    ∷ (codes "series", or_empty tick.series)
    ∷ (codes "ltp", w.str tick.ltp)
    ∷ (codes "open", w.str tick.open_price)
    ∷ (codes "high", w.str tick.high)
    ∷ (codes "low", w.str tick.low)
    ∷ (codes "close", w.str tick.close)
    ∷ (codes "change", w.str_signed tick.change)
    ∷ (codes "pct_change", w.str_signed tick.pct_change)
    ∷ (codes "volume", w.str tick.volume)
    ∷ (codes "value", str_or_empty w tick.value)
    ∷ (codes "vwap", str_or_empty w tick.vwap)
    ∷ (codes "upper_circuit", str_or_empty w tick.upper_circuit)
    ∷ (codes "lower_circuit", str_or_empty w tick.lower_circuit)
    ∷ (codes "week_52_high", str_or_empty w tick.week_52_high)
    ∷ (codes "week_52_low", str_or_empty w tick.week_52_low)
    ∷ (codes "timestamp", tick.timestamp)
    ∷ (codes "source", tick.source)
    ∷ (codes "source_latency_ms", w.str tick.source_latency_ms)
    ∷ (codes "cached_at", w.str now)
    ∷ []

unfoldable pub stream_data : Render → Tick → Dict Text
stream_data w tick =
    (codes "symbol", tick.symbol)
    ∷ (codes "ltp", w.str tick.ltp)
    ∷ (codes "volume", w.str tick.volume)
    ∷ (codes "timestamp", tick.timestamp)
    ∷ (codes "source", tick.source)
    ∷ []

-- `set_tick`
unfoldable pub set_tick : Render → ℕ → Tick → Backend → Backend
unfolding tick_key tick_to_hash stream_data
set_tick w now tick b =
    let key = tick_key tick.exchange tick.symbol in
    (run_pipeline now
      (Command.do_hset key (tick_to_hash w now tick)
        ∷ Command.do_expire key redis_tick_ttl_seconds
        ∷ Command.do_xadd (codes "stream:ticks:" ++ tick.exchange) (stream_data w tick)
        ∷ Command.do_publish (codes "ticks:" ++ tick.exchange) (w.json tick)
        ∷ [])
      b).0

-- The fields of the levels of one side, five at most, from the level `i` on.
unfoldable pub level_fields : Render → Text → ℕ → ℕ → List MarketDepthLevel → Dict Text
level_fields w side i zero levels = []
level_fields w side i (suc n) [] = []
level_fields w side i (suc n) (l ∷ levels) =
    let prefix = side ++ ((b'0' + i) ∷ []) in
    (prefix ++ codes "_price", w.str l.price)
    ∷ (prefix ++ codes "_qty", w.str l.quantity)
    ∷ (prefix ++ codes "_orders", w.str l.orders)
    ∷ level_fields w side (suc i) n levels

unfoldable pub depth_to_hash : Render → MarketDepth → Dict Text
unfolding level_fields
depth_to_hash w depth =
    level_fields w (codes "buy_") 0 5 depth.buy
    ++ level_fields w (codes "sell_") 0 5 depth.sell
    ++ ((codes "total_buy_qty", w.str depth.total_buy_quantity)
        ∷ (codes "total_sell_qty", w.str depth.total_sell_quantity)
        ∷ (codes "updated_at", w.iso_now)
        ∷ [])

-- `set_market_depth`
unfoldable pub set_market_depth : Render → ℕ → Text → Text → MarketDepth → Backend → Backend
unfolding depth_key depth_to_hash
set_market_depth w now symbol exchange depth b =
    let key = depth_key exchange symbol in
    (run_pipeline now
      (Command.do_hset key (depth_to_hash w depth)
        ∷ Command.do_expire key redis_depth_ttl_seconds
        ∷ [])
      b).0

-- `set_bulk_ticks`
unfoldable pub set_bulk_ticks : Render → ℕ → List Tick → Backend → Backend
unfolding set_tick
set_bulk_ticks w now [] b = b
set_bulk_ticks w now (tick ∷ ticks) b = set_bulk_ticks w now ticks (set_tick w now tick b)

-- `if not data: return None`
abbrev pub if_any : Dict Text → Option (Dict Text)
if_any [] = none
if_any (x ∷ d) = some (x ∷ d)

unfoldable pub read_hash : ℕ → Text → Backend → Backend × Option (Dict Text)
read_hash now key b =
    let (s, data') = hgetall now key b.store in (record b { store = s }, if_any data')

-- `get_tick` and `get_market_depth`
unfoldable pub get_tick : ℕ → Text → Text → Backend → Backend × Option (Dict Text)
unfolding read_hash tick_key
get_tick now symbol exchange b = read_hash now (tick_key exchange symbol) b

unfoldable pub get_market_depth : ℕ → Text → Text → Backend → Backend × Option (Dict Text)
unfolding read_hash depth_key
get_market_depth now symbol exchange b = read_hash now (depth_key exchange symbol) b

abbrev pub zip_ticks : List Text → List Result → Dict (Dict Text) → Dict (Dict Text)
zip_ticks (s ∷ symbols) (Result.fields_of (x ∷ d) ∷ results) out =
    zip_ticks symbols results (insert s (x ∷ d) out)
zip_ticks (s ∷ symbols) (r ∷ results) out = zip_ticks symbols results out
zip_ticks symbols results out = out

-- `get_bulk_ticks`
unfoldable pub get_bulk_ticks : ℕ → List Text → Text → Backend → Backend × Dict (Dict Text)
unfolding tick_key
get_bulk_ticks now symbols exchange b =
    let (b', results) =
      run_pipeline now (map (λ s. Command.do_hgetall (tick_key exchange s)) symbols) b in
    (b', zip_ticks symbols results [])

-- `get_tick_age_ms`; a stamp that is no number, which would raise, counts as none.
unfoldable pub get_tick_age_ms : Render → ℕ → Text → Text → Backend → Backend × Option ℤ
unfolding get_tick
get_tick_age_ms w now symbol exchange b =
    let (b', found) = get_tick now symbol exchange b in
    (
      b',
      elim found [
        | none ↦ none
        | some data' ↦ elim (lookup (codes "cached_at") data') [
          | none ↦ none
          | some t ↦ elim (w.float t) [
            | none ↦ none
            | some at ↦ some (difference (now * 1000) (at * 1000))
          ]
        ]
      ],
    )

-- `is_tick_fresh`
abbrev pub is_at_most : ℕ → ℤ → Bool
is_at_most n (ℤ.pos m) = leb m n
is_at_most n (ℤ.negsuc m) = true

unfoldable pub is_tick_fresh : Render → ℕ → Text → Text → ℕ → Backend → Backend × Bool
unfolding get_tick_age_ms
is_tick_fresh w now symbol exchange max_age_ms b =
    let (b', age) = get_tick_age_ms w now symbol exchange b in
    (b', elim age [ none ↦ false | some a ↦ is_at_most max_age_ms a ])

-- `set_market_status` and `get_market_status`
unfoldable pub set_market_status : ℕ → Text → Backend → Backend
set_market_status now status b = record b {
  store = set now (codes "market:status") (Value.text status) (some 30) b.store;
}

unfoldable pub get_market_status : ℕ → Backend → Backend × Option Value
get_market_status now b =
    let (s, v) = get now (codes "market:status") b.store in (record b { store = s }, v)

abbrev pub provider_key : Text → Text → Text
provider_key name field = codes "provider:" ++ name ++ codes ":" ++ field

-- `set_provider_status`
unfoldable pub set_provider_status : Render → ℕ → Text → Text → Backend → Backend
set_provider_status w now name status b =
    (run_pipeline now
      (Command.do_set (provider_key name (codes "status")) (Value.text status) (some 120)
        ∷ Command.do_set (provider_key name (codes "last_update")) (Value.text w.iso_now) (some 120)
        ∷ [])
      b).0

-- `increment_provider_errors`; none is the `ValueError` of `int()`.
unfoldable pub increment_provider_errors : Render → ℕ → Text → Backend → Backend × Option ℕ
increment_provider_errors w now name b =
    let key = provider_key name (codes "error_count") in
    let (s, n) = incr w.int (λ m. Value.number m) now key b.store in
    elim n as (λ x. Backend × Option ℕ) [
      | none ↦ (record b { store = s }, none)
      | some m ↦ (record b { store = (expire now key 300 s).0 }, some m)
    ]

-- `reset_provider_errors`
unfoldable pub reset_provider_errors : ℕ → Text → Backend → Backend
reset_provider_errors now name b = record b {
  store = set now (provider_key name (codes "error_count")) (Value.number 0) (some 300) b.store;
}
