-- ===== src/Feeds/ArchiveQuote.antt =====
-- The quotes of `NSEArchiveProvider` (src/providers/nse_archive.py). A row's values are texts;
-- `percent` is the rounded change in percent, `truncate` is `int` of a decimal.
use bharat_ticker.Common.{ℕ, zero, suc, Option, none, some, List, [], ◌∷◌, ◌++◌, if◌then◌else◌}
use bharat_ticker.Common.Text.{Text, codes, upper}
use bharat_ticker.Common.Dict.{Dict, lookup}
use bharat_ticker.Common.Integers.{ℤ}
use bharat_ticker.Models.Tick.{Tick}
use bharat_ticker.Models.Depth.{times}
use bharat_ticker.Models.Validation.{Draft, tick_data}
use bharat_ticker.Failover.Provider.{record_success, record_error}
use bharat_ticker.Feeds.Json.{
  Reading, decimal_of_text, positive_or, subtract, is_positive, when_positive,
}
use bharat_ticker.Feeds.Archive.{Archive, ArchiveHost, ensure_loaded, connect}

-- `_dec` of a cell, if the row has it.
abbrev pub dec : Reading → Option Text → ℤ
dec r none = ℤ.pos 0
dec r (some s) = decimal_of_text r s

-- `a or b`
abbrev pub or_else : ℤ → ℤ → ℤ
or_else (ℤ.pos zero) b = b
or_else (ℤ.pos (suc n)) b = ℤ.pos (suc n)
or_else (ℤ.negsuc n) b = ℤ.negsuc n

abbrev pub series_or_eq : Option Text → Text
series_or_eq none = codes "EQ"
series_or_eq (some []) = codes "EQ"
series_or_eq (some (c ∷ s)) = c ∷ s

-- The arguments of `TickData(...)`.
unfoldable pub archive_draft : Reading → (ℤ → ℤ → ℤ) → (ℤ → ℤ) → Text → Dict Text → Text → Draft
unfolding decimal_of_text lookup
archive_draft r percent truncate now row symbol =
    let d : Text → ℤ = λ key. dec r (lookup key row) in
    let close = d (codes "CLOSE_PRICE") in
    let prev = d (codes "PREV_CLOSE") in
    let last = or_else (d (codes "LAST_PRICE")) close in
    let turnover_lacs = d (codes "TURNOVER_LACS") in
    let change = if is_positive prev then subtract close prev else ℤ.pos 0 in
    let ltp = positive_or close last in
    record {
      symbol = upper symbol;
      isin = none;
      exchange = codes "NSE";
      series = some (series_or_eq (lookup (codes "SERIES") row));
      ltp = ltp;
      open_price = positive_or (d (codes "OPEN_PRICE")) ltp;
      high = positive_or (d (codes "HIGH_PRICE")) ltp;
      low = positive_or (d (codes "LOW_PRICE")) ltp;
      close = prev;
      change = change;
      pct_change = if is_positive prev then percent change prev else ℤ.pos 0;
      volume = truncate (d (codes "TTL_TRD_QNTY"));
      value = if is_positive turnover_lacs then some (times 100000 turnover_lacs) else none;
      vwap = when_positive (d (codes "AVG_PRICE"));
      upper_circuit = none;
      lower_circuit = none;
      week_52_high = none;
      week_52_low = none;
      market_depth = none;
      timestamp = now;
      source = codes "nse_archive";
      source_latency_ms = 0;
    }

-- How `fetch_quote` ends: a tick, no row (`ProviderError`), or a row that `TickData` refuses
-- (`ValidationError`).
pub data Quoted : Type 0 where
  quoted : Tick → Quoted
  no_row : Quoted
  invalid_row : Quoted

module _ (r : Reading) (percent : ℤ → ℤ → ℤ) (truncate : ℤ → ℤ) (host : ArchiveHost) (now : ℕ)
    (stamp : Text) where
  -- `_parse`
  unfoldable pub parse : Dict Text → Text → Option Tick
  unfolding archive_draft tick_data
  parse row symbol = tick_data (archive_draft r percent truncate stamp row symbol)

  -- The latency of a parse is not measured here.
  unfoldable pub quote_parsed : Option Tick → Archive → Archive × Quoted
  unfolding record_success
  quote_parsed none s = (s, Quoted.invalid_row)
  quote_parsed (some tick) s = (record s { base = record_success 0 s.base }, Quoted.quoted tick)

  unfoldable pub quote_row : Text → Option (Dict Text) → Archive → Archive × Quoted
  unfolding parse quote_parsed record_error
  quote_row symbol none s = (record s { base = record_error s.base }, Quoted.no_row)
  quote_row symbol (some []) s = (record s { base = record_error s.base }, Quoted.no_row)
  quote_row symbol (some (x ∷ row)) s = quote_parsed (parse (x ∷ row) symbol) s

  -- `fetch_quote`
  unfoldable pub fetch_quote : Text → Archive → Archive × Quoted
  unfolding quote_row connect ensure_loaded
  fetch_quote symbol s =
      let s' = ensure_loaded host now (connect host now s) in
      quote_row symbol (lookup (upper symbol) s'.rows) s'

  unfoldable pub bulk_parsed : Option Tick → Archive → Archive × List Tick
  unfolding record_success record_error
  bulk_parsed none s = (record s { base = record_error s.base }, [])
  bulk_parsed (some tick) s = (record s { base = record_success 0 s.base }, tick ∷ [])

  unfoldable pub bulk_row : Text → Option (Dict Text) → Archive → Archive × List Tick
  unfolding parse bulk_parsed
  bulk_row symbol none s = (s, [])
  bulk_row symbol (some []) s = (s, [])
  bulk_row symbol (some (x ∷ row)) s = bulk_parsed (parse (x ∷ row) symbol) s

  -- The loop of `fetch_bulk`.
  unfoldable pub bulk_rows : List Text → Archive → Archive × List Tick
  unfolding bulk_row
  bulk_rows [] s = (s, [])
  bulk_rows (symbol ∷ symbols) s =
      let (s', ticks) = bulk_row symbol (lookup (upper symbol) s.rows) s in
      let (s'', out) = bulk_rows symbols s' in (s'', ticks ++ out)

  -- `fetch_bulk`
  unfoldable pub fetch_bulk : List Text → Archive → Archive × List Tick
  unfolding bulk_rows connect ensure_loaded
  fetch_bulk symbols s = bulk_rows symbols (ensure_loaded host now (connect host now s))
