-- ===== src/Api/Quotes.antt =====
-- The endpoint `get_quote` of src/api/endpoints/quotes.py. The times and the latency of the answer's
-- `meta` are left out.
use bharat_ticker.Common.{ℕ, ltb, Bool, true, false, Option, none, some, [], ◌∷◌, if◌then◌else◌}
use bharat_ticker.Common.Text.{Text, codes, text_eq, upper}
use bharat_ticker.Common.Dict.{Dict, get_or}
use bharat_ticker.Common.Integers.{ℤ}
use bharat_ticker.Common.Symbols.{strip}
use bharat_ticker.Models.Tick.{Tick}
use bharat_ticker.Store.PubSub.{Backend}
use bharat_ticker.Cache.Ticks.{Render, get_tick, get_tick_age_ms}
use bharat_ticker.Api.Shape.{FullQuoteData, Parse, build_quote_from_tick, build_quote_from_cache}

pub data DataQuality : Type 0 where
  quality_realtime quality_stale quality_eod : DataQuality

-- An endpoint's answer: 404, an exception, or a quote with its source, quality and the age of the cache
-- in milliseconds, if it is given.
pub data QuoteAnswer : Type 0 where
  served : FullQuoteData → Text → DataQuality → Option ℤ → QuoteAnswer
  not_found : QuoteAnswer
  raised : QuoteAnswer

-- A row of the table of the days' ends.
pub record EodRow : Type 0 where
  pub open_price : ℕ
  pub high : ℕ
  pub low : ℕ
  pub close : ℕ
  pub vwap : Option ℕ
  pub volume : ℕ
  pub value : Option ℕ
  pub delivery_qty : Option ℕ
  pub delivery_pct : Option ℕ

-- The quote of such a row.
unfoldable pub quote_of_eod : Text → Text → EodRow → FullQuoteData
quote_of_eod symbol exchange eod = record {
  info = record { symbol = symbol; isin = none; exchange = exchange; series = none };
  price = record {
    ltp = eod.close;
    open_price = eod.open_price;
    high = eod.high;
    low = eod.low;
    close = eod.close;
    change = ℤ.pos 0;
    pct_change = ℤ.pos 0;
    vwap = eod.vwap;
    upper_circuit = none;
    lower_circuit = none;
    week_52_high = none;
    week_52_low = none;
  };
  volume = record {
    total_traded_volume = eod.volume;
    total_traded_value = eod.value;
    delivery_quantity = eod.delivery_qty;
    delivery_percentage = eod.delivery_pct;
  };
}

-- What the market data service and the database give: the tick of a forced source, the tick of the
-- cascade without delayed feeds, and the row of the day's end, none
-- without a database, or if its query fails.
pub record QuoteFeeds : Type 0 where
  pub is_open : Bool
  pub forced : Option Tick
  pub live : Option Tick
  pub eod : Option EodRow

abbrev pub served_cached : Option FullQuoteData → Text → DataQuality → Option ℤ → QuoteAnswer
served_cached none source quality age = QuoteAnswer.raised
served_cached (some q) source quality age = QuoteAnswer.served q source quality age

abbrev pub served_tick : DataQuality → Option ℤ → Option Tick → QuoteAnswer
served_tick quality age none = QuoteAnswer.not_found
served_tick quality age (some tick) =
    QuoteAnswer.served (build_quote_from_tick tick) tick.source quality age

abbrev pub is_below_5000 : ℤ → Bool
is_below_5000 (ℤ.pos n) = ltb n 5000
is_below_5000 (ℤ.negsuc n) = true

-- `age or 0`
abbrev pub age_or_zero : Option ℤ → ℤ
age_or_zero none = ℤ.pos 0
age_or_zero (some age) = age

unfoldable pub realtime_answer : Parse → QuoteFeeds → Option (Dict Text) → Option ℤ → QuoteAnswer
unfolding build_quote_from_cache build_quote_from_tick
realtime_answer p w none age = served_tick DataQuality.quality_realtime (some (ℤ.pos 0)) w.live
realtime_answer p w (some d) age =
    let quality =
      if is_below_5000 (age_or_zero age)
      then DataQuality.quality_realtime
      else DataQuality.quality_stale in
    served_cached (build_quote_from_cache p d) (get_or (codes "source") (codes "unknown") d) quality
      (some (age_or_zero age))

-- `_get_realtime_quote`
unfoldable pub get_realtime_quote :
    Render → Parse → QuoteFeeds → ℕ → Text → Text → Backend → Backend × QuoteAnswer
unfolding realtime_answer get_tick get_tick_age_ms
get_realtime_quote r p w now symbol exchange b =
    let (b', found) = get_tick now symbol exchange b in
    let (b'', age) = get_tick_age_ms r now symbol exchange b' in
    (b'', realtime_answer p w found age)

abbrev pub stored_answer : Text → Text → Option EodRow → Option Tick → QuoteAnswer
stored_answer symbol exchange (some eod) live =
    QuoteAnswer.served (quote_of_eod symbol exchange eod) (codes "timescaledb")
      DataQuality.quality_eod none
stored_answer symbol exchange none live = served_tick DataQuality.quality_eod none live

unfoldable pub eod_answer : Parse → QuoteFeeds → Text → Text → Option (Dict Text) → QuoteAnswer
unfolding build_quote_from_cache build_quote_from_tick quote_of_eod
eod_answer p w symbol exchange (some d) =
    served_cached (build_quote_from_cache p d) (get_or (codes "source") (codes "cache") d)
      DataQuality.quality_eod none
eod_answer p w symbol exchange none = stored_answer symbol exchange w.eod w.live

-- `_get_eod_quote`
unfoldable pub get_eod_quote :
    Parse → QuoteFeeds → ℕ → Text → Text → Backend → Backend × QuoteAnswer
unfolding eod_answer get_tick
get_eod_quote p w now symbol exchange b =
    let (b', found) = get_tick now symbol exchange b in (b', eod_answer p w symbol exchange found)

-- `if source and source != "auto"`
abbrev pub is_forced : Text → Bool
is_forced [] = false
is_forced (c ∷ s) = if text_eq (c ∷ s) (codes "auto") then false else true

-- `get_quote`
unfoldable pub get_quote :
    Render → Parse → QuoteFeeds → ℕ → Text → Text → Text → Backend → Backend × QuoteAnswer
unfolding get_realtime_quote get_eod_quote
get_quote r p w now symbol exchange source b =
    let s = upper (strip symbol) in
    let quality = if w.is_open then DataQuality.quality_realtime else DataQuality.quality_eod in
    let open_answer = get_realtime_quote r p w now s exchange b in
    let closed_answer = get_eod_quote p w now s exchange b in
    if is_forced source
    then (b, served_tick quality none w.forced)
    else if w.is_open
    then open_answer
    else closed_answer
