-- ===== src/Quotes/Shape.antt =====
-- The shape of a quote (src/api/endpoints/superbrain.py). Prices, rates and volumes are counted in
-- fixed units; the rendering of a time is an argument. Reading a number (`_f`) has been done: `none`
-- is what it does not take.
use bharat_ticker.Common.{
  ℕ, zero, suc, min, max, Bool, true, false, ◌||◌, Option, none, some, List, [], ◌∷◌, if◌then◌else◌,
}
use bharat_ticker.Common.Text.{Text, codes, text_eq, contains, lower, upper}
use bharat_ticker.Common.Dict.{Dict, lookup}
use bharat_ticker.Common.Integers.{ℤ}
use bharat_ticker.Common.Symbols.{strip}
use bharat_ticker.Models.Tick.{Tick}

-- `_INDEX_SYMBOLS`
abbrev pub index_symbols : List Text
index_symbols =
    codes "NIFTY"
    ∷ codes "NIFTY50"
    ∷ codes "NIFTY 50"
    ∷ codes "BANKNIFTY"
    ∷ codes "NIFTYBANK"
    ∷ codes "NIFTY BANK"
    ∷ codes "FINNIFTY"
    ∷ codes "MIDCPNIFTY"
    ∷ codes "SENSEX"
    ∷ codes "BANKEX"
    ∷ codes "NIFTYIT"
    ∷ codes "NIFTYNXT50"
    ∷ []

abbrev pub is_among : Text → List Text → Bool
is_among s [] = false
is_among s (t ∷ ts) = text_eq s t || is_among s ts

-- The test of `_reject_index`.
unfoldable pub is_index : Text → Bool
is_index symbol = is_among (upper symbol) index_symbols

pub data Quality : Type 0 where
  delayed : Quality
  end_of_day : Quality
  real_time : Quality
  last_close : Quality

abbrev pub is_real_time : Quality → Bool
is_real_time Quality.real_time = true
is_real_time _ = false

-- The quality while the market is open, or shut.
unfoldable pub session_quality : Bool → Quality
session_quality is_open = if is_open then Quality.real_time else Quality.last_close

-- `_quality`
unfoldable pub quality : Bool → Text → Quality
unfolding session_quality
quality is_open source =
    let s = lower source in
    if contains (codes "yahoo") s
    then Quality.delayed
    else (if contains (codes "archive") s then Quality.end_of_day else session_quality is_open)

-- `_freshness`, with the lag in seconds, if the stamp could be read.
pub record Freshness : Type 0 where
  pub fetched_at : Text
  pub as_of : Text
  pub feed_lag : Option ℤ

unfoldable pub freshness : (Text → Option ℤ) → Text → Option Text → Freshness
freshness lag now none = record { fetched_at = now; as_of = now; feed_lag = some (ℤ.pos 0) }
freshness lag now (some []) = record { fetched_at = now; as_of = now; feed_lag = some (ℤ.pos 0) }
freshness lag now (some (c ∷ s)) = record {
  fetched_at = now;
  as_of = c ∷ s;
  feed_lag = lag (c ∷ s);
}

-- An entry of `_META_CACHE`.
pub record Meta : Type 0 where
  pub name : Option Text
  pub sector : Option Text
  pub isin : Option Text
  pub vwap : Option ℕ

abbrev pub no_meta : Meta
no_meta = record { name = none; sector = none; isin = none; vwap = none }

pub record SbQuote : Type 0 where
  pub symbol : Text
  pub company_name : Text
  pub sector : Option Text
  pub price : Option ℕ
  pub change : Option ℤ
  pub change_pct : Option ℤ
  pub open_price : Option ℕ
  pub high : Option ℕ
  pub low : Option ℕ
  pub volume : ℕ
  pub previous_close : Option ℕ
  pub upper_circuit : Option ℕ
  pub lower_circuit : Option ℕ
  pub week_52_high : Option ℕ
  pub week_52_low : Option ℕ
  pub total_buy_qty : Option ℕ
  pub total_sell_qty : Option ℕ
  pub open_interest : Option ℕ
  pub vwap : Option ℕ
  pub isin : Option Text
  pub source : Text
  pub data_quality : Quality
  pub is_live : Bool
  pub feed_latency : Option ℕ
  pub fresh : Freshness

-- `x or y` where `x` is a text or missing.
abbrev pub or_text : Option Text → Text → Text
or_text none t = t
or_text (some []) t = t
or_text (some (c ∷ s)) t = c ∷ s

abbrev pub or_option : Option Text → Option Text → Option Text
or_option none t = t
or_option (some []) t = t
or_option (some (c ∷ s)) t = some (c ∷ s)

-- `x or y` where `x` is a number or missing.
abbrev pub or_number : Option ℕ → Option ℕ → Option ℕ
or_number none y = y
or_number (some zero) y = y
or_number (some (suc n)) y = some (suc n)

-- A text that is blank is dropped.
abbrev pub unless_blank : Option Text → Option Text
unless_blank none = none
unless_blank (some s) = if text_eq (strip s) [] then none else some s

-- The clamps of the 52-week bounds: the least, or the greatest, of those there are.
abbrev pub fold_with : (ℕ → ℕ → ℕ) → ℕ → Option ℕ → ℕ
fold_with f x none = x
fold_with f x (some y) = f x y

unfoldable pub clamp : (ℕ → ℕ → ℕ) → Option ℕ → Option ℕ → Option ℕ → Option ℕ
clamp f none edge price = none
clamp f (some x) edge price = some (fold_with f (fold_with f x edge) price)

-- `_sb_quote`, with the cache of names, whether the market is open, the reading of a lag, the time
-- and the rounding of the latency. A tick carries no name.
unfoldable pub sb_quote : Dict Meta → Bool → (Text → Option ℤ) → Text → (ℕ → ℕ) → Tick → SbQuote
unfolding clamp
sb_quote metas is_open lag now round tick =
    let meta : Meta = elim (lookup tick.symbol metas) [ none ↦ no_meta | some m ↦ m ] in
    let q = quality is_open tick.source in
    record {
      symbol = tick.symbol;
      company_name = or_text meta.name tick.symbol;
      sector = unless_blank meta.sector;
      price = some tick.ltp;
      change = some tick.change;
      change_pct = some tick.pct_change;
      open_price = some tick.open_price;
      high = some tick.high;
      low = some tick.low;
      volume = tick.volume;
      previous_close = some tick.close;
      upper_circuit = tick.upper_circuit;
      lower_circuit = tick.lower_circuit;
      week_52_high = clamp max tick.week_52_high (some tick.high) (some tick.ltp);
      week_52_low = clamp min tick.week_52_low (some tick.low) (some tick.ltp);
      total_buy_qty = tick.total_buy_qty;
      total_sell_qty = tick.total_sell_qty;
      open_interest = tick.open_interest;
      vwap = or_number tick.vwap meta.vwap;
      isin = unless_blank (or_option tick.isin meta.isin);
      source = tick.source;
      data_quality = q;
      is_live = is_real_time q;
      feed_latency = some (round tick.source_latency_ms);
      fresh = freshness lag now (some tick.timestamp);
    }

-- A row of the Tickertape batch, each number read by `_f`.
pub record Row : Type 0 where
  pub price : Option ℕ
  pub close : Option ℕ
  pub change : Option ℤ
  pub high : Option ℕ
  pub low : Option ℕ
  pub volume : Option ℕ
  pub date : Option Text

abbrev pub number_or_zero : Option ℕ → ℕ
number_or_zero none = 0
number_or_zero (some n) = n

-- `change / prev * 100`, rounded by `percent`; none without a change or a close, or for a close of
-- zero.
unfoldable pub change_percent : (ℤ → ℕ → ℤ) → Option ℤ → Option ℕ → Option ℤ
change_percent percent none prev = none
change_percent percent (some c) none = none
change_percent percent (some c) (some zero) = none
change_percent percent (some c) (some (suc p)) = some (percent c (suc p))

-- `_sb_quote_from_tt`. A sector that is the empty text is kept, as in the source.
unfoldable pub sb_quote_from_tt :
    Dict Meta → Bool → (Text → Option ℤ) → Text → (ℤ → ℕ → ℤ) → Text → Row → SbQuote
unfolding change_percent
sb_quote_from_tt metas is_open lag now percent symbol row =
    let meta : Meta = elim (lookup symbol metas) [ none ↦ no_meta | some m ↦ m ] in
    let q = session_quality is_open in
    record {
      symbol = symbol;
      company_name = or_text meta.name symbol;
      sector = meta.sector;
      price = row.price;
      change = row.change;
      change_pct = change_percent percent row.change row.close;
      open_price = none;
      high = row.high;
      low = row.low;
      volume = number_or_zero row.volume;
      previous_close = row.close;
      upper_circuit = none;
      lower_circuit = none;
      week_52_high = none;
      week_52_low = none;
      total_buy_qty = none;
      total_sell_qty = none;
      open_interest = none;
      vwap = none;
      isin = none;
      source = codes "tickertape_realtime_nse";
      data_quality = q;
      is_live = is_real_time q;
      feed_latency = none;
      fresh = freshness lag now row.date;
    }
