-- ===== src/Api/Shape.antt =====
-- The shape of a quote of src/api/endpoints/quotes.py (src/models/api_response.py), and its making from a
-- tick or from the cache's hash. `Decimal` and `int` of a text are arguments.
use bharat_ticker.Common.{ℕ, Option, none, some, [], ◌∷◌}
use bharat_ticker.Common.Text.{Text, codes}
use bharat_ticker.Common.Dict.{Dict, lookup, get_or}
use bharat_ticker.Common.Integers.{ℤ}
use bharat_ticker.Models.Tick.{Tick}
use bharat_ticker.Models.Validation.{◌>>=◌}

pub record QuoteInfo : Type 0 where
  pub symbol : Text
  pub isin : Option Text
  pub exchange : Text
  pub series : Option Text

pub record QuotePrice : Type 0 where
  pub ltp : ℕ
  pub open_price : ℕ
  pub high : ℕ
  pub low : ℕ
  pub close : ℕ
  pub change : ℤ
  pub pct_change : ℤ
  pub vwap : Option ℕ
  pub upper_circuit : Option ℕ
  pub lower_circuit : Option ℕ
  pub week_52_high : Option ℕ
  pub week_52_low : Option ℕ

pub record QuoteVolume : Type 0 where
  pub total_traded_volume : ℕ
  pub total_traded_value : Option ℕ
  pub delivery_quantity : Option ℕ
  pub delivery_percentage : Option ℕ

pub record FullQuoteData : Type 0 where
  pub info : QuoteInfo
  pub price : QuotePrice
  pub volume : QuoteVolume

-- `Decimal` and `int` of a text, none if they raise.
pub record Parse : Type 0 where
  pub decimal : Text → Option ℕ
  pub signed : Text → Option ℤ
  pub whole : Text → Option ℕ

-- `_build_quote_from_tick`
unfoldable pub build_quote_from_tick : Tick → FullQuoteData
build_quote_from_tick tick = record {
  info = record {
    symbol = tick.symbol;
    isin = tick.isin;
    exchange = tick.exchange;
    series = tick.series;
  };
  price = record {
    ltp = tick.ltp;
    open_price = tick.open_price;
    high = tick.high;
    low = tick.low;
    close = tick.close;
    change = tick.change;
    pct_change = tick.pct_change;
    vwap = tick.vwap;
    upper_circuit = tick.upper_circuit;
    lower_circuit = tick.lower_circuit;
    week_52_high = tick.week_52_high;
    week_52_low = tick.week_52_low;
  };
  volume = record {
    total_traded_volume = tick.volume;
    total_traded_value = tick.value;
    delivery_quantity = none;
    delivery_percentage = none;
  };
}

-- `data.get(key) or None`
abbrev pub or_none : Option Text → Option Text
or_none none = none
or_none (some []) = none
or_none (some (c ∷ s)) = some (c ∷ s)

-- `Decimal(data[key]) if data.get(key) else None`
unfoldable pub optional_decimal : Parse → Option Text → Option (Option ℕ)
optional_decimal p none = some none
optional_decimal p (some []) = some none
optional_decimal p (some (c ∷ s)) = do n ← p.decimal (c ∷ s); some (some n)

-- `_build_quote_from_cache`: none if a number cannot be read.
unfoldable pub build_quote_from_cache : Parse → Dict Text → Option FullQuoteData
unfolding optional_decimal lookup get_or
build_quote_from_cache p d = do
  ltp ← p.decimal (get_or (codes "ltp") (codes "0") d)
  open_price ← p.decimal (get_or (codes "open") (codes "0") d)
  high ← p.decimal (get_or (codes "high") (codes "0") d)
  low ← p.decimal (get_or (codes "low") (codes "0") d)
  close ← p.decimal (get_or (codes "close") (codes "0") d)
  change ← p.signed (get_or (codes "change") (codes "0") d)
  pct_change ← p.signed (get_or (codes "pct_change") (codes "0") d)
  vwap ← optional_decimal p (lookup (codes "vwap") d)
  upper_circuit ← optional_decimal p (lookup (codes "upper_circuit") d)
  lower_circuit ← optional_decimal p (lookup (codes "lower_circuit") d)
  week_52_high ← optional_decimal p (lookup (codes "week_52_high") d)
  week_52_low ← optional_decimal p (lookup (codes "week_52_low") d)
  volume ← p.whole (get_or (codes "volume") (codes "0") d)
  value ← optional_decimal p (lookup (codes "value") d)
  some (record {
    info = record {
      symbol = get_or (codes "symbol") [] d;
      isin = or_none (lookup (codes "isin") d);
      exchange = get_or (codes "exchange") (codes "NSE") d;
      series = or_none (lookup (codes "series") d);
    };
    price = record {
      ltp = ltp;
      open_price = open_price;
      high = high;
      low = low;
      close = close;
      change = change;
      pct_change = pct_change;
      vwap = vwap;
      upper_circuit = upper_circuit;
      lower_circuit = lower_circuit;
      week_52_high = week_52_high;
      week_52_low = week_52_low;
    };
    volume = record {
      total_traded_volume = volume;
      total_traded_value = value;
      delivery_quantity = none;
      delivery_percentage = none;
    };
  })
