-- ===== src/Models/Ohlcv.antt =====
-- `OHLCVCandle` and `CandleInterval` (src/models/ohlcv.py).
use bharat_ticker.Common.{ℕ, ◌-◌, leb, Bool, Option, if◌then◌else◌}
use bharat_ticker.Common.Text.{Text, codes}
use bharat_ticker.Common.Integers.{ℤ, difference}

pub record OhlcvCandle : Type 0 where
  pub timestamp : Text
  pub symbol : Text
  pub exchange : Text
  pub open_price : ℕ
  pub high : ℕ
  pub low : ℕ
  pub close : ℕ
  pub volume : ℕ
  pub value : Option ℕ
  pub vwap : Option ℕ

unfoldable pub body_size : OhlcvCandle → ℕ
body_size c = if leb c.open_price c.close then c.close - c.open_price else c.open_price - c.close

unfoldable pub range_size : OhlcvCandle → ℤ
range_size c = difference c.high c.low

unfoldable pub is_bullish : OhlcvCandle → Bool
is_bullish c = leb c.open_price c.close

-- The values of `CandleInterval.interval`.
pub data CandleInterval : Type 0 where
  minute : CandleInterval
  minutes5 : CandleInterval
  minutes15 : CandleInterval
  minutes30 : CandleInterval
  hour : CandleInterval
  hours4 : CandleInterval
  day : CandleInterval
  week : CandleInterval
  month : CandleInterval

unfoldable pub timescale_bucket : CandleInterval → Text
timescale_bucket CandleInterval.minute = codes "1 minute"
timescale_bucket CandleInterval.minutes5 = codes "5 minutes"
timescale_bucket CandleInterval.minutes15 = codes "15 minutes"
timescale_bucket CandleInterval.minutes30 = codes "30 minutes"
timescale_bucket CandleInterval.hour = codes "1 hour"
timescale_bucket CandleInterval.hours4 = codes "4 hours"
timescale_bucket CandleInterval.day = codes "1 day"
timescale_bucket CandleInterval.week = codes "1 week"
timescale_bucket CandleInterval.month = codes "1 month"
