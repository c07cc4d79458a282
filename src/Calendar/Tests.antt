-- ===== src/Calendar/Tests.antt =====
-- Dates of 2026 through src/config/holidays.py, and the theorems about it at concrete dates.
use bharat_ticker.Common.{◌≡◌, refl, some, arith}
use bharat_ticker.Calendar.Date.{date, IsDate, days_in_month, weekday, to_ordinal, calendar}
use bharat_ticker.Calendar.Holidays.{
  get_next_trading_day, get_previous_trading_day, get_holiday_name, holidays,
}

trading_days : Unit {0}
unfolding calendar holidays
trading_days = tt

-- The ordinal of Python's `date(2026, 6, 25)`, a Thursday.
ordinal : (to_ordinal (date 2026 6 25) ≡ 739792) × (weekday (date 2026 6 25) ≡ 3)
unfolding trading_days
ordinal = (refl, refl)

christmas : get_holiday_name (date 2026 12 25) ≡ some "Christmas"
unfolding trading_days
christmas = refl

-- Over Muharram and a weekend.
after_thursday : get_next_trading_day (date 2026 6 25) ≡ some (date 2026 6 29)
unfolding trading_days
after_thursday = refl

before_new_year : get_previous_trading_day (date 2027 1 1) ≡ some (date 2026 12 31)
unfolding trading_days
before_new_year = refl

thursday-IsDate : IsDate (date 2026 6 25)
unfolding days_in_month
thursday-IsDate = omega arith
