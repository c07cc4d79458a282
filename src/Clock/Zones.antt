-- ===== src/Clock/Zones.antt =====
-- `get_market_session` of src/utils/ist_clock.py converts a datetime to IST; `get_next_market_open`
-- takes its date and time as they stand.
use bharat_ticker.Common.{ℕ, ◌+◌, ◌-◌, ◌/◌, ◌≤◌, ◌<◌, ◌≡◌, refl, false, some, arith}
use bharat_ticker.Calendar.Date.{Date}
use bharat_ticker.Calendar.Holidays.{no_trading}
use bharat_ticker.Clock.Defs.{
  continuous_trading, Datetime, utc_offset, minutes, market_open, day_length, to_ist,
  get_market_session, get_next_market_open,
}
use bharat_ticker.Clock.NextOpen.{instant, opening}

-- UTC, which is 24 hours ahead of -24 hours.
abbrev pub utc : Date → ℕ → Datetime
utc day time = record { day = day; time = time; zone = utc_offset 1440 }

utc-to_ist :
    (day : Date) (time : ℕ)
    → time + minutes 330 < day_length
    → ((to_ist (utc day time)).day ≡ day) × ((to_ist (utc day time)).time ≡ time + minutes 330)
unfolding to_ist
utc-to_ist day time h =
    let t : (time + (day_length + minutes 1770) - minutes 1440) / day_length ≡ 1 = omega arith in
    rw (t, to_ist) (refl, omega arith)

-- For a datetime in UTC while the market trades, before 9:15 UTC, `get_next_market_open` answers with
-- that day's opening, which is not later than the datetime.
pub get_next_market_open-utc :
    (day : Date) (time : ℕ)
    → no_trading day ≡ false
    → market_open ≤ time + minutes 330
    → time < market_open
    → (get_market_session (utc day time) ≡ continuous_trading)
      × (get_next_market_open (utc day time) ≡ some (opening day))
      × (instant (opening day) ≤ instant (utc day time))
unfolding get_market_session get_next_market_open no_trading instant
get_next_market_open-utc day time trades lo hi =
    let same = utc-to_ist day time (omega arith) in
    (ground (arith, same.0, same.1), ground arith, omega arith)
