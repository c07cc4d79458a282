-- ===== src/Clock/Tests.antt =====
-- Datetimes of 2026 through src/utils/ist_clock.py, and the theorems about it at concrete datetimes.
-- The 25th of June 2026 is a Thursday, the day after is Muharram.
use bharat_ticker.Common.{ℕ, ◌≡◌, refl, not, ◌&&◌, ltb, leb, some, arith}
use bharat_ticker.Calendar.Date.{Date, date, IsDate, days_in_month, calendar}
use bharat_ticker.Calendar.Holidays.{no_trading, holidays}
use bharat_ticker.Clock.Defs.{
  continuous_trading, holiday, weekend, Datetime, ist, clock_time, pre_open_start, post_close_end,
  to_ist, get_market_session, is_market_open, should_scrape, get_next_market_open,
}
use bharat_ticker.Clock.Sessions.{is_market_open_iff}
use bharat_ticker.Clock.NextOpen.{opening, IsNextOpening, get_next_market_open-IsNextOpening}

abbrev thursday : Date
thursday = date 2026 6 25

abbrev at : Date → ℕ → Datetime
at day time = record { day = day; time = time; zone = ist }

abbrev evening : Datetime
evening = at thursday (clock_time 20 0)

clock : Unit {0}
unfolding calendar holidays get_market_session get_next_market_open
clock = tt

trading : get_market_session (at thursday (clock_time 9 15)) ≡ continuous_trading
unfolding clock
trading = refl

muharram : get_market_session (at (date 2026 6 26) (clock_time 10 0)) ≡ holiday
unfolding clock
muharram = refl

saturday : get_market_session (at (date 2026 6 27) (clock_time 10 0)) ≡ weekend
unfolding clock
saturday = refl

-- After the holiday and the weekend the market opens on Monday.
monday : get_next_market_open evening ≡ some (opening (date 2026 6 29))
unfolding clock
monday = refl

evening-IsDate : IsDate evening.day
unfolding days_in_month
evening-IsDate = omega arith

is_market_open_iff_example :
    (is_market_open evening ≡ (
      not (no_trading thursday)
      && (leb pre_open_start (clock_time 20 0) && ltb (clock_time 20 0) post_close_end)))
    × (should_scrape evening ≡ is_market_open evening)
unfolding to_ist
is_market_open_iff_example = is_market_open_iff evening

get_next_market_open-IsNextOpening_example :
    (r : Datetime) × (get_next_market_open evening ≡ some r) × IsNextOpening evening r
get_next_market_open-IsNextOpening_example =
    get_next_market_open-IsNextOpening evening evening-IsDate (omega arith) refl
