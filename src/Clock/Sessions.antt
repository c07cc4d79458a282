-- ===== src/Clock/Sessions.antt =====
-- The sessions of src/utils/ist_clock.py against the trading calendar.
use bharat_ticker.Common.{ℕ, ◌+◌, ◌-◌, ◌/◌, ◌<◌, ltb, leb, ◌≡◌, refl, not, ◌&&◌, arith}
use bharat_ticker.Calendar.Date.{Date}
use bharat_ticker.Calendar.Holidays.{no_trading}
use bharat_ticker.Clock.Defs.{
  Datetime, naive, ist, minutes, pre_open_start, market_open, market_close, post_close_end,
  day_length, to_ist, session_at, get_market_session, in_session, is_continuous, is_market_open,
  is_trading_hours, should_scrape,
}

-- In IST already: the conversion changes neither the date nor the time.
pub to_ist-ist :
    (dt : Datetime)
    → dt.zone ≡ ist
    → dt.time < day_length
    → ((to_ist dt).day ≡ dt.day) × ((to_ist dt).time ≡ dt.time)
unfolding to_ist
to_ist-ist dt z h =
    let t : (dt.time + (day_length + minutes 1770) - minutes 1770) / day_length ≡ 1 = omega arith in
    rw (z, to_ist, t) (refl, omega arith)

pub to_ist-naive :
    (dt : Datetime) → dt.zone ≡ naive → ((to_ist dt).day ≡ dt.day) × ((to_ist dt).time ≡ dt.time)
unfolding to_ist
to_ist-naive dt z = rw (z, to_ist) (refl, refl)

session_at-open :
    (day : Date) (time : ℕ)
    → in_session (session_at day time)
      ≡ (not (no_trading day) && (leb pre_open_start time && ltb time post_close_end))
unfolding session_at in_session no_trading
session_at-open day time = ground arith

session_at-continuous :
    (day : Date) (time : ℕ)
    → is_continuous (session_at day time)
      ≡ (not (no_trading day) && (leb market_open time && ltb time market_close))
unfolding session_at is_continuous no_trading
session_at-continuous day time = ground arith

-- The market counts as open, and the engine scrapes, exactly on trading days from 9:00 to before
-- 15:40 IST.
pub is_market_open_iff :
    (dt : Datetime)
    → let dt' = to_ist dt in
      (is_market_open dt ≡ (
        not (no_trading dt'.day) && (leb pre_open_start dt'.time && ltb dt'.time post_close_end)))
      × (should_scrape dt ≡ is_market_open dt)
unfolding is_market_open get_market_session should_scrape
is_market_open_iff dt = (session_at-open (to_ist dt).day (to_ist dt).time, refl)

-- Trading hours are exactly those of trading days from 9:15 to before 15:30 IST, and the market
-- counts as open in them.
pub is_trading_hours_iff :
    (dt : Datetime)
    → let dt' = to_ist dt in
      (is_trading_hours dt
        ≡ (not (no_trading dt'.day) && (leb market_open dt'.time && ltb dt'.time market_close)))
      × ((is_trading_hours dt && is_market_open dt) ≡ is_trading_hours dt)
unfolding is_trading_hours is_market_open get_market_session
is_trading_hours_iff dt =
    let day = (to_ist dt).day in
    let time = (to_ist dt).time in
    (
      session_at-continuous day time,
      ground (arith, session_at-continuous day time, session_at-open day time),
    )
