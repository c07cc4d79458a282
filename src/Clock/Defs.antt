-- ===== src/Clock/Defs.antt =====
-- The definitions of src/utils/ist_clock.py. A time of day is a number of microseconds since
-- midnight. The current time is an argument: `dt = None` is a call with the reading of the clock.
use Prim.Native.String.{String}
use bharat_ticker.Common.{
  ℕ, zero, suc, ◌+◌, ◌-◌, ◌*◌, ◌/◌, ◌%◌, ltb, leb, Bool, true, false, not, ◌&&◌, Option, none, some,
  if◌then◌else◌,
}
use bharat_ticker.Calendar.Date.{Date, weekday, next_date, prev_date}
use bharat_ticker.Calendar.Holidays.{is_trading_holiday, get_holiday_name, get_next_trading_day}

pub data MarketSession : Type 0 where
  pre_open continuous_trading post_close after_market_close closed holiday weekend : MarketSession

abbrev pub minutes : ℕ → ℕ
minutes n = n * 60000000

-- `datetime.time(h, m, 0)`
abbrev pub clock_time : ℕ → ℕ → ℕ
clock_time h m = minutes (h * 60 + m)

abbrev pub pre_open_start : ℕ
pre_open_start = clock_time 9 0

abbrev pub market_open : ℕ
market_open = clock_time 9 15

abbrev pub market_close : ℕ
market_close = clock_time 15 30

abbrev pub post_close_end : ℕ
post_close_end = clock_time 15 40

abbrev pub amc_end : ℕ
amc_end = clock_time 16 0

abbrev pub day_length : ℕ
day_length = clock_time 24 0

-- `tzinfo`: none, or an offset from UTC, which lies strictly between -24 and 24 hours. It is kept
-- as the number of minutes by which it exceeds -24 hours.
pub data Zone : Type 0 where
  naive : Zone
  utc_offset : ℕ → Zone

-- `IST`, +05:30 all year round.
abbrev pub ist : Zone
ist = utc_offset 1770

pub record Datetime : Type 0 where
  pub day : Date
  pub time : ℕ
  pub zone : Zone

-- The date that lies `n - 1` days after a date.
shift_day : ℕ → Date → Date
shift_day zero d = prev_date d
shift_day (suc zero) d = d
shift_day (suc (suc zero)) d = next_date d
shift_day (suc (suc (suc n))) d = next_date (next_date d)

-- `dt.replace(tzinfo=IST)` for a naive datetime, `dt.astimezone(IST)` for another. The time in IST
-- is taken with one day more, so that it stays a natural number.
unfoldable pub to_ist : Datetime → Datetime
unfolding shift_day
to_ist dt = elim (dt.zone) [
  | naive ↦ record dt { zone = ist }
  | utc_offset offset ↦
      let t = dt.time + (day_length + minutes 1770) - minutes offset in
      record { day = shift_day (t / day_length) dt.day; time = t % day_length; zone = ist }
]

-- The part of `get_market_session` after the conversion.
unfoldable pub session_at : Date → ℕ → MarketSession
session_at day time =
    if leb 5 (weekday day)
    then weekend
    else if is_trading_holiday day
    then holiday
    else if ltb time pre_open_start
    then closed
    else if leb pre_open_start time && ltb time market_open
    then pre_open
    else if leb market_open time && ltb time market_close
    then continuous_trading
    else if leb market_close time && ltb time post_close_end
    then post_close
    else if leb post_close_end time && ltb time amc_end
    then after_market_close
    else closed

unfoldable pub get_market_session : Datetime → MarketSession
unfolding to_ist session_at
get_market_session dt = let dt' = to_ist dt in session_at dt'.day dt'.time

unfoldable pub in_session : MarketSession → Bool
in_session pre_open = true
in_session continuous_trading = true
in_session post_close = true
in_session after_market_close = false
in_session closed = false
in_session holiday = false
in_session weekend = false

unfoldable pub is_market_open : Datetime → Bool
unfolding get_market_session in_session
is_market_open dt = in_session (get_market_session dt)

unfoldable pub is_continuous : MarketSession → Bool
is_continuous continuous_trading = true
is_continuous s = false

unfoldable pub is_trading_hours : Datetime → Bool
unfolding get_market_session is_continuous
is_trading_hours dt = is_continuous (get_market_session dt)

unfoldable pub should_scrape : Datetime → Bool
unfolding is_market_open
should_scrape dt = is_market_open dt

-- `none` stands for a loop that has run out of its fuel.
unfoldable pub get_next_market_open : Datetime → Option Datetime
get_next_market_open dt =
    let today : Datetime = record { day = dt.day; time = market_open; zone = ist } in
    let later = elim (get_next_trading_day dt.day) as (λ r. Option Datetime) [
      | none ↦ none
      | some next ↦ some (record { day = next; time = market_open; zone = ist })
    ] in
    if ltb dt.time market_open && (ltb (weekday dt.day) 5 && not (is_trading_holiday dt.day))
    then some today
    else later

-- `get_market_close_today`, for today's date.
unfoldable pub get_market_close_today : Date → Datetime
get_market_close_today today = record { day = today; time = market_close; zone = ist }

pub data Status : Type 0 where
  status_pre_open status_open status_post_close status_closed : Status

abbrev pub status_map : MarketSession → Status
status_map pre_open = status_pre_open
status_map continuous_trading = status_open
status_map post_close = status_post_close
status_map after_market_close = status_closed
status_map closed = status_closed
status_map holiday = status_closed
status_map weekend = status_closed

pub record MarketState : Type 0 where
  pub status : Status
  pub session : MarketSession
  pub exchange_time : Datetime
  pub next_open : Option Datetime
  pub next_close : Option Datetime
  pub is_holiday : Bool
  pub holiday_name : Option String

abbrev is_holiday_session : MarketSession → Bool
is_holiday_session holiday = true
is_holiday_session s = false

-- `get_market_state_dict`, with today's date in IST.
unfoldable pub get_market_state_dict : Date → Datetime → MarketState
unfolding is_market_open get_next_market_open get_market_close_today
get_market_state_dict today dt = record {
  status = status_map (get_market_session dt);
  session = get_market_session dt;
  exchange_time = dt;
  next_open = if not (is_market_open dt) then get_next_market_open dt else none;
  next_close = if is_market_open dt then some (get_market_close_today today) else none;
  is_holiday = is_holiday_session (get_market_session dt);
  holiday_name = get_holiday_name dt.day;
}
