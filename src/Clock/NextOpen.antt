-- ===== src/Clock/NextOpen.antt =====
-- `get_next_market_open` of src/utils/ist_clock.py finds the next opening of the market.
use bharat_ticker.Common.{
  ℕ, zero, suc, ◌+◌, ◌-◌, ◌*◌, ◌≤◌, ◌<◌, ltb, ◌≡◌, refl, Bool, true, false, not, ◌&&◌, some, arith,
  Bool-cases, inl, inr, ap,
}
use bharat_ticker.Calendar.Date.{Date, IsDate, weekday, next_date, days_after, to_ordinal}
use bharat_ticker.Calendar.Ordinals.{to_ordinal-days_after}
use bharat_ticker.Calendar.Holidays.{no_trading, is_trading_holiday}
use bharat_ticker.Calendar.TradingDays.{get_next_trading_day-total}
use bharat_ticker.Calendar.Nearest.{IsFirstFrom, get_next_trading_day-first}
use bharat_ticker.Clock.Defs.{
  continuous_trading, Datetime, Zone, naive, utc_offset, ist, market_open, day_length,
  get_market_session, get_next_market_open, minutes,
}

-- The point in time that a datetime stands for: microseconds from two days before the first day of
-- the calendar in UTC. A naive datetime is taken to be in IST.
abbrev offset_of : Zone → ℕ
offset_of naive = 1770
offset_of (utc_offset offset) = offset

unfoldable pub instant : Datetime → ℕ
instant dt = to_ordinal dt.day * day_length + dt.time + minutes 2880 - minutes (offset_of dt.zone)

instant-ist :
    (dt : Datetime)
    → dt.zone ≡ ist
    → instant dt ≡ to_ordinal dt.day * day_length + dt.time + minutes 1110
unfolding instant
instant-ist dt z = omega (arith, ap offset_of z)

abbrev pub opening : Date → Datetime
opening day = record { day = day; time = market_open; zone = ist }

-- `r` is the first opening after `dt`: it is later, trading is continuous then, and the opening of
-- no trading day from the date of `dt` on lies in between.
pub record IsNextOpening (dt r : Datetime) : Type 0 where
  pub later : instant dt < instant r
  pub trading : get_market_session r ≡ continuous_trading
  pub first :
      (j : ℕ)
      → no_trading (days_after j dt.day) ≡ false
      → instant dt < instant (opening (days_after j dt.day))
      → instant r ≤ instant (opening (days_after j dt.day))

le_of_test : (j k : ℕ) → ltb j k ≡ false → k ≤ j
le_of_test j k e = ground arith

opening-session :
    (day : Date) → no_trading day ≡ false → get_market_session (opening day) ≡ continuous_trading
unfolding get_market_session no_trading
opening-session day h = ground arith

opening-instant :
    (j : ℕ) (day : Date)
    → IsDate day
    → instant (opening (days_after j day))
      ≡ (to_ordinal day + j) * day_length + market_open + minutes 1110
opening-instant j day v =
    omega (arith, instant-ist (opening (days_after j day)) refl, to_ordinal-days_after j day v)

-- The test of `get_next_market_open`.
opens_today : Datetime → Bool
opens_today dt =
    ltb dt.time market_open && (ltb (weekday dt.day) 5 && not (is_trading_holiday dt.day))

opens_today_iff :
    (dt : Datetime) → opens_today dt ≡ (ltb dt.time market_open && not (no_trading dt.day))
unfolding opens_today no_trading
opens_today_iff dt = ground arith

today-IsNextOpening :
    (dt : Datetime)
    → IsDate dt.day
    → dt.zone ≡ ist
    → opens_today dt ≡ true
    → IsNextOpening dt (opening dt.day)
today-IsNextOpening dt v z h = record {
  later = ground (arith, opens_today_iff dt, instant-ist dt z, instant-ist (opening dt.day) refl);
  trading = opening-session dt.day (ground (arith, opens_today_iff dt));
  first = λ j trades after.
      omega (arith, opening-instant j dt.day v, instant-ist (opening dt.day) refl);
}

-- The `k + 1`-st day after is the first trading day after the date.
other_day-first :
    (dt : Datetime) (k j : ℕ) (r : Date)
    → IsDate dt.day
    → dt.time < day_length
    → dt.zone ≡ ist
    → opens_today dt ≡ false
    → IsFirstFrom k (next_date dt.day) r
    → no_trading (days_after j dt.day) ≡ false
    → instant dt < instant (opening (days_after j dt.day))
    → instant (opening r) ≤ instant (opening (days_after j dt.day))
unfolding days_after
other_day-first dt k zero r v t z h f trades after =
    absurd (ground (arith, opens_today_iff dt, instant-ist dt z, instant-ist (opening dt.day) refl))
other_day-first dt k (suc j) r v t z h f trades after = elim (Bool-cases (ltb j k)) [
  | inl e ↦ absurd (cc (trades, f.none_before j (ground arith)))
  | inr e ↦ rw f.days_on (
      omega (
        arith,
        opening-instant (suc k) dt.day v,
        opening-instant (suc j) dt.day v,
        le_of_test j k e,
      ))
]

other_day-IsNextOpening :
    (dt : Datetime) (k : ℕ) (r : Date)
    → IsDate dt.day
    → dt.time < day_length
    → dt.zone ≡ ist
    → opens_today dt ≡ false
    → IsFirstFrom k (next_date dt.day) r
    → IsNextOpening dt (opening r)
unfolding days_after
other_day-IsNextOpening dt k r v t z h f = record {
  later = rw f.days_on (omega (arith, instant-ist dt z, opening-instant (suc k) dt.day v));
  trading = opening-session r f.trades;
  first = λ j. other_day-first dt k j r v t z h f;
}

-- For a valid datetime in IST `get_next_market_open` ends, and its result is the next opening.
pub get_next_market_open-IsNextOpening :
    (dt : Datetime)
    → IsDate dt.day
    → dt.time < day_length
    → dt.zone ≡ ist
    → (r : Datetime) × (get_next_market_open dt ≡ some r) × IsNextOpening dt r
unfolding get_next_market_open
get_next_market_open-IsNextOpening dt v t z = elim (Bool-cases (opens_today dt)) [
  | inl h ↦ (opening dt.day, unfold opens_today in ground arith, today-IsNextOpening dt v z h)
  | inr h ↦
      let (r, e) = get_next_trading_day-total dt.day v in
      let (k, below, f) = get_next_trading_day-first dt.day r e in
      (opening r, unfold opens_today in ground arith, other_day-IsNextOpening dt k r v t z h f)
]
