-- ===== src/Calendar/Date.antt =====
-- What src/config/holidays.py and src/utils/ist_clock.py use of Python's `datetime.date`: the
-- proleptic Gregorian calendar, the ordinal of a date, its weekday, and the day after or before.
-- Python's last year, 9999, is not a bound here.
use bharat_ticker.Common.{
  ℕ, zero, suc, ◌+◌, ◌-◌, ◌*◌, ◌/◌, ◌%◌, ◌≤◌, ◌==◌, ltb, Bool, not, ◌&&◌, ◌||◌, if◌then◌else◌,
}

pub record Date : Type 0 where
  pub year : ℕ
  pub month : ℕ
  pub day : ℕ

-- `==` on dates.
unfoldable pub date_eq : Date → Date → Bool
date_eq a b = (a.year == b.year) && ((a.month == b.month) && (a.day == b.day))

-- `datetime.date(y, m, d)`
abbrev pub date : ℕ → ℕ → ℕ → Date
date y m d = record { year = y; month = m; day = d }

unfoldable pub is_leap : ℕ → Bool
is_leap y = (y % 4 == 0) && (not (y % 100 == 0) || (y % 400 == 0))

unfoldable pub days_in_month : ℕ → ℕ → ℕ
days_in_month y m =
    if m == 2
    then (if is_leap y then 29 else 28)
    else (if (m == 4) || ((m == 6) || ((m == 9) || (m == 11))) then 30 else 31)

abbrev pub IsDate : Date → Type 0
IsDate d =
    (1 ≤ d.year)
    × (1 ≤ d.month)
    × (d.month ≤ 12)
    × (1 ≤ d.day)
    × (d.day ≤ days_in_month d.year d.month)

-- The days of the year before a month, in a year that is no leap year.
unfoldable pub common_days_before : ℕ → ℕ
common_days_before m =
    if m == 1
    then 0
    else if m == 2
    then 31
    else if m == 3
    then 59
    else if m == 4
    then 90
    else if m == 5
    then 120
    else if m == 6
    then 151
    else if m == 7
    then 181
    else if m == 8
    then 212
    else if m == 9
    then 243
    else if m == 10
    then 273
    else if m == 11
    then 304
    else 334

unfoldable pub days_before_month : ℕ → ℕ → ℕ
days_before_month y m = common_days_before m + (if is_leap y && ltb 2 m then 1 else 0)

-- The days before the first of January of the year after `y` whole years.
unfoldable pub days_of_years : ℕ → ℕ
days_of_years y = y * 365 + y / 4 - y / 100 + y / 400

-- `d.toordinal()`: the first of January of the year 1 has the ordinal 1.
unfoldable pub to_ordinal : Date → ℕ
to_ordinal d = days_of_years (d.year - 1) + days_before_month d.year d.month + d.day

-- `d.weekday()`: Monday is 0.
unfoldable pub weekday : Date → ℕ
weekday d = (to_ordinal d + 6) % 7

-- `d + timedelta(days=1)`
unfoldable pub next_date : Date → Date
next_date d =
    if ltb d.day (days_in_month d.year d.month)
    then date d.year d.month (d.day + 1)
    else if ltb d.month 12
    then date d.year (d.month + 1) 1
    else date (d.year + 1) 1 1

-- `d - timedelta(days=1)`
unfoldable pub prev_date : Date → Date
prev_date d =
    if ltb 1 d.day
    then date d.year d.month (d.day - 1)
    else if ltb 1 d.month
    then date d.year (d.month - 1) (days_in_month d.year (d.month - 1))
    else date (d.year - 1) 12 31

unfoldable pub days_after : ℕ → Date → Date
days_after zero d = d
days_after (suc n) d = days_after n (next_date d)

-- The calendar's functions, for the definitions and tests that compute with dates.
unfoldable pub calendar : Unit {0}
unfolding date_eq is_leap days_in_month common_days_before days_before_month days_of_years
    to_ordinal weekday next_date prev_date days_after
calendar = tt
