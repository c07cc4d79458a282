-- ===== src/Calendar/TradingDays.antt =====
-- Trading days (src/config/holidays.py): the two loops end, and find the nearest trading day.
use bharat_ticker.Common.{
  ℕ, zero, suc, ◌+◌, ◌-◌, ◌≤◌, ◌<◌, leb, ltb, ◌≡◌, refl, Bool, true, false, ◌&&◌, Option, none,
  some, [], arith, Bool-cases, inl, inr, ◌⊎◌,
}
use bharat_ticker.Calendar.Date.{Date, date, IsDate, days_in_month, weekday, next_date, calendar}
use bharat_ticker.Calendar.Ordinals.{next_date-IsDate, weekday-next_date}
use bharat_ticker.Calendar.Holidays.{
  no_trading, seek, fuel, get_next_trading_day, is_trading_holiday, get_holiday_dates, holidays_of,
  holidays,
}

-- What the loop of `get_next_trading_day` gives, from day `d` on.
abbrev is_found : {A : Type 0} → Option A → Bool
is_found none = false
is_found (some _) = true

-- `p` holds of all numbers below `n`.
all_below : (ℕ → Bool) → ℕ → Bool
all_below test zero = true
all_below test (suc last) = all_below test last && test last

all_below_sound : (test : ℕ → Bool) (n i : ℕ) → i < n → all_below test n ≡ true → test i ≡ true
unfolding all_below
all_below_sound test zero i below h = absurd (omega arith)
all_below_sound test (suc last) i below h = ground (arith, all_below_sound test last i)

-- From every day of the year the loop finds a trading day.
check_year : ℕ → Bool
unfolding all_below
check_year y = all_below (λ m. all_below (λ d. is_found (get_next_trading_day (date y m d))) 32) 13

check_years : all_below (λ i. check_year (2022 + i)) 9 ≡ true
unfolding check_year holidays calendar
check_years = refl

abbrev IsQuiet : ℕ → Type 0
IsQuiet y = (y < 2025) ⊎ (2030 < y)

holidays_of-quiet : (y : ℕ) → IsQuiet y → holidays_of y ≡ []
unfolding holidays_of
holidays_of-quiet y h = ground arith

days_in_month-le : (y m : ℕ) → days_in_month y m ≤ 31
unfolding days_in_month
days_in_month-le y m = ground arith

-- Outside the table there are no holidays.
quiet : (d : Date) → IsQuiet d.year → is_trading_holiday d ≡ false
unfolding is_trading_holiday
quiet d h = rw (holidays_of-quiet d.year h, get_holiday_dates) refl

year-next_date : (d : Date) → (d.year ≤ (next_date d).year) × ((next_date d).year ≤ d.year + 1)
unfolding next_date
year-next_date d = ground arith

weekday-lt : (d : Date) → weekday d < 7
unfolding weekday
weekday-lt d = omega arith

no_trading-quiet : (d : Date) → IsQuiet d.year → no_trading d ≡ leb 5 (weekday d)
unfolding no_trading
no_trading-quiet d h = ground (arith, quiet d h)

-- One of three consecutive days of a quiet time is a trading day.
seek-quiet :
    (f : ℕ) (c : Date)
    → IsDate c
    → (c.year < 2023) ⊎ (2030 < c.year)
    → is_found (seek next_date (suc (suc (suc f))) c) ≡ true
unfolding seek
seek-quiet f c h q =
    let c₁ = next_date c in
    let c₂ = next_date c₁ in
    let h₁ = next_date-IsDate c h in
    ground (
      arith,
      no_trading-quiet c,
      no_trading-quiet c₁,
      no_trading-quiet c₂,
      year-next_date c,
      year-next_date c₁,
      weekday-next_date c h,
      weekday-next_date c₁ h₁,
      weekday-lt c,
    )

found : {A : Type 0} (o : Option A) → is_found o ≡ true → (a : A) × (o ≡ some a)
found none h = absurd (cc)
found (some a) h = (a, refl)

checked :
    (d : Date) → IsDate d → 2022 ≤ d.year → d.year < 2031 → is_found (get_next_trading_day d) ≡ true
unfolding check_year
checked d h lo hi =
    let i = d.year - 2022 in
    let in_year = all_below_sound (λ k. check_year (2022 + k)) 9 i (omega arith) check_years in
    let in_month =
      all_below_sound
        (λ m. all_below (λ k. is_found (get_next_trading_day (date (2022 + i) m k))) 32) 13 d.month
        (omega arith) in_year in
    let in_day =
      all_below_sound (λ k. is_found (get_next_trading_day (date (2022 + i) d.month k))) 32 d.day
        (ground (arith, days_in_month-le d.year d.month)) in_month in
    let e : 2022 + i ≡ d.year = omega arith in rw e at in_day

-- The loop of `get_next_trading_day` ends: within its fuel it finds a day, for every valid date.
pub get_next_trading_day-total :
    (d : Date) → IsDate d → (r : Date) × (get_next_trading_day d ≡ some r)
unfolding get_next_trading_day
get_next_trading_day-total d h = elim (Bool-cases (ltb d.year 2022)) [
  | inl e ↦
      found (seek next_date fuel (next_date d))
        (seek-quiet 7 (next_date d) (next_date-IsDate d h) (inl (ground (arith, year-next_date d))))
  | inr e ↦ elim (Bool-cases (ltb d.year 2031)) [
    | inl k ↦ found (get_next_trading_day d) (checked d h (ground arith) (ground arith))
    | inr k ↦
        found (seek next_date fuel (next_date d)) (
          seek-quiet 7 (next_date d) (next_date-IsDate d h)
            (inr (ground (arith, year-next_date d))))
  ]
]
