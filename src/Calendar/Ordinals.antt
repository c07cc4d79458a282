-- ===== src/Calendar/Ordinals.antt =====
-- The calendar arithmetic behind src/config/holidays.py: the day after has the next ordinal, so the
-- weekdays go round, and the day before undoes the day after.
use bharat_ticker.Common.{
  ℕ, zero, suc, ◌+◌, ◌-◌, ◌%◌, ◌≤◌, ◌<◌, ltb, ◌≡◌, refl, false, if◌then◌else◌, arith, Bool-cases,
  inl, inr, ap, ◌∙◌,
}
use bharat_ticker.Calendar.Date.{
  Date, date, IsDate, is_leap, days_in_month, common_days_before, days_before_month, days_of_years,
  to_ordinal, weekday, next_date, prev_date, days_after,
}

days_in_month_pos : (y m : ℕ) → 28 ≤ days_in_month y m
unfolding days_in_month
days_in_month_pos y m = ground arith

pub next_date-IsDate : (d : Date) → IsDate d → IsDate (next_date d)
unfolding next_date
next_date-IsDate d h =
    ground (arith, days_in_month_pos d.year (d.month + 1), days_in_month_pos (d.year + 1) 1)

-- A year has 366 days if it is a leap year, and 365 if not.
days_of_years-suc :
    (y : ℕ) → days_of_years (y + 1) ≡ days_of_years y + (if is_leap (y + 1) then 366 else 365)
unfolding days_of_years is_leap
days_of_years-suc y = ground arith

-- The months of a year follow one another.
days_before_month-suc :
    (y m : ℕ)
    → 1 ≤ m
    → m < 12
    → days_before_month y (m + 1) ≡ days_before_month y m + days_in_month y m
unfolding days_before_month common_days_before days_in_month
days_before_month-suc y m h k = ground arith

december : (y : ℕ) → days_before_month y 12 + days_in_month y 12 ≡ (if is_leap y then 366 else 365)
unfolding days_before_month common_days_before days_in_month
december y = ground arith

january : (y : ℕ) → days_before_month y 1 ≡ 0
unfolding days_before_month common_days_before
january y = ground arith

-- The day after a date has the next ordinal.
pub to_ordinal-next_date : (d : Date) → IsDate d → to_ordinal (next_date d) ≡ to_ordinal d + 1
unfolding to_ordinal next_date
to_ordinal-next_date d h =
    let y = d.year - 1 in
    let e : d.year ≡ y + 1 = omega arith in
    ground (
      arith,
      days_before_month-suc d.year d.month,
      days_of_years-suc y,
      december d.year,
      january (d.year + 1),
      e,
    )

-- The weekdays follow one another.
pub weekday-next_date : (d : Date) → IsDate d → weekday (next_date d) ≡ (weekday d + 1) % 7
unfolding weekday
weekday-next_date d h = omega (arith, to_ordinal-next_date d h)

prev_date_in_month : (y m d : ℕ) → 1 ≤ d → prev_date (date y m (d + 1)) ≡ date y m d
unfolding prev_date
prev_date_in_month y m d h = ground arith

prev_date_in_year :
    (y m d : ℕ) → 1 ≤ m → days_in_month y m ≡ d → prev_date (date y (m + 1) 1) ≡ date y m d
unfolding prev_date
prev_date_in_year y m d h e =
    let k : m + 1 - 1 ≡ m = omega arith in ground (arith, ap (days_in_month y) k)

prev_date-new_year : (y : ℕ) → prev_date (date (y + 1) 1 1) ≡ date y 12 31
unfolding prev_date
prev_date-new_year y = ground arith

last_of_month :
    (d : Date)
    → IsDate d
    → ltb d.day (days_in_month d.year d.month) ≡ false
    → days_in_month d.year d.month ≡ d.day
last_of_month d h e = ground arith

december-days : (y m : ℕ) → m ≤ 12 → ltb m 12 ≡ false → days_in_month y m ≡ 31
unfolding days_in_month
december-days y m h e = ground arith

-- The day before the day after a date is the date.
pub prev_date-next_date : (d : Date) → IsDate d → prev_date (next_date d) ≡ d
unfolding next_date
prev_date-next_date d h = elim (Bool-cases (ltb d.day (days_in_month d.year d.month))) [
  | inl e ↦ rw (e, next_date) (prev_date_in_month d.year d.month d.day h.3)
  | inr e ↦ elim (Bool-cases (ltb d.month 12)) [
    | inl k ↦
        rw (e, next_date, k) (prev_date_in_year d.year d.month d.day h.1 (last_of_month d h e))
    | inr k ↦
        rw (e, next_date, k)
          (prev_date-new_year d.year
            ∙ ground (arith, last_of_month d h e, december-days d.year d.month h.2 k))
  ]
]

pub days_after-IsDate : (n : ℕ) (d : Date) → IsDate d → IsDate (days_after n d)
unfolding days_after
days_after-IsDate zero d h = h
days_after-IsDate (suc n) d h = days_after-IsDate n (next_date d) (next_date-IsDate d h)

pub to_ordinal-days_after :
    (n : ℕ) (d : Date) → IsDate d → to_ordinal (days_after n d) ≡ to_ordinal d + n
unfolding days_after
to_ordinal-days_after zero d h = omega arith
to_ordinal-days_after (suc n) d h =
    omega (
      arith,
      to_ordinal-days_after n (next_date d) (next_date-IsDate d h),
      to_ordinal-next_date d h,
    )

pub days_after-suc : (n : ℕ) (d : Date) → days_after (suc n) d ≡ next_date (days_after n d)
unfolding days_after
days_after-suc zero d = refl
days_after-suc (suc n) d = days_after-suc n (next_date d)
