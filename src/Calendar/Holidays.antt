-- ===== src/Calendar/Holidays.antt =====
-- The holiday table and the functions of src/config/holidays.py. `lru_cache` only remembers results.
use Prim.Native.String.{String}
use bharat_ticker.Common.{
  ℕ, zero, suc, leb, ◌==◌, Bool, false, ◌&&◌, ◌||◌, Option, none, some, List, [], ◌∷◌,
  if◌then◌else◌,
}
use bharat_ticker.Calendar.Date.{Date, date, date_eq, weekday, next_date, prev_date}

abbrev pub Holidays : Type 0
Holidays = List (ℕ × ℕ × String)

abbrev holidays_2025 : Holidays
holidays_2025 =
    (2, 26, "Mahashivratri")
    ∷ (3, 14, "Holi")
    ∷ (3, 31, "Id-Ul-Fitr (Ramadan Eid)")
    ∷ (4, 10, "Shri Mahavir Jayanti")
    ∷ (4, 14, "Dr. Baba Saheb Ambedkar Jayanti")
    ∷ (4, 18, "Good Friday")
    ∷ (5, 1, "Maharashtra Day")
    ∷ (8, 15, "Independence Day")
    ∷ (8, 27, "Ganesh Chaturthi")
    ∷ (10, 2, "Mahatma Gandhi Jayanti / Dussehra")
    ∷ (10, 21, "Diwali Laxmi Pujan")
    ∷ (10, 22, "Diwali-Balipratipada")
    ∷ (11, 5, "Prakash Gurpurb Sri Guru Nanak Dev")
    ∷ (12, 25, "Christmas")
    ∷ []

abbrev holidays_2026 : Holidays
holidays_2026 =
    (1, 26, "Republic Day")
    ∷ (3, 3, "Holi")
    ∷ (3, 26, "Shri Ram Navami")
    ∷ (3, 31, "Shri Mahavir Jayanti")
    ∷ (4, 3, "Good Friday")
    ∷ (4, 14, "Dr. Baba Saheb Ambedkar Jayanti")
    ∷ (5, 1, "Maharashtra Day")
    ∷ (5, 28, "Bakri Id")
    ∷ (6, 26, "Muharram")
    ∷ (9, 14, "Ganesh Chaturthi")
    ∷ (10, 2, "Mahatma Gandhi Jayanti")
    ∷ (10, 20, "Dussehra")
    ∷ (11, 10, "Diwali-Balipratipada")
    ∷ (11, 24, "Prakash Gurpurb Sri Guru Nanak Dev")
    ∷ (12, 25, "Christmas")
    ∷ []

abbrev holidays_2027 : Holidays
holidays_2027 =
    (1, 26, "Republic Day")
    ∷ (3, 22, "Holi")
    ∷ (4, 2, "Good Friday")
    ∷ (4, 14, "Dr. Baba Saheb Ambedkar Jayanti")
    ∷ (5, 1, "Maharashtra Day")
    ∷ (8, 15, "Independence Day")
    ∷ (10, 2, "Mahatma Gandhi Jayanti")
    ∷ (12, 25, "Christmas")
    ∷ []

abbrev holidays_2028 : Holidays
holidays_2028 =
    (1, 26, "Republic Day")
    ∷ (3, 10, "Holi")
    ∷ (4, 14, "Dr. Baba Saheb Ambedkar Jayanti / Good Friday")
    ∷ (5, 1, "Maharashtra Day")
    ∷ (8, 15, "Independence Day")
    ∷ (10, 2, "Mahatma Gandhi Jayanti")
    ∷ (12, 25, "Christmas")
    ∷ []

abbrev holidays_2029 : Holidays
holidays_2029 =
    (1, 26, "Republic Day")
    ∷ (3, 1, "Holi")
    ∷ (3, 30, "Good Friday")
    ∷ (4, 14, "Dr. Baba Saheb Ambedkar Jayanti")
    ∷ (5, 1, "Maharashtra Day")
    ∷ (8, 15, "Independence Day")
    ∷ (10, 2, "Mahatma Gandhi Jayanti")
    ∷ (12, 25, "Christmas")
    ∷ []

abbrev holidays_2030 : Holidays
holidays_2030 =
    (1, 26, "Republic Day")
    ∷ (3, 20, "Holi")
    ∷ (4, 14, "Dr. Baba Saheb Ambedkar Jayanti")
    ∷ (4, 19, "Good Friday")
    ∷ (5, 1, "Maharashtra Day")
    ∷ (8, 15, "Independence Day")
    ∷ (10, 2, "Mahatma Gandhi Jayanti")
    ∷ (12, 25, "Christmas")
    ∷ []

abbrev all_holidays : List (ℕ × Holidays)
all_holidays =
    (2025, holidays_2025)
    ∷ (2026, holidays_2026)
    ∷ (2027, holidays_2027)
    ∷ (2028, holidays_2028)
    ∷ (2029, holidays_2029)
    ∷ (2030, holidays_2030)
    ∷ []

find_year : ℕ → List (ℕ × Holidays) → Holidays
find_year y [] = []
find_year y ((k, raw) ∷ table) = if y == k then raw else find_year y table

-- `_ALL_HOLIDAYS.get(year, [])`
unfoldable pub holidays_of : ℕ → Holidays
unfolding find_year
holidays_of y = find_year y all_holidays

unfoldable pub dates_in : ℕ → Holidays → List Date
dates_in year [] = []
dates_in year ((m, d, _) ∷ raw) = date year m d ∷ dates_in year raw

-- The set of dates, as a list: only membership is asked.
unfoldable pub get_holiday_dates : ℕ → List Date
unfolding dates_in holidays_of
get_holiday_dates year = dates_in year (holidays_of year)

unfoldable pub name_in : Date → Holidays → Option String
name_in d [] = none
name_in d ((m, day, name) ∷ raw) =
    if (d.month == m) && (d.day == day) then some name else name_in d raw

unfoldable pub get_holiday_name : Date → Option String
unfolding name_in holidays_of
get_holiday_name d = name_in d (holidays_of d.year)

unfoldable pub member : Date → List Date → Bool
member d [] = false
member d (e ∷ ds) = date_eq d e || member d ds

unfoldable pub is_trading_holiday : Date → Bool
unfolding member get_holiday_dates
is_trading_holiday d = member d (get_holiday_dates d.year)

-- The test of the two loops.
unfoldable pub no_trading : Date → Bool
no_trading d = leb 5 (weekday d) || is_trading_holiday d

-- The loops, on fuel: `none` means that it ran out.
unfoldable pub seek : (Date → Date) → ℕ → Date → Option Date
seek step zero candidate = none
seek step (suc fuel) candidate =
    let rest = seek step fuel (step candidate) in
    if no_trading candidate then rest else some candidate

-- No run of days without trading is as long.
abbrev pub fuel : ℕ
fuel = 10

unfoldable pub get_next_trading_day : Date → Option Date
get_next_trading_day d = seek next_date fuel (next_date d)

unfoldable pub get_previous_trading_day : Date → Option Date
get_previous_trading_day d = seek prev_date fuel (prev_date d)

-- The functions of this module, for the tests that run them.
unfoldable pub holidays : Unit {0}
unfolding is_trading_holiday get_holiday_name get_holiday_dates holidays_of no_trading seek
    get_next_trading_day get_previous_trading_day
holidays = tt
