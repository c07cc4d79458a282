-- ===== src/Calendar/Nearest.antt =====
-- What the loops of src/config/holidays.py find: the first trading day after a date; and the two loops
-- undo one another.
use bharat_ticker.Common.{
  ℕ, zero, suc, ◌<◌, ◌≡◌, refl, true, false, none, some, [], ◌∷◌, arith, Bool-cases, inl, inr, ap,
  ◌∙◌, sym,
}
use bharat_ticker.Calendar.Date.{Date, IsDate, date_eq, next_date, prev_date, days_after}
use bharat_ticker.Calendar.Ordinals.{days_after-IsDate, days_after-suc, prev_date-next_date}
use bharat_ticker.Calendar.Holidays.{
  no_trading, seek, fuel, get_next_trading_day, get_previous_trading_day, is_trading_holiday,
  get_holiday_name, get_holiday_dates, holidays_of, Holidays, dates_in, name_in, member,
}

-- `r` is the first day of trading from `c` on, `k` days later.
pub record IsFirstFrom (k : ℕ) (c r : Date) : Type 0 where
  pub days_on : r ≡ days_after k c
  pub trades : no_trading r ≡ false
  pub none_before : (j : ℕ) → j < k → no_trading (days_after j c) ≡ true

before-suc :
    (k : ℕ) (c : Date)
    → no_trading c ≡ true
    → ((j : ℕ) → j < k → no_trading (days_after j (next_date c)) ≡ true)
    → (j : ℕ) → j < suc k
    → no_trading (days_after j c) ≡ true
unfolding days_after
before-suc k c h before zero lt = h
before-suc k c h before (suc j) lt = before j (omega arith)

seek-first :
    (f : ℕ) (c r : Date) → seek next_date f c ≡ some r → (k : ℕ) × (k < f) × IsFirstFrom k c r
unfolding seek days_after
seek-first zero c r e = absurd (cc)
seek-first (suc f) c r e = elim (Bool-cases (no_trading c)) [
  | inl t ↦
      let (k, below, first) = seek-first f (next_date c) r (rw t at e) in
      (
        suc k,
        omega arith,
        record {
          days_on = first.days_on;
          trades = first.trades;
          none_before = before-suc k c t first.none_before;
        },
      )
  | inr t ↦
      let e' : some c ≡ some r = rw t at e in
      let same : c ≡ r = cc in
      (
        0,
        omega arith,
        record {
          days_on = sym same;
          trades = rw (← same) t;
          none_before = λ j lt. absurd (omega arith);
        },
      )
]

-- `get_next_trading_day` gives the first trading day after the date: some number of days later, and
-- on none of the days in between is there trading.
pub get_next_trading_day-first :
    (d r : Date)
    → get_next_trading_day d ≡ some r
    → (k : ℕ) × (k < fuel) × IsFirstFrom k (next_date d) r
unfolding get_next_trading_day
get_next_trading_day-first d r e = seek-first fuel (next_date d) r e

-- From `n` days after a trading day, with no trading since, the way back ends at that day.
seek-back :
    (n f : ℕ) (d : Date)
    → IsDate d
    → no_trading d ≡ false
    → n < f
    → ((j : ℕ) → j < n → no_trading (days_after (suc j) d) ≡ true)
    → seek prev_date f (days_after n d) ≡ some d
unfolding seek
seek-back zero zero d v t lt h = absurd (omega arith)
seek-back zero (suc f) d v t lt h = unfold days_after in rw t
seek-back (suc n) zero d v t lt h = absurd (omega arith)
seek-back (suc n) (suc f) d v t lt h =
    rw
      (
        h n (omega arith),
        days_after-suc n d,
        prev_date-next_date (days_after n d) (days_after-IsDate n d v),
      )
      (seek-back n f d v t (omega arith) (λ j l. h j (omega arith)))

-- For a valid date with trading, the trading day before the next trading day is that day.
pub previous-next :
    (d r : Date)
    → IsDate d
    → no_trading d ≡ false
    → get_next_trading_day d ≡ some r
    → get_previous_trading_day r ≡ some d
unfolding get_previous_trading_day days_after
previous-next d r v t e =
    let (k, below, first) = get_next_trading_day-first d r e in
    ap (λ c. seek prev_date fuel (prev_date c)) (first.days_on ∙ days_after-suc k d)
    ∙ ap (seek prev_date fuel) (prev_date-next_date (days_after k d) (days_after-IsDate k d v))
    ∙ seek-back k fuel d v t below first.none_before

member-name :
    (d : Date) (raw : Holidays)
    → member d (dates_in d.year raw) ≡ elim (name_in d raw) [ none ↦ false | some _ ↦ true ]
unfolding member dates_in name_in date_eq
member-name d [] = refl
member-name d ((m, day, name) ∷ raw) = ground (arith, member-name d raw)

-- A date has a holiday name exactly when it is a trading holiday.
pub holiday_name_iff :
    (d : Date) → is_trading_holiday d ≡ elim (get_holiday_name d) [ none ↦ false | some _ ↦ true ]
unfolding is_trading_holiday get_holiday_name get_holiday_dates
holiday_name_iff d = member-name d (holidays_of d.year)
