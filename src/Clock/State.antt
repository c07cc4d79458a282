-- ===== src/Clock/State.antt =====
-- `get_market_state_dict` of src/utils/ist_clock.py.
use bharat_ticker.Common.{◌<◌, ◌≡◌, refl, true, false, none, some, Bool-cases, inl, inr, ◌⊎◌}
use bharat_ticker.Calendar.Date.{Date, IsDate}
use bharat_ticker.Clock.Defs.{
  Datetime, ist, day_length, is_market_open, get_market_close_today, get_market_state_dict,
}
use bharat_ticker.Clock.NextOpen.{IsNextOpening, get_next_market_open-IsNextOpening}

-- For a valid datetime in IST, the state of an open market names today's close and no next opening; the
-- state of a closed market names the next opening and no close.
pub get_market_state_dict-next :
    (today : Date) (dt : Datetime)
    → IsDate dt.day
    → dt.time < day_length
    → dt.zone ≡ ist
    → let state = get_market_state_dict today dt in
      ((is_market_open dt ≡ true)
        × (state.next_open ≡ none)
        × (state.next_close ≡ some (get_market_close_today today)))
      ⊎ ((r : Datetime) × (is_market_open dt ≡ false)
          × (state.next_open ≡ some r)
          × IsNextOpening dt r
          × (state.next_close ≡ none))
unfolding get_market_state_dict
get_market_state_dict-next today dt v t z = elim (Bool-cases (is_market_open dt)) [
  | inl trading ↦ inl (trading, rw trading refl, rw trading refl)
  | inr shut ↦
      let (r, e, next) = get_next_market_open-IsNextOpening dt v t z in
      inr (r, shut, rw shut e, next, rw shut refl)
]
