-- ===== src/Tickertape/Mood.antt =====
-- `fetch_mmi` of src/engine/tickertape.py. The readings of the index are hundredths; `round2` is
-- Python's `round` to two decimals, from the feed's own unit. Times are seconds.
use bharat_ticker.Common.{
  ℕ, ◌+◌, ltb, ◌≡◌, refl, Option, none, some, if◌then◌else◌, Bool-cases, inl, inr,
}
use bharat_ticker.Common.Text.{Text, codes}

-- `_mmi_zone`
unfoldable pub mmi_zone : ℕ → Text
mmi_zone value =
    if ltb value 3000
    then codes "EXTREME_FEAR"
    else (if ltb value 5000
        then codes "FEAR"
        else (if ltb value 7000 then codes "GREED" else codes "EXTREME_GREED"))

-- The `data` of `/mmi/now`; of a past reading only the indicator is used.
pub record MoodReply : Type 0 where
  pub current_value : Option ℕ
  pub last_day : Option ℕ
  pub last_week : Option ℕ
  pub last_month : Option ℕ
  pub last_year : Option ℕ
  pub date : Option Text

pub record Mood : Type 0 where
  pub value : ℕ
  pub zone : Text
  pub last_day : Option ℕ
  pub last_week : Option ℕ
  pub last_month : Option ℕ
  pub last_year : Option ℕ
  pub date : Option Text
  pub source : Text

abbrev pub mmi_ttl : ℕ
mmi_ttl = 300

-- `_ind`
abbrev pub ind : (ℕ → ℕ) → Option ℕ → Option ℕ
ind round2 none = none
ind round2 (some v) = some (round2 v)

unfoldable pub mood_of : (ℕ → ℕ) → ℕ → MoodReply → Mood
unfolding mmi_zone
mood_of round2 value d =
    let val = round2 value in
    record {
      value = val;
      zone = mmi_zone val;
      last_day = ind round2 d.last_day;
      last_week = ind round2 d.last_week;
      last_month = ind round2 d.last_month;
      last_year = ind round2 d.last_year;
      date = d.date;
      source = codes "tickertape_mmi";
    }

-- The reply is taken up: nothing is kept of one without a current value.
unfoldable pub take_mood :
    (ℕ → ℕ) → ℕ → Option ℕ → MoodReply → Option (ℕ × Mood) → Option (ℕ × Mood) × Option Mood
unfolding mood_of
take_mood round2 now none d cache = (cache, none)
take_mood round2 now (some value) d cache =
    (some (now, mood_of round2 value d), some (mood_of round2 value d))

unfoldable pub ask_mood :
    (ℕ → ℕ) → ℕ → Option MoodReply → Option (ℕ × Mood) → Option (ℕ × Mood) × Option Mood
unfolding take_mood
ask_mood round2 now none cache = (cache, none)
ask_mood round2 now (some d) cache = take_mood round2 now d.current_value d cache

-- `fetch_mmi` at `now`, with the reply that a request would get.
unfoldable pub fetch_mmi :
    (ℕ → ℕ) → ℕ → Option MoodReply → Option (ℕ × Mood) → Option (ℕ × Mood) × Option Mood
unfolding ask_mood
fetch_mmi round2 now reply none = ask_mood round2 now reply none
fetch_mmi round2 now reply (some (at, mood)) =
    if ltb now (at + mmi_ttl)
    then (some (at, mood), some mood)
    else ask_mood round2 now reply (some (at, mood))

-- What a call at a time leaves behind when it answers: its own reading of then, or an earlier one.
abbrev IsKeptMood : Option (ℕ × Mood) → Option Mood → Type 0
IsKeptMood cache none = Unit
IsKeptMood none (some mood) = ⊥
IsKeptMood (some (at, kept)) (some mood) = kept ≡ mood

take_mood-IsKeptMood :
    (round2 : ℕ → ℕ) (now : ℕ) (value : Option ℕ) (d : MoodReply) (cache : Option (ℕ × Mood))
    → IsKeptMood (take_mood round2 now value d cache).0 (take_mood round2 now value d cache).1
unfolding take_mood
take_mood-IsKeptMood round2 now none d cache = tt
take_mood-IsKeptMood round2 now (some value) d cache = refl

ask_mood-IsKeptMood :
    (round2 : ℕ → ℕ) (now : ℕ) (reply : Option MoodReply) (cache : Option (ℕ × Mood))
    → IsKeptMood (ask_mood round2 now reply cache).0 (ask_mood round2 now reply cache).1
unfolding ask_mood
ask_mood-IsKeptMood round2 now none cache = tt
ask_mood-IsKeptMood round2 now (some d) cache =
    take_mood-IsKeptMood round2 now d.current_value d cache

-- Every reading that is given out is the one in the cache from then on.
pub fetch_mmi-IsKeptMood :
    (round2 : ℕ → ℕ) (now : ℕ) (reply : Option MoodReply) (cache : Option (ℕ × Mood))
    → IsKeptMood (fetch_mmi round2 now reply cache).0 (fetch_mmi round2 now reply cache).1
unfolding fetch_mmi
fetch_mmi-IsKeptMood round2 now reply none = ask_mood-IsKeptMood round2 now reply none
fetch_mmi-IsKeptMood round2 now reply (some (at, mood)) =
    elim (Bool-cases (ltb now (at + mmi_ttl))) [
      | inl e ↦ rw e refl
      | inr e ↦ rw e (ask_mood-IsKeptMood round2 now reply (some (at, mood)))
    ]
