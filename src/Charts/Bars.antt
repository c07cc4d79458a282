-- ===== src/Charts/Bars.antt =====
-- A candle as the endpoints pass it on, and the normal form of what the history feed gives
-- (`_norm_candles`, `_latest_session_only`, src/api/endpoints/superbrain.py). Prices and volumes are
-- counted in fixed units and have been read: `none` is what `_f` does not take.
use bharat_ticker.Common.{ℕ, zero, suc, Bool, Option, none, some, List, [], ◌∷◌, if◌then◌else◌}
use bharat_ticker.Common.Text.{Text, text_eq, text_leb}
use bharat_ticker.Candles.{Bar}

-- A candle; the open interest, which is zero in all that are served, is left out.
pub record ChartBar : Type 0 where
  pub timestamp : Text
  pub open_price : Option ℕ
  pub high : Option ℕ
  pub low : Option ℕ
  pub close : Option ℕ
  pub vwap : Option ℕ
  pub volume : Option ℕ

-- A row of the history, its time stamp the first of `timestamp`, `bucket` and `date` that it has.
pub record HistoryRow : Type 0 where
  pub timestamp : Text
  pub open_price : Option ℕ
  pub high : Option ℕ
  pub low : Option ℕ
  pub close : Option ℕ
  pub volume : Option ℕ

abbrev pub volume_or_zero : Option ℕ → ℕ
volume_or_zero none = 0
volume_or_zero (some v) = v

-- One candle of `_norm_candles`.
unfoldable pub norm_row : HistoryRow → ChartBar
norm_row r = record {
  timestamp = r.timestamp;
  open_price = r.open_price;
  high = r.high;
  low = r.low;
  close = r.close;
  vwap = none;
  volume = some (volume_or_zero r.volume);
}

-- The candles that have a close.
unfoldable pub with_close : List HistoryRow → List ChartBar
unfolding norm_row
with_close [] = []
with_close (r ∷ rows) =
    let rest = with_close rows in elim r.close [ none ↦ rest | some c ↦ norm_row r ∷ rest ]

-- `out.sort(key=...)`, which is stable.
unfoldable pub insert_by_time : ChartBar → List ChartBar → List ChartBar
insert_by_time c [] = c ∷ []
insert_by_time c (d ∷ cs) =
    let rest = insert_by_time c cs in
    if text_leb c.timestamp d.timestamp then c ∷ d ∷ cs else d ∷ rest

unfoldable pub sort_by_time : List ChartBar → List ChartBar
unfolding insert_by_time
sort_by_time [] = []
sort_by_time (c ∷ cs) = insert_by_time c (sort_by_time cs)

-- `_norm_candles`
unfoldable pub norm_candles : List HistoryRow → List ChartBar
unfolding with_close sort_by_time
norm_candles rows = sort_by_time (with_close rows)

-- `c["timestamp"][:10]`
abbrev pub first_chars : ℕ → Text → Text
first_chars zero s = []
first_chars (suc n) [] = []
first_chars (suc n) (c ∷ s) = c ∷ first_chars n s

unfoldable pub day_of : ChartBar → Text
day_of c = first_chars 10 c.timestamp

abbrev pub filter_list : {A : Type 0} → (A → Bool) → List A → List A
filter_list p [] = []
filter_list p (x ∷ xs) = let rest = filter_list p xs in if p x then x ∷ rest else rest

abbrev pub last_of : {A : Type 0} → A → List A → A
last_of x [] = x
last_of x (y ∷ xs) = last_of y xs

-- `_latest_session_only`, for candles or points with a time stamp.
unfoldable pub latest_session_only : {A : Type 0} → (A → Text) → List A → List A
latest_session_only stamp [] = []
latest_session_only stamp (x ∷ xs) =
    let last_date = first_chars 10 (stamp (last_of x xs)) in
    filter_list (λ c. text_eq (first_chars 10 (stamp c)) last_date) (x ∷ xs)

-- A bar of `points_to_ohlc` among the others.
unfoldable pub chart_bar : Bar → ChartBar
chart_bar b = record {
  timestamp = b.stamp;
  open_price = some b.open_price;
  high = some b.high;
  low = some b.low;
  close = some b.close;
  vwap = none;
  volume = some b.volume;
}
