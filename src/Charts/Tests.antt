-- ===== src/Charts/Tests.antt =====
-- Four daily candles with a split, and a request for minutes (src/api/endpoints/superbrain.py,
-- src/engine/corp_actions.py).
use bharat_ticker.Common.{
  ℕ, ◌*◌, ◌/◌, ◌≡◌, refl, true, Option, none, some, List, [], ◌∷◌, All, arith,
}
use bharat_ticker.Common.Text.{Text, codes, text_eq}
use bharat_ticker.Common.Dict.{lookup}
use bharat_ticker.Serving.TtlCache
use bharat_ticker.Serving.TtlCache.{TtlCache}
use bharat_ticker.Quotes.Batch.{Outcome}
use bharat_ticker.Charts.Bars.{ChartBar, HistoryRow, norm_candles}
use bharat_ticker.Charts.Adjust.{
  Rounding, detect_split_events, adjust_for_splits, event_factor, nearest_factor, first_near,
  is_near, vol_ok, detect_from,
}
use bharat_ticker.Charts.Scale.{map_from, rescaled, adjust_for_splits-rescaled}
use bharat_ticker.Charts.Session.{Feeds}
use bharat_ticker.Charts.History.{
  Shelf, Calls, cached_history, cached_today_bars, history_between, read_through,
}
use bharat_ticker.Charts.Repeat.{Use, use_all, read_through-again}
use bharat_ticker.Charts.Order.{IsSorted, HasClose, at_time, told_at, norm_candles-IsSorted}
use bharat_ticker.Charts.Days.{IsArmedReply, history_between-IsArmed}

abbrev bar : Text → ℕ → ℕ → ChartBar
bar t p v = record {
  timestamp = t;
  open_price = some p;
  high = some p;
  low = some p;
  close = some p;
  vwap = none;
  volume = some v;
}

abbrev rounding : Rounding
rounding = record { quotient = λ x f. x * 10 / f; product = λ x f. x * f / 10 }

abbrev candles : List ChartBar
candles =
    bar (codes "1") 100 10
    ∷ bar (codes "2") 102 10
    ∷ bar (codes "3") 51 20
    ∷ bar (codes "4") 52 19
    ∷ []

one_split : detect_split_events candles ≡ record { index = 2; factor = 20; date = codes "3" } ∷ []
unfolding detect_split_events detect_from event_factor nearest_factor first_near is_near vol_ok
one_split = refl

adjust_for_splits-rescaled_example :
    (adjust_for_splits rounding candles).0
    ≡ map_from 0 (rescaled rounding (detect_split_events candles)) candles
adjust_for_splits-rescaled_example = adjust_for_splits-rescaled rounding candles

abbrev row : Text → Option ℕ → HistoryRow
row t p = record {
  timestamp = t;
  open_price = none;
  high = none;
  low = none;
  close = p;
  volume = none;
}

abbrev rows : List HistoryRow
rows = row (codes "2") (some 5) ∷ row (codes "3") none ∷ row (codes "1") (some 4) ∷ []

norm_candles-IsSorted_example :
    IsSorted (norm_candles rows)
    × All HasClose (norm_candles rows)
    × (at_time (codes "2") (norm_candles rows) ≡ told_at (codes "2") rows)
norm_candles-IsSorted_example = norm_candles-IsSorted rows (codes "2")

abbrev feeds : Feeds
feeds = record {
  today = codes "2";
  is_open = true;
  nse_points = λ s.
      Outcome.got (some (record { timestamp = codes "2"; price = some 7; volume = some 1 } ∷ []));
  bse_points = λ s. Outcome.raised;
  history = λ s e c n. [];
  live = λ s e. Outcome.raised;
  rounding = rounding;
  epoch = λ t. some 60;
  stamp = λ t s. codes "2";
  round = λ n. n;
  int = λ n. n;
}

abbrev calls : Calls
calls = record {
  feeds = feeds;
  now = 5;
  wall = 9;
  parse = λ t. none;
  date_of = λ t. codes "2";
  past_key = λ s e c from to. s;
  today_key = λ s e n. s;
  rows = λ s e c from to. rows;
}

abbrev shelf : Shelf
shelf = record {
  past = record { ttl = 3600; budget = 9000; store = []; bytes = 0 };
  today = record { ttl = 30; budget = 9000; store = []; bytes = 0 };
}

history_between-IsArmed_example :
    let d' = (cached_history calls (codes "S") (codes "NSE") (codes "1m") 1 9 shelf).0 in
    IsArmedReply
      (codes "2")
      (cached_today_bars calls (codes "S") (codes "NSE") 60 d').1
      (history_between calls (codes "S") (codes "NSE") (codes "1m") 1 9 true shelf).1
unfolding lookup text_eq
history_between-IsArmed_example =
    history_between-IsArmed calls (codes "S") (codes "NSE") (codes "1m") 60 1 9 true shelf refl refl

abbrev small : TtlCache ℕ
small = record { ttl = 3600; budget = 9000; store = []; bytes = 0 }

abbrev other_use : Use ℕ
other_use = record { at = 7; key = codes "T"; rows = 2 ∷ [] }

read_through-again_example :
    (read_through 9
      (codes "S")
      (1 ∷ [])
      (use_all (other_use ∷ []) (read_through 5 (codes "S") [] small).0)).1
    ≡ []
unfolding lookup TtlCache.sizeof
read_through-again_example =
    read_through-again 5 9 (codes "S") [] (1 ∷ []) (other_use ∷ []) small refl tt tt
      (record { distinct = tt; balance = refl }) (omega arith, omega arith, omega arith)
      (omega arith) (omega arith)
