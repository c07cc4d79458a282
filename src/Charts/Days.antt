-- ===== src/Charts/Days.antt =====
-- Where the bars of the current day come from (`sb_history`, `sb_candles`,
-- src/api/endpoints/superbrain.py).
use bharat_ticker.Common.{
  ℕ, ◌≡◌, refl, ap, Bool, true, false, ◌&&◌, some, List, [], ◌∷◌, ◌++◌, map, All, if◌then◌else◌,
  Bool-cases, ◌⊎◌, inl, inr,
}
use bharat_ticker.Common.Text.{Text, text_eq, text_leb}
use bharat_ticker.Common.Dict.{lookup}
use bharat_ticker.Candles.{Bar}
use bharat_ticker.Charts.Bars.{ChartBar, norm_candles, day_of, filter_list, chart_bar}
use bharat_ticker.Charts.Session.{Feeds, is_daily, adjusted, intraday_seconds, overlay}
use bharat_ticker.Charts.History.{
  Shelf, Calls, HistoryReply, text_ltb, cached_history, cached_today_bars, join_live, armed,
  history_between,
}

abbrev pub IsPast : Text → ChartBar → Type 0
IsPast today c = text_ltb (day_of c) today ≡ true

filter_list-All :
    (p : ChartBar → Bool) (cs : List ChartBar) → All (λ c. p c ≡ true) (filter_list p cs)
filter_list-All p [] = tt
filter_list-All p (c ∷ cs) = elim (Bool-cases (p c)) [
  | inl e ↦ rw e (e, filter_list-All p cs)
  | inr e ↦ rw e (filter_list-All p cs)
]

-- Candles before `today`, then the scraped bars or none.
abbrev pub IsArmed : Text → List Bar → List ChartBar → Type 0
IsArmed today bars out =
    (past : List ChartBar) × (live : List Bar) × (out ≡ past ++ map chart_bar live)
    × All (IsPast today) past
    × ((live ≡ []) ⊎ (live ≡ bars))

append_nil : (cs : List ChartBar) → cs ≡ cs ++ []
append_nil [] = refl
append_nil (c ∷ cs) = ap (λ t. c ∷ t) (append_nil cs)

join_live-IsArmed :
    (today : Text) (past : List ChartBar) (bars : List Bar)
    → All (IsPast today) past
    → IsArmed today bars (join_live past bars).1
unfolding join_live
join_live-IsArmed today past [] h = (past, [], append_nil past, h, inl refl)
join_live-IsArmed today past (b ∷ bars) h = (past, b ∷ bars, refl, h, inr refl)

armed-IsArmed :
    (w : Calls) (symbol exchange : Text) (seconds start end : ℕ) (candles : List ChartBar)
    (d : Shelf)
    → IsArmed w.feeds.today
        (cached_today_bars w symbol exchange seconds d).1
        (armed w symbol exchange seconds start end candles d).1.1
unfolding armed
armed-IsArmed w symbol exchange seconds start end candles d =
    let today = w.feeds.today in
    let keep = λ (c : ChartBar). text_ltb (day_of c) today in
    let past = filter_list keep candles in
    let bars = (cached_today_bars w symbol exchange seconds d).1 in
    let before = filter_list-All keep candles in
    let window = text_leb (w.date_of start) today && text_leb today (w.date_of end) in
    elim (Bool-cases window) [
      | inr e ↦ rw e (past, [], append_nil past, before, inl refl)
      | inl e ↦ rw e (join_live-IsArmed today past bars before)
    ]

abbrev pub IsArmedReply : Text → List Bar → HistoryReply → Type 0
IsArmedReply today bars HistoryReply.unsupported = ⊥
IsArmedReply today bars HistoryReply.invalid_date = ⊥
IsArmedReply today bars (HistoryReply.history from to scraped events out) = IsArmed today bars out

not_adjusted :
    (w : Feeds) (adjust : Bool) (code : Text) (cs : List ChartBar)
    → is_daily code ≡ false
    → adjusted w adjust code cs ≡ (cs, [])
unfolding adjusted
not_adjusted w true code cs h = rw (adjusted, h) refl
not_adjusted w false code cs h = refl

-- For an interval of minutes the history serves candles of days before today, and then either none
-- or the bars that the scrapers' points of the session made, the cached ones or new: no candle of
-- today, or of a later day, is one of the delayed feed.
pub history_between-IsArmed :
    (w : Calls) (symbol exchange code : Text) (seconds start end : ℕ) (adjust : Bool) (d : Shelf)
    → lookup code intraday_seconds ≡ some seconds
    → is_daily code ≡ false
    → let d' = (cached_history w symbol exchange code start end d).0 in
      IsArmedReply w.feeds.today
        (cached_today_bars w symbol exchange seconds d').1
        (history_between w symbol exchange code start end adjust d).1
unfolding history_between
history_between-IsArmed w symbol exchange code seconds start end adjust d h k =
    let (d', rows) = cached_history w symbol exchange code start end d in
    let out = armed w symbol exchange seconds start end (norm_candles rows) d' in
    rw (h, not_adjusted w.feeds adjust code out.1.1 k)
      (armed-IsArmed w symbol exchange seconds start end (norm_candles rows) d')

-- Today's bar takes the place of the last candle exactly if that is of today, and else comes after it;
-- the candles before are left as they are.
pub overlay-last :
    (today : Text) (tb c : ChartBar) (front : List ChartBar)
    → overlay today tb (front ++ (c ∷ []))
      ≡ front ++ (if text_eq (day_of c) today then tb ∷ [] else c ∷ tb ∷ [])
unfolding overlay
overlay-last today tb c [] = refl
overlay-last today tb c (d ∷ []) = ap (λ t. d ∷ t) (overlay-last today tb c [])
overlay-last today tb c (d ∷ e ∷ front) = ap (λ t. d ∷ t) (overlay-last today tb c (e ∷ front))
