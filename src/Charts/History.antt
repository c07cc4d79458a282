-- ===== src/Charts/History.antt =====
-- `sb_history` (src/api/endpoints/superbrain.py), over the caches of past and of today's bars. Times
-- are seconds, counted from a day long before any that is asked for.
use bharat_ticker.Common.{
  ℕ, ◌-◌, ◌*◌, min, ltb, Bool, true, false, ◌&&◌, not, Option, none, some, List, [], ◌∷◌, ◌++◌, map,
  if◌then◌else◌,
}
use bharat_ticker.Common.Text.{Text, codes, text_eq, text_leb}
use bharat_ticker.Common.Dict.{Dict, lookup, get_or}
use bharat_ticker.Common.Symbols.{canonical_symbol}
use bharat_ticker.Candles.{Bar}
use bharat_ticker.Serving.TtlCache
use bharat_ticker.Serving.TtlCache.{Cached, TtlCache}
use bharat_ticker.Charts.Bars.{ChartBar, HistoryRow, norm_candles, day_of, filter_list, chart_bar}
use bharat_ticker.Charts.Adjust.{SplitEvent}
use bharat_ticker.Charts.Session.{
  Feeds, interval_map, intraday_seconds, adjusted, today_session_bars,
}

-- `_INTERVAL_MAX_DAYS`
abbrev pub interval_max_days : Dict ℕ
interval_max_days =
    (codes "1m", 6)
    ∷ (codes "5m", 59)
    ∷ (codes "15m", 59)
    ∷ (codes "30m", 59)
    ∷ (codes "1d", 365 * 10)
    ∷ (codes "1w", 365 * 20)
    ∷ []

-- `_HIST_CACHE` and `_TODAY_CACHE`
pub record Shelf : Type 0 where
  pub past : TtlCache HistoryRow
  pub today : TtlCache Bar

-- What a request of the history meets besides the feeds: `now` of the caches' clock and of the wall
-- clock, `strptime`, the day of a time, and the spelling of the caches' keys. `rows` is `get_history`
-- between two times, without a limit.
pub record Calls : Type 0 where
  pub feeds : Feeds
  pub now : ℕ
  pub wall : ℕ
  pub parse : Text → Option ℕ
  pub date_of : ℕ → Text
  pub past_key : Text → Text → Text → Text → Text → Text
  pub today_key : Text → Text → ℕ → Text
  pub rows : Text → Text → Text → ℕ → ℕ → List HistoryRow

-- The list that a cache holds: the two caches are given nothing else.
abbrev pub list_of : {A : Type 0} → Cached A → List A
list_of (Cached.items xs) = xs
list_of (Cached.object x) = x ∷ []

-- Both cached readers: a value of the cache, or a new one that is put there.
unfoldable pub read_through : {A : Type 0} → ℕ → Text → List A → TtlCache A → TtlCache A × List A
unfolding TtlCache.get TtlCache.put
read_through {A} now key fresh c =
    let (c', hit) = TtlCache.get now key c in
    elim hit as (λ x. TtlCache A × List A) [
      | some v ↦ (c', list_of v)
      | none ↦ (TtlCache.put now key (Cached.items fresh) c', fresh)
    ]

-- `_cached_history`
unfoldable pub cached_history : Calls → Text → Text → Text → ℕ → ℕ → Shelf → Shelf × List HistoryRow
unfolding read_through
cached_history w symbol exchange code start end d =
    let key = w.past_key symbol exchange code (w.date_of start) (w.date_of end) in
    let (past, rows) = read_through w.now key (w.rows symbol exchange code start end) d.past in
    (record d { past = past }, rows)

-- `_cached_today_bars`
unfoldable pub cached_today_bars : Calls → Text → Text → ℕ → Shelf → Shelf × List Bar
unfolding read_through
cached_today_bars w symbol exchange bucket d =
    let bars = today_session_bars w.feeds symbol bucket 500 in
    let (today, bars') = read_through w.now (w.today_key symbol exchange bucket) bars d.today in
    (record d { today = today }, bars')

pub data HistoryReply : Type 0 where
  unsupported : HistoryReply
  invalid_date : HistoryReply
  history : Text → Text → Bool → List SplitEvent → List ChartBar → HistoryReply

abbrev pub day_seconds : ℕ
day_seconds = 86400

abbrev pub latest : ℕ → ℕ → ℕ
latest m n = if ltb m n then n else m

-- `max_days`, and the start of the window: not earlier than the feed's history.
unfoldable pub max_days_of : Text → ℕ
max_days_of code = get_or code (365 * 10) interval_max_days

unfoldable pub start_of : ℕ → ℕ → Option ℕ → ℕ
start_of max_days end none =
    latest (end - min max_days 365 * day_seconds) (end - max_days * day_seconds)
start_of max_days end (some from) = latest from (end - max_days * day_seconds)

-- `s < t` on texts.
abbrev pub text_ltb : Text → Text → Bool
text_ltb s t = text_leb s t && not (text_eq s t)

-- The scrapers' bars after the past ones, and whether there are any.
unfoldable pub join_live : List ChartBar → List Bar → Bool × List ChartBar
join_live past [] = (false, past)
join_live past (b ∷ bars) = (true, past ++ map chart_bar (b ∷ bars))

-- Past candles are those before today; today's are the scrapers', if the window contains today.
unfoldable pub armed :
    Calls → Text → Text → ℕ → ℕ → ℕ → List ChartBar → Shelf → Shelf × (Bool × List ChartBar)
unfolding day_of cached_today_bars join_live
armed w symbol exchange seconds start end candles d =
    let today = w.feeds.today in
    let past = filter_list (λ c. text_ltb (day_of c) today) candles in
    let (d', bars) = cached_today_bars w symbol exchange seconds d in
    if text_leb (w.date_of start) today && text_leb today (w.date_of end)
    then (d', join_live past bars)
    else (d, (false, past))

-- `sb_history` after the interval and the dates have been read.
unfoldable pub history_between :
    Calls → Text → Text → Text → ℕ → ℕ → Bool → Shelf → Shelf × HistoryReply
unfolding cached_history armed adjusted
history_between w symbol exchange code start end adjust d =
    let (d', rows) = cached_history w symbol exchange code start end d in
    let candles = norm_candles rows in
    let (d'', (scraped, served)) =
      elim (lookup code intraday_seconds) as (λ x. Shelf × (Bool × List ChartBar)) [
        | none ↦ (d', (false, candles))
        | some seconds ↦ armed w symbol exchange seconds start end candles d'
      ] in
    let (out, events) = adjusted w.feeds adjust code served in
    (d'', HistoryReply.history (w.date_of start) (w.date_of end) scraped events out)

-- A date of the request: none is a text that is not one.
abbrev pub read_date : Calls → Option Text → Option (Option ℕ)
read_date w none = some none
read_date w (some s) = elim (w.parse s) [ none ↦ none | some t ↦ some (some t) ]

abbrev pub or_now : Calls → Option ℕ → ℕ
or_now w none = w.wall
or_now w (some t) = t

-- `sb_history`; the empty text for a date counts as none.
unfoldable pub sb_history :
    Calls → Text → Text → Text → Option Text → Option Text → Bool → Shelf → Shelf × HistoryReply
unfolding history_between start_of max_days_of
sb_history w symbol exchange interval from to adjust d =
    elim (lookup interval interval_map) as (λ x. Shelf × HistoryReply) [
      | none ↦ (d, HistoryReply.unsupported)
      | some code ↦ elim (read_date w to) as (λ x. Shelf × HistoryReply) [
        | none ↦ (d, HistoryReply.invalid_date)
        | some end ↦ elim (read_date w from) as (λ x. Shelf × HistoryReply) [
          | none ↦ (d, HistoryReply.invalid_date)
          | some start ↦
              history_between w (canonical_symbol symbol) exchange code
                (start_of (max_days_of code) (or_now w end) start) (or_now w end) adjust d
        ]
      ]
    ]
