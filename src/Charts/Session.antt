-- ===== src/Charts/Session.antt =====
-- Candles of the current session (src/api/endpoints/superbrain.py): the daily candles with today's
-- bar, and the intraday candles from the first feed that has them.
use bharat_ticker.Common.{
  ℕ, zero, suc, ◌+◌, ◌-◌, ◌==◌, Bool, true, false, ◌&&◌, ◌||◌, Option, none, some, List, [], ◌∷◌,
  ◌++◌, length, map, if◌then◌else◌,
}
use bharat_ticker.Common.Text.{Text, codes, text_eq}
use bharat_ticker.Common.Dict.{Dict, lookup, get_or}
use bharat_ticker.Common.Symbols.{canonical_symbol}
use bharat_ticker.Models.Tick.{Tick}
use bharat_ticker.Quotes.Shape.{is_index}
use bharat_ticker.Quotes.Batch.{Outcome, result_of}
use bharat_ticker.Candles.{Point, Bar, points_to_ohlc}
use bharat_ticker.Charts.Bars.{
  ChartBar, HistoryRow, norm_candles, day_of, first_chars, filter_list, latest_session_only,
  chart_bar,
}
use bharat_ticker.Charts.Adjust.{SplitEvent, Rounding, adjust_for_splits}

-- What a request for candles meets: the day, the feeds, and the renderings. `nse_points` is
-- `tickertape.fetch_intraday_points`, `bse_points` is `get_intraday_series`, `history` is
-- `get_history` for a symbol, an exchange, a code and a limit, `live` is `_live_quote`.
pub record Feeds : Type 0 where
  pub today : Text
  pub is_open : Bool
  pub nse_points : Text → Outcome (List Point)
  pub bse_points : Text → Outcome (List Point)
  pub history : Text → Text → Text → Option ℕ → List HistoryRow
  pub live : Text → Text → Outcome Tick
  pub rounding : Rounding
  pub epoch : Text → Option ℕ
  pub stamp : ℕ → Text → Text
  pub round : ℕ → ℕ
  pub int : ℕ → ℕ

unfoldable pub ohlc : Feeds → List Point → ℕ → ℕ → List Bar
ohlc w points seconds limit = points_to_ohlc w.epoch w.stamp w.round w.int points seconds limit

-- `_INTERVAL_MAP`
abbrev pub interval_map : Dict Text
interval_map =
    (codes "day", codes "1d")
    ∷ (codes "1d", codes "1d")
    ∷ (codes "week", codes "1w")
    ∷ (codes "1w", codes "1w")
    ∷ (codes "30minute", codes "30m")
    ∷ (codes "30m", codes "30m")
    ∷ (codes "15minute", codes "15m")
    ∷ (codes "15m", codes "15m")
    ∷ (codes "5minute", codes "5m")
    ∷ (codes "5m", codes "5m")
    ∷ (codes "1minute", codes "1m")
    ∷ (codes "1m", codes "1m")
    ∷ []

-- `_RANGE_LIMIT`
abbrev pub range_limit : Dict ℕ
range_limit =
    (codes "1mo", 25)
    ∷ (codes "3mo", 70)
    ∷ (codes "6mo", 130)
    ∷ (codes "1y", 260)
    ∷ (codes "2y", 520)
    ∷ (codes "3y", 780)
    ∷ (codes "5y", 1300)
    ∷ (codes "max", 2500)
    ∷ []

-- `INTRADAY_SECONDS`
abbrev pub intraday_seconds : Dict ℕ
intraday_seconds =
    (codes "1minute", 60)
    ∷ (codes "1m", 60)
    ∷ (codes "2minute", 120)
    ∷ (codes "2m", 120)
    ∷ (codes "3minute", 180)
    ∷ (codes "3m", 180)
    ∷ (codes "5minute", 300)
    ∷ (codes "5m", 300)
    ∷ (codes "10minute", 600)
    ∷ (codes "10m", 600)
    ∷ (codes "15minute", 900)
    ∷ (codes "15m", 900)
    ∷ (codes "30minute", 1800)
    ∷ (codes "30m", 1800)
    ∷ (codes "60minute", 3600)
    ∷ (codes "60m", 3600)
    ∷ (codes "1h", 3600)
    ∷ []

-- `x if x else c` for a price.
abbrev pub unless_zero : ℕ → ℕ → ℕ
unless_zero zero c = c
unless_zero (suc n) c = suc n

-- `_today_bar_from_quote`; its fields `live` and `source` are dropped by its caller.
unfoldable pub today_bar : Feeds → Text → Text → Option ChartBar
today_bar w symbol exchange = elim (result_of (w.live symbol exchange)) [
  | none ↦ none
  | some tick ↦ some (record {
    timestamp = w.today ++ codes "T00:00:00+05:30";
    open_price = some (unless_zero tick.open_price tick.ltp);
    high = some (unless_zero tick.high tick.ltp);
    low = some (unless_zero tick.low tick.ltp);
    close = some tick.ltp;
    vwap = none;
    volume = some tick.volume;
  })
]

-- The candles with today's bar in the place of the last one, if that is today's, or after it.
unfoldable pub overlay : Text → ChartBar → List ChartBar → List ChartBar
unfolding day_of
overlay today tb [] = tb ∷ []
overlay today tb (c ∷ []) = if text_eq (day_of c) today then tb ∷ [] else c ∷ tb ∷ []
overlay today tb (c ∷ d ∷ cs) = c ∷ overlay today tb (d ∷ cs)

pub record CandlesReply : Type 0 where
  pub interval : Text
  pub events : List SplitEvent
  pub live_last : Bool
  pub candles : List ChartBar

-- `code in ("1d", "1w")`
abbrev pub is_daily : Text → Bool
is_daily code = text_eq code (codes "1d") || text_eq code (codes "1w")

unfoldable pub adjusted : Feeds → Bool → Text → List ChartBar → List ChartBar × List SplitEvent
adjusted w adjust code candles =
    if adjust && is_daily code then adjust_for_splits w.rounding candles else (candles, [])

-- `sb_candles`; none is the error 400 for an index.
unfoldable pub sb_candles : Feeds → Text → Text → Text → Text → Bool → Bool → Option CandlesReply
unfolding overlay today_bar adjusted
sb_candles w symbol exchange range interval adjust live_last =
    let s = canonical_symbol symbol in
    let code = get_or interval (codes "1d") interval_map in
    let rows = w.history s exchange code (some (get_or range 130 range_limit)) in
    let (candles, events) = adjusted w adjust code (norm_candles rows) in
    let bar : Option ChartBar =
      if live_last && text_eq code (codes "1d") && w.is_open
      then today_bar w s exchange
      else none in
    if is_index symbol
    then none
    else some (elim bar [
      | none ↦ record { interval = code; events = events; live_last = false; candles = candles }
      | some tb ↦ record {
        interval = code;
        events = events;
        live_last = true;
        candles = overlay w.today tb candles;
      }
    ])

abbrev pub or_points : Option (List Point) → List Point
or_points none = []
or_points (some points) = points

abbrev pub or_else_points : List Point → List Point → List Point
or_else_points [] points = points
or_else_points (p ∷ ps) points = p ∷ ps

-- `_today_session_bars`: the points of the first feed that has any, those of today.
unfoldable pub today_points : Feeds → Text → List Point
today_points w symbol =
    let nse =
      latest_session_only (λ p. p.timestamp) (or_points (result_of (w.nse_points symbol))) in
    let bse =
      latest_session_only (λ p. p.timestamp) (or_points (result_of (w.bse_points symbol))) in
    filter_list (λ p. text_eq (first_chars 10 p.timestamp) w.today) (or_else_points nse bse)

unfoldable pub today_session_bars : Feeds → Text → ℕ → ℕ → List Bar
unfolding today_points ohlc
today_session_bars w symbol bucket_seconds limit = elim (today_points w symbol) [
  | [] ↦ []
  | p ∷ points ↦ ohlc w (p ∷ points) bucket_seconds limit
]

abbrev pub skip_first : {A : Type 0} → ℕ → List A → List A
skip_first n [] = []
skip_first n (x ∷ xs) = if n == 0 then x ∷ xs else skip_first (n - 1) xs

-- `candles[-limit:]`, if there is a limit, which is positive.
abbrev pub last_part : {A : Type 0} → Option ℕ → List A → List A
last_part none xs = xs
last_part (some limit) xs = skip_first (length xs - limit) xs

-- `(limit + 200) if limit else 10**9`
abbrev pub wide_limit : Option ℕ → ℕ
wide_limit none = 1000000000
wide_limit (some limit) = limit + 200

-- The candles of the latest session that a feed's points make.
unfoldable pub session_bars : Feeds → ℕ → Option ℕ → List Point → List ChartBar
unfolding ohlc
session_bars w seconds limit [] = []
session_bars w seconds limit (p ∷ points) =
    let bars = map chart_bar (ohlc w (p ∷ points) seconds (wide_limit limit)) in
    last_part limit (latest_session_only (λ c. c.timestamp) bars)

-- What `sb_intraday` serves for an interval of minutes: the error 400, or candles of the exchange
-- named, or the delayed candles of the history feed, of today only or not.
pub data Intraday : Type 0 where
  unsupported : Intraday
  is_an_index : Intraday
  scraped : Text → List ChartBar → Intraday
  delayed : Bool → List ChartBar → Intraday

-- The last resort of `sb_intraday`.
unfoldable pub delayed_bars : Feeds → Text → Text → Text → Option ℕ → Intraday
unfolding day_of
delayed_bars w symbol exchange interval limit =
    let rows : List HistoryRow = elim (lookup interval interval_map) [
      | none ↦ []
      | some code ↦ w.history symbol exchange code limit
    ] in
    let candles = norm_candles rows in
    elim (filter_list (λ c. text_eq (day_of c) w.today) candles) [
      | [] ↦ Intraday.delayed false (last_part limit candles)
      | c ∷ cs ↦ Intraday.delayed true (c ∷ cs)
    ]

-- `sb_intraday` for an interval that is not one of seconds; that `get_intraday_series` raises, which
-- would end the request, is left out.
unfoldable pub sb_intraday : Feeds → Text → Text → Text → Option ℕ → Intraday
unfolding session_bars delayed_bars
sb_intraday w symbol exchange interval limit =
    let s = canonical_symbol symbol in
    let reply : Intraday = elim (lookup interval intraday_seconds) [
      | none ↦ Intraday.unsupported
      | some seconds ↦
          elim (session_bars w seconds limit (or_points (result_of (w.nse_points s)))) [
            | c ∷ cs ↦ Intraday.scraped (codes "NSE") (c ∷ cs)
            | [] ↦ elim (session_bars w seconds limit (or_points (result_of (w.bse_points s)))) [
              | c ∷ cs ↦ Intraday.scraped (codes "BSE") (c ∷ cs)
              | [] ↦ delayed_bars w s exchange interval limit
            ]
          ]
    ] in
    if is_index symbol then Intraday.is_an_index else reply
