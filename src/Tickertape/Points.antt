-- ===== src/Tickertape/Points.antt =====
-- `fetch_intraday_points` of src/engine/tickertape.py. Prices and volumes are natural numbers, volumes
-- whole shares, so that `float` and `int` are exact. `datetime.fromisoformat` and `isoformat` are
-- arguments; a datetime is the count of seconds that orders it.
use bharat_ticker.Common.{ℕ, ◌-◌, leb, Option, none, some, List, [], ◌∷◌, if◌then◌else◌}
use bharat_ticker.Common.Text.{Text}
use bharat_ticker.Candles.{Point, or_zero}
use bharat_ticker.Tickertape.Search.{Resolved, Tape}
use bharat_ticker.Tickertape.Resolve.{TapeFeed, resolve}

-- A point of the chart: the price, the time stamp, and the volume of the day so far.
pub record ChartPoint : Type 0 where
  pub lp : Option ℕ
  pub ts : Option Text
  pub v : Option ℕ

-- An entry of `raw`.
pub record RawPoint : Type 0 where
  pub dt : ℕ
  pub price : ℕ
  pub cum : ℕ

abbrev pub timed_raw : Option ℕ → ℕ → Option ℕ → List RawPoint → List RawPoint
timed_raw none price v raw = raw
timed_raw (some dt) price v raw = record { dt = dt; price = price; cum = or_zero v } ∷ raw

-- The body of the first loop: a point without a price, or without a time stamp that can be read, is
-- left out.
unfoldable pub add_raw :
    (Text → Option ℕ) → Option ℕ → Option Text → Option ℕ → List RawPoint → List RawPoint
add_raw parse none ts v raw = raw
add_raw parse (some price) none v raw = raw
add_raw parse (some price) (some []) v raw = raw
add_raw parse (some price) (some (c ∷ ts)) v raw = timed_raw (parse (c ∷ ts)) price v raw

unfoldable pub raw_points : (Text → Option ℕ) → List ChartPoint → List RawPoint
unfolding add_raw
raw_points parse [] = []
raw_points parse (p ∷ pts) = add_raw parse p.lp p.ts p.v (raw_points parse pts)

-- `raw.sort(key=...)`, which is stable.
unfoldable pub insert_raw : RawPoint → List RawPoint → List RawPoint
insert_raw p [] = p ∷ []
insert_raw p (q ∷ raw) =
    let rest = insert_raw p raw in if leb p.dt q.dt then p ∷ q ∷ raw else q ∷ rest

unfoldable pub sort_raw : List RawPoint → List RawPoint
unfolding insert_raw
sort_raw [] = []
sort_raw (p ∷ raw) = insert_raw p (sort_raw raw)

-- `inc`: a counter that falls, and the first point, count as nothing.
unfoldable pub increment : Option ℕ → ℕ → ℕ
increment none cum = 0
increment (some prev_cum) cum = if leb prev_cum cum then cum - prev_cum else 0

-- The second loop, from a value of `prev_cum` on.
unfoldable pub increments : (ℕ → Text) → Option ℕ → List RawPoint → List Point
unfolding increment
increments iso prev_cum [] = []
increments iso prev_cum (p ∷ raw) =
    record { timestamp = iso p.dt; price = some p.price; volume = some (increment prev_cum p.cum) }
    ∷ increments iso (some p.cum) raw

-- From `raw = []` on.
unfoldable pub curve_points : (Text → Option ℕ) → (ℕ → Text) → List ChartPoint → List Point
unfolding raw_points sort_raw increments
curve_points parse iso pts = increments iso none (sort_raw (raw_points parse pts))

abbrev pub curve_of : (Text → Option ℕ) → (ℕ → Text) → List ChartPoint → Option (List Point)
curve_of parse iso [] = none
curve_of parse iso (p ∷ pts) = some (curve_points parse iso (p ∷ pts))

abbrev pub sid_of : Option Resolved → Option Text
sid_of none = none
sid_of (some rec) = rec.sid

unfoldable pub chart_of_sid :
    (Text → Option ℕ) → (ℕ → Text) → (Text → List ChartPoint) → Option Text → Option (List Point)
unfolding curve_points
chart_of_sid parse iso chart none = none
chart_of_sid parse iso chart (some []) = none
chart_of_sid parse iso chart (some (c ∷ sid)) = curve_of parse iso (chart (c ∷ sid))

-- `fetch_intraday_points`; `chart` gives the points that the request for an id brings, none if it
-- fails.
unfoldable pub fetch_intraday_points :
    (Text → Option ℕ)
    → (ℕ → Text)
    → (Text → List ChartPoint)
    → TapeFeed
    → Text
    → Tape
    → Tape × Option (List Point)
unfolding resolve chart_of_sid
fetch_intraday_points parse iso chart w symbol t =
    let (t', rec) = resolve w symbol t in (t', chart_of_sid parse iso chart (sid_of rec))
