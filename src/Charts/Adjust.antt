-- ===== src/Charts/Adjust.antt =====
-- src/engine/corp_actions.py: the detection of splits and bonus issues, and the adjustment of the
-- candles before them. Factors are counted in tenths and the tests of ratios are exact; the rounding
-- of a quotient to four places, and `int` of a product, are arguments.
use bharat_ticker.Common.{
  ℕ, zero, suc, ◌-◌, ◌*◌, ltb, leb, ◌==◌, Bool, true, ◌&&◌, ◌||◌, Option, none, some, List, [], ◌∷◌,
  length, if◌then◌else◌,
}
use bharat_ticker.Common.Text.{Text}
use bharat_ticker.Charts.Bars.{ChartBar}

-- `_FACTORS`
abbrev pub factors : List ℕ
factors = 20 ∷ 25 ∷ 30 ∷ 40 ∷ 50 ∷ 60 ∷ 100 ∷ []

-- `_num`
abbrev pub num : Option ℕ → ℕ
num none = 0
num (some v) = v

abbrev pub distance : ℕ → ℕ → ℕ
distance m n = if leb m n then n - m else m - n

-- The ratio `a / b` is within `tol` hundredths of the factor `f` in tenths, relative to `f`.
unfoldable pub is_near : ℕ → ℕ → ℕ → ℕ → Bool
is_near tol a b f = leb (distance (10 * a) (f * b) * 100) (tol * (f * b))

unfoldable pub first_near : ℕ → ℕ → List ℕ → Option ℕ
unfolding is_near
first_near a b [] = none
first_near a b (f ∷ fs) = let rest = first_near a b fs in if is_near 6 a b f then some f else rest

-- `_nearest_factor` of the ratio `a / b`.
unfoldable pub nearest_factor : ℕ → ℕ → Option ℕ
unfolding first_near
nearest_factor a b = if ltb (10 * a) (14 * b) then none else first_near a b factors

-- `vol_ok`
unfoldable pub vol_ok : ℕ → ℕ → ℕ → Bool
unfolding is_near
vol_ok prev_vol cur_vol factor =
    if ltb 0 prev_vol && ltb 0 cur_vol then is_near 90 cur_vol prev_vol factor else true

pub record SplitEvent : Type 0 where
  pub index : ℕ
  pub factor : ℕ
  pub date : Text

-- `_num(open) or _num(close)`
abbrev pub opening : ChartBar → ℕ
opening c = if num c.open_price == 0 then num c.close else num c.open_price

-- The factor of a candle after the one before it, if there is an event.
unfoldable pub event_factor : ChartBar → ChartBar → Option ℕ
unfolding nearest_factor vol_ok
event_factor prev cur =
    if (num prev.close == 0) || (opening cur == 0)
    then none
    else (elim (nearest_factor (num prev.close) (opening cur)) [
      | none ↦ none
      | some f ↦ if vol_ok (num prev.volume) (num cur.volume) f then some f else none
    ])

-- The loop of `detect_split_events`, with the candle before and its successor's index.
unfoldable pub detect_from : ℕ → ChartBar → List ChartBar → List SplitEvent
unfolding event_factor
detect_from i prev [] = []
detect_from i prev (cur ∷ candles) =
    let rest = detect_from (suc i) cur candles in
    elim (event_factor prev cur) [
      | none ↦ rest
      | some f ↦ record { index = i; factor = f; date = cur.timestamp } ∷ rest
    ]

unfoldable pub detect_split_events : List ChartBar → List SplitEvent
unfolding detect_from
detect_split_events [] = []
detect_split_events (c ∷ candles) = detect_from 1 c candles

-- The two roundings: of a price divided by a factor, and of a volume multiplied by it.
pub record Rounding : Type 0 where
  pub quotient : ℕ → ℕ → ℕ
  pub product : ℕ → ℕ → ℕ

abbrev pub map_option : (ℕ → ℕ) → Option ℕ → Option ℕ
map_option f none = none
map_option f (some x) = some (f x)

-- The body of the loop over the candles before an event.
unfoldable pub scale_bar : Rounding → ℕ → ChartBar → ChartBar
scale_bar r f c = record c {
  open_price = map_option (λ x. r.quotient x f) c.open_price;
  high = map_option (λ x. r.quotient x f) c.high;
  low = map_option (λ x. r.quotient x f) c.low;
  close = map_option (λ x. r.quotient x f) c.close;
  vwap = map_option (λ x. r.quotient x f) c.vwap;
  volume = map_option (λ x. r.product x f) c.volume;
}

-- `for j in range(i)`
unfoldable pub scale_first : Rounding → ℕ → ℕ → List ChartBar → List ChartBar
unfolding scale_bar
scale_first r f i [] = []
scale_first r f zero (c ∷ cs) = c ∷ cs
scale_first r f (suc i) (c ∷ cs) = scale_bar r f c ∷ scale_first r f i cs

-- The loop over the events, the newest first: they are found in the order of their indices, which
-- are distinct.
unfoldable pub apply_events : Rounding → List SplitEvent → List ChartBar → List ChartBar
unfolding scale_first
apply_events r [] out = out
apply_events r (ev ∷ events) out = scale_first r ev.factor ev.index (apply_events r events out)

-- `adjust_for_splits`
unfoldable pub adjust_for_splits : Rounding → List ChartBar → List ChartBar × List SplitEvent
unfolding detect_split_events apply_events
adjust_for_splits r candles =
    if ltb (length candles) 3
    then (candles, [])
    else (apply_events r (detect_split_events candles) candles, detect_split_events candles)
