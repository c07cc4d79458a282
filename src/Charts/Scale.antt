-- ===== src/Charts/Scale.antt =====
-- The adjustment of each candle by itself, against the loops of src/engine/corp_actions.py.
use bharat_ticker.Common.{
  ℕ, zero, suc, ◌+◌, ◌≤◌, ltb, ◌≡◌, refl, sym, ◌∙◌, ap, true, false, List, [], ◌∷◌, length, arith,
  if◌then◌else◌, Bool-cases, inl, inr,
}
use bharat_ticker.Charts.Bars.{ChartBar}
use bharat_ticker.Charts.Adjust.{
  SplitEvent, Rounding, detect_split_events, scale_bar, scale_first, apply_events,
  adjust_for_splits,
}

-- A function of the place and the candle, on a list whose first place is `j`.
abbrev pub map_from : ℕ → (ℕ → ChartBar → ChartBar) → List ChartBar → List ChartBar
map_from j g [] = []
map_from j g (c ∷ cs) = g j c ∷ map_from (suc j) g cs

-- The candle at place `j`, adjusted by the events after it, the newest first.
abbrev pub rescaled : Rounding → List SplitEvent → ℕ → ChartBar → ChartBar
rescaled r [] j c = c
rescaled r (ev ∷ events) j c =
    if ltb j ev.index then scale_bar r ev.factor (rescaled r events j c) else rescaled r events j c

rest_same :
    (r : Rounding) (ev : SplitEvent) (events : List SplitEvent) (j : ℕ) (cs : List ChartBar)
    → ev.index ≤ j
    → map_from j (rescaled r events) cs ≡ map_from j (rescaled r (ev ∷ events)) cs
rest_same r ev events j [] h = refl
rest_same r ev events j (c ∷ cs) h =
    let here : ltb j ev.index ≡ false = ground (arith, h) in
    rw here
      (ap (λ t. rescaled r events j c ∷ t) (rest_same r ev events (suc j) cs (omega (arith, h))))

scale_first-map_from :
    (r : Rounding) (ev : SplitEvent) (events : List SplitEvent) (i j : ℕ) (cs : List ChartBar)
    → ev.index ≡ i + j
    → scale_first r ev.factor i (map_from j (rescaled r events) cs)
      ≡ map_from j (rescaled r (ev ∷ events)) cs
unfolding scale_first
scale_first-map_from r ev events i j [] h = refl
scale_first-map_from r ev events zero j (c ∷ cs) h =
    let here : ltb j ev.index ≡ false = ground (arith, h) in
    rw here
      (ap (λ t. rescaled r events j c ∷ t) (rest_same r ev events (suc j) cs (omega (arith, h))))
scale_first-map_from r ev events (suc i) j (c ∷ cs) h =
    let here : ltb j ev.index ≡ true = ground (arith, h) in
    rw here (
      ap (λ t. scale_bar r ev.factor (rescaled r events j c) ∷ t)
        (scale_first-map_from r ev events i (suc j) cs (omega (arith, h))))

map_from-id : (r : Rounding) (j : ℕ) (cs : List ChartBar) → map_from j (rescaled r []) cs ≡ cs
map_from-id r j [] = refl
map_from-id r j (c ∷ cs) = ap (λ t. c ∷ t) (map_from-id r (suc j) cs)

apply_events-rescaled :
    (r : Rounding) (events : List SplitEvent) (cs : List ChartBar)
    → apply_events r events cs ≡ map_from 0 (rescaled r events) cs
unfolding apply_events
apply_events-rescaled r [] cs = sym (map_from-id r 0 cs)
apply_events-rescaled r (ev ∷ events) cs =
    ap (scale_first r ev.factor ev.index) (apply_events-rescaled r events cs)
    ∙ scale_first-map_from r ev events ev.index 0 cs (omega arith)

-- Of three candles or more, the candle at each place is adjusted by exactly the events found at later
-- places, the newest first; the candles from the last event on are left as they are. Fewer than three
-- are left alone.
pub adjust_for_splits-rescaled :
    (r : Rounding) (candles : List ChartBar)
    → (adjust_for_splits r candles).0 ≡ (
        if ltb (length candles) 3
        then candles
        else map_from 0 (rescaled r (detect_split_events candles)) candles)
unfolding adjust_for_splits
adjust_for_splits-rescaled r candles = elim (Bool-cases (ltb (length candles) 3)) [
  | inl e ↦ rw e refl
  | inr e ↦ rw e (apply_events-rescaled r (detect_split_events candles) candles)
]
