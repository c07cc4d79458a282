-- ===== src/Tickertape/Volumes.antt =====
-- The volumes of `fetch_intraday_points` (src/engine/tickertape.py), and of the bars that
-- `points_to_ohlc` (src/engine/intraday_builder.py) makes of its points.
use bharat_ticker.Common.{
  ℕ, ◌+◌, ◌*◌, ◌/◌, ◌≤◌, ◌==◌, leb, ◌≡◌, ◌≢◌, refl, sym, ◌∙◌, true, false, Option, none, some, List,
  [], ◌∷◌, All, arith, Bool-cases, inl, inr,
}
use mathlib.Core.Path.{subst}
use bharat_ticker.Common.Text.{Text}
use bharat_ticker.Candles.{
  Point, Cell, Bar, or_zero, update, put, add_point, fill_buckets, skip, bar_of, bars_of,
  points_to_ohlc,
}
use bharat_ticker.Tickertape.Points.{
  ChartPoint, RawPoint, raw_points, insert_raw, sort_raw, increment, increments, curve_points,
}

-- The points of a session in the order of time.
abbrev pub IsInTime : List RawPoint → Type 0
IsInTime [] = Unit
IsInTime (p ∷ raw) = All (λ q. p.dt ≤ q.dt) raw × IsInTime raw

insert_raw-All :
    (P : RawPoint → Type 0) (p : RawPoint) (raw : List RawPoint)
    → P p
    → All P raw
    → All P (insert_raw p raw)
unfolding insert_raw
insert_raw-All P p [] h a = (h, tt)
insert_raw-All P p (q ∷ raw) h a = elim (Bool-cases (leb p.dt q.dt)) [
  | inl e ↦ rw e (h, a)
  | inr e ↦ rw e (a.0, insert_raw-All P p raw h a.1)
]

All-later :
    (n m : ℕ) (raw : List RawPoint) → n ≤ m → All (λ q. m ≤ q.dt) raw → All (λ q. n ≤ q.dt) raw
All-later n m [] h a = tt
All-later n m (q ∷ raw) h a = (omega (arith, h, a.0), All-later n m raw h a.1)

insert_raw-IsInTime :
    (p : RawPoint) (raw : List RawPoint) → IsInTime raw → IsInTime (insert_raw p raw)
unfolding insert_raw
insert_raw-IsInTime p [] s = (tt, tt)
insert_raw-IsInTime p (q ∷ raw) s = elim (Bool-cases (leb p.dt q.dt)) [
  | inl e ↦
      let before : p.dt ≤ q.dt = ground (arith, e) in
      rw e ((before, All-later p.dt q.dt raw before s.0), s)
  | inr e ↦ rw e (
    insert_raw-All (λ x. q.dt ≤ x.dt) p raw (ground (arith, e)) s.0,
    insert_raw-IsInTime p raw s.1,
  )
]

sort_raw-IsInTime : (raw : List RawPoint) → IsInTime (sort_raw raw)
unfolding sort_raw
sort_raw-IsInTime [] = tt
sort_raw-IsInTime (p ∷ raw) = insert_raw-IsInTime p (sort_raw raw) (sort_raw-IsInTime raw)

-- The counter of the volume does not fall.
abbrev pub IsRising : ℕ → List RawPoint → Type 0
IsRising n [] = Unit
IsRising n (p ∷ raw) = (n ≤ p.cum) × IsRising p.cum raw

abbrev pub last_cum : ℕ → List RawPoint → ℕ
last_cum n [] = n
last_cum n (p ∷ raw) = last_cum p.cum raw

abbrev pub total : List Point → ℕ
total [] = 0
total (p ∷ points) = or_zero p.volume + total points

total-increments :
    (iso : ℕ → Text) (n : ℕ) (raw : List RawPoint)
    → IsRising n raw
    → n + total (increments iso (some n) raw) ≡ last_cum n raw
unfolding increments increment
total-increments iso n [] r = omega arith
total-increments iso n (p ∷ raw) r =
    let ih = total-increments iso p.cum raw r.1 in
    let k : leb n p.cum ≡ true = ground (arith, r.0) in rw k (omega (arith, ih, r.0))

total-curve :
    (parse : Text → Option ℕ) (iso : ℕ → Text) (pts : List ChartPoint) (first : RawPoint)
    (rest : List RawPoint)
    → sort_raw (raw_points parse pts) ≡ first ∷ rest
    → IsRising first.cum rest
    → first.cum + total (curve_points parse iso pts) ≡ last_cum first.cum rest
unfolding curve_points increments increment
total-curve parse iso pts first rest sorted rising =
    rw (curve_points, sorted) (omega (arith, total-increments iso first.cum rest rising))

-- The volumes in the buckets, and in the bars.
abbrev cell_total : List (ℕ × Cell) → ℕ
cell_total [] = 0
cell_total ((k, cell) ∷ cells) = cell.v + cell_total cells

abbrev pub bar_total : List Bar → ℕ
bar_total [] = 0
bar_total (bar ∷ bars) = bar.volume + bar_total bars

put-total :
    (b : ℕ) (iso : Text) (price volume : ℕ) (cells : List (ℕ × Cell))
    → cell_total (put b iso price volume cells) ≡ volume + cell_total cells
unfolding put update
put-total b iso price volume [] = omega arith
put-total b iso price volume ((k, cell) ∷ cells) = elim (Bool-cases (b == k)) [
  | inl e ↦ rw e (omega arith)
  | inr e ↦ rw e (omega (arith, put-total b iso price volume cells))
]

-- The time stamps of the points can be read, and no price is zero.
abbrev pub IsBarred : (Text → Option ℕ) → (ℕ → Text) → RawPoint → Type 0
IsBarred epoch iso p = (epoch (iso p.dt) ≡ some p.dt) × (p.price ≢ 0)

add_point-put :
    (epoch : Text → Option ℕ) (n e price : ℕ) (ts : Text) (v : Option ℕ) (cells : List (ℕ × Cell))
    → epoch ts ≡ some e
    → price ≢ 0
    → add_point epoch n (record { timestamp = ts; price = some price; volume = v }) cells
      ≡ put (e / n * n) ts price (or_zero v) cells
unfolding add_point
add_point-put epoch n e price ts v cells h ne =
    let priced : (price == 0) ≡ false = ground (arith, ne) in rw (add_point, h, priced) refl

fill_buckets-total :
    (epoch : Text → Option ℕ) (iso : ℕ → Text) (n : ℕ) (prev : Option ℕ) (raw : List RawPoint)
    (cells : List (ℕ × Cell))
    → All (IsBarred epoch iso) raw
    → cell_total (fill_buckets epoch n (increments iso prev raw) cells)
      ≡ total (increments iso prev raw) + cell_total cells
unfolding fill_buckets increments
fill_buckets-total epoch iso n prev [] cells a = omega arith
fill_buckets-total epoch iso n prev (p ∷ raw) cells a =
    let inc = increment prev p.cum in
    let b = p.dt / n * n in
    let cells' = put b (iso p.dt) p.price inc cells in
    let ih = fill_buckets-total epoch iso n (some p.cum) raw cells' a.1 in
    rw (fill_buckets, add_point-put epoch n p.dt p.price (iso p.dt) (some inc) cells a.0.0 a.0.1)
      (omega (arith, ih, put-total b (iso p.dt) p.price inc cells))

bars_of-total :
    (stamp : ℕ → Text → Text) (round : ℕ → ℕ) (cells : List (ℕ × Cell))
    → bar_total (bars_of (bar_of stamp round (λ n. n)) cells) ≡ cell_total cells
unfolding bar_of
bars_of-total stamp round [] = refl
bars_of-total stamp round ((k, cell) ∷ cells) = omega (arith, bars_of-total stamp round cells)

skip-none : {A : Type 0} (xs : List A) → skip 0 xs ≡ xs
skip-none [] = refl
skip-none (x ∷ xs) = refl

-- The bars that are made of a curve, when none is left out.
abbrev pub bars_of_curve :
    (Text → Option ℕ)
    → (ℕ → Text)
    → (Text → Option ℕ)
    → (ℕ → Text → Text)
    → (ℕ → ℕ)
    → ℕ
    → List ChartPoint
    → List Bar
bars_of_curve parse iso epoch stamp round n pts =
    points_to_ohlc epoch stamp round (λ x. x) (curve_points parse iso pts) n 0

bars_of_curve-total :
    (parse : Text → Option ℕ) (iso : ℕ → Text) (epoch : Text → Option ℕ) (stamp : ℕ → Text → Text)
    (round : ℕ → ℕ) (n : ℕ) (pts : List ChartPoint)
    → n ≢ 0
    → All (IsBarred epoch iso) (sort_raw (raw_points parse pts))
    → bar_total (bars_of_curve parse iso epoch stamp round n pts)
      ≡ total (curve_points parse iso pts)
unfolding points_to_ohlc curve_points
bars_of_curve-total parse iso epoch stamp round n pts ne barred =
    let raw = sort_raw (raw_points parse pts) in
    let cells = fill_buckets epoch n (increments iso none raw) [] in
    let k : (n == 0) ≡ false = ground (arith, ne) in
    let filled = fill_buckets-total epoch iso n none raw [] barred in
    rw (k, skip-none cells) (bars_of-total stamp round cells ∙ omega (arith, filled))

-- The points of a session are put in the order of time, and when the exchange's counter of the volume
-- does not fall in that order, all bars together have the volume of the counter's last value less its
-- first, whatever the length of a bar, if the time stamps can be read back and no price is zero.
pub curve_volume :
    (parse : Text → Option ℕ) (iso : ℕ → Text) (epoch : Text → Option ℕ) (stamp : ℕ → Text → Text)
    (round : ℕ → ℕ) (n : ℕ) (pts : List ChartPoint) (first : RawPoint) (rest : List RawPoint)
    → n ≢ 0
    → sort_raw (raw_points parse pts) ≡ first ∷ rest
    → IsRising first.cum rest
    → All (IsBarred epoch iso) (first ∷ rest)
    → IsInTime (first ∷ rest)
      × (first.cum + bar_total (bars_of_curve parse iso epoch stamp round n pts)
          ≡ last_cum first.cum rest)
unfolding curve_points
curve_volume parse iso epoch stamp round n pts first rest ne sorted rising barred =
    let all_barred = subst (All (IsBarred epoch iso)) (sym sorted) barred in
    let bars = bars_of_curve-total parse iso epoch stamp round n pts ne all_barred in
    let points = total-curve parse iso pts first rest sorted rising in
    (subst IsInTime sorted (sort_raw-IsInTime (raw_points parse pts)), omega (arith, bars, points))
