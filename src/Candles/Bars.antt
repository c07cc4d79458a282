-- ===== src/Candles/Bars.antt =====
-- The bars that `points_to_ohlc` of src/engine/intraday_builder.py makes are consistent.
use bharat_ticker.Common.{
  ℕ, ◌+◌, ◌-◌, ◌*◌, ◌/◌, ◌≤◌, ◌==◌, ◌≡◌, Option, none, some, List, [], ◌∷◌, length, All, arith,
  if◌then◌else◌, Bool-cases, Option-cases, inl, inr,
}
use bharat_ticker.Common.Text.{Text}
use bharat_ticker.Candles.Defs.{
  Point, Cell, Bar, or_zero, update, put, add_point, fill_buckets, skip, bar_of, bars_of, left_out,
  points_to_ohlc,
}

-- The prices of a bucket lie between its lowest and its highest.
abbrev IsCell : ℕ × Cell → Type 0
IsCell x = (x.1.l ≤ x.1.o) × (x.1.o ≤ x.1.h) × (x.1.l ≤ x.1.c) × (x.1.c ≤ x.1.h)

put-IsCell :
    (b : ℕ) (iso : Text) (price volume : ℕ) (cells : List (ℕ × Cell))
    → All IsCell cells
    → All IsCell (put b iso price volume cells)
unfolding put update
put-IsCell b iso price volume [] a = ((omega arith, omega arith, omega arith, omega arith), tt)
put-IsCell b iso price volume ((k, cell) ∷ cells) a = elim (Bool-cases (b == k)) [
  | inl e ↦ rw e ((omega (arith, a.0.0), omega (arith, a.0.1), omega arith, omega arith), a.1)
  | inr e ↦ rw e (a.0, put-IsCell b iso price volume cells a.1)
]

add_point-IsCell :
    (epoch : Text → Option ℕ) (n : ℕ) (p : Point) (cells : List (ℕ × Cell))
    → All IsCell cells
    → All IsCell (add_point epoch n p cells)
unfolding add_point
add_point-IsCell epoch n p cells a = elim (Option-cases (epoch p.timestamp)) [
  | inl e ↦ rw (e, add_point) a
  | inr (t, e) ↦ elim (Option-cases p.price) [
    | inl f ↦ rw (e, f, add_point) a
    | inr (price, f) ↦ elim (Bool-cases (price == 0)) [
      | inl z ↦ rw (e, f, z, add_point) a
      | inr z ↦
          rw (e, f, z, add_point)
            (put-IsCell (t / n * n) p.timestamp price (or_zero p.volume) cells a)
    ]
  ]
]

fill_buckets-IsCell :
    (epoch : Text → Option ℕ) (n : ℕ) (points : List Point) (cells : List (ℕ × Cell))
    → All IsCell cells
    → All IsCell (fill_buckets epoch n points cells)
unfolding fill_buckets
fill_buckets-IsCell epoch n [] cells a = a
fill_buckets-IsCell epoch n (p ∷ points) cells a =
    fill_buckets-IsCell epoch n points (add_point epoch n p cells)
      (add_point-IsCell epoch n p cells a)

skip-IsCell : (n : ℕ) (cells : List (ℕ × Cell)) → All IsCell cells → All IsCell (skip n cells)
skip-IsCell n [] a = tt
skip-IsCell n (x ∷ cells) a = elim (Bool-cases (n == 0)) [
  | inl e ↦ rw e a
  | inr e ↦ rw e (skip-IsCell (n - 1) cells a.1)
]

-- What a bar promises.
abbrev pub IsBar : Bar → Type 0
IsBar bar =
    (bar.low ≤ bar.open_price)
    × (bar.open_price ≤ bar.high)
    × (bar.low ≤ bar.close)
    × (bar.close ≤ bar.high)

bars_of-IsBar :
    (stamp : ℕ → Text → Text) (round int : ℕ → ℕ) (cells : List (ℕ × Cell))
    → ((x y : ℕ) → x ≤ y → round x ≤ round y)
    → All IsCell cells
    → All IsBar (bars_of (bar_of stamp round int) cells)
unfolding bar_of
bars_of-IsBar stamp round int [] mono a = tt
bars_of-IsBar stamp round int ((k, x) ∷ cells) mono a = (
  (mono x.l x.o a.0.0, mono x.o x.h a.0.1, mono x.l x.c a.0.2, mono x.c x.h a.0.3),
  bars_of-IsBar stamp round int cells mono a.1,
)

-- Whatever the points and the width of the buckets: in every bar the opening and the closing price
-- lie between the low and the high. Of the rounding it is assumed that it is monotone.
pub points_to_ohlc-IsBar :
    (epoch : Text → Option ℕ) (stamp : ℕ → Text → Text) (round int : ℕ → ℕ) (points : List Point)
    (bucket_seconds limit : ℕ)
    → ((x y : ℕ) → x ≤ y → round x ≤ round y)
    → All IsBar (points_to_ohlc epoch stamp round int points bucket_seconds limit)
unfolding points_to_ohlc
points_to_ohlc-IsBar epoch stamp round int points bucket_seconds limit mono =
    let order = fill_buckets epoch bucket_seconds points [] in
    let n = left_out (length order) limit in
    elim (Bool-cases (bucket_seconds == 0)) [
      | inl e ↦ rw e tt
      | inr e ↦ rw e (
          bars_of-IsBar stamp round int (skip n order) mono
            (skip-IsCell n order (fill_buckets-IsCell epoch bucket_seconds points [] tt)))
    ]

-- The volume of a point that counts: its time stamp can be read and its price is positive.
abbrev pub counted : (Text → Option ℕ) → Point → ℕ
counted epoch p = elim (epoch p.timestamp) [
  | none ↦ 0
  | some e ↦ elim (p.price) [ none ↦ 0 | some price ↦ if price == 0 then 0 else or_zero p.volume ]
]

abbrev pub total_counted : (Text → Option ℕ) → List Point → ℕ
total_counted epoch [] = 0
total_counted epoch (p ∷ points) = counted epoch p + total_counted epoch points

abbrev pub total : List (ℕ × Cell) → ℕ
total [] = 0
total ((k, cell) ∷ cells) = cell.v + total cells

put-total :
    (b : ℕ) (iso : Text) (price volume : ℕ) (cells : List (ℕ × Cell))
    → total (put b iso price volume cells) ≡ total cells + volume
unfolding put update
put-total b iso price volume [] = omega arith
put-total b iso price volume ((k, cell) ∷ cells) =
    ground (arith, put-total b iso price volume cells)

add_point-total :
    (epoch : Text → Option ℕ) (n : ℕ) (p : Point) (cells : List (ℕ × Cell))
    → total (add_point epoch n p cells) ≡ total cells + counted epoch p
unfolding add_point
add_point-total epoch n p cells =
    let added = λ (b price : ℕ). put-total b p.timestamp price (or_zero p.volume) cells in
    grind (arith, added)

-- No volume is lost and none is counted twice: the volumes of all buckets together are those of the
-- points that count, whatever the width of the buckets.
pub fill_buckets-total :
    (epoch : Text → Option ℕ) (n : ℕ) (points : List Point) (cells : List (ℕ × Cell))
    → total (fill_buckets epoch n points cells) ≡ total cells + total_counted epoch points
unfolding fill_buckets
fill_buckets-total epoch n [] cells = omega arith
fill_buckets-total epoch n (p ∷ points) cells = omega (
  arith,
  fill_buckets-total epoch n points (add_point epoch n p cells),
  add_point-total epoch n p cells,
)
