-- ===== src/Candles/Defs.antt =====
-- `points_to_ohlc` (src/engine/intraday_builder.py). Prices, volumes and epochs are natural numbers of
-- a fixed unit, a price that is negative like one that is zero. `_epoch`, the time stamp of a bar,
-- `round(x, 2)` and `int` rest on the standard library and are arguments.
use bharat_ticker.Common.{
  ℕ, ◌+◌, ◌-◌, ◌*◌, ◌/◌, min, max, ◌==◌, Option, none, some, List, [], ◌∷◌, length, if◌then◌else◌,
}
use bharat_ticker.Common.Text.{Text}

pub record Point : Type 0 where
  pub timestamp : Text
  pub price : Option ℕ
  pub volume : Option ℕ

-- A bucket being filled.
pub record Cell : Type 0 where
  pub o : ℕ
  pub h : ℕ
  pub l : ℕ
  pub c : ℕ
  pub v : ℕ
  pub iso : Text

pub record Bar : Type 0 where
  pub stamp : Text
  pub open_price : ℕ
  pub high : ℕ
  pub low : ℕ
  pub close : ℕ
  pub volume : ℕ

-- `float(p.get("volume") or 0)`
abbrev pub or_zero : Option ℕ → ℕ
or_zero none = 0
or_zero (some v) = v

-- The last four lines of the loop's body.
unfoldable pub update : ℕ → ℕ → Cell → Cell
update price volume cell = record cell {
  h = max cell.h price;
  l = min cell.l price;
  c = price;
  v = cell.v + volume;
}

-- `buckets` and `order`: the buckets in the order in which they were opened.
unfoldable pub put : ℕ → Text → ℕ → ℕ → List (ℕ × Cell) → List (ℕ × Cell)
unfolding update
put b iso price volume [] =
    let cell : Cell = record { o = price; h = price; l = price; c = price; v = 0; iso = iso } in
    (b, update price volume cell) ∷ []
put b iso price volume ((k, cell) ∷ cells) =
    let rest = put b iso price volume cells in
    if b == k then (k, update price volume cell) ∷ cells else (k, cell) ∷ rest

unfoldable pub add_point : (Text → Option ℕ) → ℕ → Point → List (ℕ × Cell) → List (ℕ × Cell)
unfolding put
add_point epoch bucket_seconds p cells = elim (epoch p.timestamp) [
  | none ↦ cells
  | some e ↦ elim (p.price) [
    | none ↦ cells
    | some price ↦
        if price == 0
        then cells
        else put (e / bucket_seconds * bucket_seconds) p.timestamp price (or_zero p.volume) cells
  ]
]

unfoldable pub fill_buckets : (Text → Option ℕ) → ℕ → List Point → List (ℕ × Cell) → List (ℕ × Cell)
fill_buckets epoch bucket_seconds [] cells = cells
fill_buckets epoch bucket_seconds (p ∷ points) cells =
    fill_buckets epoch bucket_seconds points (add_point epoch bucket_seconds p cells)

abbrev pub skip : {A : Type 0} → ℕ → List A → List A
skip n [] = []
skip n (x ∷ xs) = if n == 0 then x ∷ xs else skip (n - 1) xs

unfoldable pub bar_of : (ℕ → Text → Text) → (ℕ → ℕ) → (ℕ → ℕ) → ℕ × Cell → Bar
bar_of stamp round int (b, cell) = record {
  stamp = stamp b cell.iso;
  open_price = round cell.o;
  high = round cell.h;
  low = round cell.l;
  close = round cell.c;
  volume = int cell.v;
}

abbrev pub bars_of : (ℕ × Cell → Bar) → List (ℕ × Cell) → List Bar
bars_of bar [] = []
bars_of bar (cell ∷ cells) = bar cell ∷ bars_of bar cells

-- How many buckets `order[-limit:]` leaves out: none if the limit is zero.
abbrev pub left_out : ℕ → ℕ → ℕ
left_out n limit = if limit == 0 then 0 else n - limit

-- `points_to_ohlc`.
unfoldable pub points_to_ohlc :
    (Text → Option ℕ) → (ℕ → Text → Text) → (ℕ → ℕ) → (ℕ → ℕ) → List Point → ℕ → ℕ → List Bar
unfolding fill_buckets bar_of
points_to_ohlc epoch stamp round int points bucket_seconds limit =
    let order = fill_buckets epoch bucket_seconds points [] in
    if bucket_seconds == 0
    then []
    else bars_of (bar_of stamp round int) (skip (left_out (length order) limit) order)
