-- ===== src/Live/Candles.antt =====
-- The candles that `build` of src/engine/live_candles.py makes of the samples.
use bharat_ticker.Common.{
  ℕ, ◌+◌, ◌-◌, ◌/◌, ◌≤◌, ◌==◌, ◌≡◌, true, Option, none, some, List, [], ◌∷◌, length, All, arith,
  Bool-cases, inl, inr,
}
use bharat_ticker.Common.Text.{Text}
use bharat_ticker.Common.Dict.{get_or}
use bharat_ticker.Live.Defs.{
  Sample, LiveCandleEngine, Candle, Served, key_of, same_source, gain, widen, put_sample, bucketed,
  serve, serve_all, drop_first, last_items, build,
}

abbrev IsCandle : ℕ × Candle → Type 0
IsCandle x = (x.1.l ≤ x.1.o) × (x.1.o ≤ x.1.h) × (x.1.l ≤ x.1.c) × (x.1.c ≤ x.1.h)

put_sample-IsCandle :
    (idx : ℕ) (s : Sample) (volume : ℕ) (cells : List (ℕ × Candle))
    → All IsCandle cells
    → All IsCandle (put_sample idx s volume cells)
unfolding put_sample widen
put_sample-IsCandle idx s volume [] a = ((omega arith, omega arith, omega arith, omega arith), tt)
put_sample-IsCandle idx s volume ((i, cell) ∷ cells) a = elim (Bool-cases (i == idx)) [
  | inl e ↦
      let (lo, oh, lc, ch) = a.0 in
      rw e ((omega (arith, lo), omega (arith, oh), omega arith, omega arith), a.1)
  | inr e ↦ rw e (a.0, put_sample-IsCandle idx s volume cells a.1)
]

bucketed-IsCandle :
    (width : ℕ) (prev : Option Sample) (samples : List Sample) (cells : List (ℕ × Candle))
    → All IsCandle cells
    → All IsCandle (bucketed width prev samples cells)
unfolding bucketed
bucketed-IsCandle width prev [] cells a = a
bucketed-IsCandle width prev (s ∷ samples) cells a =
    let next = put_sample-IsCandle (s.ts / width) s (gain prev s) cells a in
    bucketed-IsCandle width (some s) samples (put_sample (s.ts / width) s (gain prev s) cells) next

drop_first-IsCandle :
    (n : ℕ) (cells : List (ℕ × Candle)) → All IsCandle cells → All IsCandle (drop_first n cells)
drop_first-IsCandle n [] a = tt
drop_first-IsCandle n (x ∷ cells) a = elim (Bool-cases (n == 0)) [
  | inl e ↦ rw e a
  | inr e ↦ rw e (drop_first-IsCandle (n - 1) cells a.1)
]

last_items-IsCandle :
    (limit : ℕ) (cells : List (ℕ × Candle))
    → All IsCandle cells
    → All IsCandle (last_items limit cells)
last_items-IsCandle limit cells a = elim (Bool-cases (limit == 0)) [
  | inl e ↦ rw e a
  | inr e ↦ rw e (drop_first-IsCandle (length cells - limit) cells a)
]

abbrev pub IsServed : Served → Type 0
IsServed x =
    (x.low ≤ x.open_price) × (x.open_price ≤ x.high) × (x.low ≤ x.close) × (x.close ≤ x.high)

serve_all-IsServed :
    (stamp : ℕ → Text) (round int : ℕ → ℕ) (width : ℕ) (cells : List (ℕ × Candle))
    → ((x y : ℕ) → x ≤ y → round x ≤ round y)
    → All IsCandle cells
    → All IsServed (serve_all (serve stamp round int width) cells)
unfolding serve
serve_all-IsServed stamp round int width [] mono a = tt
serve_all-IsServed stamp round int width ((i, x) ∷ cells) mono a =
    let (lo, oh, lc, ch) = a.0 in
    (
      (mono x.l x.o lo, mono x.o x.h oh, mono x.l x.c lc, mono x.c x.h ch),
      serve_all-IsServed stamp round int width cells mono a.1,
    )

-- Whatever has been recorded: in every candle that is served the opening and the closing price lie
-- between the low and the high. Of the rounding it is assumed that it is monotone.
pub build-IsServed :
    (stamp : ℕ → Text) (round int : ℕ → ℕ) (now : ℕ) (symbol exchange : Text) (width limit : ℕ)
    (e : LiveCandleEngine)
    → ((x y : ℕ) → x ≤ y → round x ≤ round y)
    → All IsServed (build stamp round int now symbol exchange width limit e).1
unfolding build
build-IsServed stamp round int now symbol exchange width limit e mono =
    let samples = get_or (key_of symbol exchange) [] e.samples in
    let order = bucketed width none samples [] in
    elim (Bool-cases (width == 0)) [
      | inl h ↦ rw h tt
      | inr h ↦ rw h (
          serve_all-IsServed stamp round int width (last_items limit order) mono
            (last_items-IsCandle limit order (bucketed-IsCandle width none samples [] tt)))
    ]

abbrev pub volume_of : List (ℕ × Candle) → ℕ
volume_of [] = 0
volume_of ((i, cell) ∷ cells) = cell.v + volume_of cells

put_sample-volume_of :
    (idx : ℕ) (s : Sample) (volume : ℕ) (cells : List (ℕ × Candle))
    → volume_of (put_sample idx s volume cells) ≡ volume_of cells + volume
unfolding put_sample widen
put_sample-volume_of idx s volume [] = omega arith
put_sample-volume_of idx s volume ((i, cell) ∷ cells) =
    ground (arith, put_sample-volume_of idx s volume cells)

-- After `prev`, all samples are of its source, and the day's volume never falls.
abbrev pub Climbs : Sample → List Sample → Type 0
Climbs prev [] = Unit
Climbs prev (s ∷ samples) =
    (same_source s.source prev.source ≡ true) × (prev.cum ≤ s.cum) × Climbs s samples

abbrev pub last_cum : Sample → List Sample → ℕ
last_cum prev [] = prev.cum
last_cum prev (s ∷ samples) = last_cum s samples

bucketed-climb :
    (width : ℕ) (prev : Sample) (samples : List Sample) (cells : List (ℕ × Candle))
    → Climbs prev samples
    → volume_of (bucketed width (some prev) samples cells) + prev.cum
      ≡ volume_of cells + last_cum prev samples
unfolding bucketed gain
bucketed-climb width prev [] cells h = omega arith
bucketed-climb width prev (s ∷ samples) cells h =
    let (same, up, rest) = h in
    ground (
      arith,
      bucketed-climb width s samples (put_sample (s.ts / width) s (gain (some prev) s) cells) rest,
      put_sample-volume_of (s.ts / width) s (gain (some prev) s) cells,
    )

-- Of samples of one source with a volume that never falls, the candles of every width together carry
-- the volume traded between the first sample and the last.
pub bucketed-volume_of :
    (width : ℕ) (first : Sample) (samples : List Sample)
    → Climbs first samples
    → volume_of (bucketed width none (first ∷ samples) []) + first.cum ≡ last_cum first samples
unfolding bucketed gain
bucketed-volume_of width first samples h = omega (
  arith,
  bucketed-climb width first samples (put_sample (first.ts / width) first 0 []) h,
  put_sample-volume_of (first.ts / width) first 0 [],
)
