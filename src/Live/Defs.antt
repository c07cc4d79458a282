-- ===== src/Live/Defs.antt =====
-- `LiveCandleEngine` (src/engine/live_candles.py): the samples of each symbol and the candles made of
-- them. Time stamps and bucket widths are in one unit, prices and volumes in fixed units. The
-- background tasks that sample are not modelled: what they record is.
use bharat_ticker.Common.{
  ℕ, zero, suc, ◌+◌, ◌-◌, ◌*◌, ◌/◌, min, max, leb, ◌==◌, Bool, true, false, not, ◌&&◌, Option, none,
  some, List, [], ◌∷◌, ◌++◌, length, if◌then◌else◌,
}
use bharat_ticker.Common.Text.{Text, text_eq, upper}
use bharat_ticker.Common.Dict.{Dict, lookup, insert, get_or}
use bharat_ticker.Store.{deque_append}

-- `SAMPLE_MAXLEN` and `PRIMARY_SOURCE_TTL_S`, which the environment may set.
pub record Config : Type 0 where
  pub sample_maxlen : ℕ
  pub primary_source_ttl : ℕ

pub record Sample : Type 0 where
  pub ts : ℕ
  pub price : ℕ
  pub cum : ℕ
  pub source : Option Text

pub record LiveCandleEngine : Type 0 where
  pub samples : Dict (List Sample)
  pub last_read : Dict ℕ
  pub primary_src : Dict Text
  pub primary_ts : Dict ℕ

unfoldable pub init : LiveCandleEngine
init = record { samples = []; last_read = []; primary_src = []; primary_ts = [] }

-- `_key`
unfoldable pub key_of : Text → Text → Text
key_of symbol exchange = upper exchange ++ (b':' ∷ upper symbol)

-- `owner is not None and owner != source and owner_fresh`
unfoldable pub is_secondary : Config → Text → ℕ → Text → LiveCandleEngine → Bool
is_secondary conf key now source e = elim (lookup key e.primary_src) [
  | none ↦ false
  | some owner ↦
      not (text_eq owner source) && leb now (get_or key 0 e.primary_ts + conf.primary_source_ttl)
]

unfoldable pub append_sample : Config → Text → Sample → LiveCandleEngine → LiveCandleEngine
unfolding deque_append
append_sample conf key s e = record e {
  samples = insert key (deque_append conf.sample_maxlen s (get_or key [] e.samples)) e.samples;
}

-- `record` after the checks of its numbers, at the time `now`.
unfoldable pub record_checked :
    Config → Text → ℕ → ℕ → ℕ → Option Text → LiveCandleEngine → LiveCandleEngine
unfolding append_sample is_secondary
record_checked conf key price cum now none e =
    append_sample conf key (record { ts = now; price = price; cum = cum; source = none }) e
record_checked conf key price cum now (some source) e =
    if is_secondary conf key now source e
    then e
    else (append_sample conf key
        (record { ts = now; price = price; cum = cum; source = some source })
        (record e {
          primary_src = insert key source e.primary_src;
          primary_ts = insert key now e.primary_ts;
        }))

-- `record`: `none` is a price or a volume that `float` does not take. A price that is not positive is
-- ignored; a volume that cannot be read is zero.
unfoldable pub record_sample :
    Config
    → Text
    → Text
    → Option ℕ
    → Option ℕ
    → ℕ
    → Option Text
    → LiveCandleEngine
    → LiveCandleEngine
unfolding record_checked key_of
record_sample conf symbol exchange none cum now source e = e
record_sample conf symbol exchange (some zero) cum now source e = e
record_sample conf symbol exchange (some (suc p)) none now source e =
    record_checked conf (key_of symbol exchange) (suc p) 0 now source e
record_sample conf symbol exchange (some (suc p)) (some v) now source e =
    record_checked conf (key_of symbol exchange) (suc p) v now source e

-- A bucket of `build`.
pub record Candle : Type 0 where
  pub o : ℕ
  pub h : ℕ
  pub l : ℕ
  pub c : ℕ
  pub v : ℕ

abbrev pub same_source : Option Text → Option Text → Bool
same_source none none = true
same_source none (some t) = false
same_source (some s) none = false
same_source (some s) (some t) = text_eq s t

-- The volume that a sample adds to its bucket, by the sample before it.
unfoldable pub gain : Option Sample → Sample → ℕ
gain none s = 0
gain (some prev) s =
    if same_source s.source prev.source && leb prev.cum s.cum then s.cum - prev.cum else 0

unfoldable pub widen : Sample → ℕ → Candle → Candle
widen s volume cell = record {
  o = cell.o;
  h = max cell.h s.price;
  l = min cell.l s.price;
  c = s.price;
  v = cell.v + volume;
}

-- `buckets` and `order`, with one more sample.
unfoldable pub put_sample : ℕ → Sample → ℕ → List (ℕ × Candle) → List (ℕ × Candle)
unfolding widen
put_sample idx s volume [] =
    let cell : Candle = record { o = s.price; h = s.price; l = s.price; c = s.price; v = 0 } in
    (idx, widen s volume cell) ∷ []
put_sample idx s volume ((i, cell) ∷ cells) =
    let rest = put_sample idx s volume cells in
    if i == idx then (i, widen s volume cell) ∷ cells else (i, cell) ∷ rest

-- The loop of `build` over the samples, for a positive width.
unfoldable pub bucketed : ℕ → Option Sample → List Sample → List (ℕ × Candle) → List (ℕ × Candle)
unfolding put_sample gain
bucketed width prev [] cells = cells
bucketed width prev (s ∷ samples) cells =
    bucketed width (some s) samples (put_sample (s.ts / width) s (gain prev s) cells)

-- A candle as it is served: the time stamp, the rounding to two places and `int` rest on the standard
-- library and are arguments.
pub record Served : Type 0 where
  pub stamp : Text
  pub open_price : ℕ
  pub high : ℕ
  pub low : ℕ
  pub close : ℕ
  pub volume : ℕ

unfoldable pub serve : (ℕ → Text) → (ℕ → ℕ) → (ℕ → ℕ) → ℕ → ℕ × Candle → Served
serve stamp round int width (idx, cell) = record {
  stamp = stamp (idx * width);
  open_price = round cell.o;
  high = round cell.h;
  low = round cell.l;
  close = round cell.c;
  volume = int cell.v;
}

abbrev pub serve_all : (ℕ × Candle → Served) → List (ℕ × Candle) → List Served
serve_all f [] = []
serve_all f (x ∷ xs) = f x ∷ serve_all f xs

abbrev pub drop_first : {A : Type 0} → ℕ → List A → List A
drop_first n [] = []
drop_first n (x ∷ xs) = if n == 0 then x ∷ xs else drop_first (n - 1) xs

-- `xs[-limit:]`
abbrev pub last_items : {A : Type 0} → ℕ → List A → List A
last_items limit xs = if limit == 0 then xs else drop_first (length xs - limit) xs

-- `build`, read at `now`.
unfoldable pub build :
    (ℕ → Text)
    → (ℕ → ℕ)
    → (ℕ → ℕ)
    → ℕ
    → Text
    → Text
    → ℕ
    → ℕ
    → LiveCandleEngine
    → LiveCandleEngine × List Served
unfolding bucketed serve key_of
build stamp round int now symbol exchange width limit e =
    let key = key_of symbol exchange in
    let order = bucketed width none (get_or key [] e.samples) [] in
    (
      record e { last_read = insert key now e.last_read },
      (if width == 0 then [] else serve_all (serve stamp round int width) (last_items limit order)),
    )

abbrev pub last_sample : List Sample → Option Sample
last_sample [] = none
last_sample (s ∷ []) = some s
last_sample (s ∷ t ∷ samples) = last_sample (t ∷ samples)

-- `latest_tick`, which is a read too; the rendering of the sample is left out.
unfoldable pub latest_tick : ℕ → Text → Text → LiveCandleEngine → LiveCandleEngine × Option Sample
unfolding key_of
latest_tick now symbol exchange e =
    let key = key_of symbol exchange in
    (record e { last_read = insert key now e.last_read }, last_sample (get_or key [] e.samples))
