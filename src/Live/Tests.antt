-- ===== src/Live/Tests.antt =====
-- Three samples of one symbol in two buckets of a minute (src/engine/live_candles.py).
use bharat_ticker.Common.{ℕ, refl, some, [], ◌∷◌, All, inl}
use bharat_ticker.Common.Text.{Text, text_eq}
use bharat_ticker.Common.Dict.{get_or, lookup}
use bharat_ticker.Live.Defs.{Config, Sample, LiveCandleEngine, record_checked, build}
use bharat_ticker.Live.Candles.{IsServed, build-IsServed}
use bharat_ticker.Live.Sources.{IsSingleSourced, record_checked-IsSingleSourced}

abbrev conf : Config
conf = record { sample_maxlen = 4; primary_source_ttl = 20 }

abbrev key : Text
key = b'K' ∷ []

abbrev sample : ℕ → ℕ → ℕ → Sample
sample t p v = record { ts = t; price = p; cum = v; source = some (b'n' ∷ []) }

abbrev engine : LiveCandleEngine
engine = record {
  samples = ((b':' ∷ [], sample 60 100 5 ∷ sample 90 120 9 ∷ sample 125 95 11 ∷ []) ∷ []);
  last_read = [];
  primary_src = ((b':' ∷ [], b'n' ∷ []) ∷ []);
  primary_ts = ((b':' ∷ [], 125) ∷ []);
}

build-IsServed_example :
    All IsServed (build (λ t. t ∷ []) (λ x. x) (λ x. x) 130 [] [] 60 5 engine).1
build-IsServed_example =
    build-IsServed (λ t. t ∷ []) (λ x. x) (λ x. x) 130 [] [] 60 5 engine (λ x y h. h)

engine-IsSingleSourced : IsSingleSourced conf (b':' ∷ []) engine
unfolding get_or lookup text_eq
engine-IsSingleSourced = ((inl refl, (inl refl, tt)), (b'n' ∷ [], refl, refl, refl))

record_checked-IsSingleSourced_example :
    IsSingleSourced conf
      (b':' ∷ [])
      (record_checked conf (b':' ∷ []) 97 12 130 (some (b'y' ∷ [])) engine)
record_checked-IsSingleSourced_example =
    record_checked-IsSingleSourced conf (b':' ∷ []) (b'y' ∷ []) 97 12 130 engine
      engine-IsSingleSourced
