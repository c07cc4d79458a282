-- ===== src/Candles/Tests.antt =====
-- Three points in two buckets of a minute (src/engine/intraday_builder.py).
use bharat_ticker.Common.{ℕ, ◌≡◌, refl, Option, none, some, List, [], ◌∷◌}
use bharat_ticker.Common.Text.{Text}
use bharat_ticker.Candles.Defs.{Point, add_point, points_to_ohlc}

-- Time stamps of one code point, which is the epoch.
abbrev epoch : Text → Option ℕ
epoch [] = none
epoch (c ∷ s) = some c

abbrev stamp : ℕ → Text → Text
stamp b iso = b ∷ []

abbrev point : ℕ → ℕ → Point
point t p = record { timestamp = t ∷ []; price = some p; volume = some 10 }

abbrev points : List Point
points = point 60 100 ∷ point 90 120 ∷ point 119 90 ∷ point 125 95 ∷ []

two_bars :
    points_to_ohlc epoch stamp (λ x. x) (λ x. x) points 60 400
    ≡ record { stamp = 60 ∷ []; open_price = 100; high = 120; low = 90; close = 90; volume = 30 }
      ∷ record { stamp = 120 ∷ []; open_price = 95; high = 95; low = 95; close = 95; volume = 10 }
      ∷ []
unfolding points_to_ohlc add_point
two_bars = refl
