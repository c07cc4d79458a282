-- ===== src/Market/Tests.antt =====
-- A curve that is got once and then served while every provider fails (src/engine/market_data.py).
use bharat_ticker.Common.{ℕ, some, [], ◌∷◌}
use bharat_ticker.Quotes.Batch.{Outcome}
use bharat_ticker.Market.Series.{get_intraday_series, first_series, young_hit}
use bharat_ticker.Market.Kept.{IsGot, get_intraday_series-kept}
use bharat_ticker.Common.Text.{codes}
use bharat_ticker.Common.Dict.{lookup}

get_intraday_series-kept_example :
    IsGot
      (get_intraday_series 45 200 201
        (codes "A:0")
        ((Outcome.raised, Outcome.raised) ∷ [])
        (get_intraday_series {A = ℕ} 45 1 2
          (codes "A:0")
          ((Outcome.raised, Outcome.got (some (7 ∷ []))) ∷ [])
          []).0).1
unfolding get_intraday_series first_series young_hit lookup
get_intraday_series-kept_example =
    get_intraday_series-kept 45 1 2 200 201 (codes "A:0")
      ((Outcome.raised, Outcome.got (some (7 ∷ []))) ∷ []) ((Outcome.raised, Outcome.raised) ∷ [])
      [] tt
