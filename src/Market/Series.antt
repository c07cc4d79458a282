-- ===== src/Market/Series.antt =====
-- src/engine/market_data.py. What a provider answers is an input.
use bharat_ticker.Common.{
  ℕ, ◌+◌, ltb, Bool, ◌&&◌, ◌||◌, Option, none, some, List, [], ◌∷◌, ◌++◌, if◌then◌else◌,
}
use bharat_ticker.Common.Text.{Text, codes, text_eq, starts_with, contains, upper}
use bharat_ticker.Common.Dict.{Dict, lookup, insert}
use bharat_ticker.Common.Symbols.{canonical_symbol}
use bharat_ticker.Quotes.Batch.{Outcome}

-- `_INDEX_YF`
abbrev pub index_yf : Dict Text
index_yf =
    (codes "^NSEI", codes "^NSEI")
    ∷ (codes "NSEI", codes "^NSEI")
    ∷ (codes "NIFTY", codes "^NSEI")
    ∷ (codes "NIFTY50", codes "^NSEI")
    ∷ (codes "NIFTY 50", codes "^NSEI")
    ∷ (codes "^NSEBANK", codes "^NSEBANK")
    ∷ (codes "NSEBANK", codes "^NSEBANK")
    ∷ (codes "BANKNIFTY", codes "^NSEBANK")
    ∷ (codes "NIFTYBANK", codes "^NSEBANK")
    ∷ (codes "NIFTY BANK", codes "^NSEBANK")
    ∷ (codes "^CNXIT", codes "^CNXIT")
    ∷ (codes "NIFTYIT", codes "^CNXIT")
    ∷ (codes "NIFTY IT", codes "^CNXIT")
    ∷ (codes "^BSESN", codes "^BSESN")
    ∷ (codes "SENSEX", codes "^BSESN")
    ∷ []

-- `_yahoo_symbol`
unfoldable pub yahoo_symbol : Text → Text → Text
yahoo_symbol symbol exchange = elim (lookup symbol index_yf) [
  | some idx ↦ idx
  | none ↦
      if starts_with symbol (codes "^")
        || contains (codes ".") symbol
        || contains (codes "=") symbol
      then symbol
      else symbol ++ (if text_eq exchange (codes "BSE") then codes ".BO" else codes ".NS")
]

-- The key of a curve in the cache.
unfoldable pub series_key : Text → Text → Text
series_key symbol flag = upper (canonical_symbol symbol) ++ codes ":" ++ flag

module _ {A : Type 0} where
  -- A reply with points in it.
  abbrev pub some_points : Outcome (List A) → Option (List A)
  some_points Outcome.raised = none
  some_points (Outcome.got none) = none
  some_points (Outcome.got (some [])) = none
  some_points (Outcome.got (some (x ∷ xs))) = some (x ∷ xs)

  -- The loop over the providers that have the curve: each is asked twice at most.
  unfoldable pub first_series : List (Outcome (List A) × Outcome (List A)) → Option (List A)
  first_series [] = none
  first_series ((a, b) ∷ providers) =
      let rest = first_series providers in
      elim (some_points a) [
        | some points ↦ some points
        | none ↦ elim (some_points b) [ none ↦ rest | some points ↦ some points ]
      ]

  -- `hit`, if it is young and not empty.
  unfoldable pub young_hit : ℕ → ℕ → Option (ℕ × List A) → Option (List A)
  young_hit ttl now none = none
  young_hit ttl now (some (t, [])) = none
  young_hit ttl now (some (t, x ∷ xs)) = if ltb now (t + ttl) then some (x ∷ xs) else none

  abbrev pub hit_points : Option (ℕ × List A) → Option (List A)
  hit_points none = none
  hit_points (some (t, points)) = some points

  -- `get_intraday_series` for a key, with the time at the call and the time of the fetch.
  unfoldable pub get_intraday_series :
      ℕ
      → ℕ
      → ℕ
      → Text
      → List (Outcome (List A) × Outcome (List A))
      → Dict (ℕ × List A)
      → Dict (ℕ × List A) × Option (List A)
  unfolding first_series young_hit
  get_intraday_series ttl now later key providers cache =
      let hit = lookup key cache in
      elim (young_hit ttl now hit) as (λ x. Dict (ℕ × List A) × Option (List A)) [
        | some points ↦ (cache, some points)
        | none ↦ elim (first_series providers) as (λ x. Dict (ℕ × List A) × Option (List A)) [
          | some points ↦ (insert key (later, points) cache, some points)
          | none ↦ (cache, hit_points hit)
        ]
      ]

-- `get_details`: the first details that a provider of the first source has, or of the second; a
-- provider is passed over if it is switched off.
pub record DetailSource (A : Type 0) : Type 0 where
  pub matches : Text → Bool
  pub enabled : Bool
  pub details : Outcome A

abbrev pub detail : {A : Type 0} → DetailSource A → Text → Option A
detail p src =
    if p.matches src && p.enabled
    then (elim p.details [ Outcome.raised ↦ none | Outcome.got d ↦ d ])
    else none

unfoldable pub first_detail : {A : Type 0} → Text → List (DetailSource A) → Option A
first_detail src [] = none
first_detail src (p ∷ ps) =
    let rest = first_detail src ps in elim (detail p src) [ none ↦ rest | some d ↦ some d ]

unfoldable pub get_details : {A : Type 0} → Text → List (DetailSource A) → Option A
unfolding first_detail
get_details source ps =
    let order : Text × Text =
      if text_eq source (codes "bse")
      then (codes "bse", codes "nse")
      else (codes "nse", codes "bse") in
    elim (first_detail order.0 ps) [ some d ↦ some d | none ↦ first_detail order.1 ps ]
