-- ===== src/Market/Kept.antt =====
-- The intraday curve is not lost again (src/engine/market_data.py).
use bharat_ticker.Common.{ℕ, ◌≡◌, refl, Option, none, some, List, Option-cases, inl, inr}
use bharat_ticker.Common.Text.{Text}
use bharat_ticker.Common.Dict.{Dict, lookup, lookup-insert_self}
use bharat_ticker.Quotes.Batch.{Outcome}
use bharat_ticker.Market.Series.{first_series, young_hit, get_intraday_series}

abbrev pub IsGot : {A : Type 0} → Option A → Type 0
IsGot none = ⊥
IsGot (some x) = Unit

module _ {A : Type 0} where
  young_hit-none :
      (ttl now : ℕ) (hit : Option (ℕ × List A)) → hit ≡ none → young_hit ttl now hit ≡ none
  unfolding young_hit
  young_hit-none ttl now hit h = rw h refl

  -- A key that is in the cache is answered, whatever the providers do.
  series-cached :
      (ttl now later : ℕ) (key : Text) (providers : List (Outcome (List A) × Outcome (List A)))
      (cache : Dict (ℕ × List A)) (e : ℕ × List A)
      → lookup key cache ≡ some e
      → IsGot (get_intraday_series ttl now later key providers cache).1
  unfolding get_intraday_series
  series-cached ttl now later key providers cache e h =
      elim (Option-cases (young_hit ttl now (lookup key cache))) [
        | inr (p, y) ↦ rw (get_intraday_series, y) tt
        | inl y ↦ elim (Option-cases (first_series providers)) [
          | inr (p, f) ↦ rw (get_intraday_series, y, f) tt
          | inl f ↦ rw (get_intraday_series, y, f) (rw h tt)
        ]
      ]

  kept :
      (ttl now later : ℕ) (key : Text) (providers : List (Outcome (List A) × Outcome (List A)))
      (cache : Dict (ℕ × List A)) (e : ℕ × List A)
      → lookup key cache ≡ some e
      → (x : ℕ × List A) × (lookup key (get_intraday_series ttl now later key providers cache).0
          ≡ some x)
  unfolding get_intraday_series
  kept ttl now later key providers cache e h =
      elim (Option-cases (young_hit ttl now (lookup key cache))) [
        | inr (p, y) ↦ rw (get_intraday_series, y) (e, h)
        | inl y ↦ elim (Option-cases (first_series providers)) [
          | inr (p, f) ↦
              rw (get_intraday_series, y, f) ((later, p), lookup-insert_self key (later, p) cache)
          | inl f ↦ rw (get_intraday_series, y, f) (e, h)
        ]
      ]

  -- A call that is answered leaves the key in the cache.
  series-caches :
      (ttl now later : ℕ) (key : Text) (providers : List (Outcome (List A) × Outcome (List A)))
      (cache : Dict (ℕ × List A))
      → IsGot (get_intraday_series ttl now later key providers cache).1
      → (e : ℕ × List A) × (lookup key (get_intraday_series ttl now later key providers cache).0
          ≡ some e)
  unfolding get_intraday_series
  series-caches ttl now later key providers cache got = elim (Option-cases (lookup key cache)) [
    | inr (e, h) ↦ kept ttl now later key providers cache e h
    | inl h ↦
        let y = young_hit-none ttl now (lookup key cache) h in
        elim (Option-cases (first_series providers)) [
          | inr (p, f) ↦
              rw (get_intraday_series, y, f) ((later, p), lookup-insert_self key (later, p) cache)
          | inl f ↦ absurd (rw (get_intraday_series, y, f, h) at got)
        ]
  ]

  -- Once a call for a symbol's curve has been answered, every next call is, even if all providers
  -- fail: a stale curve is served rather than none.
  pub get_intraday_series-kept :
      (ttl now asked now' asked' : ℕ) (key : Text)
      (providers providers' : List (Outcome (List A) × Outcome (List A)))
      (cache : Dict (ℕ × List A))
      → IsGot (get_intraday_series ttl now asked key providers cache).1
      → IsGot
          (get_intraday_series ttl now' asked' key providers'
            (get_intraday_series ttl now asked key providers cache).0).1
  get_intraday_series-kept ttl now asked now' asked' key providers providers' cache got =
      let (e, h) = series-caches ttl now asked key providers cache got in
      series-cached ttl now' asked' key providers'
        (get_intraday_series ttl now asked key providers cache).0 e h
