-- ===== src/Api/Accounts.antt =====
-- What becomes of each requested symbol in `get_bulk_quotes` of src/api/endpoints/quotes.py.
use bharat_ticker.Common.{
  ℕ, zero, suc, ◌+◌, ◌≤◌, ◌≡◌, refl, ap, Option, none, some, List, [], ◌∷◌, ◌++◌, length,
  length-append, arith, Bool-cases, Option-cases, inl, inr,
}
use mathlib.Core.Option.{some-injective}
use mathlib.Core.Path.{subst}
use bharat_ticker.Common.Text.{Text}
use bharat_ticker.Common.Dict.{Dict, lookup}
use bharat_ticker.Models.Tick.{Tick}
use bharat_ticker.Store.PubSub.{Backend}
use bharat_ticker.Cache.Ticks.{get_bulk_ticks}
use bharat_ticker.Quotes.Bulk.{split_commas}
use bharat_ticker.Api.Shape.{FullQuoteData, Parse, build_quote_from_tick}
use bharat_ticker.Api.Bulk.{
  first_symbols, clean_symbols, symbol_list, cached_quote, add_cached, from_cache, fetch_missing,
  BulkQuotes, has_any, bulk_of, get_bulk_quotes,
}

-- A quote says what a tick says, field by field, and nothing of the delivery.
abbrev pub IsQuoteOf : Tick → FullQuoteData → Type 0
IsQuoteOf tick q =
    (q.info.symbol ≡ tick.symbol)
    × (q.info.isin ≡ tick.isin)
    × (q.info.exchange ≡ tick.exchange)
    × (q.info.series ≡ tick.series)
    × (q.price.ltp ≡ tick.ltp)
    × (q.price.open_price ≡ tick.open_price)
    × (q.price.high ≡ tick.high)
    × (q.price.low ≡ tick.low)
    × (q.price.close ≡ tick.close)
    × (q.price.change ≡ tick.change)
    × (q.price.pct_change ≡ tick.pct_change)
    × (q.price.vwap ≡ tick.vwap)
    × (q.price.upper_circuit ≡ tick.upper_circuit)
    × (q.price.lower_circuit ≡ tick.lower_circuit)
    × (q.price.week_52_high ≡ tick.week_52_high)
    × (q.price.week_52_low ≡ tick.week_52_low)
    × (q.volume.total_traded_volume ≡ tick.volume)
    × (q.volume.total_traded_value ≡ tick.value)
    × (q.volume.delivery_quantity ≡ none)
    × (q.volume.delivery_percentage ≡ none)

build_quote_from_tick-IsQuoteOf : (tick : Tick) → IsQuoteOf tick (build_quote_from_tick tick)
unfolding build_quote_from_tick
build_quote_from_tick-IsQuoteOf tick = (
  refl, refl, refl, refl, refl, refl, refl, refl, refl, refl, refl, refl, refl, refl, refl, refl,
  refl, refl, refl, refl,
)

-- One quote for each tick, in their order.
abbrev pub AreQuotesOf : List Tick → List FullQuoteData → Type 0
AreQuotesOf [] [] = Unit
AreQuotesOf [] (q ∷ quotes) = ⊥
AreQuotesOf (tick ∷ ticks) [] = ⊥
AreQuotesOf (tick ∷ ticks) (q ∷ quotes) = IsQuoteOf tick q × AreQuotesOf ticks quotes

module _ (p : Parse) (through : Text → Option Tick) (ticks : Dict (Dict Text)) where
  -- The symbols without a readable quote in the cache and without a tick.
  abbrev pub unserved_one : Option FullQuoteData → Option Tick → Text → List Text → List Text
  unserved_one (some q) tick s rest = rest
  unserved_one none (some tick) s rest = rest
  unserved_one none none s rest = s ∷ rest

  unfoldable pub unserved : List Text → List Text
  unserved [] = []
  unserved (s ∷ symbols) =
      unserved_one (cached_quote p (lookup s ticks)) (through s) s (unserved symbols)

  -- The quotes that the cache has of the symbols.
  abbrev pub warm_one : Option FullQuoteData → List FullQuoteData → List FullQuoteData
  warm_one none rest = rest
  warm_one (some q) rest = q ∷ rest

  unfoldable pub warm_quotes : List Text → List FullQuoteData
  warm_quotes [] = []
  warm_quotes (s ∷ symbols) = warm_one (cached_quote p (lookup s ticks)) (warm_quotes symbols)

  -- The ticks of the symbols that the cache has no quote of.
  abbrev pub live_one : Option FullQuoteData → Option Tick → List Tick → List Tick
  live_one (some q) tick rest = rest
  live_one none none rest = rest
  live_one none (some tick) rest = tick ∷ rest

  unfoldable pub live_ticks : List Text → List Tick
  live_ticks [] = []
  live_ticks (s ∷ symbols) =
      live_one (cached_quote p (lookup s ticks)) (through s) (live_ticks symbols)

  -- The results of the two loops account for the symbols.
  abbrev IsAccount : List Text → List FullQuoteData × List Text → Type 0
  IsAccount symbols (cached, miss) =
      let (fetched, failed) = fetch_missing through miss in
      (failed ≡ unserved symbols)
      × (length cached + length fetched + length failed ≡ length symbols)
      × (cached ≡ warm_quotes symbols)
      × AreQuotesOf (live_ticks symbols) fetched

  add-IsAccount :
      (s : Text) (symbols : List Text) (quote : Option FullQuoteData)
      (x : List FullQuoteData × List Text)
      → cached_quote p (lookup s ticks) ≡ quote
      → IsAccount symbols x
      → IsAccount (s ∷ symbols) (add_cached s quote x)
  unfolding unserved fetch_missing warm_quotes live_ticks
  add-IsAccount s symbols (some q) x e a = rw e (a.0, omega (arith, a.1), ap (λ l. q ∷ l) a.2, a.3)
  add-IsAccount s symbols none x e a = elim (Option-cases (through s)) [
    | inl t ↦ rw (e, t) (ap (λ l. s ∷ l) a.0, omega (arith, a.1), a.2, a.3)
    | inr (tick, t) ↦
        rw (e, t) (a.0, omega (arith, a.1), a.2, (build_quote_from_tick-IsQuoteOf tick, a.3))
  ]

  from_cache-IsAccount : (symbols : List Text) → IsAccount symbols (from_cache p ticks symbols)
  unfolding from_cache unserved fetch_missing warm_quotes live_ticks
  from_cache-IsAccount [] = (refl, refl, refl, tt)
  from_cache-IsAccount (s ∷ symbols) =
      add-IsAccount s symbols (cached_quote p (lookup s ticks)) (from_cache p ticks symbols) refl
        (from_cache-IsAccount symbols)

  -- The quotes are those of the cache and then those of the ticks of the symbols that the cache has
  -- none of; the failed symbols are those with neither, so that each symbol is accounted for.
  abbrev pub IsBulkOf : List Text → BulkQuotes → Type 0
  IsBulkOf symbols bulk =
      (bulk.failed_symbols ≡ unserved symbols)
      × (length bulk.quotes + length bulk.failed_symbols ≡ length symbols)
      × (bulk.is_partial ≡ has_any (unserved symbols))
      × ((fetched : List FullQuoteData) × (bulk.quotes ≡ warm_quotes symbols ++ fetched)
          × AreQuotesOf (live_ticks symbols) fetched)

  bulk_of-IsBulkOf : (symbols : List Text) → IsBulkOf symbols (bulk_of p through ticks symbols)
  unfolding bulk_of
  bulk_of-IsBulkOf symbols =
      let x = from_cache p ticks symbols in
      let a = from_cache-IsAccount symbols in
      let fetched = (fetch_missing through x.1).0 in
      let joined = length-append x.0 fetched in
      (a.0, omega (arith, joined, a.1), ap has_any a.0, (fetched, ap (λ l. l ++ fetched) a.2, a.3))

first_symbols-short : (n : ℕ) (symbols : List Text) → length (first_symbols n symbols) ≤ n
unfolding first_symbols
first_symbols-short zero symbols = omega arith
first_symbols-short (suc n) [] = omega arith
first_symbols-short (suc n) (s ∷ symbols) = omega (arith, first_symbols-short n symbols)

symbol_list-short : (symbols : Text) → length (symbol_list symbols) ≤ 50
unfolding symbol_list
symbol_list-short symbols = first_symbols-short 50 (clean_symbols (split_commas symbols))

-- A bulk request takes fifty symbols at most. Its quotes are the readable quotes of the cache in the
-- order of the symbols, and then, field by field, those of the ticks of the symbols that the cache has no
-- readable quote of, in their order; those that fail are exactly those with neither, the quotes and the
-- failed ones are as many as the symbols, and the status is partial exactly if one fails.
pub get_bulk_quotes-IsBulkOf :
    (p : Parse) (through : Text → Option Tick) (now : ℕ) (symbols exchange : Text) (b : Backend)
    (bulk : BulkQuotes)
    → (get_bulk_quotes p through now symbols exchange b).1 ≡ some bulk
    → (length (symbol_list symbols) ≤ 50)
      × IsBulkOf p through
          (get_bulk_ticks now (symbol_list symbols) exchange b).1
          (symbol_list symbols)
          bulk
unfolding get_bulk_quotes
get_bulk_quotes-IsBulkOf p through now symbols exchange b bulk h =
    let names = symbol_list symbols in
    let ticks = (get_bulk_ticks now names exchange b).1 in
    elim (Bool-cases (has_any names)) [
      | inl e ↦
          let same : bulk_of p through ticks names ≡ bulk = some-injective _ _ (rw e at h) in
          (
            symbol_list-short symbols,
            subst (IsBulkOf p through ticks names) same (bulk_of-IsBulkOf p through ticks names),
          )
      | inr e ↦ absurd (ground (arith, h, e))
    ]
