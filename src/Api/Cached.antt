-- ===== src/Api/Cached.antt =====
-- A quote that src/api/endpoints/quotes.py builds from the cache of src/cache/ticker_cache.py is the one
-- that it builds from the tick itself.
use bharat_ticker.Common.{
  ℕ, zero, suc, ◌+◌, ◌<◌, leb, ◌≡◌, ◌≢◌, refl, ap, ◌∙◌, false, Option, none, some, [], ◌∷◌, arith,
  Option-cases, inl, inr,
}
use mathlib.Core.Path.{subst}
use bharat_ticker.Common.Text.{Text, codes, text_eq}
use bharat_ticker.Common.Dict.{Dict, lookup, get_or}
use bharat_ticker.Common.Integers.{ℤ}
use bharat_ticker.Models.Tick.{Tick}
use bharat_ticker.Store.PubSub.{Backend}
use bharat_ticker.Cache.Ticks.{Render, or_empty, str_or_empty, tick_to_hash, set_tick, get_tick}
use bharat_ticker.Cache.Reads.{HasField, ReadsAs, get_tick-set_tick}
use bharat_ticker.Api.Shape.{
  Parse, or_none, optional_decimal, build_quote_from_tick, build_quote_from_cache,
}
use bharat_ticker.Api.Quotes.{QuoteFeeds, QuoteAnswer, DataQuality, eod_answer, get_eod_quote}

-- A number that is missing or zero is none.
abbrev pub drop_zero : Option ℕ → Option ℕ
drop_zero none = none
drop_zero (some zero) = none
drop_zero (some (suc n)) = some (suc n)

-- The tick without its empty texts and the zeros of its optional numbers.
abbrev pub without_zeros : Tick → Tick
without_zeros tick = record tick {
  isin = or_none tick.isin;
  series = or_none tick.series;
  value = drop_zero tick.value;
  vwap = drop_zero tick.vwap;
  upper_circuit = drop_zero tick.upper_circuit;
  lower_circuit = drop_zero tick.lower_circuit;
  week_52_high = drop_zero tick.week_52_high;
  week_52_low = drop_zero tick.week_52_low;
}

or_none-or_empty : (o : Option Text) → or_none (some (or_empty o)) ≡ or_none o
or_none-or_empty none = refl
or_none-or_empty (some []) = refl
or_none-or_empty (some (c ∷ s)) = refl

get_or-found : (k x v : Text) (d : Dict Text) → lookup k d ≡ some v → get_or k x d ≡ v
unfolding get_or
get_or-found k x v d h = rw (get_or, h) refl

module _ (w : Render) (p : Parse) where
  optional_decimal-text :
      (s : Text) (n : ℕ)
      → s ≢ []
      → p.decimal s ≡ some n
      → optional_decimal p (some s) ≡ some (some n)
  unfolding optional_decimal
  optional_decimal-text [] n ne h = absurd (ne refl)
  optional_decimal-text (c ∷ s) n ne h = rw (optional_decimal, h) refl

  optional_decimal-str :
      ((n : ℕ) → p.decimal (w.str n) ≡ some n)
      → ((n : ℕ) → w.str n ≢ [])
      → (o : Option ℕ) → optional_decimal p (some (str_or_empty w o)) ≡ some (drop_zero o)
  unfolding optional_decimal
  optional_decimal-str reads full none = refl
  optional_decimal-str reads full (some zero) = refl
  optional_decimal-str reads full (some (suc n)) =
      optional_decimal-text (w.str (suc n)) (suc n) (full (suc n)) (reads (suc n))

  -- The hash has every field of the tick as it was written.
  HasTick : ℕ → Tick → Dict Text → Type 0
  HasTick now tick d =
      (k v : Text) → lookup k (tick_to_hash w now tick) ≡ some v → lookup k d ≡ some v

  kept-HasTick :
      (now later : ℕ) (tick : Tick) (b : Backend) (d : Dict Text)
      → later < now + 5
      → (get_tick later tick.symbol tick.exchange (set_tick w now tick b)).1 ≡ some d
      → HasTick now tick d
  unfolding HasTick
  kept-HasTick now later tick b d lt found k v h =
      let young : leb (now + 5) later ≡ false = ground (arith, lt) in
      let reads = get_tick-set_tick w now later tick b k v h in
      subst (HasField k v) found (
        subst
          (λ x. ReadsAs x k v (get_tick later tick.symbol tick.exchange (set_tick w now tick b)).1)
          young reads)

  never_missing :
      (now later : ℕ) (tick : Tick) (b : Backend)
      → later < now + 5
      → ¬ ((get_tick later tick.symbol tick.exchange (set_tick w now tick b)).1 ≡ none)
  unfolding tick_to_hash lookup text_eq
  never_missing now later tick b lt missing =
      let young : leb (now + 5) later ≡ false = ground (arith, lt) in
      let reads = get_tick-set_tick w now later tick b (codes "symbol") tick.symbol refl in
      subst (HasField (codes "symbol") tick.symbol) missing (
        subst
          (λ x.
            ReadsAs x (codes "symbol") tick.symbol
              (get_tick later tick.symbol tick.exchange (set_tick w now tick b)).1)
          young reads)

  source-HasTick :
      (now : ℕ) (tick : Tick) (d : Dict Text)
      → HasTick now tick d
      → get_or (codes "source") (codes "cache") d ≡ tick.source
  unfolding HasTick tick_to_hash lookup text_eq
  source-HasTick now tick d has =
      get_or-found (codes "source") (codes "cache") tick.source d
        (has (codes "source") tick.source refl)

  build-HasTick :
      (now : ℕ) (tick : Tick) (d : Dict Text)
      → ((n : ℕ) → p.decimal (w.str n) ≡ some n)
      → ((i : ℤ) → p.signed (w.str_signed i) ≡ some i)
      → ((n : ℕ) → p.whole (w.str n) ≡ some n)
      → ((n : ℕ) → w.str n ≢ [])
      → HasTick now tick d
      → build_quote_from_cache p d ≡ some (build_quote_from_tick (without_zeros tick))
  unfolding HasTick build_quote_from_cache build_quote_from_tick tick_to_hash lookup text_eq
  build-HasTick now tick d reads signs counts full has =
      let price : (k : Text) (n : ℕ)
          → lookup k (tick_to_hash w now tick) ≡ some (w.str n)
          → p.decimal (get_or k (codes "0") d) ≡ some n =
        λ k n h.
          ap p.decimal (get_or-found k (codes "0") (w.str n) d (has k (w.str n) h)) ∙ reads n in
      let change : (k : Text) (i : ℤ)
          → lookup k (tick_to_hash w now tick) ≡ some (w.str_signed i)
          → p.signed (get_or k (codes "0") d) ≡ some i =
        λ k i h.
          ap p.signed (get_or-found k (codes "0") (w.str_signed i) d (has k (w.str_signed i) h))
          ∙ signs i in
      let optional : (k : Text) (o : Option ℕ)
          → lookup k (tick_to_hash w now tick) ≡ some (str_or_empty w o)
          → optional_decimal p (lookup k d) ≡ some (drop_zero o) =
        λ k o h.
          ap (optional_decimal p) (has k (str_or_empty w o) h)
          ∙ optional_decimal-str reads full o in
      let plain : (k x v : Text) → lookup k (tick_to_hash w now tick) ≡ some v → get_or k x d ≡ v =
        λ k x v h. get_or-found k x v d (has k v h) in
      let blank : (k : Text) (o : Option Text)
          → lookup k (tick_to_hash w now tick) ≡ some (or_empty o)
          → or_none (lookup k d) ≡ or_none o =
        λ k o h. ap or_none (has k (or_empty o) h) ∙ or_none-or_empty o in
      let volume : p.whole (get_or (codes "volume") (codes "0") d) ≡ some tick.volume =
        ap p.whole (plain (codes "volume") (codes "0") (w.str tick.volume) refl)
        ∙ counts tick.volume in
      rw
        (
          build_quote_from_cache,
          price (codes "ltp") tick.ltp refl,
          price (codes "open") tick.open_price refl,
          price (codes "high") tick.high refl,
          price (codes "low") tick.low refl,
          price (codes "close") tick.close refl,
          change (codes "change") tick.change refl,
          change (codes "pct_change") tick.pct_change refl,
          optional (codes "vwap") tick.vwap refl,
          optional (codes "upper_circuit") tick.upper_circuit refl,
          optional (codes "lower_circuit") tick.lower_circuit refl,
          optional (codes "week_52_high") tick.week_52_high refl,
          optional (codes "week_52_low") tick.week_52_low refl,
          volume,
          optional (codes "value") tick.value refl,
          plain (codes "symbol") [] tick.symbol refl,
          blank (codes "isin") tick.isin refl,
          plain (codes "exchange") (codes "NSE") tick.exchange refl,
          blank (codes "series") tick.series refl,
        )
        refl

  -- For the five seconds of its lifetime a cached tick answers the endpoint after hours, whatever the
  -- feeds give and the cache held before: the quote built from the cache is the one built from the tick
  -- itself, but for optional numbers that are zero and texts that are empty, which are gone, if
  -- `Decimal` and `int` read what `str` wrote.
  pub get_eod_quote-set_tick :
      (feeds : QuoteFeeds) (now later : ℕ) (tick : Tick) (b : Backend)
      → ((n : ℕ) → p.decimal (w.str n) ≡ some n)
      → ((i : ℤ) → p.signed (w.str_signed i) ≡ some i)
      → ((n : ℕ) → p.whole (w.str n) ≡ some n)
      → ((n : ℕ) → w.str n ≢ [])
      → later < now + 5
      → (get_eod_quote p feeds later tick.symbol tick.exchange (set_tick w now tick b)).1
        ≡ QuoteAnswer.served
            (build_quote_from_tick (without_zeros tick))
            tick.source
            DataQuality.quality_eod
            none
  unfolding get_eod_quote eod_answer
  get_eod_quote-set_tick feeds now later tick b reads signs counts full lt =
      let read = get_tick later tick.symbol tick.exchange (set_tick w now tick b) in
      let answer =
        QuoteAnswer.served (build_quote_from_tick (without_zeros tick)) tick.source
          DataQuality.quality_eod none in
      elim (Option-cases read.1) [
        | inl missing ↦ absurd (never_missing now later tick b lt missing)
        | inr (d, found) ↦
            let has = kept-HasTick now later tick b d lt found in
            rw
              (
                get_eod_quote,
                found,
                eod_answer,
                build-HasTick now tick d reads signs counts full has,
                source-HasTick now tick d has,
              )
              refl
      ]
