-- ===== src/Quotes/Bulk.antt =====
-- The bulk endpoint `sb_quotes` with its backfill of the session's open, and the warm cache
-- (src/api/endpoints/superbrain.py).
use bharat_ticker.Common.{
  ℕ, zero, suc, ◌+◌, ◌==◌, Bool, false, ◌||◌, Option, none, some, List, [], ◌∷◌, ◌++◌, length, map,
  if◌then◌else◌,
}
use bharat_ticker.Common.Text.{Text, codes, text_eq}
use bharat_ticker.Common.Dict.{Dict, lookup, insert, get_or}
use bharat_ticker.Common.Symbols.{canonical_symbol, strip}
use bharat_ticker.Models.Tick.{Tick}
use bharat_ticker.Quotes.Shape.{Meta, SbQuote, or_text, or_option, is_among}
use bharat_ticker.Quotes.Batch.{
  World, Desk, quote_of, enrich_meta, warm_get, missing, fan_out, batch_quotes,
}

-- A quote of the dictionary is changed in place.
unfoldable pub amend : {V : Type 0} → Text → (V → V) → Dict V → Dict V
amend s f [] = []
amend s f ((k, v) ∷ by) = (k, if text_eq s k then f v else v) ∷ amend s f by

abbrev pub or_else : Option ℕ → Option ℕ → Option ℕ
or_else none y = y
or_else (some x) y = some x

-- The session's open of a symbol, if it was fetched today.
unfoldable pub known_open : Text → Text → Desk → Option ℕ
known_open today s d = elim (lookup s d.session_open) [
  | none ↦ none
  | some (day, o) ↦ if text_eq day today then some o else none
]

abbrev pub with_open : ℕ → SbQuote → SbQuote
with_open o q = record q { open_price = some o }

-- The first loop of `_fill_open`: the cached opens, and the symbols to fetch.
unfoldable pub use_cached : Text → Desk → Dict SbQuote → Dict SbQuote → Dict SbQuote × List Text
unfolding known_open amend
use_cached today d [] by = (by, [])
use_cached today d ((s, q) ∷ rest) by = elim q.open_price as (λ x. Dict SbQuote × List Text) [
  | some _ ↦ use_cached today d rest by
  | none ↦ elim (known_open today s d) as (λ x. Dict SbQuote × List Text) [
    | some o ↦ use_cached today d rest (amend s (with_open o) by)
    | none ↦ let (by', fetch) = use_cached today d rest by in (by', s ∷ fetch)
  ]
]

-- The richer fields of a tick's quote fill those that are missing.
unfoldable pub fill_rich : ℕ → SbQuote → SbQuote → SbQuote
fill_rich o rich q = record q {
  open_price = some o;
  upper_circuit = or_else q.upper_circuit rich.upper_circuit;
  lower_circuit = or_else q.lower_circuit rich.lower_circuit;
  week_52_high = or_else q.week_52_high rich.week_52_high;
  week_52_low = or_else q.week_52_low rich.week_52_low;
  vwap = or_else q.vwap rich.vwap;
}

-- The second loop of `_fill_open`.
unfoldable pub use_fetched :
    World → List (Text × Option Tick) → Desk → Dict SbQuote → Desk × Dict SbQuote
unfolding amend fill_rich quote_of
use_fetched w [] d by = (d, by)
use_fetched w ((s, none) ∷ ticks) d by = use_fetched w ticks d by
use_fetched w ((s, some tick) ∷ ticks) d by =
    use_fetched w ticks
      (record d { session_open = insert s (w.today, tick.open_price) d.session_open })
      (amend s (fill_rich tick.open_price (quote_of w d tick)) by)

-- `_fill_open`
unfoldable pub fill_open : World → Text → Dict SbQuote → Desk → Desk × Dict SbQuote
unfolding use_cached fan_out use_fetched
fill_open w exchange by d =
    let (by', fetch) = use_cached w.today d by by in
    let (d', ticks) = fan_out w exchange fetch d in use_fetched w ticks d' by'

-- The enrichment loop of `sb_quotes`.
unfoldable pub name_quote : Meta → SbQuote → SbQuote
name_quote m q = record q {
  company_name = or_text m.name q.company_name;
  sector = or_option m.sector q.sector;
}

unfoldable pub enrich_all : World → Text → Dict SbQuote → Desk → Dict SbQuote → Desk × Dict SbQuote
unfolding enrich_meta amend name_quote
enrich_all w exchange [] d by = (d, by)
enrich_all w exchange ((s, q) ∷ rest) d by =
    let d' = enrich_meta w s exchange d in
    let by' : Dict SbQuote = elim (lookup s d'.metas) [
      | none ↦ by
      | some m ↦ amend s (name_quote m) by
    ] in
    enrich_all w exchange rest d' by'

-- The warm quotes of the symbols.
unfoldable pub warm_all : World → Bool → Desk → List Text → Dict SbQuote → Dict SbQuote
unfolding warm_get
warm_all w fast d [] by = by
warm_all w fast d (s ∷ syms) by = elim (warm_get w s false fast d) [
  | none ↦ warm_all w fast d syms by
  | some q ↦ warm_all w fast d syms (insert s q by)
]

abbrev pub update_all : Dict SbQuote → Dict SbQuote → Dict SbQuote
update_all [] by = by
update_all ((s, q) ∷ rest) by = update_all rest (insert s q by)

-- `[by_sym[s] for s in syms if s in by_sym]`
unfoldable pub answered : List Text → Dict SbQuote → List SbQuote
answered [] by = []
answered (s ∷ syms) by =
    let rest = answered syms by in elim (lookup s by) [ none ↦ rest | some q ↦ q ∷ rest ]

unfoldable pub count_sources : List SbQuote → Dict ℕ → Dict ℕ
count_sources [] sources = sources
count_sources (q ∷ out) sources =
    count_sources out (insert q.source (get_or q.source 0 sources + 1) sources)

-- `symbols.split(",")`
unfoldable pub split_commas : Text → List Text
split_commas [] = [] ∷ []
split_commas (c ∷ s) =
    let rest = split_commas s in
    if c == b','
    then [] ∷ rest
    else (elim rest [ [] ↦ (c ∷ []) ∷ [] | piece ∷ pieces ↦ (c ∷ piece) ∷ pieces ])

abbrev pub non_blank : List Text → List Text
non_blank [] = []
non_blank (s ∷ syms) = let rest = non_blank syms in if text_eq (strip s) [] then rest else s ∷ rest

abbrev pub first_n : {A : Type 0} → ℕ → List A → List A
first_n zero xs = []
first_n (suc n) [] = []
first_n (suc n) (x ∷ xs) = x ∷ first_n n xs

-- The symbols of the request, 200 at most.
unfoldable pub requested : Text → List Text
unfolding split_commas
requested symbols = first_n 200 (map canonical_symbol (non_blank (split_commas symbols)))

-- `_set_edge_cache`, with the values that its callers leave as they are: how long an edge may keep a
-- reply, and how much longer while it fetches another.
unfoldable pub edge_cache : Bool → ℕ × ℕ
edge_cache is_open = if is_open then (2, 8) else (30, 120)

-- `keep`: the fields to which the quotes are cut down when they are written out; none is all of them.
unfoldable pub kept_fields : Text → Option (List Text)
unfolding split_commas
kept_fields [] = none
kept_fields (c ∷ fields) = some (codes "symbol" ∷ map strip (non_blank (split_commas (c ∷ fields))))

pub record BulkReply : Type 0 where
  pub count : ℕ
  pub failed : List Text
  pub sources : Dict ℕ
  pub quotes : List SbQuote
  pub keep : Option (List Text)
  pub cache_control : ℕ × ℕ

-- The quotes by symbol, before the backfill.
unfoldable pub gather_quotes :
    World → List Text → Text → Bool → Bool → Bool → Desk → Desk × Dict SbQuote
unfolding warm_all batch_quotes missing
gather_quotes w syms exchange enrich rich fast d =
    let warm = if enrich || rich then [] else warm_all w fast d syms [] in
    let fetch = missing syms warm in
    let (d', by) = batch_quotes w fetch exchange rich d in
    elim fetch as (λ x. Desk × Dict SbQuote) [
      | [] ↦ (d, warm)
      | s ∷ rest ↦ (d', update_all by warm)
    ]

-- The reply with the quotes by symbol.
unfoldable pub bulk_reply : Bool → List Text → Text → Dict SbQuote → BulkReply
unfolding answered count_sources missing edge_cache kept_fields
bulk_reply is_open syms fields by = record {
  count = length (answered syms by);
  failed = missing syms by;
  sources = count_sources (answered syms by) [];
  quotes = answered syms by;
  keep = kept_fields fields;
  cache_control = edge_cache is_open;
}

-- `sb_quotes` after its list of symbols has been read.
unfoldable pub reply_to :
    World → List Text → Text → Bool → Bool → Bool → Text → Desk → Desk × BulkReply
unfolding gather_quotes fill_open enrich_all bulk_reply
reply_to w syms exchange enrich rich fast fields d =
    let (d₁, by₁) = gather_quotes w syms exchange enrich rich fast d in
    let (d₂, by₂) = if rich || fast then (d₁, by₁) else fill_open w exchange by₁ d₁ in
    let (d₃, by₃) = if enrich then enrich_all w exchange by₂ d₂ by₂ else (d₂, by₂) in
    (d₃, bulk_reply w.is_open syms fields by₃)

-- `sb_quotes`; none is the error 400.
unfoldable pub sb_quotes :
    World → Text → Text → Bool → Bool → Bool → Text → Desk → Desk × Option BulkReply
unfolding requested reply_to
sb_quotes w symbols exchange enrich rich fast fields d =
    elim (requested symbols) as (λ x. Desk × Option BulkReply) [
      | [] ↦ (d, none)
      | s ∷ syms ↦
          let (d', reply) = reply_to w (s ∷ syms) exchange enrich rich fast fields d in
          (d', some reply)
    ]

-- `_warm_symbols`: the configured symbols and those of the watchlist.
abbrev pub add_new : List Text → List Text → List Text
add_new syms [] = syms
add_new syms (s ∷ watchlist) =
    if is_among s syms then add_new syms watchlist else add_new (syms ++ (s ∷ [])) watchlist

unfoldable pub warm_symbols : List Text → List Text → List Text
warm_symbols configured watchlist =
    first_n 200 (map canonical_symbol (add_new configured watchlist))

abbrev pub park_all : ℕ → Dict SbQuote → Dict (ℕ × SbQuote) → Dict (ℕ × SbQuote)
park_all now [] warm = warm
park_all now ((s, q) ∷ by) warm = park_all now by (insert s (now, q) warm)

-- `_warm_refresh_once`, with the number of quotes that it parks.
unfoldable pub warm_refresh_once : World → Bool → List Text → Desk → Desk × ℕ
unfolding batch_quotes fill_open
warm_refresh_once w warm_fast symbols d =
    let (d₁, by₁) = batch_quotes w symbols (codes "NSE") false d in
    let (d₂, by₂) = if warm_fast then (d₁, by₁) else fill_open w (codes "NSE") by₁ d₁ in
    (record d₂ { warm = park_all w.now by₂ d₂.warm }, length by₂)
