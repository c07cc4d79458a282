-- ===== src/Quotes/Batch.antt =====
-- The quote of one symbol and of many (src/api/endpoints/superbrain.py), run by one task from
-- beginning to end: what a caller finds when tasks interleave is in Quotes/Flight.
use bharat_ticker.Common.{
  ℕ, zero, suc, ◌+◌, ltb, leb, Bool, true, false, not, ◌&&◌, ◌||◌, Option, none, some, List, [],
  ◌∷◌, if◌then◌else◌,
}
use bharat_ticker.Common.Text.{Text, codes, text_eq, upper}
use bharat_ticker.Common.Dict.{Dict, lookup, insert, has_key}
use bharat_ticker.Common.Integers.{ℤ}
use bharat_ticker.Common.Symbols.{canonical_symbol, strip}
use bharat_ticker.Models.Tick.{Tick}
use bharat_ticker.Live.{Config, LiveCandleEngine, key_of, record_sample}
use bharat_ticker.Quotes.Shape.{
  Meta, no_meta, SbQuote, Row, sb_quote, sb_quote_from_tt, or_option, is_index,
}

-- What a call into the feeds gives: an exception, or a result if there is one.
pub data Outcome (A : Type 0) : Type 0 where
  raised : Outcome A
  got : Option A → Outcome A

abbrev pub result_of : {A : Type 0} → Outcome A → Option A
result_of Outcome.raised = none
result_of (Outcome.got x) = x

-- The clock, the feeds and the renderings that a request meets. `through` is `get_quote_through`, its
-- last argument `exclude_delayed`; `batch` is `tickertape.fetch_quotes`, `none` an exception.
pub record World : Type 0 where
  pub conf : Config
  pub now : ℕ
  pub now_iso : Text
  pub today : Text
  pub is_open : Bool
  pub lag : Text → Option ℤ
  pub round : ℕ → ℕ
  pub percent : ℤ → ℕ → ℤ
  pub through : Text → Text → Bool → Outcome Tick
  pub batch : List Text → Outcome (Dict Row)
  pub resolve : Text → Outcome Meta
  pub get_isin : Text → Option Text
  pub get_details : Text → Text → Outcome Meta
  pub live_ttl : ℕ
  pub warm_ttl : ℕ

-- The caches of the module, and the candle engine that a quote feeds.
pub record Desk : Type 0 where
  pub metas : Dict Meta
  pub live : Dict (ℕ × Tick)
  pub warm : Dict (ℕ × SbQuote)
  pub session_open : Dict (Text × ℕ)
  pub engine : LiveCandleEngine

unfoldable pub quote_of : World → Desk → Tick → SbQuote
quote_of w d = sb_quote d.metas w.is_open w.lag w.now_iso w.round

-- The name, the sector and so on of a symbol, if they are not known (`_enrich_meta`).
unfoldable pub enrich_meta : World → Text → Text → Desk → Desk
enrich_meta w symbol exchange d =
    let isin = w.get_isin symbol in
    let details =
      w.get_details symbol (if text_eq exchange (codes "BSE") then codes "bse" else codes "auto") in
    let fallback : Desk = elim (result_of details) [
      | some m ↦ record d {
        metas = insert symbol (record m { isin = or_option isin m.isin }) d.metas;
      }
      | none ↦ elim (or_option isin none) [
        | some i ↦ record d { metas = insert symbol (record no_meta { isin = some i }) d.metas }
        | none ↦ d
      ]
    ] in
    if has_key symbol d.metas then d else elim (result_of (w.resolve symbol)) [
      | none ↦ fallback
      | some m ↦ elim (or_option m.sector none) [
        | none ↦ fallback
        | some s ↦
            let known : Meta = record no_meta { name = m.name; sector = some s; isin = isin } in
            record d { metas = insert symbol known d.metas }
      ]
    ]

-- The end of `_do_live_fetch` with a tick: it feeds the candles of its own venue, and is cached.
unfoldable pub keep_tick : World → Text → Text → Tick → Desk → Desk
unfolding key_of record_sample
keep_tick w symbol exchange tick d =
    let engine : LiveCandleEngine =
      if text_eq tick.exchange (upper exchange)
      then record_sample w.conf symbol exchange (some tick.ltp) (some tick.volume) w.now
          (some tick.source) d.engine
      else d.engine in
    record d { engine = engine; live = insert (key_of symbol exchange) (w.now, tick) d.live }

abbrev pub fetched : World → Text → Text → Outcome Tick → Desk → Desk × Outcome Tick
fetched w symbol exchange Outcome.raised d = (d, Outcome.raised)
fetched w symbol exchange (Outcome.got none) d = (d, Outcome.got none)
fetched w symbol exchange (Outcome.got (some tick)) d =
    (keep_tick w symbol exchange tick d, Outcome.got (some tick))

-- `_do_live_fetch`: delayed feeds only when the market is shut.
unfoldable pub do_live_fetch : World → Text → Text → Desk → Desk × Outcome Tick
unfolding keep_tick
do_live_fetch w symbol exchange d =
    elim (w.through symbol exchange true) as (λ x. Desk × Outcome Tick) [
      | Outcome.raised ↦ (d, Outcome.raised)
      | Outcome.got (some tick) ↦ fetched w symbol exchange (Outcome.got (some tick)) d
      | Outcome.got none ↦
          if w.is_open
          then (d, Outcome.got none)
          else fetched w symbol exchange (w.through symbol exchange false) d
    ]

-- `_live_quote`
unfoldable pub live_quote : World → Text → Text → Desk → Desk × Outcome Tick
unfolding do_live_fetch key_of
live_quote w symbol exchange d =
    elim (lookup (key_of symbol exchange) d.live) as (λ x. Desk × Outcome Tick) [
      | none ↦ do_live_fetch w symbol exchange d
      | some (t, tick) ↦
          if ltb w.now (t + w.live_ttl)
          then (d, Outcome.got (some tick))
          else do_live_fetch w symbol exchange d
    ]

-- What `sb_quote` answers: an index and a missing quote are errors 400 and 404; a symbol that was
-- renamed is told.
pub data Reply : Type 0 where
  bad_request : Reply
  not_found : Reply
  failed : Reply
  quote : SbQuote → Option Text → Reply

unfoldable pub sb_quote_reply : World → Text → Text → Bool → Desk → Desk × Reply
unfolding live_quote enrich_meta quote_of
sb_quote_reply w symbol exchange enrich d =
    let original = upper (strip symbol) in
    let s = canonical_symbol symbol in
    let d' = if enrich then enrich_meta w s exchange d else d in
    let (d'', outcome) = live_quote w s exchange d' in
    if is_index original then (d, Reply.bad_request) else elim outcome as (λ x. Desk × Reply) [
      | Outcome.raised ↦ (d'', Reply.failed)
      | Outcome.got none ↦ (d'', Reply.not_found)
      | Outcome.got (some tick) ↦ (
        d'',
        Reply.quote (quote_of w d'' tick) (if text_eq s original then none else some original),
      )
    ]

-- `_warm_get`. The exchange of the request is no argument of it.
unfoldable pub warm_get : World → Text → Bool → Bool → Desk → Option SbQuote
warm_get w symbol rich fast d = elim (lookup symbol d.warm) [
  | none ↦ none
  | some (t, q) ↦
      if leb (t + w.warm_ttl) w.now || rich
      then none
      else (elim q.open_price [ none ↦ if fast then some q else none | some _ ↦ some q ])
]

abbrev pub or_row : Option Row → Option Row → Option Row
or_row none r = r
or_row (some q) r = some q

-- The row of a symbol, if it has a price that is not zero.
unfoldable pub priced_row : Dict Row → Text → Option Row
priced_row rows s = elim (or_row (lookup s rows) (lookup (upper s) rows)) [
  | none ↦ none
  | some row ↦ elim row.price [ none ↦ none | some zero ↦ none | some (suc p) ↦ some row ]
]

-- The loop of `_batch_quotes` over the rows.
unfoldable pub from_rows : World → Desk → Dict Row → List Text → Dict SbQuote → Dict SbQuote
unfolding priced_row
from_rows w d rows [] by = by
from_rows w d rows (s ∷ syms) by = elim (priced_row rows s) [
  | none ↦ from_rows w d rows syms by
  | some row ↦
      from_rows w d rows syms
        (insert s (sb_quote_from_tt d.metas w.is_open w.lag w.now_iso w.percent s row) by)
]

-- `[s for s in syms if s not in by_sym]`
unfoldable pub missing : {V : Type 0} → List Text → Dict V → List Text
missing [] by = []
missing (s ∷ syms) by = let rest = missing syms by in if has_key s by then rest else s ∷ rest

-- The fan-out over the symbols that the batch missed: each one's tick, if there is one.
unfoldable pub fan_out : World → Text → List Text → Desk → Desk × List (Text × Option Tick)
unfolding live_quote
fan_out w exchange [] d = (d, [])
fan_out w exchange (s ∷ syms) d =
    let (d', outcome) = live_quote w s exchange d in
    let (d'', rest) = fan_out w exchange syms d' in (d'', (s, result_of outcome) ∷ rest)

unfoldable pub add_ticks : World → Desk → List (Text × Option Tick) → Dict SbQuote → Dict SbQuote
unfolding quote_of
add_ticks w d [] by = by
add_ticks w d ((s, none) ∷ ticks) by = add_ticks w d ticks by
add_ticks w d ((s, some tick) ∷ ticks) by = add_ticks w d ticks (insert s (quote_of w d tick) by)

-- `_batch_quotes`
unfoldable pub batch_quotes : World → List Text → Text → Bool → Desk → Desk × Dict SbQuote
unfolding from_rows missing fan_out add_ticks
batch_quotes w syms exchange rich d =
    let rows : Dict Row = elim (result_of (w.batch syms)) [ none ↦ [] | some r ↦ r ] in
    let by =
      if text_eq exchange (codes "NSE") && not rich then from_rows w d rows syms [] else [] in
    let (d', ticks) = fan_out w exchange (missing syms by) d in (d', add_ticks w d' ticks by)
