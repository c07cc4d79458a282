-- ===== src/Quotes/Cores.antt =====
-- What the backfill and the enrichment leave of a quote (src/api/endpoints/superbrain.py).
use bharat_ticker.Common.{
  ◌≡◌, refl, ◌∙◌, ap, Bool, true, false, Option, none, some, List, [], ◌∷◌, All, map, if◌then◌else◌,
  arith, Bool-cases, Option-cases, inl, inr,
}
use bharat_ticker.Common.Text.{Text, text_eq}
use bharat_ticker.Common.Dict.{Dict, lookup, insert, has_key}
use mathlib.Core.Option.{some-injective}
use mathlib.Core.Path.{sym}
use bharat_ticker.Models.Tick.{Tick}
use bharat_ticker.Quotes.Shape.{SbQuote}
use bharat_ticker.Quotes.Batch.{World, Desk, enrich_meta, quote_of, missing, fan_out}
use bharat_ticker.Quotes.Bulk.{
  amend, with_open, known_open, use_cached, fill_rich, use_fetched, fill_open, name_quote,
  enrich_all, answered,
}

-- A quote without what is filled in later: the name, the sector, the open, the circuits, the range of 52
-- weeks and the average price.
abbrev pub core : SbQuote → SbQuote
core q = record q {
  company_name = [];
  sector = none;
  open_price = none;
  upper_circuit = none;
  lower_circuit = none;
  week_52_high = none;
  week_52_low = none;
  vwap = none;
}

unfoldable pub cores : Dict SbQuote → Dict SbQuote
cores [] = []
cores ((s, q) ∷ by) = (s, core q) ∷ cores by

amend_one :
    (here : Bool) (f : SbQuote → SbQuote) (q : SbQuote)
    → core (f q) ≡ core q
    → core (if here then f q else q) ≡ core q
amend_one true f q h = h
amend_one false f q h = refl

cores-amend :
    (s : Text) (f : SbQuote → SbQuote) (by : Dict SbQuote)
    → ((q : SbQuote) → core (f q) ≡ core q)
    → cores (amend s f by) ≡ cores by
unfolding cores amend
cores-amend s f [] h = refl
cores-amend s f ((k, q) ∷ by) h =
    ap (λ c. (k, c) ∷ cores (amend s f by)) (amend_one (text_eq s k) f q (h q))
    ∙ ap (λ rest. (k, core q) ∷ rest) (cores-amend s f by h)

cores-use_cached :
    (today : Text) (d : Desk) (rest by : Dict SbQuote)
    → cores (use_cached today d rest by).0 ≡ cores by
unfolding use_cached
cores-use_cached today d [] by = refl
cores-use_cached today d ((k, q) ∷ rest) by = elim (Option-cases q.open_price) [
  | inr (o, e) ↦ rw (use_cached, e) (cores-use_cached today d rest by)
  | inl e ↦ elim (Option-cases (known_open today k d)) [
    | inl f ↦ rw (use_cached, e, f) (cores-use_cached today d rest by)
    | inr (o, f) ↦
        rw (use_cached, e, f)
          (cores-use_cached today d rest (amend k (with_open o) by)
            ∙ cores-amend k (with_open o) by (λ r. refl))
  ]
]

cores-use_fetched :
    (w : World) (ticks : List (Text × Option Tick)) (d : Desk) (by : Dict SbQuote)
    → cores (use_fetched w ticks d by).1 ≡ cores by
unfolding use_fetched fill_rich
cores-use_fetched w [] d by = refl
cores-use_fetched w ((k, none) ∷ ticks) d by = cores-use_fetched w ticks d by
cores-use_fetched w ((k, some tick) ∷ ticks) d by =
    let d' : Desk = record d {
      session_open = insert k (w.today, tick.open_price) d.session_open;
    } in
    let f = fill_rich tick.open_price (quote_of w d tick) in
    cores-use_fetched w ticks d' (amend k f by) ∙ cores-amend k f by (λ r. refl)

pub cores-fill_open :
    (w : World) (exchange : Text) (by : Dict SbQuote) (d : Desk)
    → cores (fill_open w exchange by d).1 ≡ cores by
unfolding fill_open
cores-fill_open w exchange by d =
    let x = use_cached w.today d by by in
    let y = fan_out w exchange x.1 d in
    cores-use_fetched w y.1 y.0 x.0 ∙ cores-use_cached w.today d by by

pub cores-enrich_all :
    (w : World) (exchange : Text) (rest : Dict SbQuote) (d : Desk) (by : Dict SbQuote)
    → cores (enrich_all w exchange rest d by).1 ≡ cores by
unfolding enrich_all name_quote
cores-enrich_all w exchange [] d by = refl
cores-enrich_all w exchange ((s, q) ∷ rest) d by =
    let d' = enrich_meta w s exchange d in
    elim (Option-cases (lookup s d'.metas)) [
      | inl e ↦ rw (enrich_all, e) (cores-enrich_all w exchange rest d' by)
      | inr (m, e) ↦
          rw (enrich_all, e)
            (cores-enrich_all w exchange rest d' (amend s (name_quote m) by)
              ∙ cores-amend s (name_quote m) by (λ r. refl))
    ]

-- The quotes that a search finds, and the symbols that it does not.
abbrev pub one_found : Option SbQuote → List SbQuote → List SbQuote
one_found none rest = rest
one_found (some q) rest = q ∷ rest

abbrev pub found_quotes : (Text → Option SbQuote) → List Text → List SbQuote
found_quotes found [] = []
found_quotes found (s ∷ syms) = one_found (found s) (found_quotes found syms)

abbrev pub one_lost : Option SbQuote → Text → List Text → List Text
one_lost none s rest = s ∷ rest
one_lost (some q) s rest = rest

abbrev pub lost_symbols : (Text → Option SbQuote) → List Text → List Text
lost_symbols found [] = []
lost_symbols found (s ∷ syms) = one_lost (found s) s (lost_symbols found syms)

abbrev pub core_of : Option SbQuote → Option SbQuote
core_of none = none
core_of (some q) = some (core q)

lookup-cores : (s : Text) (by : Dict SbQuote) → lookup s (cores by) ≡ core_of (lookup s by)
unfolding lookup cores
lookup-cores s [] = refl
lookup-cores s ((k, q) ∷ by) = elim (Bool-cases (text_eq s k)) [
  | inl e ↦ rw e refl
  | inr e ↦ rw e (lookup-cores s by)
]

-- Two dictionaries with one core find one core.
pub core_of-lookup :
    (s : Text) (by by' : Dict SbQuote)
    → cores by ≡ cores by'
    → core_of (lookup s by) ≡ core_of (lookup s by')
core_of-lookup s by by' h = sym (lookup-cores s by) ∙ ap (lookup s) h ∙ lookup-cores s by'

one_found-core :
    (x y : Option SbQuote) (xs ys : List SbQuote)
    → core_of x ≡ core_of y
    → map core xs ≡ map core ys
    → map core (one_found x xs) ≡ map core (one_found y ys)
one_found-core none none xs ys h k = k
one_found-core none (some y) xs ys h k = absurd (grind (arith, h))
one_found-core (some x) none xs ys h k = absurd (grind (arith, h))
one_found-core (some x) (some y) xs ys h k =
    let same : core x ≡ core y = some-injective _ _ h in
    ap (λ c. c ∷ map core xs) same ∙ ap (λ cs. core y ∷ cs) k

pub answered-core :
    (found : Text → Option SbQuote) (syms : List Text) (by : Dict SbQuote)
    → All (λ s. core_of (lookup s by) ≡ core_of (found s)) syms
    → map core (answered syms by) ≡ map core (found_quotes found syms)
unfolding answered
answered-core found [] by h = refl
answered-core found (s ∷ syms) by h =
    let step =
      one_found-core (lookup s by) (found s) (answered syms by) (found_quotes found syms) h.0
        (answered-core found syms by h.1) in
    elim (Option-cases (lookup s by)) [
      | inl e ↦ rw (answered, e) (rw e at step)
      | inr (q, e) ↦ rw (answered, e) (rw e at step)
    ]

one_lost-core :
    (x y : Option SbQuote) (s : Text) (rest : List Text)
    → core_of x ≡ core_of y
    → one_lost x s rest ≡ one_lost y s rest
one_lost-core none none s rest h = refl
one_lost-core none (some y) s rest h = absurd (grind (arith, h))
one_lost-core (some x) none s rest h = absurd (grind (arith, h))
one_lost-core (some x) (some y) s rest h = refl

pub missing-core :
    (found : Text → Option SbQuote) (syms : List Text) (by : Dict SbQuote)
    → All (λ s. core_of (lookup s by) ≡ core_of (found s)) syms
    → missing syms by ≡ lost_symbols found syms
unfolding missing has_key
missing-core found [] by h = refl
missing-core found (s ∷ syms) by h =
    let ih = missing-core found syms by h.1 in
    let step = one_lost-core (lookup s by) (found s) s (lost_symbols found syms) h.0 in
    elim (Option-cases (lookup s by)) [
      | inl e ↦ rw (missing, has_key, e) (ap (λ l. s ∷ l) ih ∙ (rw e at step))
      | inr (q, e) ↦ rw (missing, has_key, e) (ih ∙ (rw e at step))
    ]
