-- ===== src/Quotes/Gathered.antt =====
-- Where the quotes of the bulk endpoint come from: a warm quote, or else the batch
-- (src/api/endpoints/superbrain.py).
use bharat_ticker.Common.{
  ◌≡◌, refl, ◌∙◌, ap, Bool, true, false, not, ◌&&◌, ◌||◌, Option, none, some, List, [], ◌∷◌, All,
  if◌then◌else◌, arith, Bool-cases, Option-cases, inl, inr, ◌⊎◌,
}
use bharat_ticker.Common.Text.{Text, codes, text_eq, text_eq→eq, text_eq_refl}
use bharat_ticker.Common.Dict.{Dict, lookup, insert, lookup-insert_self, lookup-insert_ne}
use bharat_ticker.Common.Keys.{HasDistinctKeys}
use bharat_ticker.Models.Tick.{Tick}
use bharat_ticker.Quotes.Shape.{SbQuote, Row, sb_quote_from_tt}
use bharat_ticker.Quotes.Batch.{
  World, Desk, warm_get, result_of, quote_of, priced_row, from_rows, missing, fan_out, add_ticks,
  batch_quotes,
}
use bharat_ticker.Quotes.Cores.{core_of, lost_symbols, missing-core}
use bharat_ticker.Quotes.Bulk.{warm_all, update_all, gather_quotes}
use mathlib.Core.Path.{subst, sym}

insert-HasDistinctKeys :
    (k : Text) (q : SbQuote) (by : Dict SbQuote)
    → HasDistinctKeys by
    → HasDistinctKeys (insert k q by)
unfolding insert lookup
insert-HasDistinctKeys k q [] u = (refl, tt)
insert-HasDistinctKeys k q ((j, r) ∷ by) u = elim (Bool-cases (text_eq k j)) [
  | inl e ↦ rw e u
  | inr e ↦
      let other : text_eq j k ≡ false = ground (arith, e, text_eq→eq j k, text_eq_refl j) in
      rw e (lookup-insert_ne j k q by other ∙ u.0, insert-HasDistinctKeys k q by u.1)
]

from_rows-HasDistinctKeys :
    (w : World) (d : Desk) (rows : Dict Row) (syms : List Text) (by : Dict SbQuote)
    → HasDistinctKeys by
    → HasDistinctKeys (from_rows w d rows syms by)
unfolding from_rows
from_rows-HasDistinctKeys w d rows [] by u = u
from_rows-HasDistinctKeys w d rows (s ∷ syms) by u = elim (Option-cases (priced_row rows s)) [
  | inl e ↦ rw (from_rows, e) (from_rows-HasDistinctKeys w d rows syms by u)
  | inr (row, e) ↦
      let q = sb_quote_from_tt d.metas w.is_open w.lag w.now_iso w.percent s row in
      rw (from_rows, e)
        (from_rows-HasDistinctKeys w d rows syms (insert s q by) (insert-HasDistinctKeys s q by u))
]

add_ticks-HasDistinctKeys :
    (w : World) (d : Desk) (ticks : List (Text × Option Tick)) (by : Dict SbQuote)
    → HasDistinctKeys by
    → HasDistinctKeys (add_ticks w d ticks by)
unfolding add_ticks
add_ticks-HasDistinctKeys w d [] by u = u
add_ticks-HasDistinctKeys w d ((s, none) ∷ ticks) by u = add_ticks-HasDistinctKeys w d ticks by u
add_ticks-HasDistinctKeys w d ((s, some tick) ∷ ticks) by u =
    add_ticks-HasDistinctKeys w d ticks (insert s (quote_of w d tick) by)
      (insert-HasDistinctKeys s (quote_of w d tick) by u)

or_nothing-HasDistinctKeys :
    (here : Bool) (by : Dict SbQuote)
    → HasDistinctKeys by
    → HasDistinctKeys (if here then by else [])
or_nothing-HasDistinctKeys true by u = u
or_nothing-HasDistinctKeys false by u = tt

batch_quotes-HasDistinctKeys :
    (w : World) (syms : List Text) (exchange : Text) (rich : Bool) (d : Desk)
    → HasDistinctKeys (batch_quotes w syms exchange rich d).1
unfolding batch_quotes
batch_quotes-HasDistinctKeys w syms exchange rich d =
    let rows : Dict Row = elim (result_of (w.batch syms)) [ none ↦ [] | some r ↦ r ] in
    let here = text_eq exchange (codes "NSE") && not rich in
    let by : Dict SbQuote = if here then from_rows w d rows syms [] else [] in
    let u : HasDistinctKeys by =
      or_nothing-HasDistinctKeys here (from_rows w d rows syms [])
        (from_rows-HasDistinctKeys w d rows syms [] tt) in
    let x = fan_out w exchange (missing syms by) d in add_ticks-HasDistinctKeys w x.0 x.1 by u

batch_quotes-nothing :
    (w : World) (exchange : Text) (rich : Bool) (d : Desk)
    → (batch_quotes w [] exchange rich d).1 ≡ []
unfolding batch_quotes missing fan_out add_ticks from_rows
batch_quotes-nothing w exchange rich d =
    elim (Bool-cases (text_eq exchange (codes "NSE") && not rich)) [
      | inl e ↦ rw e refl
      | inr e ↦ rw e refl
    ]

abbrev pub or_quote : Option SbQuote → Option SbQuote → Option SbQuote
or_quote none y = y
or_quote (some x) y = some x

lookup-update_all :
    (s : Text) (by warm : Dict SbQuote)
    → HasDistinctKeys by
    → lookup s (update_all by warm) ≡ or_quote (lookup s by) (lookup s warm)
unfolding lookup
lookup-update_all s [] warm u = refl
lookup-update_all s ((k, q) ∷ by) warm u =
    let ih = lookup-update_all s by (insert k q warm) u.1 in
    elim (Bool-cases (text_eq s k)) [
      | inl e ↦
          let gone : lookup s by ≡ none = rw (text_eq→eq s k e) u.0 in
          let mine : lookup s (insert k q warm) ≡ some q =
            rw (text_eq→eq s k e) (lookup-insert_self k q warm) in
          rw e (ih ∙ rw (gone, mine) refl)
      | inr e ↦ rw e (ih ∙ ap (or_quote (lookup s by)) (lookup-insert_ne s k q warm e))
    ]

-- The warm quote that a request may use: none if it asks for more than prices.
abbrev pub warm_one : World → Bool → Bool → Bool → Desk → Text → Option SbQuote
warm_one w enrich rich fast d s = if enrich || rich then none else warm_get w s false fast d

-- The quote of a symbol: the batch is asked for the symbols without a warm quote.
abbrev pub sought : World → List Text → Text → Bool → Bool → Bool → Desk → Text → Option SbQuote
sought w syms exchange enrich rich fast d s =
    let cold = lost_symbols (warm_one w enrich rich fast d) syms in
    or_quote (lookup s (batch_quotes w cold exchange rich d).1) (warm_one w enrich rich fast d s)

module _ (w : World) (fast : Bool) (d : Desk) where
  warm_all-known :
      (s : Text) (syms : List Text) (by : Dict SbQuote)
      → lookup s by ≡ warm_get w s false fast d
      → lookup s (warm_all w fast d syms by) ≡ warm_get w s false fast d
  unfolding warm_all
  warm_all-known s [] by h = h
  warm_all-known s (k ∷ syms) by h = elim (Option-cases (warm_get w k false fast d)) [
    | inl e ↦ rw (warm_all, e) (warm_all-known s syms by h)
    | inr (q, e) ↦
        let h' : lookup s (insert k q by) ≡ warm_get w s false fast d =
          elim (Bool-cases (text_eq s k)) [
            | inr n ↦ lookup-insert_ne s k q by n ∙ h
            | inl t ↦
                subst (λ x. lookup x (insert k q by) ≡ warm_get w x false fast d)
                  (sym (text_eq→eq s k t)) (lookup-insert_self k q by ∙ sym e)
          ] in
        rw (warm_all, e) (warm_all-known s syms (insert k q by) h')
  ]

  -- What is there is warm.
  abbrev IsWarm : Dict SbQuote → Type 0
  IsWarm by = (s : Text) → (lookup s by ≡ none) ⊎ (lookup s by ≡ warm_get w s false fast d)

  insert-IsWarm :
      (k : Text) (q : SbQuote) (by : Dict SbQuote)
      → warm_get w k false fast d ≡ some q
      → IsWarm by
      → IsWarm (insert k q by)
  insert-IsWarm k q by e h s = elim (Bool-cases (text_eq s k)) [
    | inl t ↦ inr (
        subst (λ x. lookup x (insert k q by) ≡ warm_get w x false fast d) (sym (text_eq→eq s k t))
          (lookup-insert_self k q by ∙ sym e))
    | inr n ↦ elim (h s) [
      | inl a ↦ inl (lookup-insert_ne s k q by n ∙ a)
      | inr a ↦ inr (lookup-insert_ne s k q by n ∙ a)
    ]
  ]

  abbrev AreWarm : List Text → Dict SbQuote → Type 0
  AreWarm syms by = All (λ s. lookup s by ≡ warm_get w s false fast d) syms

  warm_all-cold :
      (s : Text) (syms : List Text) (by : Dict SbQuote)
      → warm_get w s false fast d ≡ none
      → warm_all w fast d (s ∷ syms) by ≡ warm_all w fast d syms by
  unfolding warm_all
  warm_all-cold s syms by e = rw (warm_all, e) refl

  warm_all-warm :
      (s : Text) (syms : List Text) (by : Dict SbQuote) (q : SbQuote)
      → warm_get w s false fast d ≡ some q
      → warm_all w fast d (s ∷ syms) by ≡ warm_all w fast d syms (insert s q by)
  unfolding warm_all
  warm_all-warm s syms by q e = rw (warm_all, e) refl

  warm_all-found :
      (syms : List Text) (by : Dict SbQuote) → IsWarm by → AreWarm syms (warm_all w fast d syms by)
  warm_all-found [] by h = tt
  warm_all-found (s ∷ syms) by h = elim (Option-cases (warm_get w s false fast d)) [
    | inl e ↦
        let here : lookup s by ≡ warm_get w s false fast d = elim (h s) [
          | inl a ↦ a ∙ sym e
          | inr a ↦ a
        ] in
        subst (AreWarm (s ∷ syms)) (sym (warm_all-cold s syms by e))
          (warm_all-known s syms by here, warm_all-found syms by h)
    | inr (q, e) ↦
        let here : lookup s (insert s q by) ≡ warm_get w s false fast d =
          lookup-insert_self s q by ∙ sym e in
        subst (AreWarm (s ∷ syms)) (sym (warm_all-warm s syms by q e)) (
          warm_all-known s syms (insert s q by) here,
          warm_all-found syms (insert s q by) (insert-IsWarm s q by e h),
        )
  ]

no_warm : (syms : List Text) → All (λ s. lookup {V = SbQuote} s [] ≡ none) syms
unfolding lookup
no_warm [] = tt
no_warm (s ∷ syms) = (refl, no_warm syms)

-- The warm quotes as `gather_quotes` finds them.
abbrev warm_of : World → List Text → Bool → Bool → Bool → Desk → Dict SbQuote
warm_of w syms enrich rich fast d = if enrich || rich then [] else warm_all w fast d syms []

warm_of-found :
    (w : World) (syms : List Text) (enrich rich fast : Bool) (d : Desk)
    → All (λ s. lookup s (warm_of w syms enrich rich fast d) ≡ warm_one w enrich rich fast d s) syms
unfolding lookup
warm_of-found w syms enrich rich fast d = elim (Bool-cases (enrich || rich)) [
  | inl e ↦ rw e (no_warm syms)
  | inr e ↦ rw e (warm_all-found w fast d syms [] (λ s. inl refl))
]

gathered :
    (w : World) (exchange : Text) (rich : Bool) (d : Desk) (warm : Dict SbQuote) (fetch : List Text)
    (s : Text)
    → lookup s
        (elim fetch as (λ x. Desk × Dict SbQuote) [
          | [] ↦ (d, warm)
          | k ∷ rest ↦ (
            (batch_quotes w fetch exchange rich d).0,
            update_all (batch_quotes w fetch exchange rich d).1 warm,
          )
        ]).1
      ≡ or_quote (lookup s (batch_quotes w fetch exchange rich d).1) (lookup s warm)
unfolding lookup
gathered w exchange rich d warm [] s = rw (batch_quotes-nothing w exchange rich d) refl
gathered w exchange rich d warm (k ∷ rest) s =
    lookup-update_all s (batch_quotes w (k ∷ rest) exchange rich d).1 warm
      (batch_quotes-HasDistinctKeys w (k ∷ rest) exchange rich d)

pub All-map :
    {P Q : Text → Type 0} (syms : List Text) → ((s : Text) → P s → Q s) → All P syms → All Q syms
All-map [] f a = tt
All-map (s ∷ syms) f a = (f s a.0, All-map syms f a.1)

-- Every symbol is found where it is sought.
pub lookup-gather_quotes :
    (w : World) (syms : List Text) (exchange : Text) (enrich rich fast : Bool) (d : Desk)
    → All
        (λ s.
          lookup s (gather_quotes w syms exchange enrich rich fast d).1
          ≡ sought w syms exchange enrich rich fast d s)
        syms
unfolding gather_quotes
lookup-gather_quotes w syms exchange enrich rich fast d =
    let warm = warm_of w syms enrich rich fast d in
    let one = warm_one w enrich rich fast d in
    let found = warm_of-found w syms enrich rich fast d in
    let cold : missing syms warm ≡ lost_symbols one syms =
      missing-core one syms warm (All-map syms (λ s h. ap core_of h) found) in
    All-map syms
      (λ s h.
        gathered w exchange rich d warm (missing syms warm) s
        ∙ ap (or_quote (lookup s (batch_quotes w (missing syms warm) exchange rich d).1)) h
        ∙ ap (λ l. or_quote (lookup s (batch_quotes w l exchange rich d).1) (one s)) cold)
      found
