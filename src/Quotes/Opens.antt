-- ===== src/Quotes/Opens.antt =====
-- The backfill of the session's open, and the warm quotes (src/api/endpoints/superbrain.py).
use bharat_ticker.Common.{
  ◌≡◌, refl, ◌∙◌, ap, Bool, true, false, Option, none, some, List, [], ◌∷◌, All, arith, Bool-cases,
  Option-cases, inl, inr,
}
use bharat_ticker.Common.Text.{Text, text_eq, text_eq_refl, text_eq→eq}
use bharat_ticker.Common.Dict.{Dict, lookup, insert}
use bharat_ticker.Common.Keys.{HasDistinctKeys}
use bharat_ticker.Models.Tick.{Tick}
use bharat_ticker.Quotes.Shape.{SbQuote, is_among}
use bharat_ticker.Quotes.Batch.{World, Desk, live_quote, missing, fan_out, quote_of}
use bharat_ticker.Quotes.Bulk.{
  amend, with_open, known_open, use_cached, fill_rich, use_fetched, fill_open, warm_all,
  gather_quotes, reply_to,
}

lookup-amend_ne :
    (s k : Text) (f : SbQuote → SbQuote) (by : Dict SbQuote)
    → text_eq s k ≡ false
    → lookup s (amend k f by) ≡ lookup s by
unfolding lookup amend
lookup-amend_ne s k f [] h = refl
lookup-amend_ne s k f ((j, q) ∷ by) h = elim (Bool-cases (text_eq s j)) [
  | inl e ↦
      let other : text_eq k j ≡ false =
        ground (arith, h, text_eq→eq s j e, text_eq→eq k j, text_eq_refl s) in
      rw (e, other) refl
  | inr e ↦ rw e (lookup-amend_ne s k f by h)
]

-- The entries of `s` have an open.
abbrev IsSettled : Text → Dict SbQuote → Type 0
IsSettled s = All (λ x. (text_eq s x.0 ≡ true) → ¬ (x.1.open_price ≡ none))

abbrev keys : {V : Type 0} → List (Text × V) → List Text
keys [] = []
keys ((k, v) ∷ xs) = k ∷ keys xs

use_cached-other :
    (s today : Text) (d : Desk) (rest by : Dict SbQuote)
    → IsSettled s rest
    → (lookup s (use_cached today d rest by).0 ≡ lookup s by)
      × (is_among s (use_cached today d rest by).1 ≡ false)
unfolding use_cached
use_cached-other s today d [] by h = (refl, refl)
use_cached-other s today d ((k, q) ∷ rest) by h = elim (Option-cases q.open_price) [
  | inr (o, e) ↦ rw (use_cached, e) (use_cached-other s today d rest by h.1)
  | inl e ↦
      let other : text_eq s k ≡ false = elim (Bool-cases (text_eq s k)) [
        | inl t ↦ absurd (h.0 t e)
        | inr t ↦ t
      ] in
      elim (Option-cases (known_open today k d)) [
        | inr (o, f) ↦
            let (a, b) = use_cached-other s today d rest (amend k (with_open o) by) h.1 in
            rw (use_cached, e, f) (a ∙ lookup-amend_ne s k (with_open o) by other, b)
        | inl f ↦
            let (a, b) = use_cached-other s today d rest by h.1 in
            rw (use_cached, e, f) (a, rw other b)
      ]
]

keys-fan_out :
    (w : World) (exchange : Text) (syms : List Text) (d : Desk)
    → keys (fan_out w exchange syms d).1 ≡ syms
unfolding fan_out
keys-fan_out w exchange [] d = refl
keys-fan_out w exchange (s ∷ syms) d =
    ap (λ ks. s ∷ ks) (keys-fan_out w exchange syms (live_quote w s exchange d).0)

use_fetched-other :
    (s : Text) (w : World) (ticks : List (Text × Option Tick)) (d : Desk) (by : Dict SbQuote)
    → is_among s (keys ticks) ≡ false
    → lookup s (use_fetched w ticks d by).1 ≡ lookup s by
unfolding use_fetched
use_fetched-other s w [] d by h = refl
use_fetched-other s w ((k, none) ∷ ticks) d by h =
    use_fetched-other s w ticks d by (ground (arith, h))
use_fetched-other s w ((k, some tick) ∷ ticks) d by h =
    let d' : Desk = record d {
      session_open = insert k (w.today, tick.open_price) d.session_open;
    } in
    let f = fill_rich tick.open_price (quote_of w d tick) in
    use_fetched-other s w ticks d' (amend k f by) (ground (arith, h))
    ∙ lookup-amend_ne s k f by (ground (arith, h))

IsSettled-absent : (s : Text) (by : Dict SbQuote) → lookup s by ≡ none → IsSettled s by
unfolding lookup
IsSettled-absent s [] h = tt
IsSettled-absent s ((k, r) ∷ by) h = elim (Bool-cases (text_eq s k)) [
  | inl e ↦ absurd (ground (arith, e, h))
  | inr e ↦
      let gone : lookup s by ≡ none = rw e at h in
      (λ t z. absurd (grind (arith, e, t)), IsSettled-absent s by gone)
]

settled :
    (s : Text) (q : SbQuote) (by : Dict SbQuote)
    → HasDistinctKeys by
    → lookup s by ≡ some q
    → ¬ (q.open_price ≡ none)
    → IsSettled s by
unfolding lookup
settled s q [] u h n = tt
settled s q ((k, r) ∷ by) u h n = elim (Bool-cases (text_eq s k)) [
  | inl e ↦
      let found : some r ≡ some q = rw e at h in
      let gone : lookup s by ≡ none = rw (text_eq→eq s k e) u.0 in
      (λ t z. n (grind (arith, found, z)), IsSettled-absent s by gone)
  | inr e ↦
      let found : lookup s by ≡ some q = rw e at h in
      (λ t z. absurd (grind (arith, e, t)), settled s q by u.1 found n)
]

-- The backfill leaves a quote that has the session's open as it is.
pub fill_open-keeps :
    (w : World) (exchange s : Text) (q : SbQuote) (by : Dict SbQuote) (d : Desk)
    → HasDistinctKeys by
    → lookup s by ≡ some q
    → ¬ (q.open_price ≡ none)
    → lookup s (fill_open w exchange by d).1 ≡ some q
unfolding fill_open
fill_open-keeps w exchange s q by d u h n =
    let (a, b) = use_cached-other s w.today d by by (settled s q by u h n) in
    let fetch = (use_cached w.today d by by).1 in
    let here : is_among s (keys (fan_out w exchange fetch d).1) ≡ false =
      rw (keys-fan_out w exchange fetch d) b in
    use_fetched-other s w (fan_out w exchange fetch d).1 (fan_out w exchange fetch d).0
      (use_cached w.today d by by).0 here
    ∙ a
    ∙ h

gather-warm :
    (w : World) (syms : List Text) (exchange : Text) (fast : Bool) (d : Desk)
    → missing syms (warm_all w fast d syms []) ≡ []
    → gather_quotes w syms exchange false false fast d ≡ (d, warm_all w fast d syms [])
unfolding gather_quotes
gather-warm w syms exchange fast d h = rw (gather_quotes, h) refl

-- When all symbols have a warm quote, a request for prices only gets one answer whatever exchange it
-- asks for.
pub warm_answer :
    (w : World) (syms : List Text) (exchange other fields : Text) (d : Desk)
    → missing syms (warm_all w true d syms []) ≡ []
    → (reply_to w syms exchange false false true fields d).1
      ≡ (reply_to w syms other false false true fields d).1
unfolding reply_to
warm_answer w syms exchange other fields d h =
    rw (gather-warm w syms exchange true d h, gather-warm w syms other true d h) refl
