-- ===== src/Failover/Eligible.antt =====
-- From which providers a quote of src/engine/failover.py can come: never a disabled one, never one of
-- another venue than the pinned one or another source than the forced one, never a delayed feed in a
-- live query.
use bharat_ticker.Common.{
  ◌≡◌, Bool, true, false, List, [], ◌∷◌, Any, arith, inl, inr, ◌∙◌, sym, Option-cases, Bool-cases,
}
use bharat_ticker.Common.Text.{Text, text_eq→eq}
use bharat_ticker.Common.Dict.{Dict, lookup, get_or}
use bharat_ticker.Breaker.{Breaker, Outcome, returned, raised, cancelled}
use bharat_ticker.Failover.Provider.{Provider, Attempt, source_match}
use bharat_ticker.Failover.Cascade.{
  Controller, Query, Result, quote, Verdict, skipped, errored, won, interrupted, keyless, skips,
  forced, truthy, given, visit, follow, cascade, fetch_quote, mark,
}
use bharat_ticker.Failover.Refinement.{visit-verdict, visit-keyless, of_outcome}

-- Who may serve a query, in the terms of the documentation of `fetch_quote`.
pub record IsEligible (q : Query) (enabled : Dict Bool) (p : Provider) : Type 0 where
  pub is_enabled : get_or p.name true enabled ≡ true
  pub on_venue : truthy q.exchange ≡ true → p.exchange ≡ given q.exchange
  pub from_source : forced q ≡ true → source_match p (given q.source) ≡ true
  pub not_delayed : q.exclude_delayed ≡ true → forced q ≡ false → p.delayed ≡ false

skips-IsEligible :
    (q : Query) (enabled : Dict Bool) (p : Provider)
    → skips q enabled p ≡ false
    → IsEligible q enabled p
unfolding skips
skips-IsEligible q enabled p h = record {
  is_enabled = ground arith;
  on_venue = ground (arith, text_eq→eq p.exchange (given q.exchange));
  from_source = ground arith;
  not_delayed = ground arith;
}

-- A provider that is eligible, and whose own fetch returned the tick.
abbrev pub Serves :
    {T : Type 0} → Query → (Provider → Attempt T) → Dict Bool → T → Provider → Type 0
Serves q attempts enabled t p = IsEligible q enabled p × ((attempts p).outcome ≡ returned t)

of_outcome-won : {T : Type 0} (o : Outcome T) (t : T) → of_outcome o ≡ won t → o ≡ returned t
of_outcome-won (returned x) t e = cc
of_outcome-won (raised k) t e = cc
of_outcome-won cancelled t e = cc

visit-won :
    {T : Type 0} (q : Query) (attempts : Provider → Attempt T) (enabled : Dict Bool) (p : Provider)
    (breakers : Dict Breaker) (t : T)
    → (visit q (attempts p) enabled p breakers).2 ≡ won t
    → Serves q attempts enabled t p
visit-won q attempts enabled p breakers t e = elim (Option-cases (lookup p.name breakers)) [
  | inl k ↦ absurd (cc (sym (visit-keyless q (attempts p) enabled p breakers k) ∙ e))
  | inr (cb, k) ↦
      let v = sym (visit-verdict q (attempts p) enabled p breakers cb k) ∙ e in
      elim (Bool-cases (skips q enabled p)) [
        | inl s ↦ ground arith
        | inr s ↦
            (skips-IsEligible q enabled p s, ground (arith, of_outcome-won (attempts p).outcome t))
      ]
]

follow-quote :
    {T : Type 0} (P : Provider → Type 0) (p p' : Provider) (ps : List Provider) (bs : Dict Breaker)
    (verdict : Verdict T) (rest : List Provider × Dict Breaker × Result T) (t : T)
    → (verdict ≡ won t → P p)
    → (rest.2 ≡ quote t → Any P ps)
    → (follow p' ps bs verdict rest).2 ≡ quote t
    → Any P (p ∷ ps)
unfolding follow
follow-quote P p p' ps bs skipped rest t f g e = inr (g e)
follow-quote P p p' ps bs errored rest t f g e = inr (g e)
follow-quote P p p' ps bs (won x) rest t f g e = inl (f (cc))
follow-quote P p p' ps bs interrupted rest t f g e = absurd (cc)
follow-quote P p p' ps bs keyless rest t f g e = absurd (cc)

cascade-quote :
    {T : Type 0} (q : Query) (attempts : Provider → Attempt T) (enabled : Dict Bool)
    (errors : List Text) (ps : List Provider) (breakers : Dict Breaker) (t : T)
    → (cascade q attempts enabled errors ps breakers).2 ≡ quote t
    → Any (Serves q attempts enabled t) ps
unfolding cascade
cascade-quote q attempts enabled errors [] breakers t e = absurd (cc)
cascade-quote q attempts enabled errors (p ∷ ps) breakers t e =
    let v = visit q (attempts p) enabled p breakers in
    follow-quote (Serves q attempts enabled t) p v.0 ps v.1 v.2
      (cascade q attempts enabled (mark v.2 p.name errors) ps v.1) t
      (visit-won q attempts enabled p breakers t)
      (cascade-quote q attempts enabled (mark v.2 p.name errors) ps v.1 t) e

-- A quote comes from a registered provider that is enabled, on the pinned venue if one is asked for,
-- from the forced source if there is one, and not a delayed feed if those are excluded and no source
-- is forced; and it is the tick that this provider's own fetch returned.
pub fetch_quote-Serves :
    {T : Type 0} (q : Query) (attempts : Provider → Attempt T) (c : Controller) (t : T)
    → (fetch_quote q attempts c).1 ≡ quote t
    → Any (Serves q attempts c.enabled t) c.providers
unfolding fetch_quote
fetch_quote-Serves q attempts c t e =
    cascade-quote q attempts c.enabled [] c.providers c.circuit_breakers t e
