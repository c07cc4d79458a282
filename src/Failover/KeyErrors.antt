-- ===== src/Failover/KeyErrors.antt =====
-- Why no lookup of a circuit breaker in src/engine/failover.py is a `KeyError`: registration gives
-- every provider one, and a cascade keeps them.
use bharat_ticker.Common.{
  ◌≡◌, ◌≢◌, Bool, none, some, List, [], ◌∷◌, ◌++◌, All, arith, Bool-cases, Option-cases, inl, inr,
}
use bharat_ticker.Common.Text.{Text, text_eq, text_eq→eq}
use bharat_ticker.Common.Dict.{Dict, lookup, insert, lookup-insert_self, lookup-insert_ne}
use bharat_ticker.Breaker.{Breaker, Settings, init, Reply, provider_error, other_error, execute}
use bharat_ticker.Failover.Provider.{Provider, Attempt}
use bharat_ticker.Failover.Cascade.{
  Controller, Query, Result, key_error, Verdict, skipped, errored, won, interrupted, keyless, skips,
  attempt, handle, fetch_through, visit, follow, cascade, fetch_quote, mark,
}
use bharat_ticker.Failover.Registry.{insert_sorted, sort, register_provider, precedes}

abbrev pub HasBreaker : Dict Breaker → Provider → Type 0
HasBreaker breakers p = (cb : Breaker) × (lookup p.name breakers ≡ some cb)

abbrev pub HasBreakers : Dict Breaker → List Provider → Type 0
HasBreakers breakers = All (HasBreaker breakers)

-- Writing an entry removes none.
insert-HasBreaker :
    (k : Text) (cb : Breaker) (breakers : Dict Breaker) (p : Provider)
    → HasBreaker breakers p
    → HasBreaker (insert k cb breakers) p
insert-HasBreaker k cb breakers p h = elim (Bool-cases (text_eq p.name k)) [
  | inl e ↦ (cb, rw (text_eq→eq p.name k e) (lookup-insert_self k cb breakers))
  | inr e ↦ (h.0, rw (lookup-insert_ne p.name k cb breakers e) h.1)
]

pub insert-HasBreakers :
    (k : Text) (cb : Breaker) (breakers : Dict Breaker) (ps : List Provider)
    → HasBreakers breakers ps
    → HasBreakers (insert k cb breakers) ps
insert-HasBreakers k cb breakers [] h = tt
insert-HasBreakers k cb breakers (p ∷ ps) h =
    (insert-HasBreaker k cb breakers p h.0, insert-HasBreakers k cb breakers ps h.1)

insert_sorted-HasBreakers :
    (breakers : Dict Breaker) (x : Provider) (ps : List Provider)
    → HasBreaker breakers x
    → HasBreakers breakers ps
    → HasBreakers breakers (insert_sorted x ps)
unfolding insert_sorted
insert_sorted-HasBreakers breakers x [] h a = (h, tt)
insert_sorted-HasBreakers breakers x (r ∷ ps) h a = elim (Bool-cases (precedes x r)) [
  | inl e ↦ rw e (h, a)
  | inr e ↦ rw e (a.0, insert_sorted-HasBreakers breakers x ps h a.1)
]

sort-HasBreakers :
    (breakers : Dict Breaker) (ps : List Provider)
    → HasBreakers breakers ps
    → HasBreakers breakers (sort ps)
unfolding sort
sort-HasBreakers breakers [] h = tt
sort-HasBreakers breakers (p ∷ ps) h =
    insert_sorted-HasBreakers breakers p (sort ps) h.0 (sort-HasBreakers breakers ps h.1)

append-HasBreakers :
    (breakers : Dict Breaker) (p : Provider) (ps : List Provider)
    → HasBreaker breakers p
    → HasBreakers breakers ps
    → HasBreakers breakers (ps ++ (p ∷ []))
append-HasBreakers breakers p [] h a = (h, tt)
append-HasBreakers breakers p (r ∷ ps) h a = (a.0, append-HasBreakers breakers p ps h a.1)

-- Registration keeps the property that every provider has a circuit breaker.
pub register_provider-HasBreakers :
    (settings : Settings) (p : Provider) (c : Controller)
    → HasBreakers c.circuit_breakers c.providers
    → HasBreakers
        (register_provider settings p c).circuit_breakers
        (register_provider settings p c).providers
unfolding register_provider
register_provider-HasBreakers settings p c h =
    let cb = init settings p.name none none none in
    let breakers = insert p.name cb c.circuit_breakers in
    sort-HasBreakers breakers (c.providers ++ (p ∷ [])) (
      append-HasBreakers breakers p c.providers
        (cb, lookup-insert_self p.name cb c.circuit_breakers)
        (insert-HasBreakers p.name cb c.circuit_breakers c.providers h))

handle-keyless :
    {T : Type 0} (a : Attempt T) (cb : Breaker) (r : Reply T) → (handle a (cb, r)).1 ≢ keyless
unfolding handle
handle-keyless a cb (Reply.value t) = λ h. cc
handle-keyless a cb Reply.circuit_open_error = λ h. cc
handle-keyless a cb (Reply.reraised provider_error) = λ h. cc
handle-keyless a cb (Reply.reraised other_error) = λ h. cc
handle-keyless a cb Reply.task_cancelled = λ h. cc

fetch_through-keyless :
    {T : Type 0} (a : Attempt T) (p : Provider) (cb : Breaker) → (fetch_through a p cb).2 ≢ keyless
unfolding fetch_through
fetch_through-keyless a p cb =
    let r = execute a.moments (λ c. c) a.outcome cb in handle-keyless a r.0 r.1

attempt-keyless :
    {T : Type 0} (a : Attempt T) (p : Provider) (cb : Breaker) → (attempt a p cb).2 ≢ keyless
unfolding attempt
attempt-keyless a p cb = grind (arith, fetch_through-keyless a)

visit-keyless :
    {T : Type 0} (q : Query) (a : Attempt T) (enabled : Dict Bool) (p : Provider)
    (breakers : Dict Breaker)
    → HasBreaker breakers p
    → (visit q a enabled p breakers).2 ≢ keyless
unfolding visit
visit-keyless q a enabled p breakers h = ground (arith, attempt-keyless a p h.0)

visit-HasBreakers :
    {T : Type 0} (q : Query) (a : Attempt T) (enabled : Dict Bool) (p : Provider)
    (breakers : Dict Breaker) (ps : List Provider)
    → HasBreakers breakers ps
    → HasBreakers (visit q a enabled p breakers).1 ps
unfolding visit
visit-HasBreakers q a enabled p breakers ps h = elim (Option-cases (lookup p.name breakers)) [
  | inl e ↦ rw (e, visit) h
  | inr (cb, e) ↦ elim (Bool-cases (skips q enabled p)) [
    | inl s ↦ rw (e, visit, s) h
    | inr s ↦ rw (e, visit, s) (insert-HasBreakers p.name (attempt a p cb).1 breakers ps h)
  ]
]

cascade-key_error :
    {T : Type 0} (q : Query) (attempts : Provider → Attempt T) (enabled : Dict Bool)
    (errors : List Text) (ps : List Provider) (breakers : Dict Breaker)
    → HasBreakers breakers ps
    → (cascade q attempts enabled errors ps breakers).2 ≢ key_error
unfolding cascade follow
cascade-key_error q attempts enabled errors [] breakers h = λ e. cc
cascade-key_error q attempts enabled errors (p ∷ ps) breakers h =
    let v = visit q (attempts p) enabled p breakers in
    let kept = visit-HasBreakers q (attempts p) enabled p breakers ps h.1 in
    let known = visit-keyless q (attempts p) enabled p breakers h.0 in
    let ih = cascade-key_error q attempts enabled (mark v.2 p.name errors) ps v.1 kept in
    ground arith

follow-HasBreakers :
    {T : Type 0} (p : Provider) (ps xs : List Provider) (breakers : Dict Breaker)
    (verdict : Verdict T) (rest : List Provider × Dict Breaker × Result T)
    → HasBreakers breakers xs
    → HasBreakers rest.1 xs
    → HasBreakers (follow p ps breakers verdict rest).1 xs
unfolding follow
follow-HasBreakers p ps xs breakers skipped rest h k = k
follow-HasBreakers p ps xs breakers errored rest h k = k
follow-HasBreakers p ps xs breakers (won t) rest h k = h
follow-HasBreakers p ps xs breakers interrupted rest h k = h
follow-HasBreakers p ps xs breakers keyless rest h k = h

cascade-HasBreakers :
    {T : Type 0} (q : Query) (attempts : Provider → Attempt T) (enabled : Dict Bool)
    (errors : List Text) (ps : List Provider) (breakers : Dict Breaker) (xs : List Provider)
    → HasBreakers breakers xs
    → HasBreakers (cascade q attempts enabled errors ps breakers).1 xs
unfolding cascade
cascade-HasBreakers q attempts enabled errors [] breakers xs h = h
cascade-HasBreakers q attempts enabled errors (p ∷ ps) breakers xs h =
    let v = visit q (attempts p) enabled p breakers in
    let kept = visit-HasBreakers q (attempts p) enabled p breakers xs h in
    follow-HasBreakers v.0 ps xs v.1 v.2
      (cascade q attempts enabled (mark v.2 p.name errors) ps v.1) kept
      (cascade-HasBreakers q attempts enabled (mark v.2 p.name errors) ps v.1 xs kept)

visit-name :
    {T : Type 0} (q : Query) (a : Attempt T) (enabled : Dict Bool) (p : Provider)
    (breakers : Dict Breaker)
    → (visit q a enabled p breakers).0.name ≡ p.name
unfolding visit attempt fetch_through
visit-name q a enabled p breakers = ground arith

follow-providers :
    {T : Type 0} (p p' : Provider) (ps : List Provider) (breakers bs : Dict Breaker)
    (verdict : Verdict T) (rest : List Provider × Dict Breaker × Result T)
    → p'.name ≡ p.name
    → HasBreakers bs (p ∷ ps)
    → HasBreakers bs rest.0
    → HasBreakers bs (follow p' ps breakers verdict rest).0
unfolding follow
follow-providers p p' ps breakers bs skipped rest e h k = ((h.0.0, rw e h.0.1), k)
follow-providers p p' ps breakers bs errored rest e h k = ((h.0.0, rw e h.0.1), k)
follow-providers p p' ps breakers bs (won t) rest e h k = ((h.0.0, rw e h.0.1), h.1)
follow-providers p p' ps breakers bs interrupted rest e h k = ((h.0.0, rw e h.0.1), h.1)
follow-providers p p' ps breakers bs keyless rest e h k = ((h.0.0, rw e h.0.1), h.1)

cascade-providers :
    {T : Type 0} (q : Query) (attempts : Provider → Attempt T) (enabled : Dict Bool)
    (errors : List Text) (ps : List Provider) (breakers bs : Dict Breaker)
    → HasBreakers bs ps
    → HasBreakers bs (cascade q attempts enabled errors ps breakers).0
unfolding cascade
cascade-providers q attempts enabled errors [] breakers bs h = h
cascade-providers q attempts enabled errors (p ∷ ps) breakers bs h =
    let v = visit q (attempts p) enabled p breakers in
    follow-providers p v.0 ps v.1 bs v.2
      (cascade q attempts enabled (mark v.2 p.name errors) ps v.1)
      (visit-name q (attempts p) enabled p breakers) h
      (cascade-providers q attempts enabled (mark v.2 p.name errors) ps v.1 bs h.1)

-- In a controller whose providers all have a circuit breaker, `fetch_quote` never fails by a
-- `KeyError`, and the controller that it leaves behind has the same property.
pub fetch_quote-HasBreakers :
    {T : Type 0} (q : Query) (attempts : Provider → Attempt T) (c : Controller)
    → HasBreakers c.circuit_breakers c.providers
    → let (c', r) = fetch_quote q attempts c in
      (r ≢ key_error) × HasBreakers c'.circuit_breakers c'.providers
unfolding fetch_quote
fetch_quote-HasBreakers q attempts c h = (
  cascade-key_error q attempts c.enabled [] c.providers c.circuit_breakers h,
  cascade-providers q attempts c.enabled [] c.providers c.circuit_breakers _
      (cascade-HasBreakers q attempts c.enabled [] c.providers c.circuit_breakers c.providers h),
)
