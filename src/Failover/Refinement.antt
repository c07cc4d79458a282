-- ===== src/Failover/Refinement.antt =====
-- What the cascade of src/engine/failover.py answers, with the breakers' updates gone: the first
-- provider in order that is eligible, let through by its circuit, connected and successful.
use bharat_ticker.Common.{
  ◌≡◌, refl, Bool, true, false, not, ◌&&◌, ◌||◌, none, some, List, [], ◌∷◌, All, arith,
  if◌then◌else◌, Bool-cases, Option-cases, inl, inr, ◌⊎◌, ap, ◌∙◌,
}
use bharat_ticker.Common.Text.{Text, text_eq}
use bharat_ticker.Common.Dict.{Dict, lookup, lookup-insert_ne}
use bharat_ticker.Breaker.{
  Breaker, Reply, value, circuit_open_error, reraised, provider_error, other_error, Outcome,
  returned, raised, cancelled, can_execute, execute,
}
use bharat_ticker.Breaker.Calls.{reply_of, execute-reply}
use bharat_ticker.Failover.Provider.{Provider, Attempt, Connect, connected, connect_raised}
use bharat_ticker.Failover.Cascade.{
  Controller, Query, Result, quote, all_failed, key_error, Verdict, skipped, errored, won,
  interrupted, keyless, skips, handle, fetch_through, attempt, visit, follow, cascade, fetch_quote,
  mark,
}

-- The specification of one round, for the breaker that the provider has at the start.
abbrev pub of_outcome : {T : Type 0} → Outcome T → Verdict T
of_outcome (returned t) = won t
of_outcome (raised e) = errored
of_outcome cancelled = interrupted

abbrev connects : {T : Type 0} → Attempt T → Provider → Bool
connects a p = p.is_connected || elim (a.connect) [ connected _ ↦ true | connect_raised ↦ false ]

-- The circuit lets the call pass at the test of the cascade and at that of `execute`.
abbrev lets_through : {T : Type 0} → Attempt T → Breaker → Bool
lets_through a cb =
    let (cb', ok) = can_execute a.check cb in ok && (can_execute a.moments.check cb').1

abbrev pub round_spec :
    {T : Type 0} → Query → Attempt T → Dict Bool → Provider → Breaker → Verdict T
round_spec q a enabled p cb =
    if not (skips q enabled p) && (lets_through a cb && connects a p)
    then of_outcome a.outcome
    else skipped

-- The specification of the cascade: the verdicts in order, up to the first that is decisive.
abbrev after : {T : Type 0} → Verdict T → Result T → Result T
after skipped rest = rest
after errored rest = rest
after (won t) rest = quote t
after interrupted rest = Result.task_cancelled
after keyless rest = key_error

unfoldable pub first_decisive :
    {T : Type 0} → (Provider → Verdict T) → List Text → List Provider → Result T
first_decisive verdict errors [] = all_failed errors
first_decisive verdict errors (p ∷ ps) =
    after (verdict p) (first_decisive verdict (mark (verdict p) p.name errors) ps)

abbrev pub verdict_spec :
    {T : Type 0} → Query → (Provider → Attempt T) → Dict Bool → Dict Breaker → Provider → Verdict T
verdict_spec q attempts enabled breakers p = elim (lookup p.name breakers) [
  | none ↦ keyless
  | some cb ↦ round_spec q (attempts p) enabled p cb
]

abbrev pub Distinct : List Provider → Type 0
Distinct [] = Unit
Distinct (p ∷ ps) = All (λ r. text_eq r.name p.name ≡ false) ps × Distinct ps

abbrev of_reply : {T : Type 0} → Reply T → Verdict T
of_reply (value t) = won t
of_reply circuit_open_error = skipped
of_reply (reraised e) = errored
of_reply Reply.task_cancelled = interrupted

handle-verdict :
    {T : Type 0} (a : Attempt T) (cb : Breaker) (r : Reply T) → (handle a (cb, r)).1 ≡ of_reply r
unfolding handle
handle-verdict a cb (value t) = refl
handle-verdict a cb circuit_open_error = refl
handle-verdict a cb (reraised provider_error) = refl
handle-verdict a cb (reraised other_error) = refl
handle-verdict a cb Reply.task_cancelled = refl

of_reply-of : {T : Type 0} (o : Outcome T) → of_reply (reply_of o) ≡ of_outcome o
of_reply-of (returned t) = refl
of_reply-of (raised e) = refl
of_reply-of cancelled = refl

Connect-cases : (c : Connect) → ((flag : Bool) × (c ≡ connected flag)) ⊎ (c ≡ connect_raised)
Connect-cases (connected flag) = inl (flag, refl)
Connect-cases connect_raised = inr refl

fetch_through-verdict :
    {T : Type 0} (a : Attempt T) (p : Provider) (cb : Breaker)
    → (fetch_through a p cb).2
      ≡ (if (can_execute a.moments.check cb).1 then of_outcome a.outcome else skipped)
unfolding fetch_through
fetch_through-verdict a p cb =
    let r = execute a.moments (λ c. c) a.outcome cb in
    ground (
      arith,
      handle-verdict a r.0 r.1,
      execute-reply a.moments (λ c. c) a.outcome cb,
      of_reply-of a.outcome,
    )

attempt-verdict :
    {T : Type 0} (a : Attempt T) (p : Provider) (cb : Breaker)
    → (attempt a p cb).2
      ≡ (if lets_through a cb && connects a p then of_outcome a.outcome else skipped)
unfolding attempt
attempt-verdict a p cb =
    let cb' = (can_execute a.check cb).0 in
    elim (Bool-cases p.is_connected) [
      | inl e ↦ ground (arith, fetch_through-verdict a p cb')
      | inr e ↦ elim (Connect-cases a.connect) [
        | inl (flag, k) ↦
            ground (arith, fetch_through-verdict a (record p { is_connected = flag }) cb')
        | inr k ↦ ground arith
      ]
    ]

pub visit-verdict :
    {T : Type 0} (q : Query) (a : Attempt T) (enabled : Dict Bool) (p : Provider)
    (breakers : Dict Breaker) (cb : Breaker)
    → lookup p.name breakers ≡ some cb
    → (visit q a enabled p breakers).2 ≡ round_spec q a enabled p cb
unfolding visit
visit-verdict q a enabled p breakers cb e = elim (Bool-cases (skips q enabled p)) [
  | inl s ↦ rw (e, visit, s) refl
  | inr s ↦ rw (e, visit, s) (attempt-verdict a p cb)
]

pub visit-keyless :
    {T : Type 0} (q : Query) (a : Attempt T) (enabled : Dict Bool) (p : Provider)
    (breakers : Dict Breaker)
    → lookup p.name breakers ≡ none
    → (visit q a enabled p breakers).2 ≡ keyless
unfolding visit
visit-keyless q a enabled p breakers e = rw (e, visit) refl

visit-spec :
    {T : Type 0} (q : Query) (attempts : Provider → Attempt T) (enabled : Dict Bool) (p : Provider)
    (breakers : Dict Breaker)
    → (visit q (attempts p) enabled p breakers).2 ≡ verdict_spec q attempts enabled breakers p
unfolding visit
visit-spec q attempts enabled p breakers = elim (Option-cases (lookup p.name breakers)) [
  | inl e ↦ visit-keyless q (attempts p) enabled p breakers e ∙ rw (e, verdict_spec) refl
  | inr (cb, e) ↦ visit-verdict q (attempts p) enabled p breakers cb e ∙ rw (e, verdict_spec) refl
]

-- A round changes no other provider's breaker.
visit-others :
    {T : Type 0} (q : Query) (a : Attempt T) (enabled : Dict Bool) (p : Provider)
    (breakers : Dict Breaker) (name : Text)
    → text_eq name p.name ≡ false
    → lookup name (visit q a enabled p breakers).1 ≡ lookup name breakers
unfolding visit
visit-others q a enabled p breakers name ne = elim (Option-cases (lookup p.name breakers)) [
  | inl e ↦ rw (e, visit) refl
  | inr (cb, e) ↦ elim (Bool-cases (skips q enabled p)) [
    | inl s ↦ rw (e, visit, s) refl
    | inr s ↦ rw (e, visit, s) (lookup-insert_ne name p.name (attempt a p cb).1 breakers ne)
  ]
]

abbrev Agree : Dict Breaker → Dict Breaker → List Provider → Type 0
Agree bs breakers = All (λ r. lookup r.name bs ≡ lookup r.name breakers)

visit-Agree :
    {T : Type 0} (q : Query) (a : Attempt T) (enabled : Dict Bool) (p : Provider)
    (bs breakers : Dict Breaker) (ps : List Provider)
    → All (λ r. text_eq r.name p.name ≡ false) ps
    → Agree bs breakers ps
    → Agree (visit q a enabled p bs).1 breakers ps
visit-Agree q a enabled p bs breakers [] d h = tt
visit-Agree q a enabled p bs breakers (r ∷ ps) d h = (
  visit-others q a enabled p bs r.name d.0 ∙ h.0,
  visit-Agree q a enabled p bs breakers ps d.1 h.1,
)

follow-after :
    {T : Type 0} (p : Provider) (ps : List Provider) (bs : Dict Breaker) (verdict : Verdict T)
    (rest : List Provider × Dict Breaker × Result T)
    → (follow p ps bs verdict rest).2 ≡ after verdict rest.2
unfolding follow
follow-after p ps bs skipped rest = refl
follow-after p ps bs errored rest = refl
follow-after p ps bs (won t) rest = refl
follow-after p ps bs interrupted rest = refl
follow-after p ps bs keyless rest = refl

cascade-Agree :
    {T : Type 0} (q : Query) (attempts : Provider → Attempt T) (enabled : Dict Bool)
    (errors : List Text) (ps : List Provider) (bs breakers : Dict Breaker)
    → Distinct ps
    → Agree bs breakers ps
    → (cascade q attempts enabled errors ps bs).2
      ≡ first_decisive (verdict_spec q attempts enabled breakers) errors ps
unfolding cascade first_decisive
cascade-Agree q attempts enabled errors [] bs breakers d h = refl
cascade-Agree q attempts enabled errors (p ∷ ps) bs breakers d h =
    let v = visit q (attempts p) enabled p bs in
    let spec = verdict_spec q attempts enabled breakers in
    let verdict : v.2 ≡ spec p = visit-spec q attempts enabled p bs ∙ rw (h.0, verdict_spec) refl in
    let ih =
      cascade-Agree q attempts enabled (mark v.2 p.name errors) ps v.1 breakers d.1
        (visit-Agree q (attempts p) enabled p bs breakers ps d.0 h.1) in
    follow-after v.0 ps v.1 v.2 (cascade q attempts enabled (mark v.2 p.name errors) ps v.1)
    ∙ ap (after v.2) ih
    ∙ ap (λ w. after w (first_decisive spec (mark w p.name errors) ps)) verdict

Agree-refl : (breakers : Dict Breaker) (ps : List Provider) → Agree breakers breakers ps
Agree-refl breakers [] = tt
Agree-refl breakers (p ∷ ps) = (refl, Agree-refl breakers ps)

-- If the providers' names are distinct, `fetch_quote` answers as the specification does: it goes
-- through the providers in order and stops at the first whose round is decisive, where the verdict of
-- a round is judged by the breakers as they were before the call. A round is decisive if the provider
-- has no circuit breaker, or it is not skipped, its circuit lets the call through, it is connected or
-- connects, and it returns a tick or is cancelled. Providers that were reached and raised are listed in the error.
pub fetch_quote-first_decisive :
    {T : Type 0} (q : Query) (attempts : Provider → Attempt T) (c : Controller)
    → Distinct c.providers
    → (fetch_quote q attempts c).1
      ≡ first_decisive (verdict_spec q attempts c.enabled c.circuit_breakers) [] c.providers
unfolding fetch_quote
fetch_quote-first_decisive q attempts c d =
    cascade-Agree q attempts c.enabled [] c.providers c.circuit_breakers c.circuit_breakers d
      (Agree-refl c.circuit_breakers c.providers)
