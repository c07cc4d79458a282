-- ===== src/Failover/Cascade.antt =====
-- `FailoverController.fetch_quote` (src/engine/failover.py): the cascade through the providers. One
-- task at a time is modelled here: no other task uses the controller between two awaits.
use bharat_ticker.Common.{
  Bool, true, false, not, ◌&&◌, ◌||◌, Option, none, some, List, [], ◌∷◌, ◌++◌, if◌then◌else◌,
}
use bharat_ticker.Common.Text.{Text, codes, text_eq}
use bharat_ticker.Common.Dict.{Dict, lookup, insert, get_or}
use bharat_ticker.Breaker.{
  Breaker, Reply, value, circuit_open_error, reraised, provider_error, other_error, record_failure,
  can_execute, execute,
}
use bharat_ticker.Failover.Provider.{Provider, Attempt, connected, connect_raised, source_match}

pub record Controller : Type 0 where
  pub providers : List Provider
  pub circuit_breakers : Dict Breaker
  pub enabled : Dict Bool

-- The keyword arguments of `fetch_quote`.
pub record Query : Type 0 where
  pub source : Option Text
  pub exclude_delayed : Bool
  pub exchange : Option Text

-- Python's truth of a text that may be `None`.
abbrev pub truthy : Option Text → Bool
truthy none = false
truthy (some []) = false
truthy (some (c ∷ s)) = true

abbrev pub given : Option Text → Text
given none = []
given (some s) = s

-- `forced = bool(source and source != "auto")`
unfoldable pub forced : Query → Bool
forced q = truthy q.source && not (text_eq (given q.source) (codes "auto"))

-- The four `continue`s at the top of the loop.
unfoldable pub skips : Query → Dict Bool → Provider → Bool
skips q enabled p =
    not (get_or p.name true enabled)
    || ((truthy q.exchange && not (text_eq p.exchange (given q.exchange)))
        || ((forced q && not (source_match p (given q.source)))
            || (q.exclude_delayed && (p.delayed && not (forced q)))))

-- How the loop's body ends for one provider: it goes on without or with an entry in `errors`, it
-- returns a tick, the task has been cancelled, or the provider has no circuit breaker (`KeyError`).
pub data Verdict (T : Type 0) : Type 0 where
  skipped : Verdict T
  errored : Verdict T
  won : T → Verdict T
  interrupted : Verdict T
  keyless : Verdict T

pub data Result (T : Type 0) : Type 0 where
  quote : T → Result T
  -- `ProviderError`, with the names of the providers in `errors`
  all_failed : List Text → Result T
  key_error : Result T
  task_cancelled : Result T

-- The handlers of the `try` around `execute`.
unfoldable pub handle : {T : Type 0} → Attempt T → Breaker × Reply T → Breaker × Verdict T
handle a (cb, value t) = (cb, won t)
handle a (cb, circuit_open_error) = (cb, skipped)
handle a (cb, reraised provider_error) = (cb, errored)
handle a (cb, reraised other_error) = (record_failure a.unexpected cb, errored)
handle a (cb, Reply.task_cancelled) = (cb, interrupted)

-- `provider.fetch_quote` through the breaker. A call that is refused does not run the provider.
unfoldable pub fetch_through :
    {T : Type 0} → Attempt T → Provider → Breaker → Provider × Breaker × Verdict T
unfolding handle
fetch_through a p cb =
    let r = execute a.moments (λ c. c) a.outcome cb in
    let (cb', verdict) = handle a r in
    let p' : Provider =
      if (can_execute a.moments.check cb).1 then record p { is_connected = a.flag_after } else p in
    (p', cb', verdict)

-- One round of the loop, for a provider that is not skipped.
unfoldable pub attempt :
    {T : Type 0} → Attempt T → Provider → Breaker → Provider × Breaker × Verdict T
unfolding fetch_through
attempt a p cb =
    let (cb', ok) = can_execute a.check cb in
    if ok
    then (if p.is_connected then fetch_through a p cb' else elim (a.connect) [
      | connected flag ↦ fetch_through a (record p { is_connected = flag }) cb'
      | connect_raised ↦ (p, record_failure a.connect_failed cb', skipped)
    ])
    else (p, cb', skipped)

-- One round of the loop.
unfoldable pub visit :
    {T : Type 0}
    → Query
    → Attempt T
    → Dict Bool
    → Provider
    → Dict Breaker
    → Provider × Dict Breaker × Verdict T
unfolding skips attempt
visit q a enabled p breakers = elim (lookup p.name breakers) [
  | none ↦ (p, breakers, keyless)
  | some cb ↦
      if skips q enabled p
      then (p, breakers, skipped)
      else (let (p', cb', verdict) = attempt a p cb in (p', insert p.name cb' breakers, verdict))
]

-- `errors` after the round.
abbrev pub mark : {T : Type 0} → Verdict T → Text → List Text → List Text
mark errored name errors = errors ++ (name ∷ [])
mark verdict name errors = errors

-- What follows a round: the loop goes on with the other providers, which gives `rest`, or ends.
unfoldable pub follow :
    {T : Type 0}
    → Provider
    → List Provider
    → Dict Breaker
    → Verdict T
    → List Provider × Dict Breaker × Result T
    → List Provider × Dict Breaker × Result T
follow p ps breakers skipped rest = (p ∷ rest.0, rest.1, rest.2)
follow p ps breakers errored rest = (p ∷ rest.0, rest.1, rest.2)
follow p ps breakers (won t) rest = (p ∷ ps, breakers, quote t)
follow p ps breakers interrupted rest = (p ∷ ps, breakers, task_cancelled)
follow p ps breakers keyless rest = (p ∷ ps, breakers, key_error)

-- The loop over `self._providers`; the providers and the breakers come back as it left them.
unfoldable pub cascade :
    {T : Type 0}
    → Query
    → (Provider → Attempt T)
    → Dict Bool
    → List Text
    → List Provider
    → Dict Breaker
    → List Provider × Dict Breaker × Result T
cascade q attempts enabled errors [] breakers = ([], breakers, all_failed errors)
cascade q attempts enabled errors (p ∷ ps) breakers =
    let (p', bs, verdict) = visit q (attempts p) enabled p breakers in
    let rest = cascade q attempts enabled (mark verdict p.name errors) ps bs in
    follow p' ps bs verdict rest

-- `fetch_quote`.
unfoldable pub fetch_quote :
    {T : Type 0} → Query → (Provider → Attempt T) → Controller → Controller × Result T
unfolding cascade visit follow
fetch_quote q attempts c =
    let (ps, bs, r) = cascade q attempts c.enabled [] c.providers c.circuit_breakers in
    (record c { providers = ps; circuit_breakers = bs }, r)
