-- ===== src/Failover/Returns.antt =====
-- That `fetch_bulk` of src/engine/failover.py comes back with a result.
use bharat_ticker.Common.{
  ℕ, suc, ◌≡◌, ◌≢◌, refl, Bool, none, some, Option, List, [], ◌∷◌, ◌++◌, arith, inl, inr, ◌⊎◌,
}
use bharat_ticker.Common.Text.{Text}
use bharat_ticker.Common.Dict.{Dict, insert}
use bharat_ticker.Breaker.{
  Breaker, Reply, value, circuit_open_error, reraised, Outcome, returned, raised, cancelled,
  provider_error, other_error, execute, can_execute,
}
use bharat_ticker.Breaker.Calls.{execute-reply, reply_of}
use bharat_ticker.Failover.Provider.{Provider, Attempt, Connect, connected, connect_raised}
use bharat_ticker.Failover.Cascade.{
  Controller, Query, Result, quote, all_failed, key_error, interrupted, attempt, handle,
  fetch_through, visit, follow, cascade, fetch_quote, mark,
}
use bharat_ticker.Failover.Bulk.{
  BulkAttempt, Bulk, fetched, plain, remaining, gain, lose, unless_raised, fetch_each, ask,
  use_reply, bulk_loop, fetch_bulk,
}
use bharat_ticker.Failover.KeyErrors.{
  HasBreaker, HasBreakers, insert-HasBreakers, fetch_quote-HasBreakers,
}

reply_of-cancelled :
    {A : Type 0} (o : Outcome A) → o ≢ cancelled → reply_of o ≢ Reply.task_cancelled
reply_of-cancelled (returned a) h = λ e. cc
reply_of-cancelled (raised k) h = λ e. cc
reply_of-cancelled cancelled h = absurd (h refl)

execute-cancelled :
    {A : Type 0} (a : Attempt A) (cb : Breaker)
    → a.outcome ≢ cancelled
    → (execute a.moments (λ c. c) a.outcome cb).1 ≢ Reply.task_cancelled
execute-cancelled a cb h e =
    let r = execute-reply a.moments (λ c. c) a.outcome cb in
    let never = reply_of-cancelled a.outcome h in ground arith

handle-interrupted :
    {T : Type 0} (a : Attempt T) (cb : Breaker) (r : Reply T)
    → r ≢ Reply.task_cancelled
    → (handle a (cb, r)).1 ≢ interrupted
unfolding handle
handle-interrupted a cb (Reply.value t) n = λ h. cc
handle-interrupted a cb Reply.circuit_open_error n = λ h. cc
handle-interrupted a cb (Reply.reraised provider_error) n = λ h. cc
handle-interrupted a cb (Reply.reraised other_error) n = λ h. cc
handle-interrupted a cb Reply.task_cancelled n = absurd (n refl)

fetch_through-interrupted :
    {T : Type 0} (a : Attempt T) (p : Provider) (cb : Breaker)
    → a.outcome ≢ cancelled
    → (fetch_through a p cb).2 ≢ interrupted
unfolding fetch_through
fetch_through-interrupted a p cb h =
    let r = execute a.moments (λ c. c) a.outcome cb in
    handle-interrupted a r.0 r.1 (execute-cancelled a cb h)

Connect-cases : (c : Connect) → ((flag : Bool) × (c ≡ connected flag)) ⊎ (c ≡ connect_raised)
Connect-cases (connected flag) = inl (flag, refl)
Connect-cases connect_raised = inr refl

attempt-interrupted :
    {T : Type 0} (a : Attempt T) (p : Provider) (cb : Breaker)
    → a.outcome ≢ cancelled
    → (attempt a p cb).2 ≢ interrupted
unfolding attempt
attempt-interrupted a p cb h =
    let cb' = (can_execute a.check cb).0 in
    let up = fetch_through-interrupted a p cb' h in
    let down : (flag : Bool)
        → (fetch_through a (record p { is_connected = flag }) cb').2 ≢ interrupted =
      λ flag. fetch_through-interrupted a (record p { is_connected = flag }) cb' h in
    elim (Connect-cases a.connect) [
      | inl (flag, e) ↦ let d = down flag in ground arith
      | inr e ↦ ground arith
    ]

visit-interrupted :
    {T : Type 0} (q : Query) (a : Attempt T) (enabled : Dict Bool) (p : Provider)
    (breakers : Dict Breaker)
    → a.outcome ≢ cancelled
    → (visit q a enabled p breakers).2 ≢ interrupted
unfolding visit
visit-interrupted q a enabled p breakers h =
    let tried = λ (cb : Breaker). attempt-interrupted a p cb h in grind (arith, tried)

cascade-cancelled :
    {T : Type 0} (q : Query) (attempts : Provider → Attempt T) (enabled : Dict Bool)
    (errors : List Text) (ps : List Provider) (breakers : Dict Breaker)
    → ((p : Provider) → (attempts p).outcome ≢ cancelled)
    → (cascade q attempts enabled errors ps breakers).2 ≢ Result.task_cancelled
unfolding cascade follow
cascade-cancelled q attempts enabled errors [] breakers h = λ e. cc
cascade-cancelled q attempts enabled errors (p ∷ ps) breakers h =
    let v = visit q (attempts p) enabled p breakers in
    let on = visit-interrupted q (attempts p) enabled p breakers (h p) in
    let ih = cascade-cancelled q attempts enabled (mark v.2 p.name errors) ps v.1 h in ground arith

-- The bulk fetch ends with a result.
abbrev pub IsFetched : {T : Type 0} → Bulk T → Type 0
IsFetched {T} b = (ts : List T) × (lost : List Text) × (b ≡ fetched ts lost)

unless_raised-IsFetched :
    {T : Type 0} (r : Result T) (c : Controller) (rest : Controller × Bulk T)
    → r ≢ key_error
    → r ≢ Result.task_cancelled
    → IsFetched rest.1
    → IsFetched (unless_raised r c rest).1
unless_raised-IsFetched (quote t) c rest k n h = h
unless_raised-IsFetched (all_failed errors) c rest k n h = h
unless_raised-IsFetched key_error c rest k n h = absurd (k refl)
unless_raised-IsFetched Result.task_cancelled c rest k n h = absurd (n refl)

HasBreakers-append :
    (breakers : Dict Breaker) (ps rs : List Provider)
    → HasBreakers breakers ps
    → HasBreakers breakers rs
    → HasBreakers breakers (ps ++ rs)
HasBreakers-append breakers [] rs h k = k
HasBreakers-append breakers (p ∷ ps) rs h k = (h.0, HasBreakers-append breakers ps rs h.1 k)

ask-name :
    {T : Type 0} (a : BulkAttempt T) (p : Provider) (cb : Breaker) → (ask a p cb).0.name ≡ p.name
unfolding ask
ask-name a p cb = ground arith

ask-cancelled :
    {T : Type 0} (a : BulkAttempt T) (p : Provider) (cb : Breaker)
    → a.outcome ≢ cancelled
    → (ask a p cb).2 ≢ some Reply.task_cancelled
unfolding ask
ask-cancelled a p cb h e =
    let cb' = (can_execute a.check cb).0 in
    let r = execute-reply a.moments (λ b. b) a.outcome cb' in
    let never = reply_of-cancelled a.outcome h in ground arith

module _ {T : Type 0} (symbol_of : T → Text) (quotes : ℕ → Text → Provider → Attempt T)
    (running : (i : ℕ) (s : Text) (p : Provider) → (quotes i s p).outcome ≢ cancelled) where
  fetch_each-IsFetched :
      (i : ℕ) (ss : List Text) (results : List T) (failed : List Text) (c : Controller)
      → HasBreakers c.circuit_breakers c.providers
      → IsFetched (fetch_each quotes i ss results failed c).1
  unfolding fetch_each fetch_quote
  fetch_each-IsFetched i [] results failed c h = (results, failed, refl)
  fetch_each-IsFetched i (s ∷ ss) results failed c h =
      let (c', r) = fetch_quote plain (quotes i s) c in
      let keyed = fetch_quote-HasBreakers plain (quotes i s) c h in
      let on =
        cascade-cancelled plain (quotes i s) c.enabled [] c.providers c.circuit_breakers
          (running i s) in
      unless_raised-IsFetched r c'
        (fetch_each quotes (suc i) ss (gain r results) (lose r s failed) c') keyed.0 on
        (fetch_each-IsFetched (suc i) ss (gain r results) (lose r s failed) c' keyed.1)

  module _ (bulks : Provider → BulkAttempt T) (symbols : List Text)
      (bulks_run : (p : Provider) → (bulks p).outcome ≢ cancelled) where
    use_reply-IsFetched :
        (reply : Option (Reply (List T))) (c : Controller) (next : Controller × Bulk T)
        → reply ≢ some Reply.task_cancelled
        → HasBreakers c.circuit_breakers c.providers
        → IsFetched next.1
        → IsFetched (use_reply symbol_of quotes bulks symbols reply c next).1
    unfolding use_reply
    use_reply-IsFetched none c next n h k = k
    use_reply-IsFetched (some (value [])) c next n h k = k
    use_reply-IsFetched (some (value (t ∷ first))) c next n h k =
        fetch_each-IsFetched 0 (remaining symbol_of (t ∷ first) symbols) (t ∷ first) [] c h
    use_reply-IsFetched (some circuit_open_error) c next n h k = k
    use_reply-IsFetched (some (reraised e)) c next n h k = k
    use_reply-IsFetched (some Reply.task_cancelled) c next n h k = absurd (n refl)

    bulk_loop-IsFetched :
        (enabled : Dict Bool) (done ps : List Provider) (breakers : Dict Breaker)
        → HasBreakers breakers done
        → HasBreakers breakers ps
        → IsFetched (bulk_loop symbol_of quotes bulks symbols enabled done ps breakers).1
    unfolding bulk_loop
    bulk_loop-IsFetched enabled done [] breakers h k =
        fetch_each-IsFetched 0 symbols [] []
          (record { providers = done; circuit_breakers = breakers; enabled = enabled }) h
    bulk_loop-IsFetched enabled done (p ∷ ps) breakers h k =
        let cb = k.0.0 in
        let (p', cb', reply) = ask (bulks p) p cb in
        let bs = insert p.name cb' breakers in
        let done_kept = insert-HasBreakers p.name cb' breakers done h in
        let kept = insert-HasBreakers p.name cb' breakers (p ∷ ps) k in
        let p'_kept : HasBreaker bs p' = (kept.0.0, rw (ask-name (bulks p) p cb) (kept.0.1)) in
        let c : Controller = record {
          providers = done ++ (p' ∷ ps);
          circuit_breakers = bs;
          enabled = enabled;
        } in
        let next = bulk_loop symbol_of quotes bulks symbols enabled (done ++ (p' ∷ [])) ps bs in
        rw (k.0.1, bulk_loop)
          (use_reply-IsFetched reply c next (ask-cancelled (bulks p) p cb (bulks_run p))
            (HasBreakers-append bs done (p' ∷ ps) done_kept (p'_kept, kept.1))
            (bulk_loop-IsFetched enabled (done ++ (p' ∷ [])) ps bs
              (HasBreakers-append bs done (p' ∷ []) done_kept (p'_kept, tt)) kept.1))

    -- If every provider has a circuit breaker and no call of a provider is cancelled, `fetch_bulk`
    -- comes back with a result.
    pub fetch_bulk-IsFetched :
        (c : Controller)
        → HasBreakers c.circuit_breakers c.providers
        → IsFetched (fetch_bulk symbol_of quotes bulks symbols c).1
    unfolding fetch_bulk
    fetch_bulk-IsFetched c h = bulk_loop-IsFetched c.enabled [] c.providers c.circuit_breakers tt h
