-- ===== src/Failover/Bulk.antt =====
-- `FailoverController.fetch_bulk` (src/engine/failover.py).
use bharat_ticker.Common.{
  ℕ, suc, Bool, true, false, not, ◌&&◌, Option, none, some, List, [], ◌∷◌, ◌++◌, if◌then◌else◌,
}
use bharat_ticker.Common.Text.{Text, text_eq}
use bharat_ticker.Common.Dict.{Dict, lookup, insert}
use bharat_ticker.Breaker.{
  Breaker, Moments, Outcome, Reply, value, circuit_open_error, reraised, can_execute, execute,
}
use bharat_ticker.Failover.Provider.{Provider, Attempt}
use bharat_ticker.Failover.Cascade.{
  Controller, Query, Result, quote, all_failed, key_error, fetch_quote,
}

-- What the outside does while a provider is asked for all symbols at once.
pub record BulkAttempt (T : Type 0) : Type 0 where
  pub check : ℕ
  pub moments : Moments
  pub outcome : Outcome (List T)
  pub flag_after : Bool

pub data Bulk (T : Type 0) : Type 0 where
  -- the result, and the local list `failed` of the symbols whose own fetch failed
  fetched : List T → List Text → Bulk T
  -- A provider without a circuit breaker was met, which registration rules out. One that is met in
  -- the loop over the remaining symbols goes to the handler of the bulk call, which this model does
  -- not follow further.
  bulk_key_error : Bulk T
  bulk_cancelled : Bulk T

-- The arguments of a plain `fetch_quote(sym)`.
abbrev pub plain : Query
plain = record { source = none; exclude_delayed = false; exchange = none }

module _ {T : Type 0} (symbol_of : T → Text) where
  -- `s not in fetched_symbols`
  unfoldable pub missing_from : List T → Text → Bool
  missing_from [] s = true
  missing_from (t ∷ ts) s = not (text_eq s (symbol_of t)) && missing_from ts s

  -- `[s for s in symbols if s not in fetched_symbols]`
  unfoldable pub remaining : List T → List Text → List Text
  unfolding missing_from
  remaining ts [] = []
  remaining ts (s ∷ ss) = if missing_from ts s then s ∷ remaining ts ss else remaining ts ss

-- `results` and `failed` after a symbol's own fetch.
abbrev pub gain : {T : Type 0} → Result T → List T → List T
gain (quote t) results = results ++ (t ∷ [])
gain r results = results

abbrev pub lose : {T : Type 0} → Result T → Text → List Text → List Text
lose (all_failed errors) s failed = failed ++ (s ∷ [])
lose r s failed = failed

-- `except ProviderError` lets a `KeyError` and a cancellation through: the loop goes on, which gives
-- `rest`, or ends.
abbrev pub unless_raised :
    {T : Type 0} → Result T → Controller → Controller × Bulk T → Controller × Bulk T
unless_raised (quote t) c rest = rest
unless_raised (all_failed errors) c rest = rest
unless_raised key_error c rest = (c, bulk_key_error)
unless_raised Result.task_cancelled c rest = (c, bulk_cancelled)

-- The loop that fetches symbols one by one; `quotes i s` is the outside of the `i`-th
-- fetch, which is of symbol `s`.
unfoldable pub fetch_each :
    {T : Type 0}
    → (ℕ → Text → Provider → Attempt T)
    → ℕ
    → List Text
    → List T
    → List Text
    → Controller
    → Controller × Bulk T
fetch_each quotes i [] results failed c = (c, fetched results failed)
fetch_each quotes i (s ∷ ss) results failed c =
    let (c', r) = fetch_quote plain (quotes i s) c in
    let rest = fetch_each quotes (suc i) ss (gain r results) (lose r s failed) c' in
    unless_raised r c' rest

-- A provider's turn: it is passed over if its circuit is open or it is not connected, and else
-- asked for all symbols through its breaker.
unfoldable pub ask :
    {T : Type 0} → BulkAttempt T → Provider → Breaker → Provider × Breaker × Option (Reply (List T))
ask a p cb =
    let (cb', ok) = can_execute a.check cb in
    let (cb'', reply) = execute a.moments (λ b. b) a.outcome cb' in
    if ok && p.is_connected
    then (
      (if (can_execute a.moments.check cb').1 then record p { is_connected = a.flag_after } else p),
      cb'',
      some reply,
    )
    else (p, cb', none)

module _ {T : Type 0} (symbol_of : T → Text) (quotes : ℕ → Text → Provider → Attempt T)
    (bulks : Provider → BulkAttempt T) (symbols : List Text) where
  -- After a provider's turn: a reply with ticks ends the loop, after the symbols that it has not
  -- covered have been fetched one by one; any other reply but a cancellation goes on.
  unfoldable pub use_reply :
      Option (Reply (List T)) → Controller → Controller × Bulk T → Controller × Bulk T
  use_reply none c next = next
  use_reply (some (value [])) c next = next
  use_reply (some (value (t ∷ ts))) c next =
      fetch_each quotes 0 (remaining symbol_of (t ∷ ts) symbols) (t ∷ ts) [] c
  use_reply (some circuit_open_error) c next = next
  use_reply (some (reraised e)) c next = next
  use_reply (some Reply.task_cancelled) c next = (c, bulk_cancelled)

  -- The loop over the providers; `done` are those that it has passed.
  unfoldable pub bulk_loop :
      Dict Bool → List Provider → List Provider → Dict Breaker → Controller × Bulk T
  bulk_loop enabled done [] breakers =
      fetch_each quotes 0 symbols [] []
        (record { providers = done; circuit_breakers = breakers; enabled = enabled })
  bulk_loop enabled done (p ∷ ps) breakers = elim (lookup p.name breakers) [
    | none ↦ (
      record { providers = done ++ (p ∷ ps); circuit_breakers = breakers; enabled = enabled },
      bulk_key_error,
    )
    | some cb ↦
        let (p', cb', reply) = ask (bulks p) p cb in
        let bs = insert p.name cb' breakers in
        let next = bulk_loop enabled (done ++ (p' ∷ [])) ps bs in
        use_reply reply
          (record { providers = done ++ (p' ∷ ps); circuit_breakers = bs; enabled = enabled }) next
  ]

  unfoldable pub fetch_bulk : Controller → Controller × Bulk T
  fetch_bulk c = bulk_loop c.enabled [] c.providers c.circuit_breakers
