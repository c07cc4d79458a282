-- ===== src/Failover/Tests.antt =====
-- Runs of the failover controller of src/engine/failover.py with two or three providers, and the
-- theorems about it at concrete controllers. A tick is just the text of its symbol.
use mathlib.Core.List.{Perm}
use bharat_ticker.Common.{
  ℕ, ◌≡◌, ◌≢◌, refl, true, false, List, [], ◌∷◌, map, All, Any, if◌then◌else◌,
}
use bharat_ticker.Common.Text.{
  Text, codes, text_eq, text_leb, starts_with, contains, lower, text_eq_refl,
}
use bharat_ticker.Common.Dict.{lookup, insert, get_or, has_key}
use bharat_ticker.Breaker.{
  Breaker, Settings, closed, Moments, Outcome, returned, raised, provider_error, init, can_execute,
  execute,
}
use bharat_ticker.Failover.Provider.{Provider, Attempt, connected, source_match, rank}
use bharat_ticker.Failover.Cascade.{
  Controller, Query, quote, all_failed, key_error, skips, forced, attempt, fetch_quote,
}
use bharat_ticker.Failover.Registry.{
  init_controller, register_provider, sort, set_enabled, matches, is_enabled,
}
use bharat_ticker.Failover.Order.{IsInOrder, HasNewCircuit, register_provider-order}
use bharat_ticker.Failover.KeyErrors.{HasBreakers, fetch_quote-HasBreakers}
use bharat_ticker.Failover.Refinement.{
  Distinct, first_decisive, verdict_spec, fetch_quote-first_decisive,
}
use bharat_ticker.Failover.Eligible.{Serves, fetch_quote-Serves}
use bharat_ticker.Failover.Bulk.{
  BulkAttempt, fetched, plain, remaining, fetch_bulk, missing_from, bulk_loop, use_reply, ask,
  fetch_each,
}
use bharat_ticker.Failover.Returns.{IsFetched, fetch_bulk-IsFetched}
use bharat_ticker.Failover.Coverage.{Covered, fetch_bulk-Covered}

abbrev defaults : Settings
defaults = record { cb_failure_threshold = 5; cb_recovery_timeout = 30; cb_half_open_max_calls = 3 }

abbrev nse : Provider
nse = record {
  name = codes "nse_live";
  tier = 1;
  priority = 10;
  delayed = false;
  exchange = codes "NSE";
  is_connected = true;
  error_count = 0;
  total_requests = 0;
  total_latency = 0;
}

abbrev yahoo : Provider
yahoo = record nse {
  name = codes "yahoo_finance";
  tier = 3;
  priority = 40;
  delayed = true;
  exchange = codes "BOTH";
}

-- No priority: it is ranked by its tier.
abbrev fyers : Provider
fyers = record nse { name = codes "fyers_ws"; tier = 2; priority = 0 }

abbrev breaker_of : Provider → Breaker
breaker_of p = record {
  name = p.name;
  failure_threshold = 5;
  recovery_timeout = 30;
  half_open_max_calls = 3;
  state = closed;
  failure_count = 0;
  success_count = 0;
  last_failure_time = 0;
  half_open_calls = 0;
}

abbrev controller : Controller
controller = record {
  providers = nse ∷ yahoo ∷ [];
  circuit_breakers = (yahoo.name, breaker_of yahoo) ∷ (nse.name, breaker_of nse) ∷ [];
  enabled = (yahoo.name, true) ∷ (nse.name, true) ∷ [];
}

registered : Unit {0}
unfolding register_provider sort init rank text_leb has_key insert text_eq lookup
registered = tt

register_two :
    register_provider defaults nse (register_provider defaults yahoo init_controller) ≡ controller
unfolding registered init_controller
register_two = refl

-- A tier of 2 without a priority ranks between the priorities 10 and 40.
register_third :
    map (λ p. p.name) (register_provider defaults fyers controller).providers
    ≡ codes "nse_live" ∷ codes "fyers_ws" ∷ codes "yahoo_finance" ∷ []
unfolding registered
register_third = refl

abbrev now : ℕ → Moments
now t = record { check = t; enter = t; failed = t }

abbrev trying : Outcome Text → Attempt Text
trying outcome = record {
  check = 50;
  connect = connected true;
  connect_failed = 50;
  moments = now 50;
  outcome = outcome;
  flag_after = true;
  unexpected = 50;
}

abbrev reliance : Text
reliance = codes "RELIANCE"

-- The first provider fails, every other one answers.
abbrev nse_fails : Provider → Attempt Text
nse_fails p = trying (if p.delayed then returned reliance else raised provider_error)

cascading : Unit {0}
unfolding fetch_quote skips forced attempt execute can_execute get_or lookup insert text_eq
cascading = tt

falls_back : (fetch_quote plain nse_fails controller).1 ≡ quote reliance
unfolding cascading
falls_back = refl

abbrev live : Query
live = record plain { exclude_delayed = true }

-- A live quote never falls back to the delayed feed.
live_fails : (fetch_quote live nse_fails controller).1 ≡ all_failed (codes "nse_live" ∷ [])
unfolding cascading
live_fails = refl

switched_off :
    (set_enabled (codes "nse") false controller).0.enabled
    ≡ (yahoo.name, true) ∷ (nse.name, false) ∷ []
unfolding set_enabled matches source_match insert text_eq starts_with contains lower
switched_off = refl

register_provider-order_example :
    let c' = register_provider defaults fyers controller in
    IsInOrder c'.providers
    × Perm c'.providers (fyers ∷ controller.providers)
    × HasNewCircuit fyers.name c'
    × (is_enabled fyers.name c' ≡ is_enabled fyers.name controller)
register_provider-order_example = register_provider-order defaults fyers controller

controller-HasBreakers : HasBreakers controller.circuit_breakers controller.providers
unfolding lookup text_eq
controller-HasBreakers = ((breaker_of nse, refl), ((breaker_of yahoo, refl), tt))

fetch_quote-HasBreakers_example :
    let (c', r) = fetch_quote live nse_fails controller in
    (r ≢ key_error) × HasBreakers c'.circuit_breakers c'.providers
fetch_quote-HasBreakers_example =
    fetch_quote-HasBreakers live nse_fails controller controller-HasBreakers

controller-Distinct : Distinct controller.providers
unfolding text_eq
controller-Distinct = ((refl, tt), (tt, tt))

fetch_quote-first_decisive_example :
    (fetch_quote live nse_fails controller).1
    ≡ first_decisive
        (verdict_spec live nse_fails controller.enabled controller.circuit_breakers)
        []
        controller.providers
fetch_quote-first_decisive_example =
    fetch_quote-first_decisive live nse_fails controller controller-Distinct

fetch_quote-Serves_example :
    Any (Serves plain nse_fails controller.enabled reliance) controller.providers
fetch_quote-Serves_example = fetch_quote-Serves plain nse_fails controller reliance falls_back

-- Every single fetch returns the symbol that it is asked for; the bulk fetch has only one of two.
abbrev singles : ℕ → Text → Provider → Attempt Text
singles i s p = trying (returned s)

abbrev bulk_of : List Text → Provider → BulkAttempt Text
bulk_of ts p = record { check = 50; moments = now 50; outcome = returned ts; flag_after = true }

abbrev tcs : Text
tcs = codes "TCS"

returned_inj : (s t : Text) → ◌≡◌ {A = Outcome Text} (returned s) (returned t) → s ≡ t
returned_inj s t e = cc

singles_right : (s t : Text) → ◌≡◌ {A = Outcome Text} (returned s) (returned t) → text_eq s t ≡ true
singles_right s t e = rw (returned_inj s t e) (text_eq_refl t)

two_symbols :
    (fetch_bulk (λ t. t) singles (bulk_of (reliance ∷ [])) (reliance ∷ tcs ∷ []) controller).1
    ≡ fetched (reliance ∷ tcs ∷ []) []
unfolding cascading fetch_bulk bulk_loop use_reply ask fetch_each remaining missing_from
two_symbols = refl

fetch_bulk-Covered_example :
    All (Covered {T = Text} (λ t. t) (reliance ∷ tcs ∷ []) []) (reliance ∷ tcs ∷ [])
fetch_bulk-Covered_example =
    fetch_bulk-Covered (λ t. t) singles (λ i s p t e. singles_right s t e) (bulk_of (reliance ∷ []))
      (reliance ∷ tcs ∷ []) controller (reliance ∷ tcs ∷ []) [] two_symbols

fetch_bulk-IsFetched_example :
    IsFetched
      (fetch_bulk (λ t. t) singles (bulk_of (reliance ∷ [])) (reliance ∷ tcs ∷ []) controller).1
fetch_bulk-IsFetched_example =
    fetch_bulk-IsFetched (λ t. t) singles (λ i s p e. cc) (bulk_of (reliance ∷ []))
      (reliance ∷ tcs ∷ []) (λ p e. cc) controller controller-HasBreakers
