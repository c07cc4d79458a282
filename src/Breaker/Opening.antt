-- ===== src/Breaker/Opening.antt =====
-- When a closed circuit of src/engine/circuit_breaker.py opens, against a leaky counter, and what an
-- open circuit refuses.
use bharat_ticker.Common.{
  ℕ, ◌+◌, ◌-◌, ◌≤◌, ◌<◌, ◌≡◌, Bool, true, false, List, [], ◌∷◌, arith, leb, if◌then◌else◌, ◌↔◌, map,
  length, ap, ◌∙◌,
}
use bharat_ticker.Breaker.Defs.{
  Breaker, closed, open_circuit, Moments, Outcome, circuit_open_error, record_success,
  record_failure, can_execute, execute,
}
use bharat_ticker.Breaker.Invariant.{IsValid}

-- The result of a call, as the breaker is told of it.
pub data Report : Type 0 where
  success : Report
  failure : ℕ → Report

pub apply_report : Report → Breaker → Breaker
unfolding record_success record_failure
apply_report success b = record_success b
apply_report (failure now) b = record_failure now b

unfoldable pub run : List Report → Breaker → Breaker
unfolding apply_report
run [] b = b
run (r ∷ rs) b = run rs (apply_report r b)

-- The specification: a failure raises the level, a success lowers it, never below zero; the circuit
-- trips when the level reaches the threshold.
pub level_after : Report → ℕ → ℕ
level_after success level = level - 1
level_after (failure now) level = level + 1

unfoldable pub trips : ℕ → ℕ → List Report → Bool
unfolding level_after
trips threshold level [] = false
trips threshold level (r ∷ rs) =
    let rest = trips threshold (level_after r level) rs in
    if leb threshold (level_after r level) then true else rest

run_open :
    (rs : List Report) (b : Breaker) → b.state ≡ open_circuit → (run rs b).state ≡ open_circuit
unfolding run
run_open [] b h = h
run_open (success ∷ rs) b h = run_open rs (record_success b) (unfold record_success in ground arith)
run_open (failure now ∷ rs) b h =
    run_open rs (record_failure now b) (unfold record_failure in ground arith)

closed_success :
    (b : Breaker)
    → b.state ≡ closed
    → record_success b ≡ record b { failure_count = b.failure_count - 1 }
unfolding record_success
closed_success b h = rw h

-- A failure of a closed circuit: below the threshold it is only counted, at it the circuit opens.
closed_failure :
    (now : ℕ) (b : Breaker)
    → b.state ≡ closed
    → ((record_failure now b).failure_threshold ≡ b.failure_threshold)
      × ((record_failure now b).failure_count ≡ b.failure_count + 1)
      × ((record_failure now b).state
          ≡ (if leb b.failure_threshold (b.failure_count + 1) then open_circuit else closed))
unfolding record_failure
closed_failure now b h = ground arith

-- A closed circuit with a failure count below its threshold is, after any sequence of reports, open
-- if the leaky counter that starts at its failure count reaches the threshold at some point of the
-- sequence, and closed if it does not. The counter goes up by one with each failure and down by one with
-- each success: a success does not reset it, as the comment in the source says it does.
pub run-trips :
    (rs : List Report) (b : Breaker)
    → b.state ≡ closed
    → b.failure_count < b.failure_threshold
    → (run rs b).state
      ≡ (if trips b.failure_threshold b.failure_count rs then open_circuit else closed)
unfolding run trips
run-trips [] b h below = h
run-trips (success ∷ rs) b h below =
    ap (λ c. (run rs c).state) (closed_success b h)
    ∙ ground
        (arith, run-trips rs (record b { failure_count = b.failure_count - 1 }) h (omega arith))
run-trips (failure now ∷ rs) b h below = ground (
  arith,
  closed_failure now b h,
  run-trips rs (record_failure now b),
  run_open rs (record_failure now b),
)

trips-failures :
    (threshold level : ℕ) (times : List ℕ)
    → level < threshold
    → trips threshold level (map failure times) ≡ leb threshold (level + length times)
unfolding trips
trips-failures threshold level [] h = ground arith
trips-failures threshold level (t ∷ ts) h = ground (arith, trips-failures threshold (level + 1) ts)

-- Failures with no success in between open a closed circuit exactly when the failures counted before
-- and they together make up the threshold.
pub run-failures :
    (times : List ℕ) (b : Breaker)
    → b.state ≡ closed
    → b.failure_count < b.failure_threshold
    → (run (map failure times) b).state
      ≡ (if leb b.failure_threshold (b.failure_count + length times) then open_circuit else closed)
run-failures times b h below =
    rw (run-trips (map failure times) b h below, trips-failures _ _ times below)

-- An open circuit whose timeout has not passed when `can_execute` reads it refuses the call with
-- `CircuitOpenError`, whatever the function would have done, and is left as it was.
pub execute_open :
    {A : Type 0} (t : Moments) (meanwhile : Breaker → Breaker) (outcome : Outcome A) (b : Breaker)
    → b.state ≡ open_circuit
    → t.check ≤ b.last_failure_time + b.recovery_timeout
    → execute t meanwhile outcome b ≡ (b, circuit_open_error)
unfolding execute
execute_open t meanwhile outcome b h early = ground arith

-- A valid open circuit lets a call pass exactly when more than the recovery timeout has gone by
-- since its last failure.
pub can_execute_open :
    (now : ℕ) (b : Breaker)
    → IsValid b
    → b.state ≡ open_circuit
    → ((can_execute now b).1 ≡ true) ↔ (b.last_failure_time + b.recovery_timeout < now)
unfolding can_execute
can_execute_open now b v h = (λ p. ground arith, λ p. ground arith)
