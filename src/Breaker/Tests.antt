-- ===== src/Breaker/Tests.antt =====
-- Runs of the breaker of src/engine/circuit_breaker.py, with the settings' defaults, and the theorems
-- about it at concrete breakers.
use bharat_ticker.Common.Text.{codes}
use bharat_ticker.Common.{ℕ, ◌≡◌, refl, none, some, true, [], ◌∷◌, map, arith, List, if◌then◌else◌}
use bharat_ticker.Breaker.Defs.{
  Settings, Breaker, closed, open_circuit, half_open, Moments, Outcome, returned, cancelled,
  circuit_open_error, init, read_state, record_failure, can_execute, execute,
}
use bharat_ticker.Breaker.Invariant.{IsValid, Step, Reach, init-Reach-IsValid}
use bharat_ticker.Breaker.Opening.{success, failure, run, trips, run-trips}
use bharat_ticker.Breaker.Recovery.{calls, lockout, Run, no_lockout}

abbrev defaults : Settings
defaults = record { cb_failure_threshold = 5; cb_recovery_timeout = 30; cb_half_open_max_calls = 3 }

abbrev fresh : Breaker
fresh = record {
  name = codes "nse_live";
  failure_threshold = 5;
  recovery_timeout = 30;
  half_open_max_calls = 3;
  state = closed;
  failure_count = 0;
  success_count = 0;
  last_failure_time = 0;
  half_open_calls = 0;
}

abbrev tripped : Breaker
tripped = record fresh { state = open_circuit; failure_count = 5; last_failure_time = 100 }

abbrev probing : Breaker
probing = record tripped { state = half_open }

abbrev seven : Outcome ℕ
seven = returned 7

abbrev five_times : List ℕ
five_times = 96 ∷ 97 ∷ 98 ∷ 99 ∷ 100 ∷ []

abbrev at : ℕ → Moments
at now = record { check = now; enter = now; failed = now }

init-fresh : init defaults (codes "nse_live") none (some 0) none ≡ fresh
unfolding init
init-fresh = refl

five_failures : run (map failure five_times) fresh ≡ tripped
unfolding run
five_failures = refl

-- Five failures, two of them made good by successes, do not open the circuit.
forgiven :
    (run
      (failure 1 ∷ failure 2 ∷ success ∷ failure 3 ∷ failure 4 ∷ success ∷ failure 5 ∷ [])
      fresh).state
    ≡ closed
unfolding run
forgiven = refl

init-Reach-IsValid_example :
    IsValid (record_failure 7 (init defaults (codes "nse_live") none none none))
init-Reach-IsValid_example =
    init-Reach-IsValid defaults (codes "nse_live") none none none (omega arith) (omega arith)
      (Reach.next Reach.here (Step.fail 7 _))

tripped-IsValid : IsValid tripped
tripped-IsValid = ground arith

run-trips_example :
    (run (failure 1 ∷ success ∷ failure 2 ∷ []) fresh).state
    ≡ (if trips 5 0 (failure 1 ∷ success ∷ failure 2 ∷ []) then open_circuit else closed)
run-trips_example = run-trips (failure 1 ∷ success ∷ failure 2 ∷ []) fresh refl (omega arith)

lockout_example :
    let b' = calls {A = ℕ} 3 at cancelled probing in
    execute (at 9000) (λ c. c) seven b' ≡ (b', circuit_open_error)
lockout_example = lockout ℕ 3 at probing refl refl (at 9000) (λ c. c) (returned 7)

-- The circuit is opened by five failures from outside, and read again after its timeout.
reopened : Breaker
reopened = read_state 131 (
    record_failure 100
      (record_failure 99 (record_failure 98 (record_failure 97 (record_failure 96 fresh)))))

reopened-Run : Run fresh reopened 0
unfolding reopened
reopened-Run =
    Run.read 131
      (Run.report 100 (Run.report 99 (Run.report 98 (Run.report 97 (Run.report 96 Run.start)))))

no_lockout_example : (can_execute 500 reopened).1 ≡ true
unfolding reopened read_state record_failure
no_lockout_example = no_lockout 500 (ground arith) refl reopened-Run refl
