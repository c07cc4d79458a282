-- ===== src/Breaker/Recovery.antt =====
-- Half-open circuits of src/engine/circuit_breaker.py: the probes that close one, the lockout that
-- cancelled probes cause, and why there is none without a cancellation.
use bharat_ticker.Common.{
  ℕ, zero, suc, ◌+◌, ◌≤◌, ◌<◌, ◌≡◌, true, false, arith, if◌then◌else◌, ◌==◌, ap, ◌∙◌, Bool-cases,
  inl, inr,
}
use bharat_ticker.Breaker.Defs.{
  Breaker, closed, open_circuit, half_open, Moments, Outcome, returned, cancelled,
  circuit_open_error, read_state, record_success, record_failure, can_execute, admit, execute,
  reset,
}
use bharat_ticker.Breaker.Invariant.{
  IsValid, read_state-IsValid, record_success-IsValid, record_failure-IsValid, admit-IsValid,
  reset-IsValid,
}

-- `n` calls one after the other, each of which ends as `outcome` says.
unfoldable pub calls {ℓ} : {A : Type ℓ} → ℕ → (ℕ → Moments) → Outcome A → Breaker → Breaker
calls zero t outcome b = b
calls (suc n) t outcome b = calls n (λ i. t (suc i)) outcome (execute (t zero) (λ c. c) outcome b).0

-- One successful probe of a half-open circuit with a free slot.
probe {ℓ} :
    {A : Type ℓ} (t : Moments) (a : A) (b : Breaker)
    → b.state ≡ half_open
    → b.half_open_calls < b.half_open_max_calls
    → b.success_count + 1 < b.half_open_max_calls
    → (execute t (λ c. c) (returned a) b).0
      ≡ record b { half_open_calls = b.half_open_calls + 1; success_count = b.success_count + 1 }
unfolding execute
probe t a b h slot more = ground arith

last_probe {ℓ} :
    {A : Type ℓ} (t : Moments) (a : A) (b : Breaker)
    → b.state ≡ half_open
    → b.half_open_calls < b.half_open_max_calls
    → b.success_count + 1 ≡ b.half_open_max_calls
    → (execute t (λ c. c) (returned a) b).0.state ≡ closed
unfolding execute
last_probe t a b h slot last = ground arith

-- A half-open circuit that has used no more slots than it has seen successes closes on exactly the
-- success that completes `half_open_max_calls`: `k` successful calls, no more than are missing,
-- leave it closed if `k` were missing and half-open if more were.
pub calls-returned {ℓ} :
    {A : Type ℓ} (k : ℕ) (t : ℕ → Moments) (a : A) (b : Breaker)
    → b.state ≡ half_open
    → b.half_open_calls ≤ b.success_count
    → b.success_count < b.half_open_max_calls
    → b.success_count + k ≤ b.half_open_max_calls
    → (calls k t (returned a) b).state
      ≡ (if b.success_count + k == b.half_open_max_calls then closed else half_open)
unfolding calls
calls-returned zero t a b h slots below left = ground arith
calls-returned (suc zero) t a b h slots below left =
    elim (Bool-cases (b.success_count + 1 == b.half_open_max_calls)) [
      | inl e ↦ rw e (last_probe (t zero) a b h (ground arith) (ground arith))
      | inr e ↦ rw e (ap (λ c. c.state) (probe (t zero) a b h (ground arith) (ground arith)) ∙ h)
    ]
calls-returned (suc (suc k)) t a b h slots below left =
    ap (λ c. (calls (suc k) (λ i. t (suc i)) (returned a) c).state)
      (probe (t zero) a b h (omega arith) (omega arith))
    ∙ ground (
      arith,
      calls-returned (suc k) (λ i. t (suc i)) a
          (record b {
            half_open_calls = b.half_open_calls + 1;
            success_count = b.success_count + 1;
          })
          h (omega arith) (omega arith) (omega arith),
    )

cancelled_call :
    (A : Type 0) (t : Moments) (b : Breaker)
    → b.state ≡ half_open
    → b.half_open_calls < b.half_open_max_calls
    → (execute {A = A} t (λ c. c) cancelled b).0
      ≡ record b { half_open_calls = b.half_open_calls + 1 }
unfolding execute
cancelled_call A t b h slot = ground arith

calls-cancelled :
    (A : Type 0) (n : ℕ) (t : ℕ → Moments) (b : Breaker)
    → b.state ≡ half_open
    → b.half_open_calls + n ≡ b.half_open_max_calls
    → calls {A = A} n t cancelled b ≡ record b { half_open_calls = b.half_open_max_calls }
unfolding calls
calls-cancelled A zero t b h full = ground arith
calls-cancelled A (suc n) t b h full =
    ap (calls {A = A} n (λ i. t (suc i)) cancelled) (cancelled_call A (t zero) b h (omega arith))
    ∙ calls-cancelled A n (λ i. t (suc i)) (record b { half_open_calls = b.half_open_calls + 1 }) h
        (omega arith)

refused :
    {A : Type 0} (t : Moments) (meanwhile : Breaker → Breaker) (outcome : Outcome A) (b : Breaker)
    → b.state ≡ half_open
    → b.half_open_max_calls ≤ b.half_open_calls
    → execute t meanwhile outcome b ≡ (b, circuit_open_error)
unfolding execute
refused t meanwhile outcome b h full = ground arith

-- A cancelled probe keeps its slot: once the tasks in all the free slots of a half-open circuit have
-- been cancelled, every later call is refused and leaves the breaker as it is, however much time
-- goes by.
pub lockout :
    (A : Type 0) {B : Type 0} (n : ℕ) (ts : ℕ → Moments) (b : Breaker)
    → b.state ≡ half_open
    → b.half_open_calls + n ≡ b.half_open_max_calls
    → (t : Moments) (meanwhile : Breaker → Breaker) (outcome : Outcome B)
    → let b' = calls {A = A} n ts cancelled b in
      execute t meanwhile outcome b' ≡ (b', circuit_open_error)
lockout A n ts b h full t meanwhile outcome = rw (calls-cancelled A n ts b h full) (
    refused t meanwhile outcome (record b { half_open_calls = b.half_open_max_calls }) h
      (omega arith))

-- A run of a breaker in which every call that was let in ends by a success or a failure; the number
-- counts the calls in flight. Others may read it, reset it and report failures of their own.
pub data Run (s : Breaker) : Breaker → ℕ → Type 0 where
  start : Run s s 0
  read : {b : Breaker} {n : ℕ} (now : ℕ) → Run s b n → Run s (read_state now b) n
  enter :
      {b : Breaker} {n : ℕ} (t : Moments)
      → Run s b n
      → (admit t b).1 ≡ true
      → Run s (admit t b).0 (suc n)
  refuse :
      {b : Breaker} {n : ℕ} (t : Moments)
      → Run s b n
      → (admit t b).1 ≡ false
      → Run s (admit t b).0 n
  succeed : {b : Breaker} {n : ℕ} → Run s b (suc n) → Run s (record_success b) n
  fail : {b : Breaker} {n : ℕ} (now : ℕ) → Run s b (suc n) → Run s (record_failure now b) n
  report : {b : Breaker} {n : ℕ} (now : ℕ) → Run s b n → Run s (record_failure now b) n
  clear : {b : Breaker} {n : ℕ} → Run s b n → Run s (reset b) n

abbrev SlotsAreLive : Breaker → ℕ → Type 0
SlotsAreLive b n = b.state ≡ half_open → b.half_open_calls ≤ b.success_count + n

Run-SlotsAreLive : {s b : Breaker} {n : ℕ} → s.state ≡ closed → Run s b n → SlotsAreLive b n
unfolding read_state admit record_success record_failure reset
Run-SlotsAreLive c start = λ h. cc
Run-SlotsAreLive c (read now r) = let ih = Run-SlotsAreLive c r in ground arith
Run-SlotsAreLive c (enter t r ok) = let ih = Run-SlotsAreLive c r in ground arith
Run-SlotsAreLive c (refuse t r ok) = let ih = Run-SlotsAreLive c r in ground arith
Run-SlotsAreLive c (succeed r) = let ih = Run-SlotsAreLive c r in ground arith
Run-SlotsAreLive c (fail now r) = let ih = Run-SlotsAreLive c r in ground arith
Run-SlotsAreLive c (report now r) = let ih = Run-SlotsAreLive c r in ground arith
Run-SlotsAreLive c (clear r) = let ih = Run-SlotsAreLive c r in ground arith

Run-IsValid : {s b : Breaker} {n : ℕ} → IsValid s → Run s b n → IsValid b
Run-IsValid v start = v
Run-IsValid v (read now r) = read_state-IsValid now (Run-IsValid v r)
Run-IsValid v (enter t r ok) = admit-IsValid t (Run-IsValid v r)
Run-IsValid v (refuse t r ok) = admit-IsValid t (Run-IsValid v r)
Run-IsValid v (succeed r) = record_success-IsValid (Run-IsValid v r)
Run-IsValid v (fail now r) = record_failure-IsValid now (Run-IsValid v r)
Run-IsValid v (report now r) = record_failure-IsValid now (Run-IsValid v r)
Run-IsValid v (clear r) = reset-IsValid (Run-IsValid v r)

-- With no cancellation there is no lockout: from a valid closed breaker, whatever calls, reads,
-- failure reports and resets have been interleaved, a half-open circuit with no call in flight
-- lets the next call pass, at any time.
pub no_lockout :
    {s b : Breaker} (now : ℕ)
    → IsValid s
    → s.state ≡ closed
    → Run s b 0
    → b.state ≡ half_open
    → (can_execute now b).1 ≡ true
unfolding can_execute
no_lockout now v c r h =
    let live = Run-SlotsAreLive c r h in let w = Run-IsValid v r in ground arith

-- A failure of a half-open circuit opens it at once, and keeps the successes of the probes before
-- it: after the timeout the first successful call already closes the circuit if all but one of the
-- successes had been seen.
pub stale_success {ℓ} :
    {A : Type ℓ} (failed : ℕ) (t : Moments) (a : A) (b : Breaker)
    → b.state ≡ half_open
    → 0 < b.half_open_max_calls
    → b.success_count + 1 ≡ b.half_open_max_calls
    → failed + b.recovery_timeout < t.check
    → let b' = record_failure failed b in
      (b'.state ≡ open_circuit) × ((execute t (λ c. c) (returned a) b').0.state ≡ closed)
unfolding record_failure execute
stale_success failed t a b h pos last late = (ground arith, ground arith)
