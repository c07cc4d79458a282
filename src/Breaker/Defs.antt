-- ===== src/Breaker/Defs.antt =====
-- `CircuitState`, `CircuitBreaker` and its methods (src/engine/circuit_breaker.py).
use bharat_ticker.Common.{
  ℕ, zero, suc, ◌+◌, ◌-◌, Bool, true, false, Option, none, some, ltb, leb, if◌then◌else◌,
}
use bharat_ticker.Common.Text.{Text}

pub data CircuitState : Type 0 where
  closed open_circuit half_open : CircuitState

-- The fields of src/config/settings.py that the constructor falls back to.
pub record Settings : Type 0 where
  pub cb_failure_threshold : ℕ
  pub cb_recovery_timeout : ℕ
  pub cb_half_open_max_calls : ℕ

pub record Breaker : Type 0 where
  pub name : Text
  pub failure_threshold : ℕ
  pub recovery_timeout : ℕ
  pub half_open_max_calls : ℕ
  pub state : CircuitState
  pub failure_count : ℕ
  pub success_count : ℕ
  pub last_failure_time : ℕ
  pub half_open_calls : ℕ

-- Python's `x or d`, for a number that may be `None`: a zero falls back too.
abbrev pub or_default : Option ℕ → ℕ → ℕ
or_default none d = d
or_default (some zero) d = d
or_default (some (suc n)) d = suc n

unfoldable pub init : Settings → Text → Option ℕ → Option ℕ → Option ℕ → Breaker
init settings name failure_threshold recovery_timeout half_open_max_calls = record {
  name = name;
  failure_threshold = or_default failure_threshold settings.cb_failure_threshold;
  recovery_timeout = or_default recovery_timeout settings.cb_recovery_timeout;
  half_open_max_calls = or_default half_open_max_calls settings.cb_half_open_max_calls;
  state = closed;
  failure_count = 0;
  success_count = 0;
  last_failure_time = 0;
  half_open_calls = 0;
}

-- A match on the state, for the methods that branch on it.
abbrev by_state {ℓ} : {A : Type ℓ} → CircuitState → A → A → A → A
by_state closed c o h = c
by_state open_circuit c o h = o
by_state half_open c o h = h

-- The property `state`: reading it moves an open circuit whose timeout has passed to half-open.
unfoldable pub read_state : ℕ → Breaker → Breaker
read_state now b =
    by_state b.state b
      (if ltb b.recovery_timeout (now - b.last_failure_time)
        then record b { state = half_open; half_open_calls = 0 }
        else b)
      b

unfoldable pub record_success : Breaker → Breaker
record_success b =
    by_state b.state (record b { failure_count = b.failure_count - 1 }) b
      (if leb b.half_open_max_calls (b.success_count + 1)
        then record b { state = closed; failure_count = 0; success_count = 0 }
        else record b { success_count = b.success_count + 1 })

unfoldable pub record_failure : ℕ → Breaker → Breaker
record_failure now b =
    let counted : Breaker = record b {
      failure_count = b.failure_count + 1;
      last_failure_time = now;
    } in
    by_state b.state
      (if leb b.failure_threshold (b.failure_count + 1)
        then record counted { state = open_circuit }
        else counted)
      counted (record counted { state = open_circuit })

-- The answer of `can_execute`, by the state that was read.
unfoldable pub passes : Breaker → Bool
passes b = by_state b.state true false (ltb b.half_open_calls b.half_open_max_calls)

unfoldable pub can_execute : ℕ → Breaker → Breaker × Bool
unfolding read_state passes
can_execute now b = let b' = read_state now b in (b', passes b')

-- What an awaited function may raise: a `ProviderError`, or an exception of another class.
pub data ErrorKind : Type 0 where
  provider_error other_error : ErrorKind

-- What becomes of the awaited function: `except Exception` sees a raise, and not the cancellation
-- of the task.
pub data Outcome {ℓ} (A : Type ℓ) : Type ℓ where
  returned : A → Outcome A
  raised : ErrorKind → Outcome A
  cancelled : Outcome A

pub data Reply {ℓ} (A : Type ℓ) : Type ℓ where
  value : A → Reply A
  circuit_open_error : Reply A
  reraised : ErrorKind → Reply A
  task_cancelled : Reply A

-- The clock at the test of `can_execute`, at the second read of `state`, and at a failure.
pub record Moments : Type 0 where
  pub check : ℕ
  pub enter : ℕ
  pub failed : ℕ

-- The part of `execute` before the `try`: `false` is the raise of `CircuitOpenError`.
unfoldable pub admit : Moments → Breaker → Breaker × Bool
unfolding can_execute read_state
admit t b =
    let (b', ok) = can_execute t.check b in
    if ok
    then (let b'' = read_state t.enter b' in
        (
          by_state b''.state b'' b'' (record b'' { half_open_calls = b''.half_open_calls + 1 }),
          true,
        ))
    else (b', false)

-- The `try` of `execute`, once the awaited function has ended.
unfoldable pub settle {ℓ} : {A : Type ℓ} → Moments → Outcome A → Breaker → Breaker × Reply A
unfolding record_success record_failure
settle t (returned a) b = (record_success b, value a)
settle t (raised e) b = (record_failure t.failed b, reraised e)
settle t cancelled b = (b, task_cancelled)

-- `execute`. While the function is awaited other tasks may use the breaker: `meanwhile` is what
-- they do to it.
unfoldable pub execute {ℓ} :
    {A : Type ℓ} → Moments → (Breaker → Breaker) → Outcome A → Breaker → Breaker × Reply A
unfolding admit settle
execute t meanwhile outcome b =
    let (b', ok) = admit t b in
    if ok then settle t outcome (meanwhile b') else (b', circuit_open_error)

unfoldable pub reset : Breaker → Breaker
reset b = record b { state = closed; failure_count = 0; success_count = 0; half_open_calls = 0 }

-- The properties `is_closed` and `is_open`.
unfoldable pub is_closed : ℕ → Breaker → Breaker × Bool
unfolding read_state
is_closed now b = let b' = read_state now b in (b', by_state b'.state true false false)

unfoldable pub is_open : ℕ → Breaker → Breaker × Bool
unfolding read_state
is_open now b = let b' = read_state now b in (b', by_state b'.state false true false)

-- `to_dict`, which reads the state and so may change it.
pub record Snapshot : Type 0 where
  pub name : Text
  pub state : CircuitState
  pub failure_count : ℕ
  pub last_failure : ℕ
  pub threshold : ℕ
  pub recovery_timeout : ℕ

unfoldable pub to_dict : ℕ → Breaker → Breaker × Snapshot
unfolding read_state
to_dict now b =
    let b' = read_state now b in
    (
      b',
      record {
        name = b'.name;
        state = b'.state;
        failure_count = b'.failure_count;
        last_failure = b'.last_failure_time;
        threshold = b'.failure_threshold;
        recovery_timeout = b'.recovery_timeout;
      },
    )
