-- ===== src/Breaker/Invariant.antt =====
-- What holds of a breaker (src/engine/circuit_breaker.py) after any interleaving of the steps that
-- the tasks of the event loop take on it.
use bharat_ticker.Common.Text.{Text}
use bharat_ticker.Common.{ℕ, ◌≤◌, ◌<◌, ◌≡◌, Option, arith}
use bharat_ticker.Breaker.Defs.{
  Breaker, Settings, closed, Moments, init, read_state, record_success, record_failure, admit,
  reset,
}

pub record IsValid (b : Breaker) : Type 0 where
  pub threshold_pos : 0 < b.failure_threshold
  pub max_calls_pos : 0 < b.half_open_max_calls
  pub closed_below : b.state ≡ closed → b.failure_count < b.failure_threshold
  pub closed_clean : b.state ≡ closed → b.success_count ≡ 0
  pub probes_below : b.success_count < b.half_open_max_calls
  pub slots_bounded : b.half_open_calls ≤ b.half_open_max_calls

-- One uninterrupted use of the breaker by a task: `execute` is an `admit`, and later a success, a
-- failure or nothing; the failover controller records failures of its own.
pub data Step : Breaker → Breaker → Type 0 where
  read : (now : ℕ) (b : Breaker) → Step b (read_state now b)
  enter : (t : Moments) (b : Breaker) → Step b (admit t b).0
  succeed : (b : Breaker) → Step b (record_success b)
  fail : (now : ℕ) (b : Breaker) → Step b (record_failure now b)
  clear : (b : Breaker) → Step b (reset b)

pub data Reach (s : Breaker) : Breaker → Type 0 where
  here : Reach s s
  next : {b c : Breaker} → Reach s b → Step b c → Reach s c

pub init-IsValid :
    (s : Settings) (name : Text) (threshold timeout calls : Option ℕ)
    → 0 < s.cb_failure_threshold
    → 0 < s.cb_half_open_max_calls
    → IsValid (init s name threshold timeout calls)
unfolding init
init-IsValid s name threshold timeout calls h k = ground arith

pub read_state-IsValid : {b : Breaker} (now : ℕ) → IsValid b → IsValid (read_state now b)
unfolding read_state
read_state-IsValid now v = ground arith

pub record_success-IsValid : {b : Breaker} → IsValid b → IsValid (record_success b)
unfolding record_success
record_success-IsValid v = ground arith

pub record_failure-IsValid : {b : Breaker} (now : ℕ) → IsValid b → IsValid (record_failure now b)
unfolding record_failure
record_failure-IsValid now v = ground arith

pub admit-IsValid : {b : Breaker} (t : Moments) → IsValid b → IsValid (admit t b).0
unfolding admit
admit-IsValid t v = ground arith

pub reset-IsValid : {b : Breaker} → IsValid b → IsValid (reset b)
unfolding reset
reset-IsValid v = ground arith

pub Step-IsValid : {b c : Breaker} → Step b c → IsValid b → IsValid c
Step-IsValid (read now b) v = read_state-IsValid now v
Step-IsValid (enter t b) v = admit-IsValid t v
Step-IsValid (succeed b) v = record_success-IsValid v
Step-IsValid (fail now b) v = record_failure-IsValid now v
Step-IsValid (clear b) v = reset-IsValid v

pub Reach-IsValid : {b c : Breaker} → Reach b c → IsValid b → IsValid c
Reach-IsValid here v = v
Reach-IsValid (next r s) v = Step-IsValid s (Reach-IsValid r v)

-- A breaker built with positive defaults is valid after every sequence of steps: closed circuits are
-- below their threshold and remember no probes, and neither the successes nor the slots of the
-- probes exceed `half_open_max_calls`.
pub init-Reach-IsValid :
    (s : Settings) (name : Text) (threshold timeout calls : Option ℕ) {b : Breaker}
    → 0 < s.cb_failure_threshold
    → 0 < s.cb_half_open_max_calls
    → Reach (init s name threshold timeout calls) b
    → IsValid b
init-Reach-IsValid s name threshold timeout calls h k r =
    Reach-IsValid r (init-IsValid s name threshold timeout calls h k)
