-- ===== src/Breaker/Calls.antt =====
-- `execute` of src/engine/circuit_breaker.py as a whole: what the caller gets, and which steps the
-- breaker takes.
use bharat_ticker.Common.{◌+◌, ◌≡◌, refl, arith, if◌then◌else◌}
use bharat_ticker.Breaker.Defs.{
  ErrorKind, Breaker, Moments, Outcome, returned, raised, cancelled, Reply, value, reraised,
  task_cancelled, circuit_open_error, can_execute, admit, settle, execute,
}
use bharat_ticker.Breaker.Invariant.{IsValid, Reach, Step, Reach-IsValid}

-- The reply to a caller whose call was let in.
abbrev pub reply_of {ℓ} : {A : Type ℓ} → Outcome A → Reply A
reply_of (returned a) = value a
reply_of (raised e) = reraised e
reply_of cancelled = task_cancelled

settle-reply {ℓ} :
    {A : Type ℓ} (t : Moments) (outcome : Outcome A) (b : Breaker)
    → (settle t outcome b).1 ≡ reply_of outcome
unfolding settle
settle-reply t (returned a) b = refl
settle-reply t (raised e) b = refl
settle-reply t cancelled b = refl

admit-can_execute : (t : Moments) (b : Breaker) → (admit t b).1 ≡ (can_execute t.check b).1
unfolding admit
admit-can_execute t b = ground arith

-- The caller gets the function's own result, raise or cancellation if `can_execute` lets the call
-- pass, and `CircuitOpenError` if it does not.
pub execute-reply {ℓ} :
    {A : Type ℓ} (t : Moments) (meanwhile : Breaker → Breaker) (outcome : Outcome A) (b : Breaker)
    → (execute t meanwhile outcome b).1
      ≡ (if (can_execute t.check b).1 then reply_of outcome else circuit_open_error)
unfolding execute
execute-reply t meanwhile outcome b =
    ground (arith, admit-can_execute t b, settle-reply t outcome (meanwhile (admit t b).0))

settle-Reach {ℓ} :
    {A : Type ℓ} (t : Moments) (outcome : Outcome A) {b c : Breaker}
    → Reach b c
    → Reach b (settle t outcome c).0
unfolding settle
settle-Reach t (returned a) r = Reach.next r (Step.succeed _)
settle-Reach t (raised e) r = Reach.next r (Step.fail t.failed _)
settle-Reach t cancelled r = r

-- A call through the breaker is made of the steps of its invariant, if what the other tasks do in
-- the meantime is: so the invariant holds after it too.
pub execute-IsValid {ℓ} :
    {A : Type ℓ} (t : Moments) (meanwhile : Breaker → Breaker) (outcome : Outcome A) (b : Breaker)
    → IsValid b
    → ((c : Breaker) → Reach c (meanwhile c))
    → IsValid (execute t meanwhile outcome b).0
unfolding execute
execute-IsValid t meanwhile outcome b v others =
    let entered = Reach-IsValid (Reach.next Reach.here (Step.enter t b)) v in
    let ended = Reach-IsValid (settle-Reach t outcome (others (admit t b).0)) entered in
    ground arith

-- A call that is let in and raises counts one failure; one that is refused counts none.
pub execute_raised-failure_count {ℓ} :
    (A : Type ℓ) (t : Moments) (e : ErrorKind) (b : Breaker)
    → (execute {A = A} t (λ c. c) (raised e) b).0.failure_count
      ≡ (if (can_execute t.check b).1 then b.failure_count + 1 else b.failure_count)
unfolding execute can_execute
execute_raised-failure_count A t e b = ground arith
