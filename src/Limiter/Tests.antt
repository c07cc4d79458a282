-- ===== src/Limiter/Tests.antt =====
-- Five tokens a second through the bucket of src/engine/rate_limiter.py, in milliseconds, and the
-- theorems about it at concrete buckets.
use bharat_ticker.Common.{◌+◌, ◌-◌, ◌*◌, ◌≤◌, ◌≡◌, refl, some, List, [], ◌∷◌, arith}
use bharat_ticker.Limiter.Defs.{Limiter, init, refill, try_acquire, acquire}
use bharat_ticker.Limiter.Bounds.{round, read, Use, apply, run, run-rate}

abbrev full : Limiter
full = record { rate = 5; per = 1000; tokens = 5000; last_refill = 0 }

init-full : init 5 1000 0 ≡ full
unfolding init
init-full = refl

abbrev empty : Limiter
empty = record full { tokens = 0 }

-- A burst of seven in the same millisecond gets five tokens.
abbrev burst : List Use
burst = round 1 ∷ round 1 ∷ round 1 ∷ round 1 ∷ read 1 ∷ round 1 ∷ round 1 ∷ round 1 ∷ []

burst-five : (run burst full).1 ≡ 5
unfolding run apply try_acquire refill
burst-five = refl

one_wait : (acquire (100 ∷ 300 ∷ []) empty).1 ≡ some 1
unfolding acquire try_acquire refill
one_wait = refl

run-rate_example : (run burst full).1 * 1000 ≤ 5 * 1000 + ((run burst full).0.last_refill - 0) * 5
run-rate_example = run-rate burst full (omega arith) (omega arith)
