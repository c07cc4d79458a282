-- ===== src/Limiter/Defs.antt =====
-- `TokenBucketRateLimiter` (src/engine/rate_limiter.py), in exact arithmetic in place of floats.
-- `per` and the readings of the monotonic clock are in clock units. A token is `per` parts, and
-- `tokens` counts parts: one unit of time adds `rate` parts, which is `rate / per` tokens.
use bharat_ticker.Common.{
  ℕ, suc, ◌+◌, ◌-◌, ◌*◌, min, leb, Bool, true, false, Option, none, some, List, [], ◌∷◌,
  if◌then◌else◌,
}

pub record Limiter : Type 0 where
  pub rate : ℕ
  pub per : ℕ
  pub tokens : ℕ
  pub last_refill : ℕ

-- The constructor, at a reading of the clock.
unfoldable pub init : ℕ → ℕ → ℕ → Limiter
init rate per now = record { rate = rate; per = per; tokens = rate * per; last_refill = now }

-- `_refill`: `elapsed * (rate / per)` tokens are `elapsed * rate` parts.
unfoldable pub refill : ℕ → Limiter → Limiter
refill now l =
    let elapsed = now - l.last_refill in
    record l { tokens = min (l.rate * l.per) (l.tokens + elapsed * l.rate); last_refill = now }

-- The body of the loop of `acquire`, under the lock: whether a token was taken.
unfoldable pub try_acquire : ℕ → Limiter → Limiter × Bool
try_acquire now l =
    let l' = refill now l in
    if leb l'.per l'.tokens then (record l' { tokens = l'.tokens - l'.per }, true) else (l', false)

-- `acquire`: the loop, with the readings of the clock at its rounds. The second part is the number of
-- rounds that waited; `none` means that the list has run out before a token was taken.
unfoldable pub acquire : List ℕ → Limiter → Limiter × Option ℕ
acquire [] l = (l, none)
acquire (now ∷ later) l =
    let (l', taken) = try_acquire now l in
    let rest = acquire later l' in
    if taken then (l', some 0) else (rest.0, elim (rest.1) [ none ↦ none | some n ↦ some (suc n) ])

-- The property `available_tokens`, in parts.
unfoldable pub available_tokens : ℕ → Limiter → Limiter × ℕ
available_tokens now l = let l' = refill now l in (l', l'.tokens)
