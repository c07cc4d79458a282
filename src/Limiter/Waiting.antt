-- ===== src/Limiter/Waiting.antt =====
-- The loop of `acquire` (src/engine/rate_limiter.py) ends: between two rounds it sleeps for the time
-- in which one token comes in.
use bharat_ticker.Common.{
  ℕ, ◌-◌, ◌*◌, ◌≤◌, ◌≡◌, refl, true, false, some, List, ◌∷◌, arith, Bool-cases, inl, inr, ◌⊎◌,
}
use bharat_ticker.Limiter.Defs.{Limiter, refill, try_acquire, acquire}

one_token : (rate per : ℕ) → 1 ≤ rate → per ≤ rate * per
one_token rate per h = grind arith

try_acquire-taken :
    (now : ℕ) (l : Limiter)
    → 1 ≤ l.rate
    → l.per ≤ (now - l.last_refill) * l.rate
    → (try_acquire now l).1 ≡ true
unfolding try_acquire refill
try_acquire-taken now l pos h = ground (arith, one_token l.rate l.per pos)

-- A round that takes no token leaves only a refill behind.
try_acquire-failed :
    (now : ℕ) (l : Limiter)
    → (try_acquire now l).1 ≡ false
    → ((try_acquire now l).0.rate ≡ l.rate)
      × ((try_acquire now l).0.per ≡ l.per)
      × ((try_acquire now l).0.last_refill ≡ now)
unfolding try_acquire refill
try_acquire-failed now l h = ground arith

-- With a rate of at least one, `acquire` gets its token in the first round, or in the second if the
-- sleep in between was as long as it has to be (`per / rate`) and no other task took a token
-- meanwhile.
pub acquire-ends :
    (first second : ℕ) (later : List ℕ) (l : Limiter)
    → 1 ≤ l.rate
    → l.per ≤ (second - first) * l.rate
    → ((acquire (first ∷ second ∷ later) l).1 ≡ some 0)
      ⊎ ((acquire (first ∷ second ∷ later) l).1 ≡ some 1)
unfolding acquire
acquire-ends first second later l pos slept = elim (Bool-cases (try_acquire first l).1) [
  | inl e ↦ inl (rw e refl)
  | inr e ↦
      let l' = (try_acquire first l).0 in
      let (same_rate, same_per, at) = try_acquire-failed first l e in
      let t = try_acquire-taken second l' (rw same_rate pos) (rw (same_rate, same_per, at) slept) in
      inr (rw (e, t) refl)
]
