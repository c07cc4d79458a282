-- ===== src/Limiter/Bounds.antt =====
-- The rate that the token bucket of src/engine/rate_limiter.py enforces.
use bharat_ticker.Common.{
  ℕ, ◌+◌, ◌-◌, ◌*◌, ◌≤◌, leb, ◌≡◌, refl, Bool, true, false, List, [], ◌∷◌, arith, if◌then◌else◌,
  Bool-cases, inl, inr, ap, ◌∙◌, sym,
}
use native.Mathlib.Nat.{add-mul}
use bharat_ticker.Limiter.Defs.{Limiter, refill, try_acquire}

-- A call on the bucket by any task: a round of `acquire`, or a read of `available_tokens`.
pub data Use : Type 0 where
  round : ℕ → Use
  read : ℕ → Use

abbrev pub time_of : Use → ℕ
time_of (round now) = now
time_of (read now) = now

unfoldable pub apply : Use → Limiter → Limiter × Bool
apply (round now) l = try_acquire now l
apply (read now) l = (refill now l, false)

-- The tokens granted by a sequence of uses, and the bucket after it.
unfoldable pub run : List Use → Limiter → Limiter × ℕ
run [] l = (l, 0)
run (u ∷ us) l =
    let (l', taken) = apply u l in
    let (end, granted) = run us l' in (end, if taken then granted + 1 else granted)

-- The clock never goes back.
abbrev pub Follows : ℕ → List Use → Type 0
Follows t [] = Unit
Follows t (u ∷ us) = (t ≤ time_of u) × Follows (time_of u) us

pub record IsValid (l : Limiter) : Type 0 where
  pub bounded : l.tokens ≤ l.rate * l.per

-- What one use does to the parts in the bucket and the time.
pub record Accounts (l l' : Limiter) (spent : ℕ) : Type 0 where
  pub same_rate : l'.rate ≡ l.rate
  pub same_per : l'.per ≡ l.per
  pub later : l.last_refill ≤ l'.last_refill
  pub balance : l'.tokens + spent + l.last_refill * l.rate ≤ l.tokens + l'.last_refill * l.rate
  pub bounded : l'.tokens ≤ l.rate * l.per

pub elapsed-mul : (a b r : ℕ) → a ≤ b → (b - a) * r + a * r ≡ b * r
elapsed-mul a b r h = sym (add-mul (b - a) a r) ∙ ap (λ n. n * r) (omega arith)

refill-Accounts :
    (now : ℕ) (l : Limiter) → l.last_refill ≤ now → IsValid l → Accounts l (refill now l) 0
unfolding refill
refill-Accounts now l h v = record {
  same_rate = refl;
  same_per = refl;
  later = h;
  balance = omega (arith, elapsed-mul l.last_refill now l.rate h);
  bounded = omega arith;
}

-- What a grant takes from the bucket.
abbrev cost : Bool → ℕ → ℕ
cost true per = per
cost false per = 0

apply-Accounts :
    (u : Use) (l : Limiter)
    → l.last_refill ≤ time_of u
    → IsValid l
    → Accounts l (apply u l).0 (cost (apply u l).1 l.per)
unfolding apply try_acquire
apply-Accounts (read now) l h v = refill-Accounts now l h v
apply-Accounts (round now) l h v =
    let a = refill-Accounts now l h v in
    elim (Bool-cases (leb (refill now l).per (refill now l).tokens)) [
      | inl e ↦
          rw (try_acquire, e)
            (record {
              same_rate = a.same_rate;
              same_per = a.same_per;
              later = a.later;
              balance = ground arith;
              bounded = ground arith;
            })
      | inr e ↦ rw (try_acquire, e) a
    ]

time-apply : (u : Use) (l : Limiter) → (apply u l).0.last_refill ≡ time_of u
unfolding apply try_acquire refill
time-apply (round now) l = ground arith
time-apply (read now) l = refl

run-balance :
    (us : List Use) (l : Limiter)
    → Follows l.last_refill us
    → IsValid l
    → let (end, granted) = run us l in
      (end.tokens + granted * l.per + l.last_refill * l.rate ≤ l.tokens + end.last_refill * l.rate)
      × (l.last_refill ≤ end.last_refill)
      × (end.rate ≡ l.rate)
      × (end.per ≡ l.per)
      × IsValid end
unfolding run
run-balance [] l f v = (omega arith, omega arith, refl, refl, v)
run-balance (u ∷ us) l f v =
    let (l', taken) = apply u l in
    let a = apply-Accounts u l f.0 v in
    let valid : IsValid l' = record { bounded = rw (a.same_rate, a.same_per) a.bounded } in
    let ih = run-balance us l' (rw (time-apply u l) f.1) valid in
    let (end, granted) = run us l' in
    let per : granted * l'.per ≡ granted * l.per = ap (λ n. granted * n) a.same_per in
    let before : l'.last_refill * l'.rate ≡ l'.last_refill * l.rate =
      ap (λ n. l'.last_refill * n) a.same_rate in
    let after : end.last_refill * l'.rate ≡ end.last_refill * l.rate =
      ap (λ n. end.last_refill * n) a.same_rate in
    elim (Bool-cases taken) [
      | inl e ↦
          let spent : cost taken l.per ≡ l.per = rw e refl in
          rw e (
            omega (arith, a.balance, spent),
            omega (arith, a.later),
            ih.2 ∙ a.same_rate,
            ih.3 ∙ a.same_per,
            ih.4,
          )
      | inr e ↦
          let spent : cost taken l.per ≡ 0 = rw e refl in
          rw e (
            omega (arith, a.balance, spent),
            omega (arith, a.later),
            ih.2 ∙ a.same_rate,
            ih.3 ∙ a.same_per,
            ih.4,
          )
    ]

-- The rate limit: in any stretch of use of a valid bucket by any tasks, on a clock that never goes
-- back, the tokens granted are at most
-- one full bucket and the tokens that come in between its first and last moment, counted in parts.
pub run-rate :
    (us : List Use) (l : Limiter)
    → Follows l.last_refill us
    → IsValid l
    → let (end, granted) = run us l in
      granted * l.per ≤ l.rate * l.per + (end.last_refill - l.last_refill) * l.rate
run-rate us l f v =
    let b = run-balance us l f v in
    let (end, granted) = run us l in
    omega (arith, v.bounded, elapsed-mul l.last_refill end.last_refill l.rate b.1)
