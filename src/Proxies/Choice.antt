-- ===== src/Proxies/Choice.antt =====
-- Which proxy `current` of src/providers/proxy_pool.py gives out.
use bharat_ticker.Common.{
  ℕ, zero, suc, ◌%◌, ◌≤◌, ltb, ◌≡◌, ◌≢◌, refl, Bool, true, false, some, List, [], ◌∷◌, length, All,
  Any, arith, if◌then◌else◌, Bool-cases, inl, inr, ◌⊎◌,
}
use mathlib.Core.Path.{subst, sym}
use bharat_ticker.Common.Text.{Text}
use bharat_ticker.Common.Dict.{Dict, get_or}
use bharat_ticker.Proxies.Defs.{
  ProxyPool, ProxyStrategy, random, least_used, round_robin, is_alive, keep, alive, or_else, least,
  item, index, pick, choose, current,
}

-- `p` is one of the list.
abbrev pub Member : Text → List Text → Type 0
Member p = Any (λ q. q ≡ p)

-- What is assumed of `random.choice`: its result is one of the sequence.
abbrev pub IsChoice : (Text → List Text → Text) → Type 0
IsChoice choice = (p : Text) (ps : List Text) → Member (choice p ps) (p ∷ ps)

module _ (P : Text → Type 0) where
  All-Member : (p : Text) (ps : List Text) → Member p ps → All P ps → P p
  All-Member p [] m a = elim m [ ]
  All-Member p (q ∷ ps) (inl e) a = subst P e a.0
  All-Member p (q ∷ ps) (inr m) a = All-Member p ps m a.1

  item-All : (p : Text) (ps : List Text) (i : ℕ) → i ≤ length ps → All P (p ∷ ps) → P (item p ps i)
  unfolding item
  item-All p [] i h a = a.0
  item-All p (q ∷ qs) zero h a = a.0
  item-All p (q ∷ qs) (suc i) h a = item-All q qs i (omega arith) a.1

  least-All :
      (uses : Dict ℕ) (best : Text) (ps : List Text) → P best → All P ps → P (least uses best ps)
  unfolding least
  least-All uses best [] h a = h
  least-All uses best (p ∷ ps) h a =
      least-All uses (if ltb (get_or p 0 uses) (get_or best 0 uses) then p else best) ps
        (either (ltb (get_or p 0 uses) (get_or best 0 uses)) a.0 h) a.1
    where
      either : (b : Bool) → P p → P best → P (if b then p else best)
      either true x y = x
      either false x y = y

  pick-All :
      (choice : Text → List Text → Text) (strategy : ProxyStrategy) (idx : ℕ) (uses : Dict ℕ)
      (p : Text) (ps : List Text)
      → IsChoice choice
      → All P (p ∷ ps)
      → P (pick choice strategy idx uses p ps)
  unfolding pick
  pick-All choice random idx uses p ps c a = All-Member (choice p ps) (p ∷ ps) (c p ps) a
  pick-All choice least_used idx uses p ps c a = least-All uses p ps a.0 a.1
  pick-All choice round_robin idx uses p ps c a =
      unfold index in item-All p ps (idx % suc (length ps)) (omega arith) a

least-lt :
    (uses : Dict ℕ) (best p : Text) (ps : List Text)
    → ltb (get_or p 0 uses) (get_or best 0 uses) ≡ true
    → least uses best (p ∷ ps) ≡ least uses p ps
unfolding least
least-lt uses best p ps e = rw e refl

least-ge :
    (uses : Dict ℕ) (best p : Text) (ps : List Text)
    → ltb (get_or p 0 uses) (get_or best 0 uses) ≡ false
    → least uses best (p ∷ ps) ≡ least uses best ps
unfolding least
least-ge uses best p ps e = rw e refl

-- Stated for the count of the least, so that the goal does not change with the step.
least-le :
    (n : ℕ) (uses : Dict ℕ) (best : Text) (ps : List Text)
    → get_or (least uses best ps) 0 uses ≡ n
    → (n ≤ get_or best 0 uses) × All (λ q. n ≤ get_or q 0 uses) ps
unfolding least
least-le n uses best [] h = (omega (arith, h), tt)
least-le n uses best (p ∷ ps) h = elim (Bool-cases (ltb (get_or p 0 uses) (get_or best 0 uses))) [
  | inl e ↦
      let k : get_or (least uses p ps) 0 uses ≡ n = rw (sym (least-lt uses best p ps e)) h in
      let rest = least-le n uses p ps k in (ground (arith, rest.0, e), (rest.0, rest.1))
  | inr e ↦
      let k : get_or (least uses best ps) 0 uses ≡ n = rw (sym (least-ge uses best p ps e)) h in
      let rest = least-le n uses best ps k in (rest.0, (ground (arith, rest.0, e), rest.1))
]

-- The least-used strategy gives a proxy that has been used no more often than any other of the pool.
pub pick-least_used :
    (choice : Text → List Text → Text) (idx : ℕ) (uses : Dict ℕ) (p : Text) (ps : List Text)
    → All (λ q. get_or (pick choice least_used idx uses p ps) 0 uses ≤ get_or q 0 uses) (p ∷ ps)
unfolding pick
pick-least_used choice idx uses p ps = least-le (get_or (least uses p ps) 0 uses) uses p ps refl

-- One of the proxies, and alive at the time.
abbrev pub Live : ℕ → Dict ℕ → List Text → Text → Type 0
Live now dead_until ps p = Member p ps × (is_alive now dead_until p ≡ true)

All-weaken : (P Q : Text → Type 0) (ps : List Text) → ((p : Text) → P p → Q p) → All P ps → All Q ps
All-weaken P Q [] f a = tt
All-weaken P Q (p ∷ ps) f a = (f p a.0, All-weaken P Q ps f a.1)

keep-Live :
    (now : ℕ) (dead : Dict ℕ) (ps : List Text)
    → All (Live now dead ps) (keep (is_alive now dead) ps)
unfolding keep
keep-Live now dead [] = tt
keep-Live now dead (p ∷ ps) =
    let rest =
      All-weaken (Live now dead ps) (Live now dead (p ∷ ps)) (keep (is_alive now dead) ps)
        (λ q h. (inr h.0, h.1)) (keep-Live now dead ps) in
    elim (Bool-cases (is_alive now dead p)) [
      | inl e ↦ rw e ((inl refl, e), rest)
      | inr e ↦ rw e rest
    ]

All-self : (ps : List Text) → All (λ p. Member p ps) ps
All-self [] = tt
All-self (p ∷ ps) = (
  inl refl,
  All-weaken (λ q. Member q ps) (λ q. Member q (p ∷ ps)) ps (λ q h. inr h) (All-self ps),
)

choose-All :
    (P : Text → Type 0) (choice : Text → List Text → Text) (ps : List Text) (pool : ProxyPool)
    (p : Text)
    → IsChoice choice
    → All P ps
    → (choose choice ps pool).1 ≡ some p
    → P p
unfolding choose
choose-All P choice [] pool p c a e = absurd (cc)
choose-All P choice (q ∷ qs) pool p c a e =
    let chosen = pick choice pool.strategy pool.idx pool.uses q qs in
    let same : chosen ≡ p = cc in
    subst P same (pick-All P choice pool.strategy pool.idx pool.uses q qs c a)

keeps-none :
    (test : Text → Bool) (p : Text) (ps : List Text)
    → Member p ps
    → test p ≡ true
    → keep test ps ≢ []
unfolding keep
keeps-none test p [] m e = elim m [ ]
keeps-none test p (q ∷ ps) (inl h) e = rw (h, e) (λ k. cc)
keeps-none test p (q ∷ ps) (inr h) e = ground (arith, keeps-none test p ps h e)

or_else-Live :
    (now : ℕ) (dead : Dict ℕ) (all live : List Text)
    → All (Live now dead all) live
    → ((q : Text) → Live now dead all q → live ≢ [])
    → All
        (λ p. Member p all × ((q : Text) → Live now dead all q → is_alive now dead p ≡ true))
        (or_else live all)
or_else-Live now dead all [] a some_live =
    All-weaken (λ p. Member p all)
      (λ p. Member p all × ((q : Text) → Live now dead all q → is_alive now dead p ≡ true)) all
      (λ p m. (m, λ q l. absurd (some_live q l refl))) (All-self all)
or_else-Live now dead all (p ∷ ps) a some_live =
    All-weaken (Live now dead all)
      (λ p. Member p all × ((q : Text) → Live now dead all q → is_alive now dead p ≡ true)) (p ∷ ps)
      (λ r l. (l.0, λ q k. l.1)) a

pub current-picks :
    (choice : Text → List Text → Text) (now : ℕ) (pool : ProxyPool) (p : Text)
    → IsChoice choice
    → (current choice now pool).1 ≡ some p
    → Member p pool.proxies
      × ((q : Text)
          → Live now pool.dead_until pool.proxies q
          → is_alive now pool.dead_until p ≡ true)
unfolding current alive
current-picks choice now pool p c e =
    choose-All
      (λ p.
        Member p pool.proxies
        × ((q : Text)
            → Live now pool.dead_until pool.proxies q
            → is_alive now pool.dead_until p ≡ true))
      choice (or_else (alive now pool) pool.proxies) pool p c
      (or_else-Live now pool.dead_until pool.proxies (alive now pool)
        (keep-Live now pool.dead_until pool.proxies)
        (λ q l. keeps-none (is_alive now pool.dead_until) q pool.proxies l.0 l.1))
      e

-- With a choice that gives an element of the sequence, under every strategy: what `current` gives is
-- one of the proxies, and it is not on cooldown unless every proxy of the pool is.
pub current-Live :
    (choice : Text → List Text → Text) (now : ℕ) (pool : ProxyPool) (p : Text)
    → IsChoice choice
    → (current choice now pool).1 ≡ some p
    → Member p pool.proxies
      × ((is_alive now pool.dead_until p ≡ true)
          ⊎ All (λ q. is_alive now pool.dead_until q ≡ false) pool.proxies)
current-Live choice now pool p c e =
    let m = (current-picks choice now pool p c e).0 in
    (
      m,
      elim (Bool-cases (is_alive now pool.dead_until p)) [
        | inl up ↦ inl up
        | inr down ↦ inr (
            All-weaken (λ q. Member q pool.proxies) (λ q. is_alive now pool.dead_until q ≡ false)
              pool.proxies (λ q n. all_down q n down) (All-self pool.proxies))
      ],
    )
  where
    all_down :
        (q : Text)
        → Member q pool.proxies
        → is_alive now pool.dead_until p ≡ false
        → is_alive now pool.dead_until q ≡ false
    all_down q n down = elim (Bool-cases (is_alive now pool.dead_until q)) [
      | inl up ↦ let h = (current-picks choice now pool p c e).1 q (n, up) in cc
      | inr q_down ↦ q_down
    ]
