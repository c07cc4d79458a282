-- ===== src/Failover/Order.antt =====
-- Registration in src/engine/failover.py keeps the tier order and loses no provider.
use mathlib.Core.List.{Perm}
use mathlib.Core.List.Perm
use bharat_ticker.Common.{
  ℕ, zero, suc, ◌*◌, ◌<◌, ltb, ◌==◌, ◌&&◌, ◌||◌, ◌⊎◌, ◌≡◌, refl, Bool, true, false, none, some,
  List, [], ◌∷◌, ◌++◌, All, arith, if◌then◌else◌, Bool-cases, Option-cases, inl, inr,
}
use bharat_ticker.Common.Dict.{lookup, has_key, get_or, lookup-insert_self}
use bharat_ticker.Common.Text.{Text, text_leb, text_leb_total, text_leb_trans}
use bharat_ticker.Breaker.{Breaker, Settings, closed, init}
use bharat_ticker.Failover.Provider.{Provider, rank}
use bharat_ticker.Failover.Cascade.{Controller}
use bharat_ticker.Failover.Registry.{
  precedes, insert_sorted, sort, setdefault, register_provider, is_enabled,
}

-- Every provider comes before all that stand behind it.
abbrev pub IsSorted : List Provider → Type 0
IsSorted [] = Unit
IsSorted (p ∷ ps) = All (λ r. precedes p r ≡ true) ps × IsSorted ps

precedes_total : (p r : Provider) → precedes p r ≡ false → precedes r p ≡ true
unfolding precedes
precedes_total p r h = ground (arith, text_leb_total p.name r.name)

precedes_trans :
    (p r s : Provider) → precedes p r ≡ true → precedes r s ≡ true → precedes p s ≡ true
unfolding precedes
precedes_trans p r s h k = ground (arith, text_leb_trans p.name r.name s.name)

All-trans :
    (p r : Provider) (ps : List Provider)
    → precedes p r ≡ true
    → All (λ s. precedes r s ≡ true) ps
    → All (λ s. precedes p s ≡ true) ps
All-trans p r [] h a = tt
All-trans p r (s ∷ ps) h a = (precedes_trans p r s h a.0, All-trans p r ps h a.1)

All-insert_sorted :
    (p x : Provider) (ps : List Provider)
    → precedes p x ≡ true
    → All (λ s. precedes p s ≡ true) ps
    → All (λ s. precedes p s ≡ true) (insert_sorted x ps)
unfolding insert_sorted
All-insert_sorted p x [] h a = (h, tt)
All-insert_sorted p x (r ∷ ps) h a = elim (Bool-cases (precedes x r)) [
  | inl e ↦ rw e (h, a)
  | inr e ↦ rw e (a.0, All-insert_sorted p x ps h a.1)
]

insert_sorted-IsSorted :
    (x : Provider) (ps : List Provider) → IsSorted ps → IsSorted (insert_sorted x ps)
unfolding insert_sorted
insert_sorted-IsSorted x [] s = (tt, tt)
insert_sorted-IsSorted x (r ∷ ps) s = elim (Bool-cases (precedes x r)) [
  | inl e ↦ rw e ((e, All-trans x r ps e s.0), s)
  | inr e ↦
      rw e (All-insert_sorted r x ps (precedes_total x r e) s.0, insert_sorted-IsSorted x ps s.1)
]

sort-IsSorted : (ps : List Provider) → IsSorted (sort ps)
unfolding sort
sort-IsSorted [] = tt
sort-IsSorted (p ∷ ps) = insert_sorted-IsSorted p (sort ps) (sort-IsSorted ps)

insert_sorted-perm : (x : Provider) (ps : List Provider) → Perm (insert_sorted x ps) (x ∷ ps)
unfolding insert_sorted
insert_sorted-perm x [] = Perm.refl (x ∷ [])
insert_sorted-perm x (r ∷ ps) = elim (Bool-cases (precedes x r)) [
  | inl e ↦ rw e (Perm.refl (x ∷ r ∷ ps))
  | inr e ↦ rw e (Perm.trans (Perm.cons r (insert_sorted-perm x ps)) (Perm.swap x r ps))
]

sort-perm : (ps : List Provider) → Perm (sort ps) ps
unfolding sort
sort-perm [] = Perm.refl []
sort-perm (p ∷ ps) = Perm.trans (insert_sorted-perm p (sort ps)) (Perm.cons p (sort-perm ps))

append-perm : (p : Provider) (ps : List Provider) → Perm (ps ++ (p ∷ [])) (p ∷ ps)
append-perm p [] = Perm.refl (p ∷ [])
append-perm p (r ∷ ps) = Perm.trans (Perm.cons r (append-perm p ps)) (Perm.swap p r ps)

-- The place in the order, as the class attributes describe it: the priority, and ten times the tier
-- where that is zero.
abbrev pub place : ℕ → ℕ → ℕ
place zero tier = tier * 10
place (suc priority) tier = suc priority

-- The first provider is to be tried before the second, or they are the same for the order.
abbrev pub IsEarlier : Provider → Provider → Type 0
IsEarlier p r =
    (place p.priority p.tier < place r.priority r.tier)
    ⊎ ((place p.priority p.tier ≡ place r.priority r.tier) × (text_leb p.name r.name ≡ true))

abbrev pub IsInOrder : List Provider → Type 0
IsInOrder [] = Unit
IsInOrder (p ∷ ps) = All (IsEarlier p) ps × IsInOrder ps

rank-place : (p : Provider) → rank p ≡ place p.priority p.tier
unfolding rank
rank-place p = rank_by p.priority p.tier
  where
    rank_by : (n t : ℕ) → (if n == 0 then t * 10 else n) ≡ place n t
    rank_by zero t = refl
    rank_by (suc n) t = ground arith

precedes-IsEarlier : (p r : Provider) → precedes p r ≡ true → IsEarlier p r
unfolding precedes
precedes-IsEarlier p r h =
    earlier (rank p) (rank r) (place p.priority p.tier) (place r.priority r.tier)
      (text_leb p.name r.name) (rank-place p) (rank-place r) h
  where
    earlier :
        (m n i j : ℕ) (b : Bool)
        → m ≡ i
        → n ≡ j
        → (ltb m n || ((m == n) && b)) ≡ true
        → (i < j) ⊎ ((i ≡ j) × (b ≡ true))
    earlier m n i j b e f h = ground (arith, e, f, h)

All-IsEarlier :
    (p : Provider) (ps : List Provider) → All (λ r. precedes p r ≡ true) ps → All (IsEarlier p) ps
All-IsEarlier p [] a = tt
All-IsEarlier p (r ∷ ps) a = (precedes-IsEarlier p r a.0, All-IsEarlier p ps a.1)

IsSorted-IsInOrder : (ps : List Provider) → IsSorted ps → IsInOrder ps
IsSorted-IsInOrder [] s = tt
IsSorted-IsInOrder (p ∷ ps) s = (All-IsEarlier p ps s.0, IsSorted-IsInOrder ps s.1)

-- The circuit of this name is closed, and no failure is counted.
abbrev pub HasNewCircuit : Text → Controller → Type 0
HasNewCircuit name c =
    (b : Breaker) × (lookup name c.circuit_breakers ≡ some b)
    × (b.state ≡ closed)
    × (b.failure_count ≡ 0)

registered-enabled :
    (settings : Settings) (p : Provider) (c : Controller)
    → is_enabled p.name (register_provider settings p c) ≡ is_enabled p.name c
unfolding register_provider setdefault is_enabled has_key get_or
registered-enabled settings p c = elim (Option-cases (lookup p.name c.enabled)) [
  | inl e ↦ rw (setdefault, has_key, get_or, e, lookup-insert_self p.name true c.enabled) refl
  | inr (b, e) ↦ rw (setdefault, has_key, e) refl
]

-- After a registration the providers are the ones before and the new one, in the order of their
-- priorities, where one without a priority counts ten times its tier, and of their names where these
-- are equal. The new one has a closed circuit without failures, and is switched on or off as its name
-- was before, on if it was not known.
pub register_provider-order :
    (settings : Settings) (p : Provider) (c : Controller)
    → let c' = register_provider settings p c in
      IsInOrder c'.providers
      × Perm c'.providers (p ∷ c.providers)
      × HasNewCircuit p.name c'
      × (is_enabled p.name c' ≡ is_enabled p.name c)
unfolding register_provider init
register_provider-order settings p c =
    let b = init settings p.name none none none in
    (
      IsSorted-IsInOrder (sort (c.providers ++ (p ∷ []))) (sort-IsSorted (c.providers ++ (p ∷ []))),
      Perm.trans (sort-perm (c.providers ++ (p ∷ []))) (append-perm p c.providers),
      (b, lookup-insert_self p.name b c.circuit_breakers, refl, refl),
      registered-enabled settings p c,
    )
