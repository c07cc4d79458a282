-- ===== src/Serving/TtlCache/Budget.antt =====
-- The accounts of `_TTLCache` (src/api/endpoints/superbrain.py).
use bharat_ticker.Common.{
  ℕ, zero, suc, ◌+◌, ◌-◌, ◌≤◌, ◌<◌, ltb, ◌≡◌, refl, Bool, true, false, none, some, [], ◌∷◌, length,
  arith, if◌then◌else◌, Bool-cases, Option-cases, inl, inr, ◌⊎◌, length-append,
}
use mathlib.Core.Path.{subst}
use bharat_ticker.Common.Text.{Text, text_eq, text_eq_refl}
use bharat_ticker.Common.Dict.{Dict, lookup, insert, erase, has_key, lookup-erase_self}
use bharat_ticker.Common.Keys.{
  HasDistinctKeys, insert-absent, erase-HasDistinctKeys, length-erase, total, total-erase,
  total-append, append-HasDistinctKeys,
}
use bharat_ticker.Serving.TtlCache.{
  Cached, Entry, TtlCache, sizeof, evict, oldest_from, next_victim, shrink, put,
}

abbrev pub size_of : {A : Type 0} → Entry A → ℕ
size_of e = e.size

-- The counter is the sum of the sizes of the entries.
pub record IsAccounted {A : Type 0} (c : TtlCache A) : Type 0 where
  pub distinct : HasDistinctKeys c.store
  pub balance : c.bytes ≡ total size_of c.store

module _ {A : Type 0} where
  pub evict-some :
      (k : Text) (c : TtlCache A) (e : Entry A)
      → lookup k c.store ≡ some e
      → evict k c ≡ record c { store = erase k c.store; bytes = c.bytes - e.size }
  unfolding evict
  evict-some k c e h = rw (evict, h) refl

  pub evict-IsAccounted : (k : Text) (c : TtlCache A) → IsAccounted c → IsAccounted (evict k c)
  unfolding evict
  evict-IsAccounted k c v = elim (Option-cases (lookup k c.store)) [
    | inl h ↦ rw (h, evict) v
    | inr (e, h) ↦ rw (evict-some k c e h) (record {
      distinct = erase-HasDistinctKeys k c.store v.distinct;
      balance = omega (arith, total-erase size_of k e c.store v.distinct h, v.balance);
    })
  ]

  abbrev pub Found : Dict (Entry A) → Text → Type 0
  Found d k = (e : Entry A) × (lookup k d ≡ some e)

  Found-cons :
      (k : Text) (e : Entry A) (d : Dict (Entry A)) (j : Text) → Found d j → Found ((k, e) ∷ d) j
  unfolding lookup
  Found-cons k e d j (w, h) = elim (Bool-cases (text_eq j k)) [
    | inl t ↦ (e, rw t refl)
    | inr t ↦ (w, rw t h)
  ]

  lookup-head :
      (j k : Text) (e : Entry A) (d : Dict (Entry A))
      → text_eq j k ≡ true
      → lookup j ((k, e) ∷ d) ≡ some e
  unfolding lookup
  lookup-head j k e d t = rw t refl

  lookup-tail :
      (j k : Text) (e : Entry A) (d : Dict (Entry A)) {x : Entry A}
      → text_eq j k ≡ false
      → lookup j ((k, e) ∷ d) ≡ some x
      → lookup j d ≡ some x
  unfolding lookup
  lookup-tail j k e d t h = rw t at h

  Found-head : (k : Text) (e : Entry A) (d : Dict (Entry A)) → Found ((k, e) ∷ d) k
  unfolding lookup
  Found-head k e d = (e, rw (text_eq_refl k) refl)

  -- The key that the loop evicts is one of the store.
  pub oldest_from-Found :
      (best : Text) (t : ℕ) (e : Entry A) (d : Dict (Entry A))
      → Found ((best, e) ∷ d) (oldest_from best t d)
  unfolding oldest_from
  oldest_from-Found best t e [] = Found-head best e []
  oldest_from-Found best t e ((k, w) ∷ d) = elim (Bool-cases (ltb w.stored_at t)) [
    | inl h ↦ rw h (
        Found-cons best e ((k, w) ∷ d) (oldest_from k w.stored_at d)
          (oldest_from-Found k w.stored_at w d))
    | inr h ↦ rw h (between (oldest_from best t d) (oldest_from-Found best t e d))
  ]
    where
      between : (j : Text) → Found ((best, e) ∷ d) j → Found ((best, e) ∷ (k, w) ∷ d) j
      between j (x, f) = elim (Bool-cases (text_eq j best)) [
        | inl m ↦ (e, lookup-head j best e ((k, w) ∷ d) m)
        | inr m ↦
            let (y, g) = Found-cons k w d j (x, lookup-tail j best e d m f) in
            Found-cons best e ((k, w) ∷ d) j (y, g)
      ]

  pub next_victim-Found :
      (over : Bool) (d : Dict (Entry A)) (k : Text) → next_victim over d ≡ some k → Found d k
  unfolding next_victim
  next_victim-Found over [] k h = cc
  next_victim-Found over ((j, e) ∷ []) k h = cc
  next_victim-Found false ((j, e) ∷ x ∷ d) k h = cc
  next_victim-Found true ((j, e) ∷ x ∷ d) k h =
      let same : oldest_from j e.stored_at (x ∷ d) ≡ k = cc in
      subst (Found ((j, e) ∷ x ∷ d)) same (oldest_from-Found j e.stored_at e (x ∷ d))

  -- What every eviction of an entry keeps, the loop keeps.
  pub shrink-keeps :
      (P : TtlCache A → Type 0)
      → ((k : Text) (c : TtlCache A)
          → next_victim (ltb c.budget c.bytes) c.store ≡ some k
          → P c
          → P (evict k c))
      → (fuel : ℕ) (c : TtlCache A) → P c
      → P (shrink fuel c)
  unfolding shrink
  shrink-keeps P keeps zero c h = h
  shrink-keeps P keeps (suc fuel) c h =
      elim (Option-cases (next_victim (ltb c.budget c.bytes) c.store)) [
        | inl e ↦ rw (shrink, e) h
        | inr (k, e) ↦ rw (shrink, e) (shrink-keeps P keeps fuel (evict k c) (keeps k c e h))
      ]

  length-evict :
      (k : Text) (c : TtlCache A)
      → IsAccounted c
      → Found c.store k
      → suc (length (evict k c).store) ≡ length c.store
  length-evict k c v (e, h) = rw (evict-some k c e h) (length-erase k e c.store v.distinct h)

  shrink-stops :
      (fuel : ℕ) (c : TtlCache A)
      → length c.store < fuel
      → IsAccounted c
      → let c' = shrink fuel c in next_victim (ltb c'.budget c'.bytes) c'.store ≡ none
  unfolding shrink
  shrink-stops zero c h v = absurd (omega arith)
  shrink-stops (suc fuel) c h v = elim (Option-cases (next_victim (ltb c.budget c.bytes) c.store)) [
    | inl e ↦ rw (shrink, e) e
    | inr (k, e) ↦
        let found = next_victim-Found (ltb c.budget c.bytes) c.store k e in
        rw (shrink, e)
          (shrink-stops fuel (evict k c) (omega (arith, length-evict k c v found))
            (evict-IsAccounted k c v))
  ]

  next_victim-none :
      (n m : ℕ) (d : Dict (Entry A)) → next_victim (ltb n m) d ≡ none → (m ≤ n) ⊎ (length d ≤ 1)
  unfolding next_victim
  next_victim-none n m [] h = inr (omega arith)
  next_victim-none n m (x ∷ []) h = inr (omega arith)
  next_victim-none n m (x ∷ y ∷ d) h = elim (Bool-cases (ltb n m)) [
    | inl e ↦ absurd (ground arith)
    | inr e ↦ inl (ground arith)
  ]

  pub insert-IsAccounted :
      (key : Text) (e : Entry A) (c : TtlCache A)
      → lookup key c.store ≡ none
      → IsAccounted c
      → IsAccounted (record c { store = insert key e c.store; bytes = c.bytes + e.size })
  insert-IsAccounted key e c absent v = rw (insert-absent key e c.store absent) (record {
    distinct = append-HasDistinctKeys key e c.store absent v.distinct;
    balance = omega (arith, total-append size_of c.store ((key, e) ∷ []), v.balance);
  })

  length-insert :
      (k : Text) (e : Entry A) (d : Dict (Entry A))
      → lookup k d ≡ none
      → length (insert k e d) < suc (suc (length d))
  length-insert k e d h = rw (insert-absent k e d h) (omega (arith, length-append d ((k, e) ∷ [])))

  -- The first lines of `put`.
  abbrev pub cleared : Text → TtlCache A → TtlCache A
  cleared key c = if has_key key c.store then evict key c else c

  pub cleared-absent : (key : Text) (c : TtlCache A) → lookup key (cleared key c).store ≡ none
  unfolding has_key evict
  cleared-absent key c = elim (Option-cases (lookup key c.store)) [
    | inl h ↦ rw (h, has_key) h
    | inr (e, h) ↦ rw (h, has_key) (rw (evict-some key c e h) (lookup-erase_self key c.store))
  ]

  pub cleared-IsAccounted :
      (key : Text) (c : TtlCache A) → IsAccounted c → IsAccounted (cleared key c)
  cleared-IsAccounted key c v = elim (Bool-cases (has_key key c.store)) [
    | inl h ↦ rw h (evict-IsAccounted key c v)
    | inr h ↦ rw h v
  ]

  -- After a `put` the counter of bytes is the sum of the sizes of the entries, if it was so before;
  -- and it is within the budget, unless a single entry is left.
  pub put-IsAccounted :
      (now : ℕ) (key : Text) (value : Cached A) (c : TtlCache A)
      → IsAccounted c
      → let c' = put now key value c in
        IsAccounted c' × ((c'.bytes ≤ c'.budget) ⊎ (length c'.store ≤ 1))
  unfolding put
  put-IsAccounted now key value c v =
      let e : Entry A = record { stored_at = now; value = value; size = sizeof value } in
      let c' = cleared key c in
      let absent = cleared-absent key c in
      let start : TtlCache A = record c' {
        store = insert key e c'.store;
        bytes = c'.bytes + sizeof value;
      } in
      let fuel = suc (suc (length c'.store)) in
      let v' = insert-IsAccounted key e c' absent (cleared-IsAccounted key c v) in
      let fits =
        next_victim-none (shrink fuel start).budget (shrink fuel start).bytes
          (shrink fuel start).store
          (shrink-stops fuel start (length-insert key e c'.store absent) v') in
      (shrink-keeps IsAccounted (λ k d h w. evict-IsAccounted k d w) fuel start v', fits)
