-- ===== src/Charts/Repeat.antt =====
-- What is asked for again is served from the cache (`_cached_history`, `_cached_today_bars`,
-- src/api/endpoints/superbrain.py).
use bharat_ticker.Common.{
  ℕ, ◌+◌, ◌<◌, ◌≤◌, ◌≡◌, refl, ap, sym, none, some, List, [], ◌∷◌, false, arith, Bool-cases,
  Option-cases, inl, inr,
}
use mathlib.Core.Path.{subst}
use bharat_ticker.Common.Text.{Text, text_eq, text_eq→eq}
use bharat_ticker.Common.Dict.{lookup}
use bharat_ticker.Serving.TtlCache
use bharat_ticker.Serving.TtlCache.{Cached, Entry, TtlCache}
use bharat_ticker.Serving.TtlCache.Reads.{IsBefore}
use bharat_ticker.Serving.TtlCache.Budget.{IsAccounted}
use bharat_ticker.Serving.TtlCache.Ages.{IsChronological}
use bharat_ticker.Serving.TtlCache.Kept.{
  IsKept, put-IsKept, get-IsKept, get-kept, later-IsKept, put-new,
}
use bharat_ticker.Charts.History.{read_through, list_of}

get-absent :
    {A : Type 0} (now : ℕ) (key : Text) (c : TtlCache A)
    → lookup key c.store ≡ none
    → TtlCache.get now key c ≡ (c, none)
unfolding TtlCache.get
get-absent now key c h = rw (TtlCache.get, h) refl

read_through-absent :
    {A : Type 0} (now : ℕ) (key : Text) (fresh : List A) (c : TtlCache A)
    → lookup key c.store ≡ none
    → read_through now key fresh c ≡ (TtlCache.put now key (Cached.items fresh) c, fresh)
unfolding read_through
read_through-absent now key fresh c h =
    let same = get-absent now key c h in
    rw (read_through, same)
      (ap (λ x. (TtlCache.put now key (Cached.items fresh) x, fresh)) (ap (λ p. p.0) same))

read_through-hit :
    {A : Type 0} (now : ℕ) (key : Text) (fresh : List A) (c c' : TtlCache A) (v : Cached A)
    → TtlCache.get now key c ≡ (c', some v)
    → read_through now key fresh c ≡ (c', list_of v)
unfolding read_through
read_through-hit now key fresh c c' v h =
    rw (read_through, h) (ap (λ x. (x, list_of v)) (ap (λ p. p.0) h))

-- A call of a cached reader: when, its key, and what the feed would give it.
pub record Use (A : Type 0) : Type 0 where
  pub at : ℕ
  pub key : Text
  pub rows : List A

abbrev pub use_all : {A : Type 0} → List (Use A) → TtlCache A → TtlCache A
use_all [] c = c
use_all (u ∷ uses) c = use_all uses (read_through u.at u.key u.rows c).0

-- The calls come one after the other, between two times.
abbrev pub IsBetween : {A : Type 0} → ℕ → ℕ → List (Use A) → Type 0
IsBetween now later [] = now ≤ later
IsBetween now later (u ∷ uses) = (now ≤ u.at) × (u.at ≤ later) × IsBetween u.at later uses

-- The bytes of what the feeds would give.
abbrev pub bytes_of : {A : Type 0} → List (Use A) → ℕ
bytes_of [] = 0
bytes_of (u ∷ uses) = TtlCache.sizeof (Cached.items u.rows) + bytes_of uses

module _ {A : Type 0} (key : Text) (e : Entry A) (ttl budget : ℕ) where
  read_other-IsKept :
      (now n : ℕ) (u : Use A) (c : TtlCache A)
      → now ≤ u.at
      → text_eq key u.key ≡ false
      → n + TtlCache.sizeof (Cached.items u.rows) ≤ budget
      → IsKept key e ttl budget now n c
      → IsKept key e ttl budget u.at
          (n + TtlCache.sizeof (Cached.items u.rows))
          (read_through u.at u.key u.rows c).0
  unfolding read_through
  read_other-IsKept now n u c after other fits v =
      let c' = (TtlCache.get u.at u.key c).0 in
      let size = TtlCache.sizeof (Cached.items u.rows) in
      let v' = get-IsKept key e ttl budget now n u.at u.key c other v in
      elim (Option-cases (TtlCache.get u.at u.key c).1) [
        | inr (x, h) ↦
            rw (read_through, h) (later-IsKept key e ttl budget now u.at n size c' after v')
        | inl h ↦
            rw (read_through, h)
              (put-IsKept key e ttl budget now u.at n u.key (Cached.items u.rows) c' after other
                fits v')
      ]

  read-IsKept :
      (now n : ℕ) (u : Use A) (c : TtlCache A)
      → now ≤ u.at
      → u.at < e.stored_at + ttl
      → n + TtlCache.sizeof (Cached.items u.rows) ≤ budget
      → IsKept key e ttl budget now n c
      → IsKept key e ttl budget u.at
          (n + TtlCache.sizeof (Cached.items u.rows))
          (read_through u.at u.key u.rows c).0
  read-IsKept now n u c after soon fits v = elim (Bool-cases (text_eq key u.key)) [
    | inr other ↦ read_other-IsKept now n u c after other fits v
    | inl t ↦
        let hit = get-kept key e ttl budget now n u.at c soon v in
        let same : (read_through u.at u.key u.rows c).0 ≡ c =
          subst (λ k. (read_through u.at k u.rows c).0 ≡ c) (text_eq→eq key u.key t)
            (ap (λ p. p.0) (read_through-hit u.at key u.rows c c e.value hit)) in
        let size = TtlCache.sizeof (Cached.items u.rows) in
        subst (IsKept key e ttl budget u.at (n + size)) (sym same)
          (later-IsKept key e ttl budget now u.at n size c after v)
  ]

  read_after :
      (uses : List (Use A)) (now n later : ℕ) (other : List A) (c : TtlCache A)
      → IsBetween now later uses
      → later < e.stored_at + ttl
      → n + bytes_of uses ≤ budget
      → IsKept key e ttl budget now n c
      → (read_through later key other (use_all uses c)).1 ≡ list_of e.value
  read_after [] now n later other c between soon fits v =
      ap (λ p. p.1)
        (read_through-hit later key other c c e.value
          (get-kept key e ttl budget now n later c soon v))
  read_after (u ∷ uses) now n later other c between soon fits v =
      let size = TtlCache.sizeof (Cached.items u.rows) in
      read_after uses u.at (n + size) later other (read_through u.at u.key u.rows c).0 between.2
        soon (omega (arith, fits))
        (read-IsKept now n u c between.0 (omega (arith, between.1, soon)) (omega (arith, fits)) v)

-- The list that a first reader got, an empty one of a fetch that failed too, is what a later reader
-- of the key gets until its time to live is over, whatever a new fetch would give and whatever keys are
-- read in between, as long as the lists that these reads would fetch fit into the budget of bytes together
-- with it. The clock does not go back, the store is in the order of time, and its bytes are accounted for.
pub read_through-again :
    {A : Type 0} (now later : ℕ) (key : Text) (fresh other : List A) (uses : List (Use A))
    (c : TtlCache A)
    → lookup key c.store ≡ none
    → IsChronological c.store
    → IsBefore now c.store
    → IsAccounted c
    → IsBetween now later uses
    → later < now + c.ttl
    → TtlCache.sizeof (Cached.items fresh) + bytes_of uses ≤ c.budget
    → (read_through later key other (use_all uses (read_through now key fresh c).0)).1 ≡ fresh
read_through-again {A} now later key fresh other uses c absent order before v between soon fits =
    let value = Cached.items fresh in
    let size = TtlCache.sizeof value in
    let e : Entry A = record { stored_at = now; value = value; size = size } in
    let kept = put-new now key value c absent order before v (omega (arith, fits)) in
    rw (read_through-absent now key fresh c absent) (
      read_after key e c.ttl c.budget uses now size later other (TtlCache.put now key value c)
        between soon fits kept)
