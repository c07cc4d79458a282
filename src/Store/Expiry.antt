-- ===== src/Store/Expiry.antt =====
-- Keys and hashes with expiry in src/cache/memory_store.py.
use bharat_ticker.Common.{
  ℕ, zero, suc, ◌+◌, ◌≤◌, leb, ◌≡◌, refl, Bool, false, Option, none, some, [], ◌∷◌, if◌then◌else◌,
  arith, Bool-cases, inl, inr, ◌∙◌,
}
use bharat_ticker.Common.Text.{Text, text_eq, text_eq→eq}
use bharat_ticker.Common.Dict.{
  Dict, lookup, insert, get_or, lookup-insert_self, lookup-insert_ne, lookup-erase_self,
  get_or-insert_self,
}
use bharat_ticker.Store.Defs.{MemoryStore, get, set, hset, hgetall, write_all}

-- Whether what was set at `start` with this time to live is over: no time to live, or zero, never
-- ends.
abbrev pub is_over : ℕ → Option ℕ → ℕ → Bool
is_over start none now = false
is_over start (some zero) now = false
is_over start (some (suc t)) now = leb (start + suc t) now

module _ {V : Type 0} where
  -- A value that has been set is read back until its time to live is over, and then there is none,
  -- whatever the key had been before.
  pub get-set :
      (start now : ℕ) (key : Text) (v : V) (ttl : Option ℕ) (s : MemoryStore V)
      → (get now key (set start key v ttl s)).1 ≡ (if is_over start ttl now then none else some v)
  unfolding get set
  get-set start now key v none s =
      ground (arith, lookup-erase_self key s.expiry, lookup-insert_self key v s.kv)
  get-set start now key v (some zero) s =
      ground (arith, lookup-erase_self key s.expiry, lookup-insert_self key v s.kv)
  get-set start now key v (some (suc t)) s = ground (
    arith,
    lookup-insert_self key (start + suc t) s.expiry,
    lookup-insert_self key v s.kv,
    lookup-erase_self key (insert key v s.kv),
  )

  -- Fields that are written to a hash whose time is over are lost: `hset` neither removes the old
  -- hash nor its expiry, and the next read removes both.
  pub hset_over :
      (now exp : ℕ) (key : Text) (items : Dict Text) (s : MemoryStore V)
      → lookup key s.expiry ≡ some exp
      → exp ≤ now
      → (hgetall now key (hset key items s).0).1 ≡ []
  unfolding hset hgetall
  hset_over now exp key items s h over = ground arith

-- The keys of a dictionary are distinct.
abbrev pub HasDistinctKeys : Dict Text → Type 0
HasDistinctKeys [] = Unit
HasDistinctKeys ((k, v) ∷ d) = (lookup k d ≡ none) × HasDistinctKeys d

abbrev pub or_else : Option Text → Option Text → Option Text
or_else none b = b
or_else (some v) b = some v

pub lookup-write_all :
    (k : Text) (items h : Dict Text)
    → HasDistinctKeys items
    → lookup k (write_all items h) ≡ or_else (lookup k items) (lookup k h)
unfolding write_all lookup
lookup-write_all k [] h d = refl
lookup-write_all k ((j, v) ∷ items) h d =
    lookup-write_all k items (insert j v h) d.1 ∙ elim (Bool-cases (text_eq k j)) [
      | inl e ↦
          let same = text_eq→eq k j e in
          let new : lookup k (insert j v h) ≡ some v = rw same (lookup-insert_self j v h) in
          let absent : lookup k items ≡ none = rw same (d.0) in rw (e, new, absent) refl
      | inr e ↦ rw (e, lookup-insert_ne k j v h e) refl
    ]

module _ {V : Type 0} where
  -- Fields written to a hash that has no expiry are read back; its other fields are as before.
  pub hgetall-hset :
      (now : ℕ) (key k : Text) (items : Dict Text) (s : MemoryStore V)
      → lookup key s.expiry ≡ none
      → HasDistinctKeys items
      → lookup k (hgetall now key (hset key items s).0).1
        ≡ or_else (lookup k items) (lookup k (get_or key [] s.hashes))
  unfolding hset hgetall lookup
  hgetall-hset now key k items s fresh d =
      let h = get_or key [] s.hashes in
      rw (fresh, get_or-insert_self key (write_all items h) [] s.hashes)
        (lookup-write_all k items h d)
