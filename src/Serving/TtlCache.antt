-- ===== src/Serving/TtlCache.antt =====
-- `_TTLCache` (src/api/endpoints/superbrain.py): a cache with a time to live and a budget of bytes. A
-- key, a tuple in the source, is the text that spells it. The clock is an argument.
pub mod Budget
pub mod Reads
pub mod Ages
pub mod Kept
use bharat_ticker.Common.{
  ℕ, zero, suc, ◌+◌, ◌-◌, ◌*◌, ltb, Bool, true, false, Option, none, some, List, [], ◌∷◌, length,
  if◌then◌else◌,
}
use bharat_ticker.Common.Text.{Text}
use bharat_ticker.Common.Dict.{Dict, lookup, insert, erase, has_key}

-- What is cached: a list, or another object.
pub data Cached (A : Type 0) : Type 0 where
  items : List A → Cached A
  object : A → Cached A

pub record Entry (A : Type 0) : Type 0 where
  pub stored_at : ℕ
  pub value : Cached A
  pub size : ℕ

pub record TtlCache (A : Type 0) : Type 0 where
  pub ttl : ℕ
  pub budget : ℕ
  pub store : Dict (Entry A)
  pub bytes : ℕ

module _ {A : Type 0} where
  -- The constructor, with the budget in bytes.
  unfoldable pub init : ℕ → ℕ → TtlCache A
  init ttl budget = record { ttl = ttl; budget = budget; store = []; bytes = 0 }

  -- `_sizeof`
  unfoldable pub sizeof : Cached A → ℕ
  sizeof (items xs) = length xs * 450 + 64
  sizeof (object x) = 512

  -- `_evict`
  unfoldable pub evict : Text → TtlCache A → TtlCache A
  evict key c = elim (lookup key c.store) [
    | none ↦ c
    | some e ↦ record c { store = erase key c.store; bytes = c.bytes - e.size }
  ]

  -- `get`; `now - hit[0] < ttl` with the subtraction on the other side.
  unfoldable pub get : ℕ → Text → TtlCache A → TtlCache A × Option (Cached A)
  unfolding evict
  get now key c = elim (lookup key c.store) [
    | none ↦ (c, none)
    | some e ↦ if ltb now (e.stored_at + c.ttl) then (c, some e.value) else (evict key c, none)
  ]

  -- `min(self._store, key=...)`: the first of the oldest keys.
  unfoldable pub oldest_from : Text → ℕ → Dict (Entry A) → Text
  oldest_from best t [] = best
  oldest_from best t ((k, e) ∷ d) =
      let newer = oldest_from best t d in
      let older = oldest_from k e.stored_at d in if ltb e.stored_at t then older else newer

  -- The test of the loop of `put`, with the key to evict: more bytes than the budget, and more than
  -- one entry.
  unfoldable pub next_victim : Bool → Dict (Entry A) → Option Text
  unfolding oldest_from
  next_victim over [] = none
  next_victim over ((k, e) ∷ []) = none
  next_victim false ((k, e) ∷ x ∷ d) = none
  next_victim true ((k, e) ∷ x ∷ d) = some (oldest_from k e.stored_at (x ∷ d))

  -- The loop of `put`, on fuel.
  unfoldable pub shrink : ℕ → TtlCache A → TtlCache A
  unfolding evict next_victim
  shrink zero c = c
  shrink (suc fuel) c = elim (next_victim (ltb c.budget c.bytes) c.store) [
    | none ↦ c
    | some k ↦ shrink fuel (evict k c)
  ]

  -- `put`. The loop evicts an entry in each round: the number of entries is fuel enough.
  unfoldable pub put : ℕ → Text → Cached A → TtlCache A → TtlCache A
  unfolding evict shrink sizeof
  put now key value c =
      let c' = if has_key key c.store then evict key c else c in
      let e : Entry A = record { stored_at = now; value = value; size = sizeof value } in
      shrink (suc (suc (length c'.store)))
        (record c' { store = insert key e c'.store; bytes = c'.bytes + sizeof value })

  -- `clear`, with the number of entries that it drops.
  unfoldable pub clear : TtlCache A → TtlCache A × ℕ
  clear c = (record c { store = []; bytes = 0 }, length c.store)
