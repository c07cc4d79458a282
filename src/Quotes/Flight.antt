-- ===== src/Quotes/Flight.antt =====
-- The single flight of `_live_quote` (src/api/endpoints/superbrain.py), as steps of the tasks of one
-- event loop: a caller asks, a fetch lands, and the callback of a fetch that is done runs later.
use bharat_ticker.Common.{
  ℕ, suc, ◌+◌, ltb, ◌==◌, ◌≡◌, Bool, true, false, Option, none, some, List, [], ◌∷◌, if◌then◌else◌,
  ◌⊎◌,
}
use bharat_ticker.Common.Text.{Text}
use bharat_ticker.Common.Dict.{Dict, lookup, insert, erase}

-- A fetch that was started: its number, its key, and whether it is done.
pub record Fetch : Type 0 where
  pub id : ℕ
  pub key : Text
  pub is_done : Bool

-- `_live_q_cache` and `_live_q_inflight`, with the fetches whose callback has not run.
pub record Flight (T : Type 0) : Type 0 where
  pub cache : Dict (ℕ × T)
  pub inflight : Dict ℕ
  pub next : ℕ
  pub fetches : List Fetch

-- What a caller gets: a tick of the cache, or a fetch to await.
pub data Answer (T : Type 0) : Type 0 where
  hit : T → Answer T
  wait : ℕ → Answer T

abbrev pub mark_done : ℕ → List Fetch → List Fetch
mark_done id [] = []
mark_done id (f ∷ fs) = (if f.id == id then record f { is_done = true } else f) ∷ mark_done id fs

abbrev pub without : ℕ → List Fetch → List Fetch
without id [] = []
without id (f ∷ fs) = let rest = without id fs in if f.id == id then rest else f ∷ rest

abbrev pub IsIn : Fetch → List Fetch → Type 0
IsIn f [] = ⊥
IsIn f (g ∷ gs) = (f ≡ g) ⊎ IsIn f gs

module _ {T : Type 0} where
  unfoldable pub no_flight : Flight T
  no_flight = record { cache = []; inflight = []; next = 0; fetches = [] }

  -- `_live_q_cache.get(key)`, if it is younger than `ttl`.
  unfoldable pub fresh_hit : ℕ → ℕ → Text → Flight T → Option T
  fresh_hit ttl now key s = elim (lookup key s.cache) [
    | none ↦ none
    | some (t, tick) ↦ if ltb now (t + ttl) then some tick else none
  ]

  -- `_live_quote` up to its `await`.
  unfoldable pub join_flight : ℕ → ℕ → Text → Flight T → Flight T × Answer T
  unfolding fresh_hit
  join_flight ttl now key s = elim (fresh_hit ttl now key s) as (λ x. Flight T × Answer T) [
    | some tick ↦ (s, Answer.hit tick)
    | none ↦ elim (lookup key s.inflight) as (λ x. Flight T × Answer T) [
      | some id ↦ (s, Answer.wait id)
      | none ↦
          let fetch : Fetch = record { id = s.next; key = key; is_done = false } in
          (
            record s {
              inflight = insert key s.next s.inflight;
              next = suc s.next;
              fetches = fetch ∷ s.fetches;
            },
            Answer.wait s.next,
          )
    ]
  ]

  -- The end of `_do_live_fetch`: a tick is cached; `none` is no tick, or an exception.
  unfoldable pub land : Fetch → ℕ → Option T → Flight T → Flight T
  land f now none s = record s { fetches = mark_done f.id s.fetches }
  land f now (some tick) s = record s {
    cache = insert f.key (now, tick) s.cache;
    fetches = mark_done f.id s.fetches;
  }

  -- The callback of a fetch that is done.
  unfoldable pub callback : Fetch → Flight T → Flight T
  callback f s = record s { inflight = erase f.key s.inflight; fetches = without f.id s.fetches }

  -- The states that calls, fetches and callbacks lead to, in any order.
  pub data Reachable : ℕ → Flight T → Type 0 where
    start : {ttl : ℕ} → Reachable ttl no_flight
    asked :
        {ttl : ℕ} {s : Flight T} (now : ℕ) (key : Text)
        → Reachable ttl s
        → Reachable ttl (join_flight ttl now key s).0
    landed :
        {ttl : ℕ} {s : Flight T} (f : Fetch) (now : ℕ) (result : Option T)
        → IsIn f s.fetches
        → f.is_done ≡ false
        → Reachable ttl s
        → Reachable ttl (land f now result s)
    called_back :
        {ttl : ℕ} {s : Flight T} (f : Fetch)
        → IsIn f s.fetches
        → f.is_done ≡ true
        → Reachable ttl s
        → Reachable ttl (callback f s)
