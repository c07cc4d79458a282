-- ===== src/Cache/Reads.antt =====
-- What the ticker cache gives back (src/cache/ticker_cache.py).
use bharat_ticker.Common.{
  ℕ, ◌+◌, leb, ◌≡◌, refl, ◌∙◌, Bool, true, false, Option, none, some, [], ◌∷◌, if◌then◌else◌, arith,
  Bool-cases, inl, inr,
}
use bharat_ticker.Common.Text.{Text, text_eq}
use bharat_ticker.Common.Dict.{Dict, lookup, get_or, has_key, lookup-insert_self}
use bharat_ticker.Models.Tick.{MarketDepth, Tick}
use bharat_ticker.Store.{MemoryStore, hset, expire, xadd, hgetall, write_all, expired}
use bharat_ticker.Store.Expiry.{HasDistinctKeys, lookup-write_all}
use bharat_ticker.Store.PubSub.{Backend, Value, run_pipeline, run_command, publish}
use bharat_ticker.Cache.Ticks.{
  Render, tick_key, depth_key, tick_to_hash, depth_to_hash, set_tick, set_market_depth, if_any,
  read_hash, get_tick, get_market_depth,
}

-- The store has this hash until this time.
abbrev IsKept : Text → ℕ → Dict Text → MemoryStore Value → Type 0
IsKept key end h s = (lookup key s.expiry ≡ some end) × (lookup key s.hashes ≡ some h)

hgetall-IsKept :
    (now end : ℕ) (key : Text) (h : Dict Text) (s : MemoryStore Value)
    → IsKept key end h s
    → (hgetall now key s).1 ≡ (if leb end now then [] else h)
unfolding hgetall expired get_or
hgetall-IsKept now end key h s (e, k) = elim (Bool-cases (leb end now)) [
  | inl t ↦ rw (hgetall, expired, e, t) refl
  | inr t ↦ rw (hgetall, expired, e, t) (rw (get_or, k) refl)
]

expire-IsKept :
    (now ttl : ℕ) (key : Text) (items : Dict Text) (s : MemoryStore Value)
    → IsKept key
        (now + ttl)
        (write_all items (get_or key [] s.hashes))
        (expire now key ttl (hset key items s).0).0
unfolding expire hset has_key
expire-IsKept now ttl key items s =
    let h = write_all items (get_or key [] s.hashes) in
    let here = lookup-insert_self key h s.hashes in
    elim (Bool-cases (has_key key s.kv)) [
      | inl t ↦ rw t (lookup-insert_self key (now + ttl) s.expiry, here)
      | inr t ↦ rw (t, has_key, here) (lookup-insert_self key (now + ttl) s.expiry, here)
    ]

set_tick-IsKept :
    (w : Render) (now : ℕ) (tick : Tick) (b : Backend)
    → let key = tick_key tick.exchange tick.symbol in
      IsKept key
        (now + 5)
        (write_all (tick_to_hash w now tick) (get_or key [] b.store.hashes))
        (set_tick w now tick b).store
unfolding set_tick run_pipeline run_command xadd publish
set_tick-IsKept w now tick b =
    expire-IsKept now 5 (tick_key tick.exchange tick.symbol) (tick_to_hash w now tick) b.store

set_market_depth-IsKept :
    (w : Render) (now : ℕ) (symbol exchange : Text) (depth : MarketDepth) (b : Backend)
    → let key = depth_key exchange symbol in
      IsKept key
        (now + 2)
        (write_all (depth_to_hash w depth) (get_or key [] b.store.hashes))
        (set_market_depth w now symbol exchange depth b).store
unfolding set_market_depth run_pipeline run_command
set_market_depth-IsKept w now symbol exchange depth b =
    expire-IsKept now 2 (depth_key exchange symbol) (depth_to_hash w depth) b.store

-- Nothing once the time is over, and before it a hash with this field.
abbrev pub HasField : Text → Text → Option (Dict Text) → Type 0
HasField k v none = ⊥
HasField k v (some d) = lookup k d ≡ some v

abbrev pub ReadsAs : Bool → Text → Text → Option (Dict Text) → Type 0
ReadsAs true k v found = found ≡ none
ReadsAs false k v found = HasField k v found

if_any-HasField : (k v : Text) (d : Dict Text) → lookup k d ≡ some v → HasField k v (if_any d)
unfolding lookup
if_any-HasField k v [] h = absurd (ground (arith, h))
if_any-HasField k v (x ∷ d) h = h

read_hash-ReadsAs :
    (later end : ℕ) (key k v : Text) (h : Dict Text) (b : Backend)
    → IsKept key end h b.store
    → lookup k h ≡ some v
    → ReadsAs (leb end later) k v (read_hash later key b).1
unfolding read_hash
read_hash-ReadsAs later end key k v h b kept found = elim (Bool-cases (leb end later)) [
  | inl e ↦ rw (hgetall-IsKept later end key h b.store kept, e) refl
  | inr e ↦ rw (hgetall-IsKept later end key h b.store kept, e) (if_any-HasField k v h found)
]

tick_to_hash-HasDistinctKeys :
    (w : Render) (now : ℕ) (tick : Tick) → HasDistinctKeys (tick_to_hash w now tick)
unfolding tick_to_hash lookup text_eq
tick_to_hash-HasDistinctKeys w now tick = (
  refl,
  (
    refl,
    (
      refl,
      (
        refl,
        (
          refl,
          (
            refl,
            (
              refl,
              (
                refl,
                (
                  refl,
                  (
                    refl,
                    (
                      refl,
                      (
                        refl,
                        (
                          refl,
                          (
                            refl,
                            (refl, (refl, (refl, (refl, (refl, (refl, (refl, (refl, tt)))))))),
                          ),
                        ),
                      ),
                    ),
                  ),
                ),
              ),
            ),
          ),
        ),
      ),
    ),
  ),
)

-- For the five seconds of its lifetime every field of a tick is read back as it was written last,
-- whatever the cache held before; after them there is no tick.
pub get_tick-set_tick :
    (w : Render) (now later : ℕ) (tick : Tick) (b : Backend) (k v : Text)
    → lookup k (tick_to_hash w now tick) ≡ some v
    → ReadsAs
        (leb (now + 5) later)
        k
        v
        (get_tick later tick.symbol tick.exchange (set_tick w now tick b)).1
unfolding get_tick
get_tick-set_tick w now later tick b k v h =
    let key = tick_key tick.exchange tick.symbol in
    let old = get_or key [] b.store.hashes in
    let items = tick_to_hash w now tick in
    let found : lookup k (write_all items old) ≡ some v =
      lookup-write_all k items old (tick_to_hash-HasDistinctKeys w now tick) ∙ rw h refl in
    read_hash-ReadsAs later (now + 5) key k v (write_all items old) (set_tick w now tick b)
      (set_tick-IsKept w now tick b) found

-- A field of an older depth that the new depth does not have, such as a level that is gone, is read
-- back with the new one.
pub get_market_depth-stale :
    (w : Render) (now later : ℕ) (symbol exchange : Text) (depth : MarketDepth) (b : Backend)
    (k v : Text)
    → HasDistinctKeys (depth_to_hash w depth)
    → lookup k (depth_to_hash w depth) ≡ none
    → lookup k (get_or (depth_key exchange symbol) [] b.store.hashes) ≡ some v
    → ReadsAs
        (leb (now + 2) later)
        k
        v
        (get_market_depth later symbol exchange (set_market_depth w now symbol exchange depth b)).1
unfolding get_market_depth
get_market_depth-stale w now later symbol exchange depth b k v u h past =
    let key = depth_key exchange symbol in
    let old = get_or key [] b.store.hashes in
    let items = depth_to_hash w depth in
    let found : lookup k (write_all items old) ≡ some v =
      lookup-write_all k items old u ∙ rw h past in
    read_hash-ReadsAs later (now + 2) key k v (write_all items old)
      (set_market_depth w now symbol exchange depth b)
      (set_market_depth-IsKept w now symbol exchange depth b) found
