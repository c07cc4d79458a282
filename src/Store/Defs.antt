-- ===== src/Store/Defs.antt =====
-- `MemoryStore` (src/cache/memory_store.py); publish and subscribe are in Store/PubSub. The clock is
-- read in a unit of which a time to live counts whole ones. Values are those of a type `V`; `int()` on
-- them is an argument of `incr`, and `str()` has been applied to the fields.
use bharat_ticker.Common.{
  ℕ, zero, suc, ◌+◌, ltb, leb, Bool, true, false, ◌||◌, Option, none, some, List, [], ◌∷◌, ◌++◌,
  length, if◌then◌else◌,
}
use bharat_ticker.Common.Text.{Text}
use bharat_ticker.Common.Dict.{Dict, lookup, insert, erase, has_key, get_or}

-- A message of a stream: its id, in milliseconds and sequence number, and its fields.
pub record Message : Type 0 where
  pub millis : ℕ
  pub seq : ℕ
  pub fields : Dict Text

pub record MemoryStore (V : Type 0) : Type 0 where
  pub kv : Dict V
  pub hashes : Dict (Dict Text)
  pub expiry : Dict ℕ
  pub streams : Dict (List Message)
  pub stream_seq : Dict ℕ
  pub groups : Dict (Dict ℕ)

-- The loop of `hset`.
unfoldable pub write_all : Dict Text → Dict Text → Dict Text
write_all [] h = h
write_all ((k, v) ∷ items) h = write_all items (insert k v h)

module _ {V : Type 0} where
  unfoldable pub init : MemoryStore V
  init = record { kv = []; hashes = []; expiry = []; streams = []; stream_seq = []; groups = [] }

  -- `_expired`: a key whose time has come is removed.
  unfoldable pub expired : ℕ → Text → MemoryStore V → MemoryStore V × Bool
  expired now key s = elim (lookup key s.expiry) [
    | none ↦ (s, false)
    | some exp ↦
        if leb exp now
        then (
          record s {
            kv = erase key s.kv;
            hashes = erase key s.hashes;
            expiry = erase key s.expiry;
          },
          true,
        )
        else (s, false)
  ]

  unfoldable pub get : ℕ → Text → MemoryStore V → MemoryStore V × Option V
  unfolding expired
  get now key s =
      let (s', gone) = expired now key s in (s', if gone then none else lookup key s'.kv)

  -- `if ex`: no time to live, or zero, sets no expiry.
  unfoldable pub set : ℕ → Text → V → Option ℕ → MemoryStore V → MemoryStore V
  set now key value none s = record s { kv = insert key value s.kv; expiry = erase key s.expiry }
  set now key value (some zero) s = record s {
    kv = insert key value s.kv;
    expiry = erase key s.expiry;
  }
  set now key value (some (suc t)) s = record s {
    kv = insert key value s.kv;
    expiry = insert key (now + suc t) s.expiry;
  }

  -- `incr`: `none` is the `ValueError` of `int()`.
  unfoldable pub incr :
      (V → Option ℕ) → (ℕ → V) → ℕ → Text → MemoryStore V → MemoryStore V × Option ℕ
  unfolding expired
  incr int number now key s =
      let (s', gone) = expired now key s in
      let s'' : MemoryStore V =
        if gone then record s' { kv = insert key (number 0) s'.kv } else s' in
      elim (int (get_or key (number 0) s''.kv)) [
        | none ↦ (s'', none)
        | some n ↦ (record s'' { kv = insert key (number (suc n)) s''.kv }, some (suc n))
      ]

  unfoldable pub expire : ℕ → Text → ℕ → MemoryStore V → MemoryStore V × Bool
  expire now key ttl s =
      if has_key key s.kv || has_key key s.hashes
      then (record s { expiry = insert key (now + ttl) s.expiry }, true)
      else (s, false)

  -- `hset`, with the union of `mapping` and the keyword arguments; the reply is their number.
  unfoldable pub hset : Text → Dict Text → MemoryStore V → MemoryStore V × ℕ
  unfolding write_all
  hset key items s = (
    record s { hashes = insert key (write_all items (get_or key [] s.hashes)) s.hashes },
    length items,
  )

  unfoldable pub hgetall : ℕ → Text → MemoryStore V → MemoryStore V × Dict Text
  unfolding expired
  hgetall now key s =
      let (s', gone) = expired now key s in (s', if gone then [] else get_or key [] s'.hashes)

-- `deque(maxlen=...)`: an append to a full deque drops its first element.
abbrev pub stream_maxlen : ℕ
stream_maxlen = 100000

abbrev pub rest_of : {A : Type 0} → List A → List A
rest_of [] = []
rest_of (x ∷ xs) = xs

unfoldable pub deque_append : {A : Type 0} → ℕ → A → List A → List A
deque_append maxlen x xs =
    if ltb (length xs) maxlen then xs ++ (x ∷ []) else rest_of (xs ++ (x ∷ []))

abbrev pub take : {A : Type 0} → ℕ → List A → List A
take zero xs = []
take (suc n) [] = []
take (suc n) (x ∷ xs) = x ∷ take n xs

abbrev pub drop : {A : Type 0} → ℕ → List A → List A
drop zero xs = xs
drop (suc n) [] = []
drop (suc n) (x ∷ xs) = drop n xs

-- `list(self._streams.get(stream, ()))` and `self._groups[stream].get(groupname, 0)`.
unfoldable pub buffer : {V : Type 0} → Text → MemoryStore V → List Message
buffer stream s = get_or stream [] s.streams

unfoldable pub last_read : {V : Type 0} → Text → Text → MemoryStore V → ℕ
last_read stream group s = get_or group 0 (get_or stream [] s.groups)

module _ {V : Type 0} where
  -- `xadd`; its argument `maxlen` is not used by the source.
  unfoldable pub xadd : ℕ → Text → Dict Text → MemoryStore V → MemoryStore V × (ℕ × ℕ)
  unfolding deque_append buffer
  xadd now stream fields s =
      let n = get_or stream 0 s.stream_seq + 1 in
      let message : Message = record { millis = now; seq = n; fields = fields } in
      (
        record s {
          stream_seq = insert stream n s.stream_seq;
          streams = insert stream (deque_append stream_maxlen message (buffer stream s)) s.streams;
        },
        (now, n),
      )

  -- `xgroup_create`, which makes the stream if there is none.
  unfoldable pub xgroup_create : Text → Text → MemoryStore V → MemoryStore V
  unfolding buffer
  xgroup_create stream group s = record s {
    streams = insert stream (buffer stream s) s.streams;
    groups = insert stream (insert group 0 (get_or stream [] s.groups)) s.groups;
  }

  -- The group's place in a stream, after the new messages have been given out.
  unfoldable pub move : Text → Text → List Message → MemoryStore V → MemoryStore V
  unfolding last_read
  move stream group [] s = s
  move stream group (m ∷ ms) s = record s {
    groups =
        insert stream
          (insert group (last_read stream group s + length (m ∷ ms)) (get_or stream [] s.groups))
          s.groups;
  }

  -- One stream's turn in `xreadgroup`: the messages that are new to the group, `count` at most. That
  -- the source's `defaultdict` keeps an empty entry for a stream that it is asked for is left out.
  unfoldable pub read_new : Text → ℕ → Text → MemoryStore V → MemoryStore V × List Message
  unfolding buffer last_read move
  read_new group count stream s =
      let unread = take count (drop (last_read stream group s) (buffer stream s)) in
      (move stream group unread s, unread)

  -- `xreadgroup`, without its sleep: the streams that have new messages, with these.
  unfoldable pub xreadgroup :
      Text → ℕ → List Text → MemoryStore V → MemoryStore V × List (Text × List Message)
  unfolding read_new
  xreadgroup group count [] s = (s, [])
  xreadgroup group count (stream ∷ streams) s =
      let (s', unread) = read_new group count stream s in
      let (s'', out) = xreadgroup group count streams s' in
      (
        s'',
        elim unread as (λ u. List (Text × List Message)) [
          | [] ↦ out
          | ◌∷◌ m ms ↦ (stream, m ∷ ms) ∷ out
        ],
      )
