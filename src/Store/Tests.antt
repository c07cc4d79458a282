-- ===== src/Store/Tests.antt =====
-- A store with a stream, a key and a hash (src/cache/memory_store.py), and the theorems about it.
use bharat_ticker.Common.{ℕ, zero, suc, ◌≤◌, ◌≡◌, refl, ap, List, [], ◌∷◌, ◌++◌, length, arith}
use bharat_ticker.Common.Text.{Text, codes, text_eq}
use bharat_ticker.Common.Dict.{Dict, insert, get_or}
use bharat_ticker.Store.Defs.{
  MemoryStore, Message, init, xadd, read_new, take, stream_maxlen, buffer, last_read,
}
use bharat_ticker.Store.PubSub.{Hub}
use bharat_ticker.Store.Delivery.{Action, post, poll, fields_of, run, run-delivers}

abbrev ticks : Text
ticks = codes "ticks"

abbrev writers : Text
writers = codes "writers"

abbrev key : Text
key = codes "k"

abbrev tcs : Dict Text
tcs = (codes "symbol", codes "TCS") ∷ []

abbrev infy : Dict Text
infy = (codes "symbol", codes "INFY") ∷ []

abbrev new_store : MemoryStore ℕ
new_store = record { kv = []; hashes = []; expiry = []; streams = []; stream_seq = []; groups = [] }

init_new : init ≡ new_store
unfolding init
init_new = refl

abbrev actions : List Action
actions = post 10 tcs ∷ poll 100 ∷ poll 100 ∷ post 20 infy ∷ []

first_poll : fields_of (run ticks writers actions new_store).1 ≡ tcs ∷ []
unfolding run text_eq get_or insert xadd read_new last_read buffer
first_poll = refl

run-delivers_example :
    let (s', out) = run ticks writers actions new_store in
    (fields_of out ≡ take (last_read ticks writers s') (tcs ∷ infy ∷ []))
    × (fields_of (out ++ (read_new writers 2 ticks s').1) ≡ tcs ∷ infy ∷ [])
unfolding buffer last_read get_or
run-delivers_example =
    run-delivers ticks writers actions new_store 2 refl refl (omega arith) (omega arith)

-- A full deque.
unfoldable fill : ℕ → List Message
fill zero = []
fill (suc n) = record { millis = n; seq = n; fields = tcs } ∷ fill n

length-fill : (n : ℕ) → length (fill n) ≡ n
unfolding fill
length-fill zero = refl
length-fill (suc n) = ap suc (length-fill n)

-- The group has read it to its end.
abbrev at_end : MemoryStore ℕ
at_end = record new_store {
  streams = (ticks, fill stream_maxlen) ∷ [];
  groups = (ticks, (writers, stream_maxlen) ∷ []) ∷ [];
}

at_end-last_read : stream_maxlen ≤ last_read ticks writers at_end
unfolding last_read get_or text_eq
at_end-last_read = omega arith

at_end-buffer : length (buffer ticks at_end) ≤ stream_maxlen
unfolding buffer get_or text_eq
at_end-buffer = omega (arith, length-fill stream_maxlen)

-- The hash at the key was to be kept until 5.
abbrev stale : MemoryStore ℕ
stale = record new_store { hashes = (key, tcs) ∷ []; expiry = (key, 5) ∷ [] }

abbrev hub : Hub
hub = record { subscribers = ((codes "c", 1 ∷ 2 ∷ []) ∷ []); queues = λ q. [] }
