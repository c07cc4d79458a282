-- ===== src/Store/PubSub.antt =====
-- Publish and subscribe (`_MemoryPubSub`, `publish`), and the pipeline, of src/cache/memory_store.py.
-- A subscriber is the number of its queue.
use bharat_ticker.Common.{
  ℕ, ◌==◌, Bool, false, ◌||◌, Option, List, [], ◌∷◌, ◌++◌, length, if◌then◌else◌,
}
use bharat_ticker.Common.Text.{Text}
use bharat_ticker.Common.Dict.{Dict, insert, get_or}
use bharat_ticker.Store.Defs.{MemoryStore, set, hset, hgetall, expire, xadd}

-- A payload: its channel and its data.
pub record Payload : Type 0 where
  pub channel : Text
  pub message : Text

-- `_subscribers`, and the queues of the subscribers.
pub record Hub : Type 0 where
  pub subscribers : Dict (List ℕ)
  pub queues : ℕ → List Payload

abbrev pub is_in : ℕ → List ℕ → Bool
is_in q [] = false
is_in q (p ∷ ps) = (q == p) || is_in q ps

-- `set.add` and `set.discard`
abbrev pub add_to : ℕ → List ℕ → List ℕ
add_to q ps = if is_in q ps then ps else ps ++ (q ∷ [])

abbrev pub discard : ℕ → List ℕ → List ℕ
discard q [] = []
discard q (p ∷ ps) = let rest = discard q ps in if q == p then rest else p ∷ rest

-- `subscribe` and `unsubscribe`, with the channels named.
unfoldable pub subscribe : ℕ → List Text → Hub → Hub
subscribe q [] h = h
subscribe q (ch ∷ channels) h =
    subscribe q channels
      (record h { subscribers = insert ch (add_to q (get_or ch [] h.subscribers)) h.subscribers })

unfoldable pub unsubscribe : ℕ → List Text → Hub → Hub
unsubscribe q [] h = h
unsubscribe q (ch ∷ channels) h =
    unsubscribe q channels
      (record h { subscribers = insert ch (discard q (get_or ch [] h.subscribers)) h.subscribers })

-- The loop of `publish`: each queue in turn gets the payload.
unfoldable pub deliver : Payload → List ℕ → (ℕ → List Payload) → ℕ → List Payload
deliver x [] queues = queues
deliver x (q ∷ subs) queues =
    deliver x subs (λ p. if p == q then queues p ++ (x ∷ []) else queues p)

-- `publish`, with the number of subscribers.
unfoldable pub publish : Text → Text → Hub → Hub × ℕ
unfolding deliver
publish channel message h =
    let subs = get_or channel [] h.subscribers in
    let x : Payload = record { channel = channel; message = message } in
    (record h { queues = deliver x subs h.queues }, length subs)

-- The values that the server keeps under keys: texts and numbers.
pub data Value : Type 0 where
  text : Text → Value
  number : ℕ → Value

-- The store with its subscribers, and the calls that a pipeline holds.
pub record Backend : Type 0 where
  pub store : MemoryStore Value
  pub hub : Hub

pub data Command : Type 0 where
  do_hset : Text → Dict Text → Command
  do_expire : Text → ℕ → Command
  do_xadd : Text → Dict Text → Command
  do_publish : Text → Text → Command
  do_set : Text → Value → Option ℕ → Command
  do_hgetall : Text → Command

pub data Result : Type 0 where
  done : Result
  count : ℕ → Result
  flag : Bool → Result
  id_of : ℕ × ℕ → Result
  fields_of : Dict Text → Result

unfoldable pub run_command : ℕ → Command → Backend → Backend × Result
unfolding publish
run_command now (Command.do_hset key items) b =
    let (s, n) = hset key items b.store in (record b { store = s }, Result.count n)
run_command now (Command.do_expire key ttl) b =
    let (s, ok) = expire now key ttl b.store in (record b { store = s }, Result.flag ok)
run_command now (Command.do_xadd stream fields) b =
    let (s, id) = xadd now stream fields b.store in (record b { store = s }, Result.id_of id)
run_command now (Command.do_publish channel message) b =
    let (h, n) = publish channel message b.hub in (record b { hub = h }, Result.count n)
run_command now (Command.do_set key v ttl) b =
    (record b { store = set now key v ttl b.store }, Result.done)
run_command now (Command.do_hgetall key) b =
    let (s, d) = hgetall now key b.store in (record b { store = s }, Result.fields_of d)

-- `_MemoryPipeline.execute`; no call of its commands raises here.
unfoldable pub run_pipeline : ℕ → List Command → Backend → Backend × List Result
unfolding run_command
run_pipeline now [] b = (b, [])
run_pipeline now (c ∷ ops) b =
    let (b', r) = run_command now c b in let (b'', rs) = run_pipeline now ops b' in (b'', r ∷ rs)
