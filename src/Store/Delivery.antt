-- ===== src/Store/Delivery.antt =====
-- What `xreadgroup` of src/cache/memory_store.py delivers to a group of a stream.
use bharat_ticker.Common.{
  ℕ, zero, suc, ◌+◌, ◌≤◌, ◌<◌, ◌≡◌, refl, List, [], ◌∷◌, ◌++◌, length, length-append, arith, ap,
  ◌∙◌,
}
use mathlib.Core.Path.{sym}
use bharat_ticker.Common.Text.{Text}
use bharat_ticker.Common.Dict.{Dict, insert, get_or, get_or-insert_self}
use bharat_ticker.Store.Defs.{
  MemoryStore, Message, stream_maxlen, deque_append, take, drop, buffer, last_read, xadd, move,
  read_new,
}
use bharat_ticker.Store.Buffer.{
  append_assoc, append-nil, take-append, take-slice, slice-length, take-drop, drop-all,
  deque_append-room, deque_append-length,
}

-- What happens to a stream: a producer adds a message, or the group polls.
pub data Action : Type 0 where
  post : ℕ → Dict Text → Action
  poll : ℕ → Action

abbrev pub fields_of : List Message → List (Dict Text)
fields_of [] = []
fields_of (m ∷ ms) = m.fields ∷ fields_of ms

fields_of-append : (xs ys : List Message) → fields_of (xs ++ ys) ≡ fields_of xs ++ fields_of ys
fields_of-append [] ys = refl
fields_of-append (x ∷ xs) ys = ap (λ l. x.fields ∷ l) (fields_of-append xs ys)

fields_of-take : (n : ℕ) (xs : List Message) → fields_of (take n xs) ≡ take n (fields_of xs)
fields_of-take zero xs = refl
fields_of-take (suc n) [] = refl
fields_of-take (suc n) (x ∷ xs) = ap (λ l. x.fields ∷ l) (fields_of-take n xs)

abbrev pub posted : List Action → List (Dict Text)
posted [] = []
posted (post now fields ∷ acts) = fields ∷ posted acts
posted (poll count ∷ acts) = posted acts

take-none : (n : ℕ) (ms : List Message) → n ≡ 0 → take n ms ≡ []
take-none zero ms h = refl
take-none (suc n) ms h = absurd (omega (arith, h))

fields_of-none : (ms : List Message) → ms ≡ [] → fields_of ms ≡ []
fields_of-none ms h = rw h refl

take-nil : (n : ℕ) → take {A = Message} n [] ≡ []
take-nil zero = refl
take-nil (suc n) = refl

module _ {V : Type 0} (stream group : Text) where
  unfoldable pub act : Action → MemoryStore V → MemoryStore V × List Message
  act (post now fields) s = ((xadd now stream fields s).0, [])
  act (poll count) s = read_new group count stream s

  -- The actions in turn, with what the polls deliver.
  unfoldable pub run : List Action → MemoryStore V → MemoryStore V × List Message
  unfolding act
  run [] s = (s, [])
  run (a ∷ acts) s =
      let (s', out) = act a s in let (s'', later) = run acts s' in (s'', out ++ later)

  move-last_read :
      (ms : List Message) (s : MemoryStore V)
      → last_read stream group (move stream group ms s) ≡ last_read stream group s + length ms
  unfolding move last_read
  move-last_read [] s = omega arith
  move-last_read (m ∷ ms) s =
      let n = last_read stream group s + length (m ∷ ms) in
      let place = insert group n (get_or stream [] s.groups) in
      ap (λ d. get_or group 0 d) (get_or-insert_self stream place [] s.groups)
      ∙ get_or-insert_self group n 0 (get_or stream [] s.groups)

  move-buffer :
      (ms : List Message) (s : MemoryStore V)
      → buffer stream (move stream group ms s) ≡ buffer stream s
  unfolding move buffer
  move-buffer [] s = refl
  move-buffer (m ∷ ms) s = refl

  xadd-buffer :
      (now : ℕ) (fields : Dict Text) (s : MemoryStore V)
      → length (buffer stream s) < stream_maxlen
      → (m : Message) × (m.fields ≡ fields)
        × (buffer stream (xadd now stream fields s).0 ≡ buffer stream s ++ (m ∷ []))
  unfolding xadd buffer
  xadd-buffer now fields s h =
      let m : Message = record {
        millis = now;
        seq = get_or stream 0 s.stream_seq + 1;
        fields = fields;
      } in
      (
        m,
        refl,
        get_or-insert_self stream (deque_append stream_maxlen m (buffer stream s)) [] s.streams
            ∙ deque_append-room stream_maxlen m (buffer stream s) h,
      )

  -- From `s` to `s'` exactly `out` was delivered and `new` added.
  abbrev pub Continues : MemoryStore V → MemoryStore V → List Message → List (Dict Text) → Type 0
  Continues s s' out new =
      (take (last_read stream group s) (buffer stream s) ++ out
        ≡ take (last_read stream group s') (buffer stream s'))
      × (fields_of (buffer stream s') ≡ fields_of (buffer stream s) ++ new)
      × (length (buffer stream s') ≡ length (buffer stream s) + length new)
      × (last_read stream group s' ≤ length (buffer stream s'))

  poll-Continues :
      (count : ℕ) (s : MemoryStore V)
      → last_read stream group s ≤ length (buffer stream s)
      → Continues s (read_new group count stream s).0 (read_new group count stream s).1 []
  unfolding read_new
  poll-Continues count s h =
      let n = last_read stream group s in
      let ms = buffer stream s in
      let unread = take count (drop n ms) in
      rw (move-buffer unread s, move-last_read unread s)
        (
          take-slice n count ms h,
          sym (append-nil (fields_of ms)),
          omega arith,
          slice-length n count ms h,
        )

  post-Continues :
      (now : ℕ) (fields : Dict Text) (s : MemoryStore V)
      → last_read stream group s ≤ length (buffer stream s)
      → length (buffer stream s) < stream_maxlen
      → Continues s (xadd now stream fields s).0 [] (fields ∷ [])
  unfolding xadd last_read
  post-Continues now fields s h room =
      let (m, is_m, e) = xadd-buffer now fields s room in
      rw e (
        append-nil (take (last_read stream group s) (buffer stream s))
            ∙ sym (take-append (last_read stream group s) (buffer stream s) (m ∷ []) h),
        fields_of-append (buffer stream s) (m ∷ []) ∙ rw is_m refl,
        length-append (buffer stream s) (m ∷ []),
        omega (arith, h, length-append (buffer stream s) (m ∷ [])),
      )

  post-length :
      (now : ℕ) (fields : Dict Text) (s : MemoryStore V)
      → length (buffer stream s) ≤ stream_maxlen
      → length (buffer stream (xadd now stream fields s).0) ≤ stream_maxlen
  unfolding xadd buffer
  post-length now fields s h =
      let m : Message = record {
        millis = now;
        seq = get_or stream 0 s.stream_seq + 1;
        fields = fields;
      } in
      rw (get_or-insert_self stream (deque_append stream_maxlen m (buffer stream s)) [] s.streams)
        (deque_append-length stream_maxlen m (buffer stream s) h)

  post-place :
      (now : ℕ) (fields : Dict Text) (s : MemoryStore V)
      → stream_maxlen ≤ last_read stream group s
      → stream_maxlen ≤ last_read stream group (xadd now stream fields s).0
  unfolding xadd last_read
  post-place now fields s h = h

  Continues-trans :
      (s s' s'' : MemoryStore V) (out out' : List Message) (new new' : List (Dict Text))
      → Continues s s' out new
      → Continues s' s'' out' new'
      → Continues s s'' (out ++ out') (new ++ new')
  Continues-trans s s' s'' out out' new new' (d, f, l, c) (d', f', l', c') = (
    sym (append_assoc (take (last_read stream group s) (buffer stream s)) out out')
        ∙ ap (λ ms. ms ++ out') d
        ∙ d',
    f' ∙ ap (λ fs. fs ++ new') f ∙ append_assoc (fields_of (buffer stream s)) new new',
    omega (arith, l, l', length-append new new'),
    c',
  )

  -- As long as the deque has room for what is posted.
  run-Continues :
      (acts : List Action) (s : MemoryStore V)
      → last_read stream group s ≤ length (buffer stream s)
      → length (buffer stream s) + length (posted acts) ≤ stream_maxlen
      → Continues s (run acts s).0 (run acts s).1 (posted acts)
  unfolding run
  run-Continues [] s h room = (
    append-nil (take (last_read stream group s) (buffer stream s)),
    sym (append-nil (fields_of (buffer stream s))),
    omega arith,
    h,
  )
  run-Continues (post now fields ∷ acts) s h room =
      let s' = (xadd now stream fields s).0 in
      let step = post-Continues now fields s h (omega arith) in
      let later = run-Continues acts s' step.3 (omega (arith, step.2, room)) in
      Continues-trans s s' (run acts s').0 [] (run acts s').1 (fields ∷ []) (posted acts) step later
  run-Continues (poll count ∷ acts) s h room =
      let s' = (read_new group count stream s).0 in
      let out = (read_new group count stream s).1 in
      let step = poll-Continues count s h in
      let later = run-Continues acts s' step.3 (omega (arith, step.2, room)) in
      Continues-trans s s' (run acts s').0 out (run acts s').1 [] (posted acts) step later

  -- On a stream without messages that the group has not read from, while no more messages are
  -- posted than the deque has room for: what the group's polls deliver is a beginning of what was
  -- posted, in the order of posting, each message once; and a further poll for that many messages
  -- delivers all the rest.
  pub run-delivers :
      (acts : List Action) (s : MemoryStore V) (count : ℕ)
      → buffer stream s ≡ []
      → last_read stream group s ≡ 0
      → length (posted acts) ≤ stream_maxlen
      → length (posted acts) ≤ count
      → let (s', out) = run acts s in
        (fields_of out ≡ take (last_read stream group s') (posted acts))
        × (fields_of (out ++ (read_new group count stream s').1) ≡ posted acts)
  unfolding read_new
  run-delivers acts s count empty unread room enough =
      let none_there : length (buffer stream s) ≡ 0 = rw empty refl in
      let (d, f, l, c) = run-Continues acts s (omega arith) (omega arith) in
      let s' = (run acts s).0 in
      let out = (run acts s).1 in
      let same : fields_of (buffer stream s') ≡ posted acts =
        f ∙ ap (λ fs. fs ++ posted acts) (fields_of-none (buffer stream s) empty) in
      let delivered : out ≡ take (last_read stream group s') (buffer stream s') =
        sym (ap (λ ms. ms ++ out) (take-none (last_read stream group s) (buffer stream s) unread))
        ∙ d in
      (
        ap fields_of delivered
            ∙ fields_of-take (last_read stream group s') (buffer stream s')
            ∙ ap (take (last_read stream group s')) same,
        ap (λ ms. fields_of (ms ++ (read_new group count stream s').1)) delivered
            ∙ ap fields_of (
                take-drop (last_read stream group s') count (buffer stream s')
                  (omega (arith, l, none_there, enough)))
            ∙ same,
      )

  read_new-end :
      (count : ℕ) (s : MemoryStore V)
      → length (buffer stream s) ≤ last_read stream group s
      → read_new group count stream s ≡ (s, [])
  unfolding read_new move
  read_new-end count s h =
      let none_left : take count (drop (last_read stream group s) (buffer stream s)) ≡ [] =
        ap (take count) (drop-all (last_read stream group s) (buffer stream s) h)
        ∙ take-nil count in
      ap (λ ms. (move stream group ms s, ms)) none_left

  -- A group that has read a full stream to its end gets nothing any more, whatever is posted: its
  -- place is counted from the head of the deque, which moves on when messages are dropped.
  pub run-full :
      (acts : List Action) (s : MemoryStore V)
      → length (buffer stream s) ≤ stream_maxlen
      → stream_maxlen ≤ last_read stream group s
      → (run acts s).1 ≡ []
  unfolding run
  run-full [] s bound at_end = refl
  run-full (post now fields ∷ acts) s bound at_end =
      let s' = (xadd now stream fields s).0 in
      run-full acts s' (post-length now fields s bound) (post-place now fields s at_end)
  run-full (poll count ∷ acts) s bound at_end =
      rw (read_new-end count s (omega arith)) (run-full acts s bound at_end)
