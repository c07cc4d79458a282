-- ===== src/Tickertape/Pacing.antt =====
-- The pace of the searches (src/engine/tickertape.py).
use bharat_ticker.Common.{
  ℕ, ◌+◌, ◌≤◌, ltb, ◌≡◌, refl, Bool, true, false, Option, none, some, List, [], ◌∷◌, arith,
  if◌then◌else◌, Bool-cases, inl, inr,
}
use bharat_ticker.Tickertape.Search.{
  Tape, SearchReply, is_forbidden, send_time, search, search_min_gap, search_cooldown,
}

-- A search that was sent: when, when it was answered, and whether it was refused for its rate.
pub record Sent : Type 0 where
  pub at : ℕ
  pub done : ℕ
  pub refused : Bool

unfoldable add_sent : SearchReply → Option ℕ → List Sent → List Sent
add_sent reply none rest = rest
add_sent reply (some at) rest =
    record { at = at; done = at + reply.took; refused = is_forbidden reply.status } ∷ rest

-- Searches one after the other, each at its time and with its reply.
unfoldable pub searches : List (ℕ × SearchReply) → Tape → List Sent
unfolding search add_sent
searches [] t = []
searches ((now, reply) ∷ calls) t =
    add_sent reply (search now reply t).1.0 (searches calls (search now reply t).0)

-- The pause that is due after a search.
abbrev pub pause_after : Sent → ℕ
pause_after s = if s.refused then search_cooldown else search_min_gap

-- Each search waits for the pause after the one before it.
abbrev pub IsPaced : List Sent → Type 0
IsPaced [] = Unit
IsPaced (s ∷ []) = Unit
IsPaced (s ∷ r ∷ sent) = (s.done + pause_after s ≤ r.at) × IsPaced (r ∷ sent)

-- The first of the searches, if there is one, is not before `n`.
abbrev StartsAt : ℕ → List Sent → Type 0
StartsAt n [] = Unit
StartsAt n (s ∷ sent) = n ≤ s.at

search-parked :
    (now : ℕ) (reply : SearchReply) (t : Tape)
    → ltb now t.cooldown_until ≡ true
    → search now reply t ≡ (t, (none, []))
unfolding search
search-parked now reply t h = rw (search, h) refl

abbrev after_403 : ℕ → SearchReply → Tape → Tape
after_403 now reply t =
    let done = send_time now t + reply.took in
    record t { last_search = done; cooldown_until = done + search_cooldown }

abbrev pub after_reply : ℕ → SearchReply → Tape → Tape
after_reply now reply t = record t { last_search = send_time now t + reply.took }

search-refused :
    (now : ℕ) (reply : SearchReply) (t : Tape)
    → ltb now t.cooldown_until ≡ false
    → is_forbidden reply.status ≡ true
    → search now reply t ≡ (after_403 now reply t, (some (send_time now t), []))
unfolding search
search-refused now reply t h k = rw (search, h, k) refl

pub search-answered :
    (now : ℕ) (reply : SearchReply) (t : Tape)
    → ltb now t.cooldown_until ≡ false
    → is_forbidden reply.status ≡ false
    → search now reply t ≡ (after_reply now reply t, (some (send_time now t), reply.stocks))
unfolding search
search-answered now reply t h k = rw (search, h, k) refl

send_time-late :
    (now : ℕ) (t : Tape)
    → ltb now t.cooldown_until ≡ false
    → (t.last_search + search_min_gap ≤ send_time now t) × (t.cooldown_until ≤ send_time now t)
unfolding send_time
send_time-late now t h = (ground arith, ground (arith, h))

searches-StartsAt :
    (calls : List (ℕ × SearchReply)) (t : Tape)
    → StartsAt (t.last_search + search_min_gap) (searches calls t)
      × StartsAt t.cooldown_until (searches calls t)
unfolding searches add_sent
searches-StartsAt [] t = (tt, tt)
searches-StartsAt ((now, reply) ∷ calls) t = elim (Bool-cases (ltb now t.cooldown_until)) [
  | inl e ↦ rw (searches, search-parked now reply t e) (searches-StartsAt calls t)
  | inr e ↦ elim (Bool-cases (is_forbidden reply.status)) [
    | inl f ↦ rw (searches, search-refused now reply t e f) (send_time-late now t e)
    | inr f ↦ rw (searches, search-answered now reply t e f) (send_time-late now t e)
  ]
]

IsPaced-cons :
    (s : Sent) (sent : List Sent)
    → StartsAt (s.done + pause_after s) sent
    → IsPaced sent
    → IsPaced (s ∷ sent)
IsPaced-cons s [] h p = tt
IsPaced-cons s (r ∷ sent) h p = (h, p)

-- However often it is called, a search goes out no sooner than 0.6 seconds after the one before was
-- answered, and not within two minutes of an answer 403.
pub searches-IsPaced : (calls : List (ℕ × SearchReply)) (t : Tape) → IsPaced (searches calls t)
unfolding searches add_sent
searches-IsPaced [] t = tt
searches-IsPaced ((now, reply) ∷ calls) t =
    let at = send_time now t in
    elim (Bool-cases (ltb now t.cooldown_until)) [
      | inl e ↦ rw (searches, search-parked now reply t e) (searches-IsPaced calls t)
      | inr e ↦ elim (Bool-cases (is_forbidden reply.status)) [
        | inl f ↦
            let t' = after_403 now reply t in
            let s : Sent = record {
              at = at;
              done = at + reply.took;
              refused = is_forbidden reply.status;
            } in
            rw (searches, search-refused now reply t e f)
              (IsPaced-cons s (searches calls t') (rw f (searches-StartsAt calls t').1)
                (searches-IsPaced calls t'))
        | inr f ↦
            let t' = after_reply now reply t in
            let s : Sent = record {
              at = at;
              done = at + reply.took;
              refused = is_forbidden reply.status;
            } in
            rw (searches, search-answered now reply t e f)
              (IsPaced-cons s (searches calls t') (rw f (searches-StartsAt calls t').0)
                (searches-IsPaced calls t'))
      ]
    ]
