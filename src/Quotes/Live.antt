-- ===== src/Quotes/Live.antt =====
-- At most one fetch is under way for a symbol (`_live_quote`, src/api/endpoints/superbrain.py).
use bharat_ticker.Common.{
  ℕ, suc, ◌≤◌, ◌==◌, ◌≡◌, refl, sym, ◌∙◌, false, Option, none, some, List, [], ◌∷◌, All, arith,
  if◌then◌else◌, Bool-cases, Option-cases, inl, inr,
}
use bharat_ticker.Common.Text.{Text, text_eq, text_eq→eq}
use bharat_ticker.Common.Dict.{
  Dict, lookup, insert, erase, lookup-insert_self, lookup-insert_ne, lookup-erase_ne,
}
use bharat_ticker.Quotes.Flight.{
  Fetch, Flight, Answer, mark_done, without, IsIn, no_flight, fresh_hit, join_flight, land,
  callback, Reachable,
}

-- The fetches are those that are in flight: each under its own key and number.
abbrev IsOwned : Dict ℕ → List Fetch → Type 0
IsOwned inflight = All (λ f. lookup f.key inflight ≡ some f.id)

-- No two fetches have one key.
abbrev pub IsSingle : List Fetch → Type 0
IsSingle [] = Unit
IsSingle (f ∷ fs) = All (λ g. text_eq g.key f.key ≡ false) fs × IsSingle fs

abbrev IsValid : {T : Type 0} → Flight T → Type 0
IsValid s = IsOwned s.inflight s.fetches × IsSingle s.fetches

-- A new key: no fetch has it.
new_key :
    (key : Text) (inflight : Dict ℕ) (fs : List Fetch)
    → lookup key inflight ≡ none
    → IsOwned inflight fs
    → All (λ g. text_eq g.key key ≡ false) fs
new_key key inflight [] h o = tt
new_key key inflight (f ∷ fs) h o = (
  elim (Bool-cases (text_eq f.key key)) [
    | inl e ↦
        let same : f.key ≡ key = text_eq→eq f.key key e in absurd (grind (arith, same, h, o.0))
    | inr e ↦ e
  ],
  new_key key inflight fs h o.1,
)

insert-IsOwned :
    (key : Text) (id : ℕ) (inflight : Dict ℕ) (fs : List Fetch)
    → All (λ g. text_eq g.key key ≡ false) fs
    → IsOwned inflight fs
    → IsOwned (insert key id inflight) fs
insert-IsOwned key id inflight [] n o = tt
insert-IsOwned key id inflight (f ∷ fs) n o =
    (lookup-insert_ne f.key key id inflight n.0 ∙ o.0, insert-IsOwned key id inflight fs n.1 o.1)

mark_done-IsOwned :
    (id : ℕ) (inflight : Dict ℕ) (fs : List Fetch)
    → IsOwned inflight fs
    → IsOwned inflight (mark_done id fs)
mark_done-IsOwned id inflight [] o = tt
mark_done-IsOwned id inflight (f ∷ fs) o = elim (Bool-cases (f.id == id)) [
  | inl e ↦ rw e (o.0, mark_done-IsOwned id inflight fs o.1)
  | inr e ↦ rw e (o.0, mark_done-IsOwned id inflight fs o.1)
]

mark_done-All :
    (id : ℕ) (key : Text) (fs : List Fetch)
    → All (λ g. text_eq g.key key ≡ false) fs
    → All (λ g. text_eq g.key key ≡ false) (mark_done id fs)
mark_done-All id key [] o = tt
mark_done-All id key (f ∷ fs) o = elim (Bool-cases (f.id == id)) [
  | inl e ↦ rw e (o.0, mark_done-All id key fs o.1)
  | inr e ↦ rw e (o.0, mark_done-All id key fs o.1)
]

mark_done-IsSingle : (id : ℕ) (fs : List Fetch) → IsSingle fs → IsSingle (mark_done id fs)
mark_done-IsSingle id [] o = tt
mark_done-IsSingle id (f ∷ fs) o = elim (Bool-cases (f.id == id)) [
  | inl e ↦ rw e (mark_done-All id f.key fs o.0, mark_done-IsSingle id fs o.1)
  | inr e ↦ rw e (mark_done-All id f.key fs o.0, mark_done-IsSingle id fs o.1)
]

without-All : (P : Fetch → Type 0) (id : ℕ) (fs : List Fetch) → All P fs → All P (without id fs)
without-All P id [] o = tt
without-All P id (f ∷ fs) o = elim (Bool-cases (f.id == id)) [
  | inl e ↦ rw e (without-All P id fs o.1)
  | inr e ↦ rw e (o.0, without-All P id fs o.1)
]

without-IsSingle : (id : ℕ) (fs : List Fetch) → IsSingle fs → IsSingle (without id fs)
without-IsSingle id [] o = tt
without-IsSingle id (f ∷ fs) o = elim (Bool-cases (f.id == id)) [
  | inl e ↦ rw e (without-IsSingle id fs o.1)
  | inr e ↦
      rw e (without-All (λ g. text_eq g.key f.key ≡ false) id fs o.0, without-IsSingle id fs o.1)
]

-- Without the fetch of `key`, the fetches are owned without that key.
erase-IsOwned :
    (key : Text) (id : ℕ) (inflight : Dict ℕ) (fs : List Fetch)
    → lookup key inflight ≡ some id
    → IsOwned inflight fs
    → IsOwned (erase key inflight) (without id fs)
erase-IsOwned key id inflight [] h o = tt
erase-IsOwned key id inflight (f ∷ fs) h o = elim (Bool-cases (f.id == id)) [
  | inl e ↦ rw e (erase-IsOwned key id inflight fs h o.1)
  | inr e ↦
      let other : text_eq f.key key ≡ false = elim (Bool-cases (text_eq f.key key)) [
        | inl t ↦
            let same : f.key ≡ key = text_eq→eq f.key key t in
            absurd (grind (arith, same, h, o.0, e))
        | inr t ↦ t
      ] in
      rw e (lookup-erase_ne f.key key inflight other ∙ o.0, erase-IsOwned key id inflight fs h o.1)
]

owned-IsIn :
    (f : Fetch) (inflight : Dict ℕ) (fs : List Fetch)
    → IsIn f fs
    → IsOwned inflight fs
    → lookup f.key inflight ≡ some f.id
owned-IsIn f inflight [] i o = absurd i
owned-IsIn f inflight (g ∷ fs) (inl e) o = rw e o.0
owned-IsIn f inflight (g ∷ fs) (inr i) o = owned-IsIn f inflight fs i o.1

module _ {T : Type 0} where
  abbrev started : Text → Flight T → Flight T
  started key s = record s {
    inflight = insert key s.next s.inflight;
    next = suc s.next;
    fetches = record { id = s.next; key = key; is_done = false } ∷ s.fetches;
  }

  join_flight-hit :
      (ttl now : ℕ) (key : Text) (s : Flight T) (tick : T)
      → fresh_hit ttl now key s ≡ some tick
      → join_flight ttl now key s ≡ (s, Answer.hit tick)
  unfolding join_flight
  join_flight-hit ttl now key s tick h = rw (join_flight, h) refl

  join_flight-join :
      (ttl now : ℕ) (key : Text) (s : Flight T) (id : ℕ)
      → fresh_hit ttl now key s ≡ none
      → lookup key s.inflight ≡ some id
      → join_flight ttl now key s ≡ (s, Answer.wait id)
  unfolding join_flight
  join_flight-join ttl now key s id h k = rw (join_flight, h, k) refl

  join_flight-start :
      (ttl now : ℕ) (key : Text) (s : Flight T)
      → fresh_hit ttl now key s ≡ none
      → lookup key s.inflight ≡ none
      → join_flight ttl now key s ≡ (started key s, Answer.wait s.next)
  unfolding join_flight
  join_flight-start ttl now key s h k = rw (join_flight, h, k) refl

  join_flight-IsValid :
      (ttl now : ℕ) (key : Text) (s : Flight T) → IsValid s → IsValid (join_flight ttl now key s).0
  join_flight-IsValid ttl now key s (o, u) = elim (Option-cases (fresh_hit ttl now key s)) [
    | inr (tick, h) ↦ rw (join_flight-hit ttl now key s tick h) (o, u)
    | inl h ↦ elim (Option-cases (lookup key s.inflight)) [
      | inr (id, k) ↦ rw (join_flight-join ttl now key s id h k) (o, u)
      | inl k ↦
          let fresh = new_key key s.inflight s.fetches k o in
          rw (join_flight-start ttl now key s h k) (
            (
              lookup-insert_self key s.next s.inflight,
              insert-IsOwned key s.next s.inflight s.fetches fresh o,
            ),
            (fresh, u),
          )
    ]
  ]

  land-IsValid :
      (f : Fetch) (now : ℕ) (r : Option T) (s : Flight T) → IsValid s → IsValid (land f now r s)
  unfolding land
  land-IsValid f now none s (o, u) =
      (mark_done-IsOwned f.id s.inflight s.fetches o, mark_done-IsSingle f.id s.fetches u)
  land-IsValid f now (some t) s (o, u) =
      (mark_done-IsOwned f.id s.inflight s.fetches o, mark_done-IsSingle f.id s.fetches u)

  callback-IsValid :
      (f : Fetch) (s : Flight T) → IsIn f s.fetches → IsValid s → IsValid (callback f s)
  unfolding callback
  callback-IsValid f s i (o, u) = (
    erase-IsOwned f.key f.id s.inflight s.fetches (owned-IsIn f s.inflight s.fetches i o) o,
    without-IsSingle f.id s.fetches u,
  )

  Reachable-IsValid : (ttl : ℕ) (s : Flight T) → Reachable ttl s → IsValid s
  unfolding no_flight
  Reachable-IsValid ttl s (Reachable.start) = (tt, tt)
  Reachable-IsValid ttl s (Reachable.asked {s = t} now key r) =
      join_flight-IsValid ttl now key t (Reachable-IsValid ttl t r)
  Reachable-IsValid ttl s (Reachable.landed {s = t} f now result i d r) =
      land-IsValid f now result t (Reachable-IsValid ttl t r)
  Reachable-IsValid ttl s (Reachable.called_back {s = t} f i d r) =
      callback-IsValid f t i (Reachable-IsValid ttl t r)

abbrev pub fetches_of : Text → List Fetch → ℕ
fetches_of key [] = 0
fetches_of key (f ∷ fs) = if text_eq f.key key then suc (fetches_of key fs) else fetches_of key fs

fetches_of-zero :
    (key : Text) (fs : List Fetch) → All (λ g. text_eq g.key key ≡ false) fs → fetches_of key fs ≡ 0
fetches_of-zero key [] h = refl
fetches_of-zero key (f ∷ fs) h = rw h.0 (fetches_of-zero key fs h.1)

fetches_of-le : (key : Text) (fs : List Fetch) → IsSingle fs → fetches_of key fs ≤ 1
fetches_of-le key [] u = omega arith
fetches_of-le key (f ∷ fs) u = elim (Bool-cases (text_eq f.key key)) [
  | inl e ↦
      let same : All (λ g. text_eq g.key key ≡ false) fs = rw (sym (text_eq→eq f.key key e)) u.0 in
      rw e (omega (arith, fetches_of-zero key fs same))
  | inr e ↦ rw e (fetches_of-le key fs u.1)
]

-- However calls, landings and callbacks interleave, at most one fetch for a key has been started
-- whose callback has not run.
pub Reachable-single_flight :
    {T : Type 0} (ttl : ℕ) (s : Flight T) (key : Text)
    → Reachable ttl s
    → fetches_of key s.fetches ≤ 1
Reachable-single_flight ttl s key r = fetches_of-le key s.fetches (Reachable-IsValid ttl s r).1
