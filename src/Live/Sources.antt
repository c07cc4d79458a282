-- ===== src/Live/Sources.antt =====
-- The single-source rule of src/engine/live_candles.py: the samples of a symbol change their source
-- only after the owner has been silent.
use bharat_ticker.Common.{
  ℕ, ◌+◌, ◌<◌, ltb, leb, ◌≡◌, refl, true, false, not, ◌&&◌, Option, none, some, List, [], ◌∷◌, ◌++◌,
  length, arith, Bool-cases, inl, inr, ◌⊎◌, ap, ◌∙◌,
}
use mathlib.Core.Path.{subst, sym}
use bharat_ticker.Common.Text.{Text, text_eq, text_eq→eq}
use bharat_ticker.Common.Dict.{lookup, insert, get_or, lookup-insert_self, get_or-insert_self}
use bharat_ticker.Store.{deque_append, rest_of}
use bharat_ticker.Live.Defs.{
  Config, Sample, LiveCandleEngine, is_secondary, append_sample, record_checked, last_sample,
}

-- One sourced sample after another: from the same source, or after more than the time that an owner
-- stays fresh.
abbrev pub MayFollow : Config → Sample → Sample → Type 0
MayFollow conf x y = (y.source ≡ x.source) ⊎ (x.ts + conf.primary_source_ttl < y.ts)

abbrev pub IsChain : Config → List Sample → Type 0
IsChain conf [] = Unit
IsChain conf (x ∷ []) = Unit
IsChain conf (x ∷ y ∷ samples) = MayFollow conf x y × IsChain conf (y ∷ samples)

-- The owner of the key is the source of its last sample, and as fresh as it.
abbrev pub IsOwner : Text → LiveCandleEngine → Option Sample → Type 0
IsOwner key e none = Unit
IsOwner key e (some x) =
    (owner : Text) × (x.source ≡ some owner)
    × (lookup key e.primary_src ≡ some owner)
    × (get_or key 0 e.primary_ts ≡ x.ts)

abbrev pub IsSingleSourced : Config → Text → LiveCandleEngine → Type 0
IsSingleSourced conf key e =
    IsChain conf (get_or key [] e.samples) × IsOwner key e (last_sample (get_or key [] e.samples))

deque_append-cases :
    (n : ℕ) (x : Sample) (xs : List Sample)
    → (deque_append n x xs ≡ xs ++ (x ∷ [])) ⊎ (deque_append n x xs ≡ rest_of (xs ++ (x ∷ [])))
unfolding deque_append
deque_append-cases n x xs = elim (Bool-cases (ltb (length xs) n)) [
  | inl e ↦ inl (rw e refl)
  | inr e ↦ inr (rw e refl)
]

IsChain-append :
    (conf : Config) (xs : List Sample) (x : Sample)
    → IsChain conf xs
    → ((y : Sample) → last_sample xs ≡ some y → MayFollow conf y x)
    → IsChain conf (xs ++ (x ∷ []))
IsChain-append conf [] x c m = tt
IsChain-append conf (y ∷ []) x c m = (m y refl, tt)
IsChain-append conf (y ∷ z ∷ xs) x c m = (c.0, IsChain-append conf (z ∷ xs) x c.1 m)

IsChain-tail : (conf : Config) (xs : List Sample) → IsChain conf xs → IsChain conf (rest_of xs)
IsChain-tail conf [] c = tt
IsChain-tail conf (x ∷ []) c = tt
IsChain-tail conf (x ∷ y ∷ xs) c = c.1

last_sample-append : (xs : List Sample) (x : Sample) → last_sample (xs ++ (x ∷ [])) ≡ some x
last_sample-append [] x = refl
last_sample-append (y ∷ []) x = refl
last_sample-append (y ∷ z ∷ xs) x = last_sample-append (z ∷ xs) x

last_sample-tail :
    (xs : List Sample) (x : Sample)
    → (last_sample (rest_of (xs ++ (x ∷ []))) ≡ none)
      ⊎ (last_sample (rest_of (xs ++ (x ∷ []))) ≡ some x)
last_sample-tail [] x = inl refl
last_sample-tail (y ∷ xs) x = inr (last_sample-append xs x)

-- What holds of a list with the sample at its end, with or without its first one, and of none at its
-- end, holds of the deque after the append.
deque_append-last :
    (P : Option Sample → Type 0) (n : ℕ) (x : Sample) (xs : List Sample)
    → P none
    → P (some x)
    → P (last_sample (deque_append n x xs))
deque_append-last P n x xs p q = elim (deque_append-cases n x xs) [
  | inl e ↦ subst P (sym (ap last_sample e ∙ last_sample-append xs x)) q
  | inr e ↦ elim (last_sample-tail xs x) [
    | inl h ↦ subst P (sym (ap last_sample e ∙ h)) p
    | inr h ↦ subst P (sym (ap last_sample e ∙ h)) q
  ]
]

deque_append-IsChain :
    (conf : Config) (n : ℕ) (x : Sample) (xs : List Sample)
    → IsChain conf (xs ++ (x ∷ []))
    → IsChain conf (deque_append n x xs)
deque_append-IsChain conf n x xs c = elim (deque_append-cases n x xs) [
  | inl e ↦ subst (IsChain conf) (sym e) c
  | inr e ↦ subst (IsChain conf) (sym e) (IsChain-tail conf (xs ++ (x ∷ [])) c)
]

-- A sample that is let in may follow the last one.
follows :
    (conf : Config) (key source : Text) (price cum now : ℕ) (e : LiveCandleEngine) (y : Sample)
    → IsOwner key e (some y)
    → is_secondary conf key now source e ≡ false
    → MayFollow conf y (record { ts = now; price = price; cum = cum; source = some source })
unfolding is_secondary
follows conf key source price cum now e y (owner, same, owned, ts) h =
    elim (Bool-cases (text_eq owner source)) [
      | inl t ↦ inl (ap some (sym (text_eq→eq owner source t)) ∙ sym same)
      | inr t ↦ inr (
          let h' : (not (text_eq owner source)
                && leb now (get_or key 0 e.primary_ts + conf.primary_source_ttl))
              ≡ false =
            rw (is_secondary, owned) at h in
          ground (arith, t, h', ts))
    ]

record_checked-first :
    (conf : Config) (key source : Text) (price cum now : ℕ) (e : LiveCandleEngine)
    → is_secondary conf key now source e ≡ true
    → record_checked conf key price cum now (some source) e ≡ e
unfolding record_checked is_secondary
record_checked-first conf key source price cum now e h = ground arith

record_checked-taken :
    (conf : Config) (key source : Text) (price cum now : ℕ) (e : LiveCandleEngine)
    → is_secondary conf key now source e ≡ false
    → record_checked conf key price cum now (some source) e
      ≡ append_sample conf key
          (record { ts = now; price = price; cum = cum; source = some source })
          (record e {
            primary_src = insert key source e.primary_src;
            primary_ts = insert key now e.primary_ts;
          })
unfolding record_checked is_secondary
record_checked-taken conf key source price cum now e h = ground arith

appended :
    (conf : Config) (key : Text) (s : Sample) (e : LiveCandleEngine)
    → get_or key [] (append_sample conf key s e).samples
      ≡ deque_append conf.sample_maxlen s (get_or key [] e.samples)
unfolding append_sample
appended conf key s e =
    get_or-insert_self key (deque_append conf.sample_maxlen s (get_or key [] e.samples)) []
      e.samples

new-IsOwner :
    (conf : Config) (key source : Text) (s : Sample) (e : LiveCandleEngine)
    → s.source ≡ some source
    → IsOwner key
        (append_sample conf key s (record e {
          primary_src = insert key source e.primary_src;
          primary_ts = insert key s.ts e.primary_ts;
        }))
        (some s)
unfolding append_sample
new-IsOwner conf key source s e h = (
  source,
  h,
  lookup-insert_self key source e.primary_src,
  get_or-insert_self key s.ts 0 e.primary_ts,
)

-- `record` with a source keeps the rule, at any time and from any source: two samples of a symbol
-- that stand next to each other have one source, or the second came after more than
-- `PRIMARY_SOURCE_TTL_S` of silence.
pub record_checked-IsSingleSourced :
    (conf : Config) (key source : Text) (price cum now : ℕ) (e : LiveCandleEngine)
    → IsSingleSourced conf key e
    → IsSingleSourced conf key (record_checked conf key price cum now (some source) e)
record_checked-IsSingleSourced conf key source price cum now e (chain, owned) =
    elim (Bool-cases (is_secondary conf key now source e)) [
      | inl h ↦ rw (record_checked-first conf key source price cum now e h) (chain, owned)
      | inr h ↦
          let s : Sample = record { ts = now; price = price; cum = cum; source = some source } in
          let e' : LiveCandleEngine = record e {
            primary_src = insert key source e.primary_src;
            primary_ts = insert key now e.primary_ts;
          } in
          let xs = get_or key [] e.samples in
          let may : (y : Sample) → last_sample xs ≡ some y → MayFollow conf y s =
            λ y m. follows conf key source price cum now e y (subst (IsOwner key e) m owned) h in
          rw (record_checked-taken conf key source price cum now e h, appended conf key s e')
            (
              deque_append-IsChain conf conf.sample_maxlen s xs
                  (IsChain-append conf xs s chain may),
              deque_append-last (IsOwner key (append_sample conf key s e')) conf.sample_maxlen s xs
                  tt (new-IsOwner conf key source s e refl),
            )
    ]
