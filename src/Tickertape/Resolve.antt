-- ===== src/Tickertape/Resolve.antt =====
-- `_ensure_sid_map` and `resolve` of src/engine/tickertape.py.
use bharat_ticker.Common.{
  ℕ, ◌+◌, ltb, Bool, false, Option, none, some, List, [], ◌∷◌, if◌then◌else◌,
}
use bharat_ticker.Common.Text.{Text, codes, text_eq, upper}
use bharat_ticker.Common.Dict.{Dict, lookup, insert}
use bharat_ticker.Common.Symbols.{strip}
use bharat_ticker.Tickertape.Search.{Stock, Resolved, Tape, SearchReply, search}

-- `_SID_SEED`
abbrev pub sid_seed : Dict Text
sid_seed = (codes "RELIANCE", codes "RELI") ∷ []

abbrev pub sidmap_ttl : ℕ
sidmap_ttl = 864000

-- The rows of `/stocks/list`, none if the request failed: a ticker and its id.
unfoldable pub sid_map : List (Text × Option Text) → Dict Text → Dict Text
sid_map [] m = m
sid_map (([], sid) ∷ rows) m = sid_map rows m
sid_map ((c ∷ ticker, none) ∷ rows) m = sid_map rows m
sid_map ((c ∷ ticker, some []) ∷ rows) m = sid_map rows m
sid_map ((c ∷ ticker, some (d ∷ sid)) ∷ rows) m =
    sid_map rows (insert (upper (c ∷ ticker)) (d ∷ sid) m)

abbrev pub is_map_fresh : ℕ → Tape → Bool
is_map_fresh now t = elim t.all_sids [ [] ↦ false | x ∷ m ↦ ltb now (t.all_sids_at + sidmap_ttl) ]

-- `_ensure_sid_map`: an empty list leaves the map that there is.
unfoldable pub ensure_sid_map : ℕ → List (Text × Option Text) → Tape → Tape
unfolding sid_map
ensure_sid_map now rows t = if is_map_fresh now t then t else (elim (sid_map rows []) [
  | [] ↦ t
  | x ∷ m ↦ record t { all_sids = x ∷ m; all_sids_at = now }
])

-- The stock with this ticker, or the first one.
unfoldable pub exact_match : Text → List Stock → Option Stock
exact_match symbol [] = none
exact_match symbol (st ∷ stocks) =
    let rest = exact_match symbol stocks in
    if text_eq (upper st.ticker) symbol then some st else rest

unfoldable pub best_match : Text → List Stock → Option Stock
unfolding exact_match
best_match symbol stocks = elim (exact_match symbol stocks) [
  | some st ↦ some st
  | none ↦ elim stocks [ [] ↦ none | st ∷ rest ↦ some st ]
]

-- The feed of one resolution: the clock, the list, and the reply of a search, if one is sent.
pub record TapeFeed : Type 0 where
  pub now : ℕ
  pub list_rows : List (Text × Option Text)
  pub search_reply : SearchReply

abbrev pub bare : Text → Resolved
bare sid = record { sid = some sid; sector = none; name = none }

abbrev pub keep : Text → Resolved → Tape → Tape
keep symbol rec t = record t { sid_cache = insert symbol rec t.sid_cache }

-- The end of `resolve`: a record without an id is not kept.
unfoldable pub keep_sid : Text → Resolved → Option Text → Tape → Tape × Option Resolved
keep_sid symbol rec none t = (t, some rec)
keep_sid symbol rec (some []) t = (t, some rec)
keep_sid symbol rec (some (c ∷ sid)) t = (keep symbol rec t, some rec)

abbrev pub as_resolved : Stock → Resolved
as_resolved st = record { sid = st.sid; sector = st.sector; name = st.name }

unfoldable pub keep_best : Text → Option Stock → Tape → Tape × Option Resolved
unfolding keep_sid
keep_best symbol none t = (t, none)
keep_best symbol (some st) t = keep_sid symbol (as_resolved st) st.sid t

-- `resolve` from the search on.
unfoldable pub resolve_by_search : TapeFeed → Text → Tape → Tape × Option Resolved
unfolding search best_match keep_best
resolve_by_search w symbol t =
    let (t', (sent, stocks)) = search w.now w.search_reply t in
    keep_best symbol (best_match symbol stocks) t'

-- `resolve` of a symbol that has been stripped and raised.
unfoldable pub resolve_upper : TapeFeed → Text → Tape → Tape × Option Resolved
unfolding ensure_sid_map resolve_by_search
resolve_upper w symbol t = elim (lookup symbol t.sid_cache) as (λ x. Tape × Option Resolved) [
  | some rec ↦ (t, some rec)
  | none ↦ elim (lookup symbol sid_seed) as (λ x. Tape × Option Resolved) [
    | some sid ↦ (keep symbol (bare sid) t, some (bare sid))
    | none ↦
        let t' = ensure_sid_map w.now w.list_rows t in
        elim (lookup symbol t'.all_sids) as (λ x. Tape × Option Resolved) [
          | some sid ↦ (keep symbol (bare sid) t', some (bare sid))
          | none ↦ resolve_by_search w symbol t'
        ]
  ]
]

-- `resolve`
unfoldable pub resolve : TapeFeed → Text → Tape → Tape × Option Resolved
unfolding resolve_upper
resolve w symbol t = resolve_upper w (upper (strip symbol)) t
