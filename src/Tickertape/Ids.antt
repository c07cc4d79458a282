-- ===== src/Tickertape/Ids.antt =====
-- What a symbol resolves to (src/engine/tickertape.py).
use bharat_ticker.Common.{ℕ, ltb, ◌≡◌, refl, false, Option, none, some, List, [], ◌∷◌, arith, ◌⊎◌}
use bharat_ticker.Common.Text.{Text, upper}
use bharat_ticker.Common.Dict.{lookup}
use bharat_ticker.Common.Symbols.{strip}
use bharat_ticker.Tickertape.Search.{Stock, Resolved, Tape, is_forbidden}
use bharat_ticker.Tickertape.Pacing.{after_reply, search-answered}
use bharat_ticker.Tickertape.Resolve.{
  sid_seed, ensure_sid_map, exact_match, best_match, TapeFeed, keep_sid, keep_best, as_resolved,
  resolve_by_search, resolve_upper, resolve,
}

-- There is no answer, or one without an id, or the cache holds it.
abbrev pub IsKept : Text → Tape → Option Resolved → Type 0
IsKept symbol t none = Unit
IsKept symbol t (some rec) =
    (rec.sid ≡ none) ⊎ ((rec.sid ≡ some []) ⊎ (lookup symbol t.sid_cache ≡ some rec))

upper-searched :
    (w : TapeFeed) (symbol : Text) (t : Tape)
    → lookup symbol t.sid_cache ≡ none
    → lookup symbol sid_seed ≡ none
    → lookup symbol (ensure_sid_map w.now w.list_rows t).all_sids ≡ none
    → resolve_upper w symbol t ≡ resolve_by_search w symbol (ensure_sid_map w.now w.list_rows t)
unfolding resolve_upper
upper-searched w symbol t h k l = rw (resolve_upper, h, k, l) refl

-- Without the ticker itself, the best match is the first of the stocks.
best_match-first :
    (symbol : Text) (st : Stock) (stocks : List Stock)
    → exact_match symbol (st ∷ stocks) ≡ none
    → best_match symbol (st ∷ stocks) ≡ some st
unfolding best_match
best_match-first symbol st stocks h = rw (best_match, h) refl

keep_sid-some :
    (symbol : Text) (rec : Resolved) (sid : Option Text) (t : Tape)
    → (keep_sid symbol rec sid t).1 ≡ some rec
unfolding keep_sid
keep_sid-some symbol rec none t = refl
keep_sid-some symbol rec (some []) t = refl
keep_sid-some symbol rec (some (c ∷ sid)) t = refl

keep_best-some :
    (symbol : Text) (st : Stock) (t : Tape)
    → (keep_best symbol (some st) t).1 ≡ some (as_resolved st)
unfolding keep_best keep_sid
keep_best-some symbol st t = keep_sid-some symbol (as_resolved st) st.sid t

-- Loading the list leaves the cooldown alone.
ensure_sid_map-cooldown :
    (now : ℕ) (rows : List (Text × Option Text)) (t : Tape)
    → (ensure_sid_map now rows t).cooldown_until ≡ t.cooldown_until
unfolding ensure_sid_map
ensure_sid_map-cooldown now rows t = ground (arith, ensure_sid_map)

-- A symbol that neither the cache, nor the seed, nor the list knows, and whose search finds only other
-- tickers, resolves to the first of these all the same, if a search may be sent and is not refused.
pub resolve-unmatched :
    (w : TapeFeed) (symbol : Text) (t : Tape) (st : Stock) (stocks : List Stock)
    → lookup (upper (strip symbol)) t.sid_cache ≡ none
    → lookup (upper (strip symbol)) sid_seed ≡ none
    → lookup (upper (strip symbol)) (ensure_sid_map w.now w.list_rows t).all_sids ≡ none
    → ltb w.now t.cooldown_until ≡ false
    → is_forbidden w.search_reply.status ≡ false
    → w.search_reply.stocks ≡ st ∷ stocks
    → exact_match (upper (strip symbol)) (st ∷ stocks) ≡ none
    → (resolve w symbol t).1 ≡ some (as_resolved st)
unfolding resolve resolve_by_search
resolve-unmatched w symbol t st stocks h k l no_cooldown answered found none_exact =
    let s = upper (strip symbol) in
    let t' = ensure_sid_map w.now w.list_rows t in
    rw
      (
        resolve,
        upper-searched w s t h k l,
        resolve_by_search,
        search-answered w.now w.search_reply t'
            (rw (ensure_sid_map-cooldown w.now w.list_rows t) no_cooldown) answered,
        found,
        best_match-first s st stocks none_exact,
      )
      (keep_best-some s st (after_reply w.now w.search_reply t'))
