-- ===== src/Tickertape/Chunks.antt =====
-- The requests and the result of `fetch_quotes` (src/engine/tickertape.py).
use bharat_ticker.Common.{
  ℕ, zero, suc, ◌-◌, ◌≤◌, ◌==◌, ◌≡◌, ◌≢◌, ◌⊎◌, refl, sym, ap, ◌∙◌, false, Option, none, some, List,
  [], ◌∷◌, ◌++◌, length, All, Any, arith, Option-cases, inl, inr,
}
use mathlib.Core.Path.{subst}
use bharat_ticker.Common.Text.{Text, text_eq_refl}
use bharat_ticker.Common.Dict.{Dict, lookup, insert, lookup-inserted}
use bharat_ticker.Tickertape.Search.{Resolved, Tape}
use bharat_ticker.Tickertape.Resolve.{TapeFeed}
use bharat_ticker.Tickertape.Points.{sid_of}
use bharat_ticker.Tickertape.Batch.{
  batch_sids, resolve_all, add_sid, symbols_by_sid, keys, slice_to, slice_from, chunks_from, chunks,
  symbol_of, add_row, add_rows, collect_rows, quotes_of, fetch_quotes,
}

slice_append : (n : ℕ) (xs : List Text) → slice_to n xs ++ slice_from n xs ≡ xs
unfolding slice_to slice_from
slice_append n [] = refl
slice_append n (x ∷ xs) = ground (arith, slice_append (n - 1) xs)

length-slice_to : (n : ℕ) (xs : List Text) → length (slice_to n xs) ≤ n
unfolding slice_to
length-slice_to n [] = omega arith
length-slice_to n (x ∷ xs) = ground (arith, length-slice_to (n - 1) xs)

length-slice_from : (n : ℕ) (xs : List Text) → length (slice_from n xs) ≤ length xs
unfolding slice_from
length-slice_from n [] = omega arith
length-slice_from n (x ∷ xs) = ground (arith, length-slice_from (n - 1) xs)

slice_from-shorter :
    (n fuel : ℕ) (x : Text) (xs : List Text)
    → n ≢ 0
    → length (x ∷ xs) ≤ suc fuel
    → length (slice_from n (x ∷ xs)) ≤ fuel
unfolding slice_from
slice_from-shorter n fuel x xs ne h =
    let k : (n == 0) ≡ false = ground (arith, ne) in
    rw k (omega (arith, length-slice_from (n - 1) xs, h))

abbrev pub concat : List (List Text) → List Text
concat [] = []
concat (xs ∷ xss) = xs ++ concat xss

concat-chunks_from :
    (fuel n : ℕ) (xs : List Text) → n ≢ 0 → length xs ≤ fuel → concat (chunks_from fuel n xs) ≡ xs
unfolding chunks_from
concat-chunks_from fuel n [] ne h = refl
concat-chunks_from zero n (x ∷ xs) ne h = absurd (omega (arith, h))
concat-chunks_from (suc fuel) n (x ∷ xs) ne h =
    rw (concat-chunks_from fuel n (slice_from n (x ∷ xs)) ne (slice_from-shorter n fuel x xs ne h))
      (slice_append n (x ∷ xs))

chunks_from-short :
    (fuel n : ℕ) (xs : List Text) → All (λ chunk. length chunk ≤ n) (chunks_from fuel n xs)
unfolding chunks_from
chunks_from-short fuel n [] = tt
chunks_from-short zero n (x ∷ xs) = tt
chunks_from-short (suc fuel) n (x ∷ xs) =
    (length-slice_to n (x ∷ xs), chunks_from-short fuel n (slice_from n (x ∷ xs)))

-- The chunks are of fifty ids at most, and one after the other they are all the ids, in order.
pub chunks-partition :
    (sids : List Text)
    → (concat (chunks sids) ≡ sids) × All (λ chunk. length chunk ≤ 50) (chunks sids)
unfolding chunks
chunks-partition sids = (
  concat-chunks_from (length sids) batch_sids sids (omega arith) (omega arith),
  chunks_from-short (length sids) batch_sids sids,
)

-- The key of a result: a symbol that was found with this id.
abbrev pub IsFoundAs : Text → Text → Text × Option Resolved → Type 0
IsFoundAs sid symbol x = (x.0 ≡ symbol) × (sid_of x.1 ≡ some sid)

add_sid-Found :
    (o : Option Text) (symbol s sid : Text) (m : Dict Text)
    → lookup sid (add_sid o symbol m) ≡ some s
    → ((symbol ≡ s) × (o ≡ some sid)) ⊎ (lookup sid m ≡ some s)
unfolding add_sid
add_sid-Found none symbol s sid m h = inr h
add_sid-Found (some []) symbol s sid m h = inr h
add_sid-Found (some (c ∷ cs)) symbol s sid m h = elim (lookup-inserted sid (c ∷ cs) symbol s m h) [
  | inl e ↦ inl (e.1, ap some (sym e.0))
  | inr e ↦ inr e
]

symbols_by_sid-Found :
    (found : List (Text × Option Resolved)) (s sid : Text) (m : Dict Text)
    → lookup sid (symbols_by_sid found m) ≡ some s
    → Any (IsFoundAs sid s) found ⊎ (lookup sid m ≡ some s)
unfolding symbols_by_sid
symbols_by_sid-Found [] s sid m h = inr h
symbols_by_sid-Found ((symbol, rec) ∷ found) s sid m h =
    elim (symbols_by_sid-Found found s sid (add_sid (sid_of rec) symbol m) h) [
      | inl e ↦ inl (inr e)
      | inr e ↦ elim (add_sid-Found (sid_of rec) symbol s sid m e) [
        | inl k ↦ inl (inl k)
        | inr k ↦ inr k
      ]
    ]

module _ {R : Type 0} (row_sid : R → Option Text) where
  -- Every row of a result stands under the symbol of its id.
  abbrev pub IsUnder : Dict Text → Dict R → Type 0
  IsUnder m out =
      (s : Text) (row : R) → lookup s out ≡ some row → symbol_of m (row_sid row) ≡ some s

  add_row-IsUnder :
      (m : Dict Text) (o : Option Text) (row : R) (out : Dict R)
      → symbol_of m (row_sid row) ≡ o
      → IsUnder m out
      → IsUnder m (add_row o row out)
  unfolding add_row
  add_row-IsUnder m none row out e u s r h = u s r h
  add_row-IsUnder m (some []) row out e u s r h = u s r h
  add_row-IsUnder m (some (c ∷ cs)) row out e u s r h =
      elim (lookup-inserted s (c ∷ cs) row r out h) [
        | inl k ↦ ap (λ x. symbol_of m (row_sid x)) (sym k.1) ∙ e ∙ ap some (sym k.0)
        | inr k ↦ u s r k
      ]

  add_rows-IsUnder :
      (m : Dict Text) (rows : List R) (out : Dict R)
      → IsUnder m out
      → IsUnder m (add_rows row_sid m rows out)
  unfolding add_rows
  add_rows-IsUnder m [] out u = u
  add_rows-IsUnder m (row ∷ rows) out u =
      let o = symbol_of m (row_sid row) in
      add_rows-IsUnder m rows (add_row o row out) (add_row-IsUnder m o row out refl u)

  collect_rows-IsUnder :
      (batch : List Text → List R) (m : Dict Text) (parts : List (List Text)) (out : Dict R)
      → IsUnder m out
      → IsUnder m (collect_rows row_sid batch m parts out)
  unfolding collect_rows
  collect_rows-IsUnder batch m [] out u = u
  collect_rows-IsUnder batch m (part ∷ parts) out u =
      collect_rows-IsUnder batch m parts (add_rows row_sid m (batch part) out)
        (add_rows-IsUnder m (batch part) out u)

  quotes_of-IsUnder :
      (batch : List Text → List R) (found : List (Text × Option Resolved))
      → IsUnder (symbols_by_sid found []) (quotes_of row_sid batch found)
  unfolding quotes_of lookup
  quotes_of-IsUnder batch found =
      let m = symbols_by_sid found [] in
      collect_rows-IsUnder batch m (chunks (keys m)) [] (λ s row h. absurd (ground (arith, h)))

lookup-nothing : {V : Type 0} (k : Text) (v : V) → ¬ (lookup k [] ≡ some v)
unfolding lookup
lookup-nothing k v h = ground (arith, h)

symbol_of-sid :
    (m : Dict Text) (o : Option Text) (s : Text)
    → symbol_of m o ≡ some s
    → (sid : Text) × (o ≡ some sid) × (lookup sid m ≡ some s)
symbol_of-sid m none s h = absurd (ground (arith, h))
symbol_of-sid m (some sid) s h = (sid, refl, h)

Any-by_row :
    (o : Option Text) (s sid : Text) (found : List (Text × Option Resolved))
    → o ≡ some sid
    → Any (IsFoundAs sid s) found
    → Any (λ x. (x.0 ≡ s) × (sid_of x.1 ≡ o)) found
Any-by_row o s sid [] e a = absurd a
Any-by_row o s sid (x ∷ found) e (inl a) = inl (a.0, a.1 ∙ sym e)
Any-by_row o s sid (x ∷ found) e (inr a) = inr (Any-by_row o s sid found e a)

-- A row of the result stands under a requested symbol that was resolved to the id in the row,
-- whatever the replies to the chunks hold.
pub fetch_quotes-IsFound :
    {R : Type 0} (row_sid : R → Option Text) (batch : List Text → List R)
    (symbols : List (Text × Option TapeFeed)) (t : Tape) (s : Text) (row : R)
    → lookup s (fetch_quotes row_sid batch symbols t).1 ≡ some row
    → Any (λ x. (x.0 ≡ s) × (sid_of x.1 ≡ row_sid row)) (resolve_all symbols t).1
unfolding fetch_quotes
fetch_quotes-IsFound row_sid batch symbols t s row h =
    let found = (resolve_all symbols t).1 in
    let m = symbols_by_sid found [] in
    let (sid, e, k) =
      symbol_of-sid m (row_sid row) s (quotes_of-IsUnder row_sid batch found s row h) in
    elim (symbols_by_sid-Found found s sid [] k) [
      | inl a ↦ Any-by_row (row_sid row) s sid found e a
      | inr n ↦ absurd (lookup-nothing sid s n)
    ]

one_sid :
    (o : Option Text) (a b s : Text) → lookup s (add_sid o b (add_sid o a [])) ≡ some a → a ≡ b
unfolding add_sid lookup insert
one_sid none a b s h = absurd (ground (arith, h))
one_sid (some []) a b s h = absurd (ground (arith, h))
one_sid (some (c ∷ sid)) a b s h = ground (arith, h, text_eq_refl (c ∷ sid))

one_symbol :
    (a b : Text) (r r' : Resolved) (s : Text)
    → r.sid ≡ r'.sid
    → lookup s (symbols_by_sid ((a, some r) ∷ (b, some r') ∷ []) []) ≡ some a
    → a ≡ b
unfolding symbols_by_sid
one_symbol a b r r' s e h =
    one_sid r'.sid a b s (subst (λ o. lookup s (add_sid r'.sid b (add_sid o a [])) ≡ some a) e h)

-- When two requested symbols resolve to one id, the result has no quote for the first of them, whatever
-- the replies hold.
pub fetch_quotes-lost :
    {R : Type 0} (row_sid : R → Option Text) (batch : List Text → List R)
    (symbols : List (Text × Option TapeFeed)) (t : Tape) (a b : Text) (r r' : Resolved) (sid : Text)
    → (resolve_all symbols t).1 ≡ (a, some r) ∷ (b, some r') ∷ []
    → r.sid ≡ some sid
    → r'.sid ≡ some sid
    → a ≢ b
    → lookup a (fetch_quotes row_sid batch symbols t).1 ≡ none
unfolding fetch_quotes
fetch_quotes-lost row_sid batch symbols t a b r r' sid found e e' ne =
    let m = symbols_by_sid ((a, some r) ∷ (b, some r') ∷ []) [] in
    let under = quotes_of-IsUnder row_sid batch ((a, some r) ∷ (b, some r') ∷ []) in
    rw (fetch_quotes, found)
      (elim (Option-cases (lookup a (quotes_of row_sid batch ((a, some r) ∷ (b, some r') ∷ [])))) [
        | inl n ↦ n
        | inr (row, k) ↦
            let (s, u, l) = symbol_of-sid m (row_sid row) a (under a row k) in
            absurd (ne (one_symbol a b r r' s (e ∙ sym e') l))
      ])
