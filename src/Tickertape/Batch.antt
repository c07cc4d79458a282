-- ===== src/Tickertape/Batch.antt =====
-- `fetch_quotes` of src/engine/tickertape.py, whose tasks run one after the other here. The rows of a
-- reply are passed on as they are; `row_sid` is `row.get("sid")`.
use bharat_ticker.Common.{
  ℕ, zero, suc, ◌-◌, ◌==◌, Option, none, some, List, [], ◌∷◌, length, if◌then◌else◌,
}
use bharat_ticker.Common.Text.{Text, upper}
use bharat_ticker.Common.Dict.{Dict, lookup, insert}
use bharat_ticker.Tickertape.Search.{Resolved, Tape}
use bharat_ticker.Tickertape.Resolve.{TapeFeed, resolve}
use bharat_ticker.Tickertape.Points.{sid_of}

abbrev pub batch_sids : ℕ
batch_sids = 50

-- `_res`, with the feeds of the resolution; without them it raises.
unfoldable pub res : Text → Option TapeFeed → Tape → Tape × (Text × Option Resolved)
unfolding resolve
res s none t = (t, (upper s, none))
res s (some w) t = let (t', rec) = resolve w s t in (t', (upper s, rec))

unfoldable pub resolve_all :
    List (Text × Option TapeFeed) → Tape → Tape × List (Text × Option Resolved)
unfolding res
resolve_all [] t = (t, [])
resolve_all ((s, w) ∷ symbols) t =
    let (t', found) = res s w t in let (t'', rest) = resolve_all symbols t' in (t'', found ∷ rest)

unfoldable pub add_sid : Option Text → Text → Dict Text → Dict Text
add_sid none symbol m = m
add_sid (some []) symbol m = m
add_sid (some (c ∷ sid)) symbol m = insert (c ∷ sid) symbol m

-- `sid_map`: each id with the last of its symbols.
unfoldable pub symbols_by_sid : List (Text × Option Resolved) → Dict Text → Dict Text
unfolding add_sid
symbols_by_sid [] m = m
symbols_by_sid ((symbol, rec) ∷ found) m = symbols_by_sid found (add_sid (sid_of rec) symbol m)

abbrev pub keys : {V : Type 0} → Dict V → List Text
keys [] = []
keys ((k, v) ∷ d) = k ∷ keys d

-- The slices `sids[:n]` and `sids[n:]`.
unfoldable pub slice_to : ℕ → List Text → List Text
slice_to n [] = []
slice_to n (x ∷ xs) = if n == 0 then [] else x ∷ slice_to (n - 1) xs

unfoldable pub slice_from : ℕ → List Text → List Text
slice_from n [] = []
slice_from n (x ∷ xs) = if n == 0 then x ∷ xs else slice_from (n - 1) xs

-- `chunks`; a chunk takes one sid at least, so that as much fuel as there are sids is enough.
unfoldable pub chunks_from : ℕ → ℕ → List Text → List (List Text)
unfolding slice_to slice_from
chunks_from fuel n [] = []
chunks_from zero n (x ∷ xs) = []
chunks_from (suc fuel) n (x ∷ xs) = slice_to n (x ∷ xs) ∷ chunks_from fuel n (slice_from n (x ∷ xs))

unfoldable pub chunks : List Text → List (List Text)
unfolding chunks_from
chunks sids = chunks_from (length sids) batch_sids sids

abbrev pub symbol_of : Dict Text → Option Text → Option Text
symbol_of m none = none
symbol_of m (some sid) = lookup sid m

module _ {R : Type 0} where
  unfoldable pub add_row : Option Text → R → Dict R → Dict R
  add_row none row out = out
  add_row (some []) row out = out
  add_row (some (c ∷ symbol)) row out = insert (c ∷ symbol) row out

  unfoldable pub add_rows : (R → Option Text) → Dict Text → List R → Dict R → Dict R
  unfolding add_row
  add_rows row_sid m [] out = out
  add_rows row_sid m (row ∷ rows) out =
      add_rows row_sid m rows (add_row (symbol_of m (row_sid row)) row out)

  -- The rows of each chunk's reply, none if the request failed.
  unfoldable pub collect_rows :
      (R → Option Text) → (List Text → List R) → Dict Text → List (List Text) → Dict R → Dict R
  unfolding add_rows
  collect_rows row_sid batch m [] out = out
  collect_rows row_sid batch m (chunk ∷ rest) out =
      collect_rows row_sid batch m rest (add_rows row_sid m (batch chunk) out)

  -- `fetch_quotes` from the resolved symbols on; without ids there are no chunks.
  unfoldable pub quotes_of :
      (R → Option Text) → (List Text → List R) → List (Text × Option Resolved) → Dict R
  unfolding symbols_by_sid chunks collect_rows
  quotes_of row_sid batch found =
      let m = symbols_by_sid found [] in collect_rows row_sid batch m (chunks (keys m)) []

  -- `fetch_quotes`
  unfoldable pub fetch_quotes :
      (R → Option Text)
      → (List Text → List R)
      → List (Text × Option TapeFeed)
      → Tape
      → Tape × Dict R
  unfolding resolve_all quotes_of
  fetch_quotes row_sid batch symbols t =
      let (t', found) = resolve_all symbols t in (t', quotes_of row_sid batch found)
