-- ===== src/Feeds/ArchiveRows.antt =====
-- The rows that `NSEArchiveProvider` (src/providers/nse_archive.py) holds.
use bharat_ticker.Common.{
  All, ℕ, zero, suc, ◌≡◌, refl, sym, ap, ◌∙◌, Bool, true, false, not, ◌&&◌, Option, none, some,
  List, [], ◌∷◌, arith, if◌then◌else◌, Bool-cases, inl, inr,
}
use mathlib.Core.Path.{subst}
use bharat_ticker.Common.Text.{Text, codes, text_eq, text_eq→eq, upper}
use bharat_ticker.Common.Dict.{Dict, insert, get_or}
use bharat_ticker.Feeds.Archive.{
  Archive, ArchiveHost, is_listed_series, add_listed, add_row, stripped, add_file, unless_empty,
  download, is_empty, is_loaded_date, ask_day, use_download, walk, is_recent, ensure_loaded,
}

-- The row stands under its own symbol, raised, and is of one of the five series.
abbrev pub IsListedRow : Text × Dict Text → Type 0
IsListedRow (key, row) =
    (key ≡ upper (get_or (codes "SYMBOL") [] row))
    × (is_listed_series (get_or (codes "SERIES") [] row) ≡ true)

abbrev pub IsListed : Dict (Dict Text) → Type 0
IsListed rows = All IsListedRow rows

insert-IsListed :
    (key : Text) (row : Dict Text) (out : Dict (Dict Text))
    → IsListedRow (key, row)
    → IsListed out
    → IsListed (insert key row out)
unfolding insert
insert-IsListed key row [] h l = (h, tt)
insert-IsListed key row ((j, w) ∷ out) h l = elim (Bool-cases (text_eq key j)) [
  | inl e ↦ rw e ((sym (text_eq→eq key j e) ∙ h.0, h.1), l.1)
  | inr e ↦ rw e (l.0, insert-IsListed key row out h l.1)
]

add_listed-IsListed :
    (b : Bool) (symbol : Text) (row : Dict Text) (out : Dict (Dict Text))
    → is_listed_series (get_or (codes "SERIES") [] row) ≡ b
    → get_or (codes "SYMBOL") [] row ≡ symbol
    → IsListed out
    → IsListed (add_listed b symbol row out)
add_listed-IsListed false symbol row out e f l = l
add_listed-IsListed true [] row out e f l = l
add_listed-IsListed true (c ∷ symbol) row out e f l =
    insert-IsListed (upper (c ∷ symbol)) row out (ap upper (sym f), e) l

add_file-IsListed :
    (file : List (List (Text × Text))) (out : Dict (Dict Text))
    → IsListed out
    → IsListed (add_file file out)
unfolding add_file add_row
add_file-IsListed [] out l = l
add_file-IsListed (raw ∷ rest) out l =
    let row = stripped raw [] in
    add_file-IsListed rest (add_row row out) (
      add_listed-IsListed (is_listed_series (get_or (codes "SERIES") [] row))
        (get_or (codes "SYMBOL") [] row) row out refl refl l)

unless_empty-eq : (out rows : Dict (Dict Text)) → unless_empty out ≡ some rows → out ≡ rows
unless_empty-eq [] rows h = absurd (ground (arith, h))
unless_empty-eq (x ∷ out) rows h = ground (arith, h)

download-IsListed :
    (file : Option (List (List (Text × Text)))) (rows : Dict (Dict Text))
    → download file ≡ some rows
    → IsListed rows
unfolding download
download-IsListed none rows h = absurd (ground (arith, h))
download-IsListed (some file) rows h =
    subst IsListed (unless_empty-eq (add_file file []) rows h) (add_file-IsListed file [] tt)

module _ (host : ArchiveHost) (now : ℕ) where
  use_download-IsListed :
      (day : Text) (rows : Option (Dict (Dict Text))) (rest s : Archive)
      → download (host.file day) ≡ rows
      → IsListed rest.rows
      → IsListed (use_download host now day rows rest s).rows
  unfolding use_download
  use_download-IsListed day none rest s h l = l
  use_download-IsListed day (some rows) rest s h l = download-IsListed (host.file day) rows h

  if_IsListed :
      (b : Bool) (s t : Archive)
      → IsListed s.rows
      → IsListed t.rows
      → IsListed (if b then s else t).rows
  if_IsListed true s t h k = h
  if_IsListed false s t h k = k

  walk-IsListed :
      (n back : ℕ) (s : Archive) → IsListed s.rows → IsListed (walk host now n back s).rows
  unfolding walk
  walk-IsListed zero back s l = l
  walk-IsListed (suc n) back s l =
      let day = host.days_ago back in
      let rest = walk host now n (suc back) (ask_day day s) in
      let rows = download (host.file day) in
      if_IsListed (is_loaded_date day s.loaded_date && not (is_empty s.rows)) s
        (use_download host now day rows rest s) l
        (use_download-IsListed day rows rest s refl (walk-IsListed n (suc back) (ask_day day s) l))

  -- Whatever the files hold, every row is kept under its own symbol, raised, and is of one of the five
  -- series, when this held before.
  pub ensure_loaded-IsListed :
      (s : Archive) → IsListed s.rows → IsListed (ensure_loaded host now s).rows
  unfolding ensure_loaded
  ensure_loaded-IsListed s l =
      let s' = record s { last_attempt = now } in
      if_IsListed (is_recent now s) s (walk host now 8 0 s') l (walk-IsListed 8 0 s' l)
