-- ===== src/Feeds/Archive.antt =====
-- `NSEArchiveProvider` (src/providers/nse_archive.py): the file of a day's closing prices. Times are
-- seconds. `strftime` of the day so many days ago and the CSV rows of a file are inputs.
use bharat_ticker.Common.{
  ℕ, zero, suc, ◌+◌, ltb, Bool, true, false, not, ◌||◌, ◌&&◌, Option, none, some, List, [], ◌∷◌,
  ◌++◌, if◌then◌else◌,
}
use bharat_ticker.Common.Text.{Text, codes, text_eq, upper}
use bharat_ticker.Common.Dict.{Dict, insert, get_or}
use bharat_ticker.Common.Symbols.{strip}
use bharat_ticker.Failover.Provider.{Provider}

-- `asked` has the days whose files were requested, in order.
pub record Archive : Type 0 where
  pub base : Provider
  pub rows : Dict (Dict Text)
  pub loaded_date : Option Text
  pub loaded_at : ℕ
  pub last_attempt : ℕ
  pub asked : List Text

-- The row of a file with its names and values stripped.
unfoldable pub stripped : List (Text × Text) → Dict Text → Dict Text
unfolding strip insert
stripped [] row = row
stripped ((k, v) ∷ raw) row = stripped raw (insert (strip k) (strip v) row)

abbrev pub is_listed_series : Text → Bool
is_listed_series s =
    text_eq s (codes "EQ")
    || text_eq s (codes "BE")
    || text_eq s (codes "BZ")
    || text_eq s (codes "SM")
    || text_eq s (codes "ST")

-- The test and the body of the loop's `if`, for a row and its symbol.
abbrev pub add_listed : Bool → Text → Dict Text → Dict (Dict Text) → Dict (Dict Text)
add_listed false symbol row out = out
add_listed true [] row out = out
add_listed true (c ∷ symbol) row out = insert (upper (c ∷ symbol)) row out

unfoldable pub add_row : Dict Text → Dict (Dict Text) → Dict (Dict Text)
unfolding get_or insert
add_row row out =
    add_listed (is_listed_series (get_or (codes "SERIES") [] row)) (get_or (codes "SYMBOL") [] row)
      row out

unfoldable pub add_file : List (List (Text × Text)) → Dict (Dict Text) → Dict (Dict Text)
unfolding stripped add_row
add_file [] out = out
add_file (raw ∷ rest) out = add_file rest (add_row (stripped raw []) out)

-- `_download`: the rows of a file, nothing if it is not there; `out or None`.
abbrev pub unless_empty : Dict (Dict Text) → Option (Dict (Dict Text))
unless_empty [] = none
unless_empty (x ∷ out) = some (x ∷ out)

unfoldable pub download : Option (List (List (Text × Text))) → Option (Dict (Dict Text))
unfolding add_file
download none = none
download (some file) = unless_empty (add_file file [])

abbrev pub is_empty : Dict (Dict Text) → Bool
is_empty [] = true
is_empty (x ∷ rows) = false

abbrev pub is_loaded_date : Text → Option Text → Bool
is_loaded_date day none = false
is_loaded_date day (some date) = text_eq day date

-- What the archive's host has, by the text of a day, and the text of the day so many days ago.
pub record ArchiveHost : Type 0 where
  pub file : Text → Option (List (List (Text × Text)))
  pub days_ago : ℕ → Text

abbrev pub ask_day : Text → Archive → Archive
ask_day day s = record s { asked = s.asked ++ (day ∷ []) }

-- The two tests with which `_ensure_loaded` returns at once.
abbrev pub is_recent : ℕ → Archive → Bool
is_recent now s =
    if is_empty s.rows then ltb now (s.last_attempt + 120) else ltb now (s.loaded_at + 3600)

module _ (host : ArchiveHost) (now : ℕ) where
  -- A file that is there ends the loop, otherwise `rest` is what it comes to.
  unfoldable pub use_download : Text → Option (Dict (Dict Text)) → Archive → Archive → Archive
  use_download day none rest s = rest
  use_download day (some rows) rest s = record (ask_day day s) {
    rows = rows;
    loaded_date = some day;
    loaded_at = now;
  }

  -- The loop over the days, `n` of them from `back` on.
  unfoldable pub walk : ℕ → ℕ → Archive → Archive
  unfolding use_download download
  walk zero back s = s
  walk (suc n) back s =
      let day = host.days_ago back in
      let rest = walk n (suc back) (ask_day day s) in
      let asked = use_download day (download (host.file day)) rest s in
      if is_loaded_date day s.loaded_date && not (is_empty s.rows) then s else asked

  -- `_ensure_loaded`
  unfoldable pub ensure_loaded : Archive → Archive
  unfolding walk
  ensure_loaded s = if is_recent now s then s else walk 8 0 (record s { last_attempt = now })

-- `connect`, whose request for cookies may fail.
unfoldable pub connect : ArchiveHost → ℕ → Archive → Archive
unfolding ensure_loaded
connect host now s =
    let s' = ensure_loaded host now s in
    if s.base.is_connected then s else record s' { base = record s'.base { is_connected = true } }

-- `disconnect`
unfoldable pub disconnect : Archive → Archive
disconnect s = record s { base = record s.base { is_connected = false } }

-- `health_check`
unfoldable pub health_check : ArchiveHost → ℕ → Archive → Archive × Bool
unfolding ensure_loaded
health_check host now s = let s' = ensure_loaded host now s in (s', not (is_empty s'.rows))
