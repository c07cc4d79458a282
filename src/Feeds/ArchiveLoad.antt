-- ===== src/Feeds/ArchiveLoad.antt =====
-- Which files `NSEArchiveProvider` (src/providers/nse_archive.py) loads, and what they hold.
use bharat_ticker.Common.{
  ℕ, zero, suc, ◌+◌, ◌≤◌, ◌<◌, ◌≡◌, refl, sym, ap, ◌∙◌, true, false, none, some, List, [], ◌∷◌,
  ◌++◌, arith,
}
use bharat_ticker.Common.Text.{Text, text_eq}
use bharat_ticker.Feeds.Archive.{
  Archive, ArchiveHost, download, is_empty, ask_day, use_download, walk, is_recent, ensure_loaded,
}

append_nil : (xs : List Text) → xs ++ [] ≡ xs
append_nil [] = refl
append_nil (x ∷ xs) = ap (λ l. x ∷ l) (append_nil xs)

append_snoc : (xs : List Text) (y : Text) (ys : List Text) → (xs ++ (y ∷ [])) ++ ys ≡ xs ++ (y ∷ ys)
append_snoc [] y ys = refl
append_snoc (x ∷ xs) y ys = ap (λ l. x ∷ l) (append_snoc xs y ys)

module _ (host : ArchiveHost) where
  -- The texts of `k` days, from `back` days ago on.
  abbrev pub days_from : ℕ → ℕ → List Text
  days_from zero back = []
  days_from (suc k) back = host.days_ago back ∷ days_from k (suc back)

  -- The day `back` days ago and the `k - 1` before it have no file and are not the loaded one, which is
  -- the day before these.
  abbrev pub IsBehind : Text → ℕ → ℕ → Type 0
  IsBehind date zero back = text_eq (host.days_ago back) date ≡ true
  IsBehind date (suc k) back =
      (text_eq (host.days_ago back) date ≡ false)
      × (download (host.file (host.days_ago back)) ≡ none)
      × IsBehind date k (suc back)

  walk-loaded :
      (now n back : ℕ) (s : Archive) (date : Text)
      → s.loaded_date ≡ some date
      → is_empty s.rows ≡ false
      → text_eq (host.days_ago back) date ≡ true
      → walk host now (suc n) back s ≡ s
  unfolding walk
  walk-loaded now n back s date loaded filled e = rw (walk, loaded, e, filled) refl

  walk-missing :
      (now n back : ℕ) (s : Archive) (date : Text)
      → s.loaded_date ≡ some date
      → text_eq (host.days_ago back) date ≡ false
      → download (host.file (host.days_ago back)) ≡ none
      → walk host now (suc n) back s ≡ walk host now n (suc back) (ask_day (host.days_ago back) s)
  unfolding walk use_download
  walk-missing now n back s date loaded e f = rw (walk, loaded, e, f) refl

  walk-behind :
      (now n k back : ℕ) (s : Archive) (date : Text)
      → k < n
      → s.loaded_date ≡ some date
      → is_empty s.rows ≡ false
      → IsBehind date k back
      → walk host now n back s ≡ record s { asked = s.asked ++ days_from k back }
  walk-behind now zero k back s date lt loaded filled behind = absurd (omega (arith, lt))
  walk-behind now (suc n) zero back s date lt loaded filled behind =
      walk-loaded now n back s date loaded filled behind
      ∙ ap (λ l. record s { asked = l }) (sym (append_nil s.asked))
  walk-behind now (suc n) (suc k) back s date lt loaded filled behind =
      let day = host.days_ago back in
      walk-missing now n back s date loaded behind.0 behind.1
      ∙ walk-behind now n k (suc back) (ask_day day s) date (omega (arith, lt)) loaded filled
          behind.2
      ∙ ap (λ l. record s { asked = l }) (append_snoc s.asked day (days_from k (suc back)))

  is_recent-old :
      (now : ℕ) (s : Archive)
      → is_empty s.rows ≡ false
      → s.loaded_at + 3600 ≤ now
      → is_recent now s ≡ false
  is_recent-old now s filled old = rw filled (ground (arith, old))

  ensure_loaded-once :
      (now k : ℕ) (s : Archive) (date : Text)
      → k < 8
      → s.loaded_date ≡ some date
      → is_empty s.rows ≡ false
      → IsBehind date k 0
      → s.loaded_at + 3600 ≤ now
      → ensure_loaded host now s ≡ record s { last_attempt = now; asked = s.asked ++ days_from k 0 }
  unfolding ensure_loaded
  ensure_loaded-once now k s date lt loaded filled behind old =
      rw (ensure_loaded, is_recent-old now s filled old)
        (walk-behind now 8 k 0 (record s { last_attempt = now }) date lt loaded filled behind)

  -- An hour after it was loaded, with newer days that have no file, the files of these days are asked
  -- for again by each call, and the time of the loading stays as it was.
  pub ensure_loaded-repeats :
      (now later k : ℕ) (s : Archive) (date : Text)
      → k < 8
      → s.loaded_date ≡ some date
      → is_empty s.rows ≡ false
      → IsBehind date k 0
      → s.loaded_at + 3600 ≤ now
      → now ≤ later
      → ensure_loaded host later (ensure_loaded host now s)
        ≡ record s { last_attempt = later; asked = (s.asked ++ days_from k 0) ++ days_from k 0 }
  unfolding ensure_loaded
  ensure_loaded-repeats now later k s date lt loaded filled behind old le =
      let first = ensure_loaded-once now k s date lt loaded filled behind old in
      let s' = record s { last_attempt = now; asked = s.asked ++ days_from k 0 } in
      ap (ensure_loaded host later) first
      ∙ ensure_loaded-once later k s' date lt loaded filled behind (omega (arith, old, le))
