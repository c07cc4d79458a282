-- ===== src/Charts/Order.antt =====
-- The normal form of candles (`_norm_candles`, src/api/endpoints/superbrain.py).
use bharat_ticker.Common.{
  ℕ, if◌then◌else◌, Option, false, arith, ◌≡◌, refl, ◌∙◌, ap, true, none, some, List, [], ◌∷◌, All,
  Bool-cases, Option-cases, inl, inr,
}
use mathlib.Core.Path.{subst, sym}
use bharat_ticker.Common.Text.{Text, text_eq, text_eq→eq, text_leb, text_leb_total, text_leb_trans}
use bharat_ticker.Charts.Bars.{
  ChartBar, HistoryRow, volume_or_zero, norm_row, with_close, insert_by_time, sort_by_time,
  norm_candles,
}

-- In the order of their time stamps.
abbrev pub IsAfter : Text → ChartBar → Type 0
IsAfter t c = text_leb t c.timestamp ≡ true

abbrev pub IsSorted : List ChartBar → Type 0
IsSorted [] = Unit
IsSorted (c ∷ cs) = All (IsAfter c.timestamp) cs × IsSorted cs

insert_by_time-All :
    (P : ChartBar → Type 0) (c : ChartBar) (cs : List ChartBar)
    → P c
    → All P cs
    → All P (insert_by_time c cs)
unfolding insert_by_time
insert_by_time-All P c [] p a = (p, tt)
insert_by_time-All P c (d ∷ cs) p a = elim (Bool-cases (text_leb c.timestamp d.timestamp)) [
  | inl e ↦ rw e (p, a)
  | inr e ↦ rw e (a.0, insert_by_time-All P c cs p a.1)
]

IsAfter-trans :
    (s t : Text) (cs : List ChartBar)
    → text_leb s t ≡ true
    → All (IsAfter t) cs
    → All (IsAfter s) cs
IsAfter-trans s t [] h a = tt
IsAfter-trans s t (c ∷ cs) h a = (text_leb_trans s t c.timestamp h a.0, IsAfter-trans s t cs h a.1)

insert_by_time-IsSorted :
    (c : ChartBar) (cs : List ChartBar) → IsSorted cs → IsSorted (insert_by_time c cs)
unfolding insert_by_time
insert_by_time-IsSorted c [] h = (tt, tt)
insert_by_time-IsSorted c (d ∷ cs) h = elim (Bool-cases (text_leb c.timestamp d.timestamp)) [
  | inl e ↦ rw e ((e, IsAfter-trans c.timestamp d.timestamp cs e h.0), h)
  | inr e ↦
      let back = text_leb_total c.timestamp d.timestamp e in
      rw e
        (insert_by_time-All (IsAfter d.timestamp) c cs back h.0, insert_by_time-IsSorted c cs h.1)
]

sort_by_time-IsSorted : (cs : List ChartBar) → IsSorted (sort_by_time cs)
unfolding sort_by_time
sort_by_time-IsSorted [] = tt
sort_by_time-IsSorted (c ∷ cs) =
    insert_by_time-IsSorted c (sort_by_time cs) (sort_by_time-IsSorted cs)

sort_by_time-All : (P : ChartBar → Type 0) (cs : List ChartBar) → All P cs → All P (sort_by_time cs)
unfolding sort_by_time
sort_by_time-All P [] a = tt
sort_by_time-All P (c ∷ cs) a =
    insert_by_time-All P c (sort_by_time cs) a.0 (sort_by_time-All P cs a.1)

abbrev pub HasClose : ChartBar → Type 0
HasClose c = (p : ℕ) × (c.close ≡ some p)

with_close-HasClose : (rows : List HistoryRow) → All HasClose (with_close rows)
unfolding with_close norm_row
with_close-HasClose [] = tt
with_close-HasClose (r ∷ rows) = elim (Option-cases r.close) [
  | inl e ↦ rw (with_close, e) (with_close-HasClose rows)
  | inr (p, e) ↦ rw (with_close, e) ((p, e), with_close-HasClose rows)
]

-- The candles at a time stamp, in their order.
abbrev pub at_time : Text → List ChartBar → List ChartBar
at_time t [] = []
at_time t (c ∷ cs) = let rest = at_time t cs in if text_eq t c.timestamp then c ∷ rest else rest

-- What the rows at a time stamp say, field by field: those that have a close, in their order.
abbrev pub row_candle : HistoryRow → ChartBar
row_candle r = record {
  timestamp = r.timestamp;
  open_price = r.open_price;
  high = r.high;
  low = r.low;
  close = r.close;
  vwap = none;
  volume = some (elim r.volume [ none ↦ 0 | some v ↦ v ]);
}

abbrev pub told_by : Text → HistoryRow → Option ℕ → List ChartBar → List ChartBar
told_by t r none rest = rest
told_by t r (some close) rest = if text_eq t r.timestamp then row_candle r ∷ rest else rest

abbrev pub told_at : Text → List HistoryRow → List ChartBar
told_at t [] = []
told_at t (r ∷ rows) = told_by t r r.close (told_at t rows)

text_leb_refl : (s : Text) → text_leb s s ≡ true
text_leb_refl s = ground (arith, text_leb_total s s)

-- A candle does not pass another of the same time.
same_time-leb : (t r s : Text) → text_eq t r ≡ true → text_eq t s ≡ true → text_leb r s ≡ true
same_time-leb t r s h k =
    let same : r ≡ s = sym (text_eq→eq t r h) ∙ text_eq→eq t s k in
    subst (λ x. text_leb r x ≡ true) same (text_leb_refl r)

at_time-passed :
    (t : Text) (c d : ChartBar) (cs : List ChartBar)
    → text_leb c.timestamp d.timestamp ≡ false
    → at_time t (insert_by_time c cs) ≡ at_time t (c ∷ cs)
    → at_time t (d ∷ insert_by_time c cs) ≡ at_time t (c ∷ d ∷ cs)
at_time-passed t c d cs e ih = ground (arith, e, ih, same_time-leb t c.timestamp d.timestamp)

at_time-insert :
    (t : Text) (c : ChartBar) (cs : List ChartBar)
    → at_time t (insert_by_time c cs) ≡ at_time t (c ∷ cs)
unfolding insert_by_time
at_time-insert t c [] = refl
at_time-insert t c (d ∷ cs) = elim (Bool-cases (text_leb c.timestamp d.timestamp)) [
  | inl e ↦ rw e refl
  | inr e ↦ rw e (at_time-passed t c d cs e (at_time-insert t c cs))
]

at_time-sort : (t : Text) (cs : List ChartBar) → at_time t (sort_by_time cs) ≡ at_time t cs
unfolding sort_by_time
at_time-sort t [] = refl
at_time-sort t (c ∷ cs) =
    at_time-insert t c (sort_by_time cs)
    ∙ ap (λ rest. if text_eq t c.timestamp then c ∷ rest else rest) (at_time-sort t cs)

volume_or_zero_lem : (v : Option ℕ) → volume_or_zero v ≡ elim v [ none ↦ 0 | some n ↦ n ]
volume_or_zero_lem none = refl
volume_or_zero_lem (some n) = refl

norm_row_lem : (r : HistoryRow) → norm_row r ≡ row_candle r
unfolding norm_row
norm_row_lem r =
    ap
      (λ v. record {
        timestamp = r.timestamp;
        open_price = r.open_price;
        high = r.high;
        low = r.low;
        close = r.close;
        vwap = none;
        volume = some v;
      })
      (volume_or_zero_lem r.volume)

told_by-step :
    (t : Text) (r : HistoryRow) (close : Option ℕ) (cs told : List ChartBar)
    → at_time t cs ≡ told
    → at_time t (elim close [ none ↦ cs | some c ↦ row_candle r ∷ cs ]) ≡ told_by t r close told
told_by-step t r none cs told h = h
told_by-step t r (some c) cs told h =
    ap (λ rest. if text_eq t r.timestamp then row_candle r ∷ rest else rest) h

at_time-with_close :
    (t : Text) (rows : List HistoryRow) → at_time t (with_close rows) ≡ told_at t rows
unfolding with_close
at_time-with_close t [] = refl
at_time-with_close t (r ∷ rows) =
    ap (λ c. at_time t (elim r.close [ none ↦ with_close rows | some p ↦ c ∷ with_close rows ]))
      (norm_row_lem r)
    ∙ told_by-step t r r.close (with_close rows) (told_at t rows) (at_time-with_close t rows)

-- The candles of the history are in the order of their time stamps, each has a close, and at every
-- time stamp they are exactly the candles of the rows at that time that have a close, in the order of
-- the rows and with the fields of the rows: no candle is lost or added.
pub norm_candles-IsSorted :
    (rows : List HistoryRow) (t : Text)
    → IsSorted (norm_candles rows)
      × All HasClose (norm_candles rows)
      × (at_time t (norm_candles rows) ≡ told_at t rows)
unfolding norm_candles
norm_candles-IsSorted rows t = (
  sort_by_time-IsSorted (with_close rows),
  sort_by_time-All HasClose (with_close rows) (with_close-HasClose rows),
  at_time-sort t (with_close rows) ∙ at_time-with_close t rows,
)
