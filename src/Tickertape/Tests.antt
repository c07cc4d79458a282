-- ===== src/Tickertape/Tests.antt =====
-- The theorems about src/engine/tickertape.py at concrete inputs.
use bharat_ticker.Common.{ℕ, ◌+◌, ◌≡◌, refl, Option, none, some, List, [], ◌∷◌, Any, arith}
use bharat_ticker.Common.Text.{Text, codes, text_eq, upper}
use bharat_ticker.Common.Dict.{lookup, insert}
use bharat_ticker.Common.Symbols.{strip, is_space}
use bharat_ticker.Tickertape.Search.{Stock, Tape, SearchReply}
use bharat_ticker.Tickertape.Pacing.{searches, IsPaced, searches-IsPaced}
use bharat_ticker.Tickertape.Resolve.{TapeFeed, as_resolved}
use bharat_ticker.Tickertape.Points.{ChartPoint, RawPoint, raw_points, sort_raw, sid_of}
use bharat_ticker.Tickertape.Volumes.{IsInTime, bar_total, bars_of_curve, curve_volume}
use bharat_ticker.Tickertape.Batch.{resolve_all, fetch_quotes}
use bharat_ticker.Tickertape.Chunks.{fetch_quotes-IsFound, fetch_quotes-lost}

abbrev no_calls : Tape
no_calls = record {
  sid_cache = [];
  last_search = 0;
  cooldown_until = 0;
  all_sids = [];
  all_sids_at = 0;
}

abbrev other_stock : Stock
other_stock = record {
  ticker = codes "INFY";
  sid = some (codes "INFY");
  sector = none;
  name = some (codes "Infosys");
}

abbrev found_other : SearchReply
found_other = record { took = 2; status = some 200; stocks = other_stock ∷ [] }

abbrev forbidden : SearchReply
forbidden = record { took = 2; status = some 403; stocks = [] }

abbrev feed : TapeFeed
feed = record { now = 100; list_rows = []; search_reply = found_other }

abbrev empty_feed : TapeFeed
empty_feed = record { now = 200; list_rows = []; search_reply = forbidden }

abbrev calls : List (ℕ × SearchReply)
calls = (100, found_other) ∷ (101, forbidden) ∷ (110, found_other) ∷ (5000, found_other) ∷ []

searches-IsPaced_example : IsPaced (searches calls no_calls)
searches-IsPaced_example = searches-IsPaced calls no_calls

abbrev read_stamp : Text → Option ℕ
read_stamp [] = none
read_stamp (c ∷ s) = some c

abbrev write_stamp : ℕ → Text
write_stamp n = n ∷ []

abbrev pts : List ChartPoint
pts =
    record { lp = some 101; ts = some (60 ∷ []); v = some 700 }
    ∷ record { lp = some 100; ts = some (30 ∷ []); v = some 500 }
    ∷ record { lp = none; ts = some (90 ∷ []); v = some 900 }
    ∷ []

abbrev early : RawPoint
early = record { dt = 30; price = 100; cum = 500 }

abbrev late : RawPoint
late = record { dt = 60; price = 101; cum = 700 }

curve_volume_example :
    IsInTime (early ∷ late ∷ [])
    × (500 + bar_total (bars_of_curve read_stamp write_stamp read_stamp (λ b s. s) (λ n. n) 60 pts)
        ≡ 700)
unfolding raw_points sort_raw
curve_volume_example =
    curve_volume read_stamp write_stamp read_stamp (λ b s. s) (λ n. n) 60 pts early (late ∷ [])
      (omega arith) refl (omega arith, tt) ((refl, omega arith), ((refl, omega arith), tt))

-- The rows of the batch, each an id with a price.
abbrev row_sid : Text × ℕ → Option Text
row_sid row = some row.0

abbrev batch : List Text → List (Text × ℕ)
batch chunk = (codes "RELI", 2900) ∷ (codes "INFY", 1500) ∷ []

fetch_quotes-IsFound_example :
    Any
      (λ x. (x.0 ≡ codes "RELIANCE") × (sid_of x.1 ≡ row_sid (codes "RELI", 2900)))
      (resolve_all ((codes "Reliance", some feed) ∷ []) no_calls).1
unfolding fetch_quotes lookup text_eq upper strip is_space insert
fetch_quotes-IsFound_example =
    fetch_quotes-IsFound row_sid batch ((codes "Reliance", some feed) ∷ []) no_calls
      (codes "RELIANCE") (codes "RELI", 2900) refl

abbrev both : List (Text × Option TapeFeed)
both = (codes "INFY", some feed) ∷ (codes "OLDNAME", some (record feed { now = 300 })) ∷ []

fetch_quotes-lost_example :
    lookup (codes "INFY") (fetch_quotes row_sid batch both no_calls).1 ≡ none
unfolding resolve_all upper lookup text_eq strip is_space insert
fetch_quotes-lost_example =
    fetch_quotes-lost row_sid batch both no_calls (codes "INFY") (codes "OLDNAME")
      (as_resolved other_stock) (as_resolved other_stock) (codes "INFY") refl refl refl
      (ground arith)
