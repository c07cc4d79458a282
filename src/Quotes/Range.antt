-- ===== src/Quotes/Range.antt =====
-- The 52-week bounds of a served quote (src/api/endpoints/superbrain.py).
use bharat_ticker.Common.{ℕ, ◌≤◌, min, max, Bool, Option, none, some, arith}
use bharat_ticker.Common.Text.{Text}
use bharat_ticker.Common.Dict.{Dict}
use bharat_ticker.Common.Integers.{ℤ}
use bharat_ticker.Models.Tick.{Tick}
use bharat_ticker.Quotes.Shape.{Meta, clamp, sb_quote}

-- There is no bound, or it contains both prices.
abbrev pub IsBelow : Option ℕ → ℕ → ℕ → Type 0
IsBelow none edge price = Unit
IsBelow (some x) edge price = (x ≤ edge) × (x ≤ price)

abbrev pub IsAbove : Option ℕ → ℕ → ℕ → Type 0
IsAbove none edge price = Unit
IsAbove (some x) edge price = (edge ≤ x) × (price ≤ x)

clamp-IsBelow : (o : Option ℕ) (e p : ℕ) → IsBelow (clamp min o (some e) (some p)) e p
unfolding clamp
clamp-IsBelow none e p = tt
clamp-IsBelow (some x) e p = (omega arith, omega arith)

clamp-IsAbove : (o : Option ℕ) (e p : ℕ) → IsAbove (clamp max o (some e) (some p)) e p
unfolding clamp
clamp-IsAbove none e p = tt
clamp-IsAbove (some x) e p = (omega arith, omega arith)

-- The 52-week low of a served quote, if it has one, is above neither the day's low nor the price,
-- and its 52-week high is below neither the day's high nor the price.
pub sb_quote-contains :
    (metas : Dict Meta) (is_open : Bool) (lag : Text → Option ℤ) (now : Text) (round : ℕ → ℕ)
    (tick : Tick)
    → let q = sb_quote metas is_open lag now round tick in
      IsBelow q.week_52_low tick.low tick.ltp × IsAbove q.week_52_high tick.high tick.ltp
unfolding sb_quote
sb_quote-contains metas is_open lag now round tick = (
  clamp-IsBelow tick.week_52_low tick.low tick.ltp,
  clamp-IsAbove tick.week_52_high tick.high tick.ltp,
)
