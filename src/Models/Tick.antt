-- ===== src/Models/Tick.antt =====
-- src/models/tick.py. Prices are counted in a fixed unit, without a sign; a change of price has one.
-- The patterns and bounds that pydantic checks are in Models/Validation.
use bharat_ticker.Common.{ℕ, ◌+◌, ◌==◌, Option, none, some, List, [], ◌∷◌, if◌then◌else◌}
use bharat_ticker.Common.Text.{Text, upper}
use bharat_ticker.Common.Integers.{ℤ, difference}
use bharat_ticker.Common.Symbols.{strip}

pub record MarketDepthLevel : Type 0 where
  pub price : ℕ
  pub quantity : ℕ
  pub orders : ℕ

pub record MarketDepth : Type 0 where
  pub buy : List MarketDepthLevel
  pub sell : List MarketDepthLevel
  pub total_buy_quantity : ℕ
  pub total_sell_quantity : ℕ

-- A quotient before it is rounded.
pub record Ratio : Type 0 where
  pub num : ℤ
  pub den : ℕ

-- `MarketDepth.imbalance_ratio`, before `round`: `none` is the zero of an empty book.
unfoldable pub imbalance_ratio : MarketDepth → Option Ratio
imbalance_ratio depth =
    let total = depth.total_buy_quantity + depth.total_sell_quantity in
    if total == 0
    then none
    else some (record {
      num = difference depth.total_buy_quantity depth.total_sell_quantity;
      den = total;
    })

abbrev pub first_of : List MarketDepthLevel → Option MarketDepthLevel
first_of [] = none
first_of (x ∷ xs) = some x

-- `MarketDepth.spread`
unfoldable pub spread : MarketDepth → Option ℤ
spread depth = elim (first_of depth.buy) as (λ x. Option ℤ) [
  | none ↦ none
  | some bid ↦ elim (first_of depth.sell) as (λ x. Option ℤ) [
    | none ↦ none
    | some ask ↦ some (difference ask.price bid.price)
  ]
]

-- `TickData`
pub record Tick : Type 0 where
  pub symbol : Text
  pub isin : Option Text
  pub exchange : Text
  pub series : Option Text
  pub ltp : ℕ
  pub open_price : ℕ
  pub high : ℕ
  pub low : ℕ
  pub close : ℕ
  pub change : ℤ
  pub pct_change : ℤ
  pub volume : ℕ
  pub value : Option ℕ
  pub vwap : Option ℕ
  pub upper_circuit : Option ℕ
  pub lower_circuit : Option ℕ
  pub total_buy_qty : Option ℕ
  pub total_sell_qty : Option ℕ
  pub open_interest : Option ℕ
  pub week_52_high : Option ℕ
  pub week_52_low : Option ℕ
  pub market_depth : Option MarketDepth
  pub timestamp : Text
  pub source : Text
  pub source_latency_ms : ℕ

-- `TickData.normalize_symbol`
unfoldable pub normalize_symbol : Text → Text
normalize_symbol v = upper (strip v)

-- `TickData.compute_change`, with the fields that were valid before it.
unfoldable pub compute_change : Option ℤ → Option ℕ → Option ℕ → ℤ
compute_change (some v) ltp close = v
compute_change none (some ltp) (some close) = difference ltp close
compute_change none (some ltp) none = ℤ.pos 0
compute_change none none close = ℤ.pos 0
