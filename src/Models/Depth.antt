-- ===== src/Models/Depth.antt =====
-- `FullMarketDepth` (src/models/market_depth.py), in exact arithmetic.
use bharat_ticker.Common.{
  ℕ, suc, ◌+◌, ◌*◌, ◌==◌, ltb, Option, none, some, List, [], ◌∷◌, if◌then◌else◌,
}
use bharat_ticker.Common.Text.{Text}
use bharat_ticker.Common.Integers.{ℤ, difference}
use bharat_ticker.Models.Tick.{
  MarketDepthLevel, MarketDepth, Ratio, imbalance_ratio, spread, first_of,
}

pub record FullMarketDepth : Type 0 where
  pub symbol : Text
  pub exchange : Text
  pub depth : MarketDepth
  pub timestamp : Text
  pub spread : Option ℤ
  pub spread_pct : Option Ratio
  pub mid_price : Option Ratio
  pub imbalance_ratio : Option Ratio
  pub weighted_bid_price : Option Ratio
  pub weighted_ask_price : Option Ratio

abbrev pub total_qty : List MarketDepthLevel → ℕ
total_qty [] = 0
total_qty (l ∷ levels) = l.quantity + total_qty levels

abbrev pub turnover : List MarketDepthLevel → ℕ
turnover [] = 0
turnover (l ∷ levels) = l.price * l.quantity + turnover levels

-- `_weighted_avg`
unfoldable pub weighted_avg : List MarketDepthLevel → Option Ratio
weighted_avg levels =
    if total_qty levels == 0
    then none
    else some (record { num = ℤ.pos (turnover levels); den = total_qty levels })

-- `times n i` is `i * n`.
abbrev pub times : ℕ → ℤ → ℤ
times n (ℤ.pos m) = ℤ.pos (m * n)
times n (ℤ.negsuc m) = difference 0 (suc m * n)

-- `spread_pct`: spread / mid * 100, with mid half of `twice`.
unfoldable pub percent_of_mid : ℕ → ℤ → Option Ratio
percent_of_mid twice s =
    if ltb 0 twice then some (record { num = times 200 s; den = twice }) else none

-- `mid_price` and `spread_pct`
unfoldable pub mid_and_percent : MarketDepth → Option Ratio × Option Ratio
unfolding percent_of_mid
mid_and_percent depth = elim (first_of depth.buy) as (λ x. Option Ratio × Option Ratio) [
  | none ↦ (none, none)
  | some bid ↦ elim (first_of depth.sell) as (λ x. Option Ratio × Option Ratio) [
    | none ↦ (none, none)
    | some ask ↦
        let twice = bid.price + ask.price in
        (
          some (record { num = ℤ.pos twice; den = 2 }),
          percent_of_mid twice (difference ask.price bid.price),
        )
  ]
]

unfoldable pub from_market_depth : Text → Text → MarketDepth → Text → FullMarketDepth
unfolding mid_and_percent weighted_avg
from_market_depth symbol exchange depth timestamp =
    let (mid, pct) = mid_and_percent depth in
    record {
      symbol = symbol;
      exchange = exchange;
      depth = depth;
      timestamp = timestamp;
      spread = spread depth;
      spread_pct = pct;
      mid_price = mid;
      imbalance_ratio = imbalance_ratio depth;
      weighted_bid_price = weighted_avg depth.buy;
      weighted_ask_price = weighted_avg depth.sell;
    }
