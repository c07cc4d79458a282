-- ===== src/Models/Averages.antt =====
-- The averages of an order book lie between its prices (src/models/market_depth.py).
use bharat_ticker.Common.{
  ℕ, zero, suc, ◌+◌, ◌*◌, ◌≤◌, ◌==◌, ◌≡◌, refl, Option, none, some, List, [], ◌∷◌, All, arith, sym,
  ltb, Bool-cases, inl, inr,
}
use bharat_ticker.Common.Text.{Text}
use bharat_ticker.Common.Integers.{ℤ, difference}
use bharat_ticker.Models.Tick.{MarketDepthLevel, MarketDepth, Ratio, imbalance_ratio}
use bharat_ticker.Models.Depth.{total_qty, turnover, weighted_avg, from_market_depth}

-- No level is priced below `low` or above `high`.
abbrev pub IsPriced : ℕ → ℕ → List MarketDepthLevel → Type 0
IsPriced low high = All (λ l. (low ≤ l.price) × (l.price ≤ high))

-- A quotient, where there is one, that is a positive number of parts and lies from `low` to `high`.
abbrev pub IsWithin : ℕ → ℕ → Option Ratio → Type 0
IsWithin low high none = Unit
IsWithin low high (some r) =
    (n : ℕ) × (r.num ≡ ℤ.pos n) × (1 ≤ r.den) × (low * r.den ≤ n) × (n ≤ high * r.den)

mul_mono : (a b n : ℕ) → a ≤ b → a * n ≤ b * n
mul_mono a b zero h = omega arith
mul_mono a b (suc n) h = omega (arith, mul_mono a b n h)

turnover-low :
    (low high : ℕ) (levels : List MarketDepthLevel)
    → IsPriced low high levels
    → (low * total_qty levels ≤ turnover levels) × (turnover levels ≤ high * total_qty levels)
turnover-low low high [] h = (ground arith, ground arith)
turnover-low low high (l ∷ levels) h =
    let (a, b) = turnover-low low high levels h.1 in
    let c = mul_mono low l.price l.quantity h.0.0 in
    let d = mul_mono l.price high l.quantity h.0.1 in (grind (arith, a, c), grind (arith, b, d))

weighted_avg-IsWithin :
    (low high : ℕ) (levels : List MarketDepthLevel)
    → IsPriced low high levels
    → IsWithin low high (weighted_avg levels)
unfolding weighted_avg
weighted_avg-IsWithin low high levels h = elim (Bool-cases (total_qty levels == 0)) [
  | inl e ↦ rw e tt
  | inr e ↦
      let (a, b) = turnover-low low high levels h in
      rw e (turnover levels, refl, ground arith, a, b)
]

-- The weighted prices of a book whose bids lie from `low` to `bid`, and its asks from `ask` to
-- `high`, lie in the same bounds.
pub from_market_depth-IsWithin :
    (symbol exchange timestamp : Text) (low bid ask high : ℕ) (depth : MarketDepth)
    → IsPriced low bid depth.buy
    → IsPriced ask high depth.sell
    → let full = from_market_depth symbol exchange depth timestamp in
      IsWithin low bid full.weighted_bid_price × IsWithin ask high full.weighted_ask_price
unfolding from_market_depth
from_market_depth-IsWithin symbol exchange timestamp low bid ask high depth h k =
    (weighted_avg-IsWithin low bid depth.buy h, weighted_avg-IsWithin ask high depth.sell k)

abbrev pub magnitude : ℤ → ℕ
magnitude (ℤ.pos n) = n
magnitude (ℤ.negsuc n) = suc n

magnitude-difference : (b s : ℕ) → magnitude (difference b s) ≤ b + s
magnitude-difference b s = elim (Bool-cases (ltb b s)) [
  | inl e ↦ rw e (ground arith)
  | inr e ↦ rw e (ground arith)
]

some_injective : {A : Type 0} {x y : A} → some x ≡ some y → x ≡ y
some_injective h = ground arith

-- The imbalance of a book lies from -1 to 1.
pub imbalance_ratio-bounds :
    (depth : MarketDepth) (r : Ratio)
    → imbalance_ratio depth ≡ some r
    → (1 ≤ r.den) × (magnitude r.num ≤ r.den)
unfolding imbalance_ratio
imbalance_ratio-bounds depth r h =
    let b = depth.total_buy_quantity in
    let s = depth.total_sell_quantity in
    elim (Bool-cases (b + s == 0)) [
      | inl e ↦ absurd (grind (arith, e))
      | inr e ↦
          let whole : Ratio = record { num = difference b s; den = b + s } in
          let same : some whole ≡ some r = rw e at h in
          let small : (1 ≤ b + s) × (magnitude (difference b s) ≤ b + s) =
            (ground arith, magnitude-difference b s) in
          rw (sym (some_injective same)) small
    ]
