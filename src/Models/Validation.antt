-- ===== src/Models/Validation.antt =====
-- What pydantic checks when a `TickData` or an order book of src/models/tick.py is made: the bounds and
-- patterns of the fields. Decimals are integers in a fixed unit.
use bharat_ticker.Common.{
  ℕ, leb, ltb, ◌==◌, Bool, true, false, ◌&&◌, ◌||◌, Option, none, some, List, [], ◌∷◌, length,
  if◌then◌else◌,
}
use bharat_ticker.Common.Text.{Text, codes, text_eq}
use bharat_ticker.Common.Integers.{ℤ}
use bharat_ticker.Models.Tick.{MarketDepthLevel, MarketDepth, Tick, normalize_symbol}

infixl 5 ◌>>=◌
abbrev pub ◌>>=◌ : {A B : Type 0} → Option A → (A → Option B) → Option B
none >>= f = none
some a >>= f = f a

-- The arguments of `TickData(...)`; a feed gives neither of the three derivative fields.
pub record Draft : Type 0 where
  pub symbol : Text
  pub isin : Option Text
  pub exchange : Text
  pub series : Option Text
  pub ltp : ℤ
  pub open_price : ℤ
  pub high : ℤ
  pub low : ℤ
  pub close : ℤ
  pub change : ℤ
  pub pct_change : ℤ
  pub volume : ℤ
  pub value : Option ℤ
  pub vwap : Option ℤ
  pub upper_circuit : Option ℤ
  pub lower_circuit : Option ℤ
  pub week_52_high : Option ℤ
  pub week_52_low : Option ℤ
  pub market_depth : Option MarketDepth
  pub timestamp : Text
  pub source : Text
  pub source_latency_ms : ℕ

-- `ge=0`
abbrev pub at_least_zero : ℤ → Option ℕ
at_least_zero (ℤ.pos n) = some n
at_least_zero (ℤ.negsuc n) = none

abbrev pub none_or_at_least_zero : Option ℤ → Option (Option ℕ)
none_or_at_least_zero none = some none
none_or_at_least_zero (some (ℤ.pos n)) = some (some n)
none_or_at_least_zero (some (ℤ.negsuc n)) = none

-- `[A-Z0-9]`
abbrev pub is_upper_or_digit : ℕ → Bool
is_upper_or_digit c = (leb b'A' c && leb c b'Z') || (leb b'0' c && leb c b'9')

abbrev pub all_upper_or_digit : Text → Bool
all_upper_or_digit [] = true
all_upper_or_digit (c ∷ s) = is_upper_or_digit c && all_upper_or_digit s

abbrev pub starts_ine : Text → Bool
starts_ine (a ∷ b ∷ c ∷ s) = (a == b'I') && (b == b'N') && (c == b'E')
starts_ine s = false

-- The pattern of `isin`.
unfoldable pub is_isin : Text → Bool
is_isin s = starts_ine s && all_upper_or_digit s && (length s == 12)

abbrev pub checked_isin : Option Text → Option (Option Text)
checked_isin none = some none
checked_isin (some s) = if is_isin s then some (some s) else none

-- `min_length=1`, `max_length=30`, after `normalize_symbol`.
abbrev pub checked_symbol : Text → Option Text
checked_symbol s =
    let t = normalize_symbol s in if ltb 0 (length t) && leb (length t) 30 then some t else none

-- `Literal["NSE", "BSE"]`
abbrev pub checked_exchange : Text → Option Text
checked_exchange s = if text_eq s (codes "NSE") || text_eq s (codes "BSE") then some s else none

-- `TickData(...)`: none is a `ValidationError`.
unfoldable pub tick_data : Draft → Option Tick
unfolding is_isin normalize_symbol
tick_data d = do
  symbol ← checked_symbol d.symbol
  isin ← checked_isin d.isin
  exchange ← checked_exchange d.exchange
  ltp ← at_least_zero d.ltp
  open_price ← at_least_zero d.open_price
  high ← at_least_zero d.high
  low ← at_least_zero d.low
  close ← at_least_zero d.close
  volume ← at_least_zero d.volume
  value ← none_or_at_least_zero d.value
  vwap ← none_or_at_least_zero d.vwap
  upper_circuit ← none_or_at_least_zero d.upper_circuit
  lower_circuit ← none_or_at_least_zero d.lower_circuit
  week_52_high ← none_or_at_least_zero d.week_52_high
  week_52_low ← none_or_at_least_zero d.week_52_low
  some (record {
    symbol = symbol;
    isin = isin;
    exchange = exchange;
    series = d.series;
    ltp = ltp;
    open_price = open_price;
    high = high;
    low = low;
    close = close;
    change = d.change;
    pct_change = d.pct_change;
    volume = volume;
    value = value;
    vwap = vwap;
    upper_circuit = upper_circuit;
    lower_circuit = lower_circuit;
    total_buy_qty = none;
    total_sell_qty = none;
    open_interest = none;
    week_52_high = week_52_high;
    week_52_low = week_52_low;
    market_depth = d.market_depth;
    timestamp = d.timestamp;
    source = d.source;
    source_latency_ms = d.source_latency_ms;
  })

-- `MarketDepthLevel(...)`. A price below zero would be taken; the model's levels have none.
unfoldable pub market_depth_level : ℤ → ℤ → ℤ → Option MarketDepthLevel
market_depth_level price quantity orders = do
  price ← at_least_zero price
  quantity ← at_least_zero quantity
  orders ← at_least_zero orders
  some (record { price = price; quantity = quantity; orders = orders })

-- `MarketDepth(...)`, with at most twenty levels on a side.
unfoldable pub market_depth :
    List MarketDepthLevel → List MarketDepthLevel → ℤ → ℤ → Option MarketDepth
market_depth buy sell total_buy total_sell = do
  total_buy_quantity ← at_least_zero total_buy
  total_sell_quantity ← at_least_zero total_sell
  if leb (length buy) 20 && leb (length sell) 20
      then some (record {
        buy = buy;
        sell = sell;
        total_buy_quantity = total_buy_quantity;
        total_sell_quantity = total_sell_quantity;
      })
      else none
