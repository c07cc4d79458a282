-- ===== src/Feeds/NseQuote.antt =====
-- `_parse_nse_quote` and `_parse_market_depth` of src/providers/nse_scraper.py.
use bharat_ticker.Common.{ℕ, zero, suc, Option, none, some, List, [], ◌∷◌}
use bharat_ticker.Common.Text.{Text, codes}
use bharat_ticker.Common.Dict.{Dict, lookup}
use bharat_ticker.Common.Integers.{ℤ}
use bharat_ticker.Models.Tick.{MarketDepthLevel, MarketDepth, Tick}
use bharat_ticker.Models.Validation.{Draft, ◌>>=◌, tick_data, market_depth_level, market_depth}
use bharat_ticker.Feeds.Json.{Json, Reading, safe_decimal, get_json, positive_or}

-- A part of the reply: missing, an object, or a value that has no `get`.
pub data Section : Type 0 where
  missing : Section
  object : Dict Json → Section
  malformed : Section

pub record Level : Type 0 where
  pub price : Json
  pub quantity : Json
  pub number : Json

pub record Book : Type 0 where
  pub bid : List Level
  pub ask : List Level
  pub total_buy_quantity : Json
  pub total_sell_quantity : Json

-- The reply of `/api/quote-equity`, with the two objects within `priceInfo` beside it. An order book
-- that is missing, or empty, is `none`.
pub record NseReply : Type 0 where
  pub info : Section
  pub price_info : Section
  pub intra_day_high_low : Section
  pub week_high_low : Section
  pub security_info : Section
  pub order_book : Option Book

abbrev pub entries : Section → Option (Dict Json)
entries Section.missing = some []
entries (Section.object d) = some d
entries Section.malformed = none

-- A level is left out if it cannot be read.
unfoldable pub read_level : Reading → Level → Option MarketDepthLevel
unfolding safe_decimal market_depth_level
read_level r l = do
  quantity ← r.whole l.quantity
  orders ← r.whole l.number
  market_depth_level (safe_decimal r l.price) quantity orders

abbrev pub cons_read : Option MarketDepthLevel → List MarketDepthLevel → List MarketDepthLevel
cons_read none levels = levels
cons_read (some l) levels = l ∷ levels

-- The loop over `raw[:n]`.
unfoldable pub read_levels : Reading → ℕ → List Level → List MarketDepthLevel
unfolding read_level
read_levels r zero levels = []
read_levels r (suc n) [] = []
read_levels r (suc n) (l ∷ levels) = cons_read (read_level r l) (read_levels r n levels)

abbrev pub read_book : Reading → Book → Option (Option MarketDepth)
read_book r b = do
  total_buy ← r.whole b.total_buy_quantity
  total_sell ← r.whole b.total_sell_quantity
  depth ← market_depth (read_levels r 5 b.bid) (read_levels r 5 b.ask) total_buy total_sell
  some (some depth)

-- `_parse_market_depth`: no book, none that can be made, or the book.
unfoldable pub parse_market_depth : Reading → Option Book → Option (Option MarketDepth)
unfolding read_levels market_depth
parse_market_depth r none = some none
parse_market_depth r (some b) = elim b.bid as (λ x. Option (Option MarketDepth)) [
  | [] ↦ elim b.ask as (λ x. Option (Option MarketDepth)) [
    | [] ↦ some none
    | l ∷ levels ↦ read_book r b
  ]
  | l ∷ levels ↦ read_book r b
]

-- `info.get("isin")` and `info.get("series", default)`: none is a value that is no text, which
-- pydantic refuses.
abbrev pub text_or : Option Text → Option Json → Option (Option Text)
text_or default none = some default
text_or default (some Json.null) = some none
text_or default (some (Json.text s)) = some (some s)
text_or default (some (Json.number d)) = none
text_or default (some Json.other) = none

-- The arguments of `TickData(...)`.
unfoldable pub nse_draft :
    Reading
    → Text
    → Text
    → ℕ
    → Dict Json
    → Dict Json
    → Dict Json
    → Option Text
    → Option Text
    → ℤ
    → ℤ
    → Option MarketDepth
    → Draft
unfolding safe_decimal get_json
nse_draft r symbol now latency price_info day week isin series volume value depth =
    let get : Text → ℤ = λ key. safe_decimal r (get_json key price_info) in
    let ltp = get (codes "lastPrice") in
    record {
      symbol = symbol;
      isin = isin;
      exchange = codes "NSE";
      series = series;
      ltp = ltp;
      open_price = get (codes "open");
      high = positive_or (safe_decimal r (get_json (codes "max") day)) ltp;
      low = positive_or (safe_decimal r (get_json (codes "min") day)) ltp;
      close = get (codes "previousClose");
      change = get (codes "change");
      pct_change = get (codes "pChange");
      volume = volume;
      value = some value;
      vwap = some (get (codes "vwap"));
      upper_circuit = some (get (codes "upperCP"));
      lower_circuit = some (get (codes "lowerCP"));
      week_52_high = some (safe_decimal r (get_json (codes "max") week));
      week_52_low = some (safe_decimal r (get_json (codes "min") week));
      market_depth = depth;
      timestamp = now;
      source = codes "nse_scraper";
      source_latency_ms = latency;
    }

-- `_parse_nse_quote`: none is a `ProviderSchemaError`.
unfoldable pub parse_nse_quote : Reading → Text → Text → ℕ → NseReply → Option Tick
unfolding nse_draft parse_market_depth tick_data
parse_nse_quote r now symbol latency reply = do
  info ← entries reply.info
  price_info ← entries reply.price_info
  security_info ← entries reply.security_info
  depth ← parse_market_depth r reply.order_book
  day ← entries reply.intra_day_high_low
  volume ← r.whole (get_json (codes "tradedVolume") security_info)
  week ← entries reply.week_high_low
  isin ← text_or none (lookup (codes "isin") info)
  series ← text_or (some (codes "EQ")) (lookup (codes "series") info)
  let value = safe_decimal r (get_json (codes "totalTradedValue") security_info)
  tick_data (nse_draft r symbol now latency price_info day week isin series volume value depth)
