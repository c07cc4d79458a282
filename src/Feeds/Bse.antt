-- ===== src/Feeds/Bse.antt =====
-- `BSEScraper` (src/providers/bse_scraper.py): its session and a quote. `master` is what
-- `bse_master.code_for` gives, none if it raises or has no code. `percent` is the rounded change in
-- percent, `truncate` is `int` of a decimal. Times are seconds.
use bharat_ticker.Common.{
  ℕ, zero, suc, ◌+◌, ltb, ◌==◌, Bool, true, false, ◌&&◌, ◌||◌, Option, none, some, [], ◌∷◌,
  if◌then◌else◌,
}
use bharat_ticker.Common.Text.{Text, codes, upper}
use bharat_ticker.Common.Dict.{Dict, lookup, insert}
use bharat_ticker.Common.Integers.{ℤ}
use bharat_ticker.Models.Tick.{Tick}
use bharat_ticker.Models.Validation.{Draft, tick_data}
use bharat_ticker.Failover.Provider.{Provider}
use bharat_ticker.Feeds.Json.{
  Json, Reading, decimal_of_text, get_json, positive_or, subtract, is_positive, when_positive,
}

pub record BseScraper : Type 0 where
  pub base : Provider
  pub code_cache : Dict Text
  pub warmed : ℕ

-- `_dec`
unfoldable pub dec : Reading → Json → ℤ
unfolding decimal_of_text
dec r Json.null = ℤ.pos 0
dec r (Json.number d) = d
dec r (Json.text s) = decimal_of_text r s
dec r Json.other = ℤ.pos 0

-- `a or b`; a value that is `other` counts as there.
abbrev pub or_json : Json → Json → Json
or_json Json.null b = b
or_json (Json.number (ℤ.pos zero)) b = b
or_json (Json.number (ℤ.pos (suc n))) b = Json.number (ℤ.pos (suc n))
or_json (Json.number (ℤ.negsuc n)) b = Json.number (ℤ.negsuc n)
or_json (Json.text []) b = b
or_json (Json.text (c ∷ s)) b = Json.text (c ∷ s)
or_json Json.other b = Json.other

-- `header` and `curr`, the object `CurrRate` within it.
pub record BseReply : Type 0 where
  pub header : Dict Json
  pub curr : Dict Json

-- `header.get("ISIN") or None`: none is a value that is no text, which pydantic refuses.
abbrev pub isin_of : Json → Option (Option Text)
isin_of Json.null = some none
isin_of (Json.number (ℤ.pos zero)) = some none
isin_of (Json.number (ℤ.pos (suc n))) = none
isin_of (Json.number (ℤ.negsuc n)) = none
isin_of (Json.text []) = some none
isin_of (Json.text (c ∷ s)) = some (some (c ∷ s))
isin_of Json.other = none

-- The numbers that `_parse` reads.
pub record BsePrices : Type 0 where
  pub ltp : ℤ
  pub prev_close : ℤ
  pub open_price : ℤ
  pub high : ℤ
  pub low : ℤ
  pub change : ℤ
  pub pct : ℤ
  pub volume : ℤ
  pub wk_high : ℤ
  pub wk_low : ℤ

abbrev pub is_zero : ℤ → Bool
is_zero (ℤ.pos n) = n == 0
is_zero (ℤ.negsuc n) = false

module _ (r : Reading) (percent : ℤ → ℤ → ℤ) (truncate : ℤ → ℤ) where
  unfoldable pub bse_prices : BseReply → BsePrices
  unfolding dec get_json
  bse_prices reply =
      let h : Text → Json = λ key. get_json key reply.header in
      let c : Text → Json = λ key. get_json key reply.curr in
      record {
        ltp = dec r (or_json (or_json (c (codes "LTP")) (h (codes "LTP"))) (c (codes "Ltp")));
        prev_close = dec r (or_json (h (codes "PrevClose")) (h (codes "Prevclose")));
        open_price = dec r (h (codes "Open"));
        high = dec r (h (codes "High"));
        low = dec r (h (codes "Low"));
        change = dec r (or_json (c (codes "Chg")) (h (codes "Change")));
        pct = dec r (or_json (c (codes "PcChg")) (h (codes "PChange")));
        volume = truncate (dec r (or_json (h (codes "Volume")) (h (codes "TotalTradedQty"))));
        wk_high = dec r (or_json (h (codes "Week52High")) (h (codes "WeekHigh")));
        wk_low = dec r (or_json (h (codes "Week52Low")) (h (codes "WeekLow")));
      }

  -- `change` and `pct` after the two tests that fill them in.
  unfoldable pub filled_change : BsePrices → ℤ
  filled_change p =
      if is_zero p.change && is_positive p.prev_close then subtract p.ltp p.prev_close else p.change

  unfoldable pub filled_pct : BsePrices → ℤ
  unfolding filled_change
  filled_pct p =
      if is_zero p.pct && is_positive p.prev_close
      then percent (filled_change p) p.prev_close
      else p.pct

  -- The arguments of `TickData(...)`.
  unfoldable pub bse_draft : Text → Text → ℕ → Option Text → BsePrices → Draft
  unfolding filled_change filled_pct
  bse_draft now symbol latency isin p =
      let price = positive_or p.ltp p.prev_close in
      record {
        symbol = symbol;
        isin = isin;
        exchange = codes "BSE";
        series = some (codes "EQ");
        ltp = price;
        open_price = positive_or p.open_price price;
        high = positive_or p.high price;
        low = positive_or p.low price;
        close = p.prev_close;
        change = filled_change p;
        pct_change = filled_pct p;
        volume = p.volume;
        value = none;
        vwap = none;
        upper_circuit = none;
        lower_circuit = none;
        week_52_high = when_positive p.wk_high;
        week_52_low = when_positive p.wk_low;
        market_depth = none;
        timestamp = now;
        source = codes "bse_scraper";
        source_latency_ms = latency;
      }

  abbrev pub made_with : Text → Text → ℕ → BsePrices → Option (Option Text) → Option Tick
  made_with now symbol latency p none = none
  made_with now symbol latency p (some isin) = tick_data (bse_draft now symbol latency isin p)

  -- `_parse`: none is a `ProviderSchemaError`.
  unfoldable pub parse : Text → Text → ℕ → BseReply → Option Tick
  unfolding bse_prices bse_draft tick_data
  parse now symbol latency reply =
      let p = bse_prices reply in
      let made = made_with now symbol latency p (isin_of (get_json (codes "ISIN") reply.header)) in
      if is_positive p.ltp || is_positive p.prev_close then made else none

-- `_warmup`: false if the request for the homepage raises.
unfoldable pub warmup : ℕ → ℕ → Bool → BseScraper → BseScraper
warmup interval now home_ok s =
    if ltb now (s.warmed + interval) then s else if home_ok then record s { warmed = now } else s

unfoldable pub connect : ℕ → ℕ → Bool → BseScraper → BseScraper
unfolding warmup
connect interval now home_ok s =
    let s' = warmup interval now home_ok s in
    if s.base.is_connected then s else record s' { base = record s'.base { is_connected = true } }

-- `disconnect`
unfoldable pub disconnect : BseScraper → BseScraper
disconnect s = record s { base = record s.base { is_connected = false } }

abbrev pub cache_code : Text → Option Text → BseScraper → BseScraper × Option Text
cache_code symbol none s = (s, none)
cache_code symbol (some []) s = (s, none)
cache_code symbol (some (c ∷ code)) s =
    (record s { code_cache = insert symbol (c ∷ code) s.code_cache }, some (c ∷ code))

abbrev pub find_code :
    (Text → Option Text) → Text → Option Text → BseScraper → BseScraper × Option Text
find_code master symbol (some code) s = (s, some code)
find_code master symbol none s = cache_code symbol (master symbol) s

-- `_resolve_code`
unfoldable pub resolve_code : (Text → Option Text) → Text → BseScraper → BseScraper × Option Text
unfolding lookup
resolve_code master symbol s =
    find_code master (upper symbol) (lookup (upper symbol) s.code_cache) s
