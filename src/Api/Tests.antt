-- ===== src/Api/Tests.antt =====
-- The theorems about src/api/endpoints/quotes.py at concrete inputs.
use bharat_ticker.Common.{
  ℕ, ◌≡◌, refl, false, Option, none, some, [], ◌∷◌, ◌≤◌, length, arith, ◌==◌, if◌then◌else◌,
}
use bharat_ticker.Common.Text.{Text, codes}
use bharat_ticker.Common.Integers.{ℤ}
use bharat_ticker.Common.Symbols.{is_space}
use bharat_ticker.Models.Tick.{Tick}
use bharat_ticker.Store.PubSub.{Backend}
use bharat_ticker.Cache.Ticks.{Render, set_tick, get_bulk_ticks}
use bharat_ticker.Api.Shape.{Parse, build_quote_from_tick}
use bharat_ticker.Api.Quotes.{QuoteFeeds, QuoteAnswer, DataQuality, get_eod_quote}
use bharat_ticker.Api.Cached.{get_eod_quote-set_tick}
use bharat_ticker.Api.Bulk.{symbol_list, bulk_of, get_bulk_quotes}
use bharat_ticker.Api.Accounts.{IsBulkOf, get_bulk_quotes-IsBulkOf}

abbrev write_signed : ℤ → Text
write_signed (ℤ.pos n) = b'+' ∷ n ∷ []
write_signed (ℤ.negsuc n) = b'-' ∷ n ∷ []

abbrev read_number : Text → Option ℕ
read_number [] = none
read_number (c ∷ s) = some c

abbrev read_signed : Text → Option ℤ
read_signed (c ∷ n ∷ s) = if c == b'-' then some (ℤ.negsuc n) else some (ℤ.pos n)
read_signed s = none

abbrev render : Render
render = record {
  str = λ n. n ∷ [];
  str_signed = write_signed;
  iso_now = [];
  float = λ s. none;
  int = λ v. none;
  json = λ t. [];
}

abbrev parse : Parse
parse = record { decimal = read_number; signed = read_signed; whole = read_number }

read_signed-write_signed : (i : ℤ) → read_signed (write_signed i) ≡ some i
read_signed-write_signed (ℤ.pos n) = refl
read_signed-write_signed (ℤ.negsuc n) = refl

abbrev tick : Tick
tick = record {
  symbol = codes "INFY";
  isin = none;
  exchange = codes "NSE";
  series = some (codes "EQ");
  ltp = 95;
  open_price = 100;
  high = 104;
  low = 94;
  close = 99;
  change = ℤ.negsuc 3;
  pct_change = ℤ.negsuc 3;
  volume = 50;
  value = some 0;
  vwap = none;
  upper_circuit = none;
  lower_circuit = none;
  total_buy_qty = none;
  total_sell_qty = none;
  open_interest = none;
  week_52_high = some 105;
  week_52_low = some 90;
  market_depth = none;
  timestamp = codes "t";
  source = codes "nse_scraper";
  source_latency_ms = 3;
}

abbrev backend : Backend
backend = record {
  store = record { kv = []; hashes = []; expiry = []; streams = []; stream_seq = []; groups = [] };
  hub = record { subscribers = []; queues = λ q. [] };
}

abbrev no_feeds : QuoteFeeds
no_feeds = record { is_open = false; forced = none; live = none; eod = none }

get_eod_quote-set_tick_example :
    (get_eod_quote parse no_feeds 14
      (codes "INFY")
      (codes "NSE")
      (set_tick render 10 tick backend)).1
    ≡ QuoteAnswer.served
        (build_quote_from_tick (record tick { value = none }))
        (codes "nse_scraper")
        DataQuality.quality_eod
        none
get_eod_quote-set_tick_example =
    get_eod_quote-set_tick render parse no_feeds 10 14 tick backend (λ n. refl)
      read_signed-write_signed (λ n. refl) (λ n e. ground (arith, e)) (omega arith)

-- A feed that has a tick of every symbol.
abbrev through : Text → Option Tick
through s = some tick

get_bulk_quotes-IsBulkOf_example :
    (length (symbol_list (codes "infy, tcs")) ≤ 50)
    × IsBulkOf parse through
        (get_bulk_ticks 10 (symbol_list (codes "infy, tcs")) (codes "NSE") backend).1
        (symbol_list (codes "infy, tcs"))
        (bulk_of parse through
          (get_bulk_ticks 10 (symbol_list (codes "infy, tcs")) (codes "NSE") backend).1
          (symbol_list (codes "infy, tcs")))
unfolding get_bulk_quotes is_space
get_bulk_quotes-IsBulkOf_example =
    get_bulk_quotes-IsBulkOf parse through 10 (codes "infy, tcs") (codes "NSE") backend
      (bulk_of parse through
        (get_bulk_ticks 10 (symbol_list (codes "infy, tcs")) (codes "NSE") backend).1
        (symbol_list (codes "infy, tcs")))
      refl
