-- ===== src/Feeds/Tests.antt =====
-- The theorems about the feeds of src/providers at concrete inputs.
use bharat_ticker.Common.{ℕ, ◌≡◌, refl, true, false, Option, none, some, List, [], ◌∷◌, ◌-◌, arith}
use bharat_ticker.Common.Text.{Text, codes, text_eq, upper}
use bharat_ticker.Common.Dict.{Dict}
use bharat_ticker.Common.Integers.{ℤ}
use bharat_ticker.Common.Symbols.{is_space}
use bharat_ticker.Models.Tick.{Tick}
use bharat_ticker.Failover.Provider.{Provider}
use bharat_ticker.Proxies.{ProxyStrategy}
use bharat_ticker.Quotes.Shape.{sb_quote}
use bharat_ticker.Feeds.Json.{Json, Reading}
use bharat_ticker.Feeds.NseQuote.{NseReply, Section, parse_nse_quote}
use bharat_ticker.Feeds.NseWeek.{no_week_low-served}
use bharat_ticker.Feeds.NseSession.{NseScraper, Home}
use bharat_ticker.Feeds.NseFetch.{Answer, Feed, fetch_quote}
use bharat_ticker.Feeds.NseCounts.{IsCharged}
use bharat_ticker.Feeds.NseBudget.{fetch_quote-IsCharged}
use bharat_ticker.Feeds.NseResend.{fetch_quote-resends}
use bharat_ticker.Feeds.Archive.{Archive, ArchiveHost, download, ensure_loaded}
use bharat_ticker.Feeds.ArchiveLoad.{ensure_loaded-repeats}
use bharat_ticker.Feeds.ArchiveRows.{IsListed, ensure_loaded-IsListed}
use bharat_ticker.Feeds.Bse.{BseReply, bse_prices, parse}
use bharat_ticker.Feeds.BseChange.{parse-no_price}

abbrev base : Provider
base = record {
  name = codes "nse_scraper";
  tier = 1;
  priority = 10;
  delayed = false;
  exchange = codes "NSE";
  is_connected = true;
  error_count = 0;
  total_requests = 0;
  total_latency = 0;
}

abbrev scraper : NseScraper
scraper = record {
  base = base;
  proxy = none;
  cookies = (codes "nsit", codes "a") ∷ [];
  last_cookie_refresh = 1000;
  pool = record {
    proxies = [];
    strategy = ProxyStrategy.random;
    idx = 0;
    uses = [];
    dead_until = [];
  };
  sent = [];
}

-- A feed of prices: 403 first, then a price.
abbrev feed : Feed ℕ
feed = record {
  connect_at = 1000;
  connect_home = Home.home_raised;
  checked = 1010;
  ensure_home = Home.home_raised;
  first = Answer.answered 403 none;
  refused_at = 1011;
  refresh_home = Home.home_ok ((codes "nsit", codes "b") ∷ []) 1011;
  second = Answer.answered 500 none;
  rotate_at = 1012;
  rotate_home = Home.home_raised;
  rechecked = 1012;
  reensure_home = Home.home_raised;
  third = Answer.answer_raised;
  latency = 5;
}

abbrev no_parse : ℕ → ℕ → Option Tick
no_parse latency n = none

abbrev first_choice : Text → List Text → Text
first_choice p ps = p

fetch_quote-IsCharged_example :
    IsCharged 3 2 scraper (fetch_quote no_parse 90 first_choice feed scraper)
fetch_quote-IsCharged_example = fetch_quote-IsCharged no_parse 90 first_choice feed scraper

fetch_quote-resends_example :
    (rest : List (Dict Text)) × ((fetch_quote no_parse 90 first_choice feed scraper).0.sent
      ≡ ((codes "nsit", codes "a") ∷ []) ∷ ((codes "nsit", codes "a") ∷ []) ∷ rest)
fetch_quote-resends_example =
    fetch_quote-resends no_parse 90 first_choice feed scraper none refl refl refl refl

abbrev reading : Reading
reading = record { decimal = λ s. none; whole = λ j. some (ℤ.pos 0) }

abbrev reply : NseReply
reply = record {
  info = Section.missing;
  price_info = Section.object ((codes "lastPrice", Json.number (ℤ.pos 2900)) ∷ []);
  intra_day_high_low = Section.missing;
  week_high_low = Section.missing;
  security_info = Section.missing;
  order_book = none;
}

abbrev parsed : Tick
parsed = record {
  symbol = codes "RELIANCE";
  isin = none;
  exchange = codes "NSE";
  series = some (codes "EQ");
  ltp = 2900;
  open_price = 0;
  high = 2900;
  low = 2900;
  close = 0;
  change = ℤ.pos 0;
  pct_change = ℤ.pos 0;
  volume = 0;
  value = some 0;
  vwap = some 0;
  upper_circuit = some 0;
  lower_circuit = some 0;
  total_buy_qty = none;
  total_sell_qty = none;
  open_interest = none;
  week_52_high = some 0;
  week_52_low = some 0;
  market_depth = none;
  timestamp = [];
  source = codes "nse_scraper";
  source_latency_ms = 5;
}

no_week_low-served_example : (sb_quote [] true (λ s. none) [] (λ n. n) parsed).week_52_low ≡ some 0
unfolding parse_nse_quote upper is_space text_eq
no_week_low-served_example =
    no_week_low-served reading [] (codes "reliance") 5 reply parsed [] true (λ s. none) [] (λ n. n)
      tt refl

abbrev row : Dict Text
row = (codes "SYMBOL", codes "RELIANCE") ∷ (codes "SERIES", codes "EQ") ∷ []

-- Today's file is not there yet.
abbrev host : ArchiveHost
host = record { file = λ day. none; days_ago = λ n. (b'9' - n) ∷ [] }

abbrev archive : Archive
archive = record {
  base = base;
  rows = (codes "RELIANCE", row) ∷ [];
  loaded_date = some (codes "8");
  loaded_at = 1000;
  last_attempt = 1000;
  asked = [];
}

ensure_loaded-repeats_example :
    ensure_loaded host 5001 (ensure_loaded host 5000 archive)
    ≡ record archive { last_attempt = 5001; asked = codes "9" ∷ codes "9" ∷ [] }
unfolding text_eq download
ensure_loaded-repeats_example =
    ensure_loaded-repeats host 5000 5001 1 archive (codes "8") (omega arith) refl refl
      (refl, refl, refl) (omega arith) (omega arith)

-- The file of a day, with the spaces that it has after its commas.
abbrev filled_host : ArchiveHost
filled_host = record {
  file =
      λ day. some (((codes "SYMBOL", codes "RELIANCE") ∷ (codes " SERIES", codes " EQ") ∷ []) ∷ []);
  days_ago = λ n. [];
}

abbrev no_archive : Archive
no_archive = record archive { rows = []; loaded_date = none }

ensure_loaded-IsListed_example : IsListed (ensure_loaded filled_host 5000 no_archive).rows
ensure_loaded-IsListed_example = ensure_loaded-IsListed filled_host 5000 no_archive tt

abbrev closed_reply : BseReply
closed_reply = record { header = (codes "PrevClose", Json.number (ℤ.pos 2900)) ∷ []; curr = [] }

abbrev closed_tick : Tick
closed_tick = record parsed {
  exchange = codes "BSE";
  high = 2900;
  low = 2900;
  open_price = 2900;
  close = 2900;
  change = ℤ.negsuc 2899;
  pct_change = ℤ.negsuc 9999;
  value = none;
  vwap = none;
  upper_circuit = none;
  lower_circuit = none;
  week_52_high = none;
  week_52_low = none;
  source = codes "bse_scraper";
}

parse-no_price_example :
    (closed_tick.ltp ≡ 2900) × (closed_tick.close ≡ 2900) × (closed_tick.change ≡ ℤ.negsuc 2899)
unfolding parse bse_prices text_eq upper is_space
parse-no_price_example =
    parse-no_price reading (λ change prev. ℤ.negsuc 9999) (λ d. d) [] (codes "reliance") 5
      closed_reply closed_tick 2899 (refl, refl, refl) refl
