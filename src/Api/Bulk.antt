-- ===== src/Api/Bulk.antt =====
-- `get_bulk_quotes` and `get_depth` of src/api/endpoints/quotes.py.
use bharat_ticker.Common.{
  ℕ, zero, suc, ◌==◌, Bool, true, false, ◌&&◌, Option, none, some, List, [], ◌∷◌, ◌++◌, length,
  if◌then◌else◌,
}
use bharat_ticker.Common.Text.{Text, codes, upper}
use bharat_ticker.Common.Dict.{Dict, lookup, get_or}
use bharat_ticker.Common.Symbols.{strip}
use bharat_ticker.Models.Tick.{MarketDepthLevel, MarketDepth, Tick}
use bharat_ticker.Models.Validation.{◌>>=◌}
use bharat_ticker.Store.PubSub.{Backend}
use bharat_ticker.Cache.Ticks.{get_bulk_ticks, get_market_depth}
use bharat_ticker.Quotes.Bulk.{split_commas}
use bharat_ticker.Feeds.BseFetch.{BseDepth}
use bharat_ticker.Api.Shape.{FullQuoteData, Parse, build_quote_from_tick, build_quote_from_cache}

abbrev pub cons_symbol : Text → List Text → List Text
cons_symbol [] symbols = symbols
cons_symbol (c ∷ s) symbols = upper (c ∷ s) ∷ symbols

unfoldable pub clean_symbols : List Text → List Text
unfolding strip
clean_symbols [] = []
clean_symbols (part ∷ parts) = cons_symbol (strip part) (clean_symbols parts)

unfoldable pub first_symbols : ℕ → List Text → List Text
first_symbols zero symbols = []
first_symbols (suc n) [] = []
first_symbols (suc n) (s ∷ symbols) = s ∷ first_symbols n symbols

-- `symbol_list`
unfoldable pub symbol_list : Text → List Text
unfolding split_commas clean_symbols first_symbols
symbol_list symbols = first_symbols 50 (clean_symbols (split_commas symbols))

-- The quote of a cached hash, none if there is none that can be read.
abbrev pub cached_quote : Parse → Option (Dict Text) → Option FullQuoteData
cached_quote p none = none
cached_quote p (some []) = none
cached_quote p (some (x ∷ d)) = build_quote_from_cache p (x ∷ d)

abbrev pub add_cached :
    Text → Option FullQuoteData → List FullQuoteData × List Text → List FullQuoteData × List Text
add_cached s none (data', miss) = (data', s ∷ miss)
add_cached s (some q) (data', miss) = (q ∷ data', miss)

-- The first loop: the quotes from the cache, and `miss`.
unfoldable pub from_cache : Parse → Dict (Dict Text) → List Text → List FullQuoteData × List Text
unfolding lookup build_quote_from_cache
from_cache p ticks [] = ([], [])
from_cache p ticks (s ∷ symbols) =
    add_cached s (cached_quote p (lookup s ticks)) (from_cache p ticks symbols)

abbrev pub add_fetched :
    Text → Option Tick → List FullQuoteData × List Text → List FullQuoteData × List Text
add_fetched s none (data', failed) = (data', s ∷ failed)
add_fetched s (some tick) (data', failed) = (build_quote_from_tick tick ∷ data', failed)

-- The second loop: `through` is `get_quote_through` of a symbol.
unfoldable pub fetch_missing : (Text → Option Tick) → List Text → List FullQuoteData × List Text
unfolding build_quote_from_tick
fetch_missing through [] = ([], [])
fetch_missing through (s ∷ miss) = add_fetched s (through s) (fetch_missing through miss)

pub record BulkQuotes : Type 0 where
  pub is_partial : Bool
  pub quotes : List FullQuoteData
  pub failed_symbols : List Text

abbrev pub has_any : List Text → Bool
has_any [] = false
has_any (s ∷ symbols) = true

unfoldable pub bulk_of : Parse → (Text → Option Tick) → Dict (Dict Text) → List Text → BulkQuotes
unfolding from_cache fetch_missing
bulk_of p through ticks symbols =
    let (cached, miss) = from_cache p ticks symbols in
    let (fetched, failed) = fetch_missing through miss in
    record { is_partial = has_any failed; quotes = cached ++ fetched; failed_symbols = failed }

-- `get_bulk_quotes`: none is the error 400.
unfoldable pub get_bulk_quotes :
    Parse → (Text → Option Tick) → ℕ → Text → Text → Backend → Backend × Option BulkQuotes
unfolding symbol_list bulk_of get_bulk_ticks
get_bulk_quotes p through now symbols exchange b =
    let names = symbol_list symbols in
    let (b', ticks) = get_bulk_ticks now names exchange b in
    if has_any names then (b', some (bulk_of p through ticks names)) else (b, none)

-- A level of the order book that the cache's hash has, nothing if it has no price there.
unfoldable pub hash_level : Parse → Text → Dict Text → Option Text → Option (List MarketDepthLevel)
unfolding get_or
hash_level p prefix d none = some []
hash_level p prefix d (some []) = some []
hash_level p prefix d (some (c ∷ s)) = do
  price ← p.decimal (c ∷ s)
  quantity ← p.whole (get_or (prefix ++ codes "_qty") (codes "0") d)
  orders ← p.whole (get_or (prefix ++ codes "_orders") (codes "0") d)
  some (record { price = price; quantity = quantity; orders = orders } ∷ [])

-- The levels of a side, for the digits of `range(5)`.
unfoldable pub hash_levels : Parse → Text → Dict Text → List ℕ → Option (List MarketDepthLevel)
unfolding hash_level lookup
hash_levels p side d [] = some []
hash_levels p side d (i ∷ digits) = do
  let prefix = side ++ (i ∷ [])
  level ← hash_level p prefix d (lookup (prefix ++ codes "_price") d)
  levels ← hash_levels p side d digits
  some (level ++ levels)

unfoldable pub hash_depth : Parse → Dict Text → Option MarketDepth
unfolding hash_levels get_or
hash_depth p d = do
  let digits = b'0' ∷ b'1' ∷ b'2' ∷ b'3' ∷ b'4' ∷ []
  buy ← hash_levels p (codes "buy_") d digits
  sell ← hash_levels p (codes "sell_") d digits
  total_buy ← p.whole (get_or (codes "total_buy_qty") (codes "0") d)
  total_sell ← p.whole (get_or (codes "total_sell_qty") (codes "0") d)
  some (record {
    buy = buy;
    sell = sell;
    total_buy_quantity = total_buy;
    total_sell_quantity = total_sell;
  })

-- The answer of `get_depth`: the book of the cache, the live one of the BSE, 404, or an exception.
pub data DepthAnswer : Type 0 where
  cached_depth : MarketDepth → DepthAnswer
  live_depth : BseDepth → DepthAnswer
  no_depth : DepthAnswer
  depth_raised : DepthAnswer

abbrev pub live_or_none : Option BseDepth → DepthAnswer
live_or_none none = DepthAnswer.no_depth
live_or_none (some depth) =
    if (length depth.buy == 0) && (length depth.sell == 0)
    then DepthAnswer.no_depth
    else DepthAnswer.live_depth depth

abbrev pub read_depth : Option MarketDepth → DepthAnswer
read_depth none = DepthAnswer.depth_raised
read_depth (some depth) = DepthAnswer.cached_depth depth

unfoldable pub depth_answer : Parse → Option BseDepth → Option (Dict Text) → DepthAnswer
unfolding hash_depth
depth_answer p live none = live_or_none live
depth_answer p live (some d) = read_depth (hash_depth p d)

-- `get_depth`; `live` is what the market data service gives.
unfoldable pub get_depth :
    Parse → Option BseDepth → ℕ → Text → Text → Backend → Backend × DepthAnswer
unfolding depth_answer get_market_depth strip
get_depth p live now symbol exchange b =
    let (b', found) = get_market_depth now (upper (strip symbol)) exchange b in
    (b', depth_answer p live found)
