-- ===== src/Cache/Tests.antt =====
-- A tick that is cached, and a depth that loses a level (src/cache/ticker_cache.py).
use bharat_ticker.Common.{refl, false, none, some, [], ◌∷◌}
use bharat_ticker.Common.Text.{codes, text_eq}
use bharat_ticker.Common.Dict.{lookup}
use bharat_ticker.Common.Integers.{ℤ}
use bharat_ticker.Models.Tick.{MarketDepth, Tick}
use bharat_ticker.Store.PubSub.{Backend}
use bharat_ticker.Cache.Ticks.{Render, tick_to_hash, set_tick, get_tick, depth_key}
use bharat_ticker.Cache.Reads.{ReadsAs, get_tick-set_tick}

abbrev render : Render
render = record {
  str = λ n. n ∷ [];
  str_signed = λ n. [];
  iso_now = [];
  float = λ s. none;
  int = λ v. none;
  json = λ t. [];
}

abbrev tick : Tick
tick = record {
  symbol = codes "A";
  isin = none;
  exchange = codes "NSE";
  series = none;
  ltp = 95;
  open_price = 100;
  high = 104;
  low = 94;
  close = 99;
  change = ℤ.negsuc 3;
  pct_change = ℤ.negsuc 3;
  volume = 50;
  value = none;
  vwap = none;
  upper_circuit = none;
  lower_circuit = none;
  total_buy_qty = none;
  total_sell_qty = none;
  open_interest = none;
  week_52_high = some 103;
  week_52_low = some 96;
  market_depth = none;
  timestamp = codes "t";
  source = codes "groww";
  source_latency_ms = 3;
}

abbrev backend : Backend
backend = record {
  store = record {
    kv = [];
    hashes = ((depth_key (codes "NSE") (codes "A"), (codes "buy_0_qty", codes "9") ∷ []) ∷ []);
    expiry = [];
    streams = [];
    stream_seq = [];
    groups = [];
  };
  hub = record { subscribers = ((codes "c", 1 ∷ 2 ∷ []) ∷ []); queues = λ q. [] };
}

get_tick-set_tick_example :
    ReadsAs false
      (codes "ltp")
      (95 ∷ [])
      (get_tick 14 (codes "A") (codes "NSE") (set_tick render 10 tick backend)).1
unfolding tick_to_hash lookup text_eq
get_tick-set_tick_example = get_tick-set_tick render 10 14 tick backend (codes "ltp") (95 ∷ []) refl

abbrev no_bids : MarketDepth
no_bids = record { buy = []; sell = []; total_buy_quantity = 0; total_sell_quantity = 0 }
