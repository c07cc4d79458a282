-- ===== src/Quotes/Tests.antt =====
-- One symbol with a warm quote and one that the feeds answer (src/api/endpoints/superbrain.py).
use bharat_ticker.Common.{ℕ, ◌≤◌, ◌≡◌, true, false, none, some, [], ◌∷◌, length, arith}
use bharat_ticker.Common.Text.{codes}
use bharat_ticker.Common.Integers.{ℤ}
use bharat_ticker.Models.Tick.{Tick}
use bharat_ticker.Quotes.Shape.{SbQuote, Quality}
use bharat_ticker.Quotes.Flight.{no_flight, join_flight, Reachable}
use bharat_ticker.Quotes.Live.{fetches_of, Reachable-single_flight}
use bharat_ticker.Quotes.Batch.{World, Desk, Outcome}
use bharat_ticker.Quotes.Bulk.{requested, sb_quotes}
use bharat_ticker.Quotes.Answers.{Answers, sb_quotes-Answers}

abbrev tick : Tick
tick = record {
  symbol = b'A' ∷ [];
  isin = none;
  exchange = codes "NSE";
  series = none;
  ltp = 95;
  open_price = 100;
  high = 104;
  low = 94;
  close = 99;
  change = ℤ.negsuc 3;
  pct_change = ℤ.negsuc 3;
  volume = 50;
  value = none;
  vwap = none;
  upper_circuit = none;
  lower_circuit = none;
  total_buy_qty = none;
  total_sell_qty = none;
  open_interest = none;
  week_52_high = some 103;
  week_52_low = some 96;
  market_depth = none;
  timestamp = codes "t";
  source = codes "groww";
  source_latency_ms = 3;
}

abbrev quote : SbQuote
quote = record {
  symbol = b'B' ∷ [];
  company_name = b'B' ∷ [];
  sector = none;
  price = some 7;
  change = none;
  change_pct = none;
  open_price = some 6;
  high = none;
  low = none;
  volume = 1;
  previous_close = none;
  upper_circuit = none;
  lower_circuit = none;
  week_52_high = none;
  week_52_low = none;
  total_buy_qty = none;
  total_sell_qty = none;
  open_interest = none;
  vwap = none;
  isin = none;
  source = codes "tickertape_realtime_nse";
  data_quality = Quality.real_time;
  is_live = true;
  feed_latency = none;
  fresh = record { fetched_at = []; as_of = []; feed_lag = none };
}

abbrev world : World
world = record {
  conf = record { sample_maxlen = 9; primary_source_ttl = 20 };
  now = 10;
  now_iso = codes "n";
  today = codes "d";
  is_open = true;
  lag = λ s. none;
  round = λ n. n;
  percent = λ c p. c;
  through = λ s e x. Outcome.got (some tick);
  batch = λ syms. Outcome.raised;
  resolve = λ s. Outcome.raised;
  get_isin = λ s. none;
  get_details = λ s e. Outcome.raised;
  live_ttl = 1;
  warm_ttl = 10;
}

abbrev desk : Desk
desk = record {
  metas = [];
  live = [];
  warm = ((b'B' ∷ [], (5, quote)) ∷ []);
  session_open = [];
  engine = record { samples = []; last_read = []; primary_src = []; primary_ts = [] };
}

sb_quotes-Answers_example :
    Answers world
      (codes "NSE")
      false
      false
      false
      desk
      (requested (codes "A,B"))
      (sb_quotes world (codes "A,B") (codes "NSE") false false false [] desk).1
    × (length (requested (codes "A,B")) ≤ 200)
sb_quotes-Answers_example =
    sb_quotes-Answers world (codes "A,B") (codes "NSE") false false false [] desk

has_open : ¬ (quote.open_price ≡ none)
has_open h = ground (arith, h)

Reachable-single_flight_example :
    fetches_of
      (b'K' ∷ [])
      (join_flight 1 0 (b'K' ∷ []) (join_flight 1 0 (b'K' ∷ []) (no_flight {T = ℕ})).0).0.fetches
    ≤ 1
Reachable-single_flight_example =
    Reachable-single_flight 1
      (join_flight 1 0 (b'K' ∷ []) (join_flight 1 0 (b'K' ∷ []) (no_flight {T = ℕ})).0).0
      (b'K' ∷ []) (Reachable.asked 0 (b'K' ∷ []) (Reachable.asked 0 (b'K' ∷ []) Reachable.start))
