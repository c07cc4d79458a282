-- ===== src/Feeds/BseFetch.antt =====
-- The requests of `BSEScraper` (src/providers/bse_scraper.py): a quote, many quotes, the order book and
-- the curve of a day.
use bharat_ticker.Common.{
  ℕ, zero, suc, ◌==◌, Bool, true, false, Option, none, some, List, [], ◌∷◌, ◌++◌, if◌then◌else◌,
}
use bharat_ticker.Common.Text.{Text, codes, text_leb}
use bharat_ticker.Common.Dict.{Dict}
use bharat_ticker.Common.Integers.{ℤ}
use bharat_ticker.Models.Tick.{Tick}
use bharat_ticker.Failover.Provider.{record_success, record_error}
use bharat_ticker.Feeds.Json.{Json, Reading, get_json, is_positive}
use bharat_ticker.Feeds.NseFetch.{Answer, Failure, Fetched, is_ok, add_tick}
use bharat_ticker.Feeds.Bse.{BseScraper, dec, warmup, connect, resolve_code}

-- What the outside does during one call. `master` gives the code of a symbol.
pub record BseFeed (D : Type 0) : Type 0 where
  pub now : ℕ
  pub home_ok : Bool
  pub master : Text → Option Text
  pub answer : Answer D
  pub latency : ℕ

abbrev pub failing : Failure → BseScraper → BseScraper × Fetched
failing why s = (record s { base = record_error s.base }, Fetched.failed why)

module _ {D : Type 0} (parse : ℕ → D → Option Tick) where
  unfoldable pub take_tick : ℕ → Option Tick → BseScraper → BseScraper × Fetched
  unfolding record_success
  take_tick latency none s = (s, Fetched.failed Failure.schema_error)
  take_tick latency (some tick) s =
      (record s { base = record_success latency s.base }, Fetched.got tick)

  unfoldable pub take_body : ℕ → Option D → BseScraper → BseScraper × Fetched
  unfolding take_tick record_error
  take_body latency none s = failing Failure.provider_error s
  take_body latency (some d) s = take_tick latency (parse latency d) s

  unfoldable pub use_answer : ℕ → Answer D → BseScraper → BseScraper × Fetched
  unfolding take_body
  use_answer latency Answer.answer_raised s = failing Failure.provider_error s
  use_answer latency (Answer.answered status body) s =
      let taken = take_body latency body s in
      if status == 403
      then failing Failure.blocked_error s
      else if status == 200
      then taken
      else failing Failure.provider_error s

  abbrev pub quote_of_code : BseFeed D → BseScraper × Option Text → BseScraper × Fetched
  quote_of_code w (s, none) = failing Failure.provider_error s
  quote_of_code w (s, some code) = use_answer w.latency w.answer s

  abbrev pub warmed_up : ℕ → BseFeed D → BseScraper → BseScraper
  warmed_up interval w s = warmup interval w.now w.home_ok (connect interval w.now w.home_ok s)

  -- `fetch_quote`
  unfoldable pub fetch_quote : ℕ → BseFeed D → Text → BseScraper → BseScraper × Fetched
  unfolding use_answer resolve_code warmup connect
  fetch_quote interval w symbol s =
      quote_of_code w (resolve_code w.master symbol (warmed_up interval w s))

  -- `fetch_bulk`; its tasks run one after the other here.
  unfoldable pub fetch_bulk : ℕ → List (Text × BseFeed D) → BseScraper → BseScraper × List Tick
  unfolding fetch_quote
  fetch_bulk interval [] s = (s, [])
  fetch_bulk interval ((symbol, w) ∷ symbols) s =
      let (s', fetched) = fetch_quote interval w symbol s in
      let (s'', results) = fetch_bulk interval symbols s' in (s'', add_tick fetched results)

-- `health_check`
unfoldable pub health_check : {D : Type 0} → Answer D → BseScraper → Bool
health_check answer s = if s.base.is_connected then is_ok answer else false

-- A level of the order book that `fetch_depth` gives.
pub record BseLevel : Type 0 where
  pub price : ℤ
  pub quantity : ℤ

-- `if bp:`
abbrev pub is_truthy : Json → Bool
is_truthy Json.null = false
is_truthy (Json.number (ℤ.pos zero)) = false
is_truthy (Json.number (ℤ.pos (suc n))) = true
is_truthy (Json.number (ℤ.negsuc n)) = true
is_truthy (Json.text []) = false
is_truthy (Json.text (c ∷ s)) = true
is_truthy Json.other = true

pub record BseDepth : Type 0 where
  pub buy : List BseLevel
  pub sell : List BseLevel
  pub total_buy_quantity : ℤ
  pub total_sell_quantity : ℤ
  pub updated_at : Json

module _ (r : Reading) (truncate : ℤ → ℤ) (d : Dict Json) where
  -- The levels of one side, for the digits that the loop goes through.
  unfoldable pub side : Text → Text → List ℕ → List BseLevel
  unfolding dec get_json
  side price quantity [] = []
  side price quantity (i ∷ digits) =
      let rest = side price quantity digits in
      let p = get_json (price ++ (i ∷ [])) d in
      let q = get_json (quantity ++ (i ∷ [])) d in
      if is_truthy p then record { price = dec r p; quantity = truncate (dec r q) } ∷ rest else rest

  -- `fetch_depth` from the reply on.
  unfoldable pub bse_depth : BseDepth
  unfolding side
  bse_depth =
      let digits = b'1' ∷ b'2' ∷ b'3' ∷ b'4' ∷ b'5' ∷ [] in
      record {
        buy = side (codes "BPrice") (codes "BQty") digits;
        sell = side (codes "SPrice") (codes "SQty") digits;
        total_buy_quantity = truncate (dec r (get_json (codes "TotalBQty") d));
        total_sell_quantity = truncate (dec r (get_json (codes "TotalSQty") d));
        updated_at = get_json (codes "dttm") d;
      }

-- An entry of `Data` in the reply of `StockReachGraph`, and of the curve.
pub record GraphPoint : Type 0 where
  pub dttm : Option Text
  pub vale1 : Json
  pub vole : Json

pub record CurvePoint : Type 0 where
  pub timestamp : Text
  pub price : ℤ
  pub volume : ℤ

-- `strptime` and `isoformat` of a time stamp: none is a `ValueError`.
module _ (r : Reading) (truncate : ℤ → ℤ) (iso : Text → Option Text) where
  abbrev pub stamped : Option Text → ℤ → ℤ → List CurvePoint → List CurvePoint
  stamped none price volume out = out
  stamped (some timestamp) price volume out =
      record { timestamp = timestamp; price = price; volume = volume } ∷ out

  -- The loop's body.
  abbrev pub add_graph_point : Option Text → ℤ → ℤ → List CurvePoint → List CurvePoint
  add_graph_point none price volume out = out
  add_graph_point (some []) price volume out = out
  add_graph_point (some (c ∷ s)) price volume out =
      if is_positive price then stamped (iso (c ∷ s)) price volume out else out

  unfoldable pub graph_points : List GraphPoint → List CurvePoint
  unfolding dec
  graph_points [] = []
  graph_points (p ∷ pts) =
      add_graph_point p.dttm (dec r p.vale1) (truncate (dec r p.vole)) (graph_points pts)

-- `out.sort(...)`, which is stable.
unfoldable pub insert_point : CurvePoint → List CurvePoint → List CurvePoint
insert_point p [] = p ∷ []
insert_point p (q ∷ out) =
    let rest = insert_point p out in
    if text_leb p.timestamp q.timestamp then p ∷ q ∷ out else q ∷ rest

unfoldable pub sort_points : List CurvePoint → List CurvePoint
unfolding insert_point
sort_points [] = []
sort_points (p ∷ out) = insert_point p (sort_points out)

-- `fetch_intraday_graph` from the points of the reply on.
unfoldable pub graph_curve :
    Reading → (ℤ → ℤ) → (Text → Option Text) → List GraphPoint → List CurvePoint
unfolding graph_points sort_points
graph_curve r truncate iso pts = sort_points (graph_points r truncate iso pts)
