-- ===== src/Failover/Provider.antt =====
-- A data provider as the failover controller sees it (`DataProvider` of src/providers/base.py), and
-- what the outside does while one provider is tried.
use bharat_ticker.Common.{ℕ, ◌+◌, ◌*◌, ◌==◌, Bool, true, false, if◌then◌else◌, ◌||◌}
use bharat_ticker.Common.Text.{Text, codes, text_eq, starts_with, contains, lower}
use bharat_ticker.Breaker.{Moments, Outcome}

pub record Provider : Type 0 where
  pub name : Text
  pub tier : ℕ
  pub priority : ℕ
  pub delayed : Bool
  pub exchange : Text
  pub is_connected : Bool
  pub error_count : ℕ
  pub total_requests : ℕ
  pub total_latency : ℕ

-- `DataProvider.__init__`, over the metadata of the class.
unfoldable pub init_provider : Text → ℕ → ℕ → Bool → Text → Provider
init_provider name tier priority delayed exchange = record {
  name = name;
  tier = tier;
  priority = priority;
  delayed = delayed;
  exchange = exchange;
  is_connected = false;
  error_count = 0;
  total_requests = 0;
  total_latency = 0;
}

-- The metrics that a provider keeps of its own requests.
unfoldable pub record_success : ℕ → Provider → Provider
record_success latency p = record p {
  total_requests = p.total_requests + 1;
  total_latency = p.total_latency + latency;
}

unfoldable pub record_error : Provider → Provider
record_error p = record p { total_requests = p.total_requests + 1; error_count = p.error_count + 1 }

-- `error_rate` as a fraction: the numerator and the denominator, 0 / 1 before the first request.
unfoldable pub error_rate : Provider → ℕ × ℕ
error_rate p = if p.total_requests == 0 then (0, 1) else (p.error_count, p.total_requests)

-- `avg_latency_ms`, likewise.
unfoldable pub avg_latency : Provider → ℕ × ℕ
avg_latency p = if p.total_requests == 0 then (0, 1) else (p.total_latency, p.total_requests)

-- How a call of the abstract method `connect` ends: it returns, with the flag that it has set, or it
-- raises.
pub data Connect : Type 0 where
  connected : Bool → Connect
  connect_raised : Connect

-- What the outside does while a provider is tried: the clock at `can_execute`, at a failed connect,
-- within `execute` and at the handler of unexpected errors; how `connect` and the awaited fetch end;
-- and the connection flag after the fetch.
pub record Attempt (R : Type 0) : Type 0 where
  pub check : ℕ
  pub connect : Connect
  pub connect_failed : ℕ
  pub moments : Moments
  pub outcome : Outcome R
  pub flag_after : Bool
  pub unexpected : ℕ

-- `_source_match`.
unfoldable pub source_match : Provider → Text → Bool
source_match p source =
    let s = lower source in
    let name = lower p.name in
    if text_eq s name
    then true
    else if text_eq s (codes "nse") || text_eq s (codes "bse")
    then starts_with name s
    else if text_eq s (codes "yahoo") || text_eq s (codes "yfinance")
    then contains (codes "yahoo") name
    else false

-- The sort key of `register_provider`: `p.priority or p.tier * 10`, and the name.
unfoldable pub rank : Provider → ℕ
rank p = if p.priority == 0 then p.tier * 10 else p.priority
