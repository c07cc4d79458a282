-- ===== src/Failover/Registry.antt =====
-- Registration and the enable flags of `FailoverController` (src/engine/failover.py), and connecting.
use mathlib.Core.Option
use bharat_ticker.Common.{
  ℕ, ◌==◌, ltb, Bool, true, false, ◌&&◌, ◌||◌, Option, none, some, List, [], ◌∷◌, ◌++◌,
  if◌then◌else◌,
}
use bharat_ticker.Common.Text.{Text, text_eq, text_leb}
use bharat_ticker.Common.Dict.{Dict, lookup, insert, has_key, get_or}
use bharat_ticker.Breaker.{Breaker, CircuitState, Settings, init, read_state}
use bharat_ticker.Failover.Provider.{
  Provider, Connect, connected, connect_raised, source_match, rank, error_rate, avg_latency,
}
use bharat_ticker.Failover.Cascade.{Controller}

unfoldable pub init_controller : Controller
init_controller = record { providers = []; circuit_breakers = []; enabled = [] }

-- The order of the sort: by rank, and by name where the ranks are equal.
unfoldable pub precedes : Provider → Provider → Bool
unfolding rank
precedes p r = ltb (rank p) (rank r) || ((rank p == rank r) && text_leb p.name r.name)

unfoldable pub insert_sorted : Provider → List Provider → List Provider
unfolding precedes
insert_sorted p [] = p ∷ []
insert_sorted p (r ∷ rs) = if precedes p r then p ∷ r ∷ rs else r ∷ insert_sorted p rs

-- Python's stable `sort` of the providers.
unfoldable pub sort : List Provider → List Provider
unfolding insert_sorted
sort [] = []
sort (p ∷ ps) = insert_sorted p (sort ps)

-- `dict.setdefault`
unfoldable pub setdefault {ℓ} : {V : Type ℓ} → Text → V → Dict V → Dict V
setdefault k v d = if has_key k d then d else insert k v d

unfoldable pub register_provider : Settings → Provider → Controller → Controller
unfolding sort setdefault
register_provider settings p c = record {
  providers = sort (c.providers ++ (p ∷ []));
  circuit_breakers = insert p.name (init settings p.name none none none) c.circuit_breakers;
  enabled = setdefault p.name true c.enabled;
}

unfoldable pub matches : Text → Provider → Bool
matches name p = text_eq p.name name || source_match p name

-- The loop of `set_enabled`.
unfoldable pub set_each : Text → Bool → List Provider → Dict Bool × Bool → Dict Bool × Bool
unfolding matches
set_each name on [] acc = acc
set_each name on (p ∷ ps) (enabled, matched) =
    set_each name on ps
      (if matches name p then (insert p.name on enabled, true) else (enabled, matched))

unfoldable pub set_enabled : Text → Bool → Controller → Controller × Bool
unfolding set_each
set_enabled name on c =
    let (enabled, matched) = set_each name on c.providers (c.enabled, false) in
    (record c { enabled = enabled }, matched)

unfoldable pub is_enabled : Text → Controller → Bool
is_enabled name c = get_or name true c.enabled

-- `connect_all` and `disconnect_all`: a provider that raises keeps its flag, and the loop goes on.
unfoldable pub connect_each : (Provider → Connect) → List Provider → List Provider
connect_each world [] = []
connect_each world (p ∷ ps) =
    (elim (world p) [ connected flag ↦ record p { is_connected = flag } | connect_raised ↦ p ])
    ∷ connect_each world ps

unfoldable pub connect_all : (Provider → Connect) → Controller → Controller
unfolding connect_each
connect_all world c = record c { providers = connect_each world c.providers }

-- An entry of `list_status`; the two averages are fractions, not yet rounded.
pub record Status : Type 0 where
  pub name : Text
  pub exchange : Text
  pub tier : ℕ
  pub priority : ℕ
  pub enabled : Bool
  pub circuit_state : CircuitState
  pub avg_latency : ℕ × ℕ
  pub error_rate : ℕ × ℕ
  pub connected : Bool

-- The loop of `list_status`, with the clock at each read of a state, which may change a breaker.
-- `none` is a `KeyError`.
unfoldable pub list_each :
    (Provider → ℕ) → Dict Bool → List Provider → Dict Breaker → Dict Breaker × Option (List Status)
unfolding rank error_rate avg_latency read_state
list_each clock enabled [] breakers = (breakers, some [])
list_each clock enabled (p ∷ ps) breakers = elim (lookup p.name breakers) [
  | none ↦ (breakers, none)
  | some cb ↦
      let cb' = read_state (clock p) cb in
      let (bs, out) = list_each clock enabled ps (insert p.name cb' breakers) in
      let entry : Status = record {
        name = p.name;
        exchange = p.exchange;
        tier = p.tier;
        priority = rank p;
        enabled = get_or p.name true enabled;
        circuit_state = cb'.state;
        avg_latency = avg_latency p;
        error_rate = error_rate p;
        connected = p.is_connected;
      } in
      (bs, Option.map (◌∷◌ entry) out)
]

unfoldable pub list_status : (Provider → ℕ) → Controller → Controller × Option (List Status)
unfolding list_each
list_status clock c =
    let (bs, out) = list_each clock c.enabled c.providers c.circuit_breakers in
    (record c { circuit_breakers = bs }, out)
