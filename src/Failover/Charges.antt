-- ===== src/Failover/Charges.antt =====
-- What a failing provider is charged by the cascade of src/engine/failover.py: `execute` records every
-- raise, and the handler of unexpected errors records it once more.
use bharat_ticker.Common.{ℕ, ◌+◌, ◌≡◌, true, false, arith}
use bharat_ticker.Breaker.{
  Breaker, closed, open_circuit, raised, ErrorKind, provider_error, other_error, execute,
  can_execute,
}
use bharat_ticker.Failover.Provider.{Provider, Attempt, connect_raised}
use bharat_ticker.Failover.Cascade.{attempt}

-- The failures that one failed fetch counts for.
abbrev pub charge : ErrorKind → ℕ
charge provider_error = 1
charge other_error = 2

module _ {T : Type 0} (a : Attempt T) (p : Provider) (cb : Breaker)
    (closed_now : cb.state ≡ closed) where
  -- A connected provider with a closed circuit is charged one failure for a `ProviderError` of its
  -- fetch and two for any other exception.
  pub attempt-charge :
      (e : ErrorKind)
      → p.is_connected ≡ true
      → a.outcome ≡ raised e
      → (attempt a p cb).1.failure_count ≡ cb.failure_count + charge e
  unfolding attempt execute can_execute
  attempt-charge provider_error up h = ground arith
  attempt-charge other_error up h = ground arith

  -- The circuit of a connected provider, closed and with its failures two short of the threshold,
  -- opens on a single unexpected exception of the provider's fetch.
  pub unexpected_opens :
      p.is_connected ≡ true
      → a.outcome ≡ raised other_error
      → cb.failure_count + 2 ≡ cb.failure_threshold
      → (attempt a p cb).1.state ≡ open_circuit
  unfolding attempt execute can_execute
  unexpected_opens up h near = ground arith

  -- A provider that is not connected and fails to connect is charged one failure, and not asked.
  pub connect-charge :
      p.is_connected ≡ false
      → a.connect ≡ connect_raised
      → (attempt a p cb).1.failure_count ≡ cb.failure_count + 1
  unfolding attempt execute can_execute
  connect-charge down h = ground arith
