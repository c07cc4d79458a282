-- ===== src/Breaker.antt =====
-- The circuit breaker of a provider: src/engine/circuit_breaker.py.
-- A breaker is a record of the fields of `CircuitBreaker`; a method takes one clock reading (a
-- number of clock units) for each `time.time()` that it makes, and returns the new breaker. Only
-- differences of readings are used. The log calls and the message of an error are left out.
mod Defs
pub mod Invariant
pub mod Opening
pub mod Recovery
pub mod Calls
mod Tests
unfoldable pub use Defs.*
