-- ===== src/Limiter.antt =====
-- The token bucket of src/engine/rate_limiter.py.
mod Defs
pub mod Bounds
pub mod Waiting
mod Tests
unfoldable pub use Defs.*
