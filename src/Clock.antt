-- ===== src/Clock.antt =====
-- The market clock of src/utils/ist_clock.py.
mod Defs
pub mod Sessions
pub mod NextOpen
pub mod Zones
pub mod State
mod Tests
unfoldable pub use Defs.*
