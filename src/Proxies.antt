-- ===== src/Proxies.antt =====
-- The proxy pool of src/providers/proxy_pool.py.
mod Defs
pub mod Choice
pub mod Rotation
mod Tests
unfoldable pub use Defs.*
