-- ===== src/Store.antt =====
-- The in-memory store of src/cache/memory_store.py: keys and hashes with expiry, streams, and
-- subscribers.
mod Defs
pub mod Expiry
pub mod Buffer
pub mod Delivery
pub mod PubSub
pub mod Publish
mod Tests
unfoldable pub use Defs.*
