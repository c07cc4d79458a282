-- ===== src/Api.antt =====
-- The endpoints of src/api/endpoints/quotes.py.
pub mod Shape
pub mod Quotes
pub mod Cached
pub mod Bulk
pub mod Accounts
mod Tests
