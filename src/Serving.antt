-- ===== src/Serving.antt =====
-- The adapter endpoints of src/api/endpoints/superbrain.py.
pub mod TtlCache
mod Tests
