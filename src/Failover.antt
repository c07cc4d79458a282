-- ===== src/Failover.antt =====
-- The multi-tier failover controller of src/engine/failover.py.
pub mod Provider
pub mod Cascade
pub mod Registry
pub mod Order
pub mod KeyErrors
pub mod Refinement
pub mod Eligible
pub mod Charges
pub mod Bulk
pub mod Coverage
pub mod Returns
mod Tests
