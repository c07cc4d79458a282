-- ===== src/Calendar.antt =====
-- The trading calendar of src/config/holidays.py.
pub mod Date
pub mod Ordinals
pub mod Holidays
pub mod TradingDays
pub mod Nearest
mod Tests
