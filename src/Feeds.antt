-- ===== src/Feeds.antt =====
-- The feeds of the exchanges: the scraper of the NSE (src/providers/nse_scraper.py), its archive
-- (src/providers/nse_archive.py), and the scraper of the BSE (src/providers/bse_scraper.py).
pub mod Json
pub mod NseQuote
pub mod NseWeek
pub mod NseSession
pub mod NseFetch
pub mod NseCounts
pub mod NseBudget
pub mod NseResend
pub mod Archive
pub mod ArchiveQuote
pub mod ArchiveLoad
pub mod ArchiveRows
pub mod Bse
pub mod BseFetch
pub mod BseChange
mod Tests
