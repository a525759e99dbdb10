-- ===== src/Rinex.antt =====
-- The RINEX logger: main/rinex_satid.h and main/rinex_logger.cpp.
pub mod SatId
pub mod Feed
pub mod Framing
pub mod Records
pub mod Slots
pub mod Best
pub mod Files
pub mod Names
pub mod Content
pub mod Rows
mod Tests
