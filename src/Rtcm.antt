-- ===== src/Rtcm.antt =====
-- The RTCM3 path of main/base_station.cpp: framing of the receiver's bytes, the batch of the local
-- caster, and the mailbox of the outbound casters.
pub mod Crc
pub mod Parser
pub mod Batch
pub mod Corrections
