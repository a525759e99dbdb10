-- ===== src/Ntrip.antt =====
-- main/ntrip_push.cpp: the client that pushes corrections to an outside caster.
pub mod Client
pub mod Backoff
pub mod Send
pub mod Connect
pub mod Run
