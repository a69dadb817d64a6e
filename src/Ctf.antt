-- ===== src/Ctf.antt =====
-- mod/src/server/capturetheflag/CaptureTheFlagMode.cpp, the mode of capture the flag.
pub mod State
pub mod Place
pub mod Play
pub mod Sample
mod Tests
