-- ===== src/Process.antt =====
-- The target process, user/main.c.
pub mod Arguments
pub mod Configure
pub mod Service
pub mod Start
