-- ===== src/Examples.antt =====
-- The theorems at concrete inputs.
pub mod Data
pub mod Image
pub mod Worlds
pub mod Kernel
pub mod Disk
pub mod History
pub mod Service
pub mod Start
pub mod Calls
