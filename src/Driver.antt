-- ===== src/Driver.antt =====
-- The kernel driver: kernel/hba.c and kernel/device.c over include/vscsihba.h.
pub mod State
pub mod Tasks
pub mod Sessions
pub mod Uaccess
pub mod Device
pub mod Control
