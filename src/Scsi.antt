-- ===== src/Scsi.antt =====
-- The SCSI engine of the user-space target: user/scsi.c over include/scsi.h.
pub mod Engine
pub mod Primary
pub mod Block
pub mod Mmc
pub mod Dvd
pub mod Configuration
pub mod Table
