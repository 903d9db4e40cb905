-- ===== src/Scsi/Primary/Inventory.antt =====
-- REPORT LUNS of user/scsi.c: the inventory that the kernel's scan reads.
