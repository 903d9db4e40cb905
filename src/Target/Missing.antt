-- ===== src/Target/Missing.antt =====
-- A command of user/scsi_target.c for a LUN that its target does not have.
use vscsi_hba.Base.{ℕ, ◌≢◌, List, All}
use vscsi_hba.Scsi.Engine.{Buf, Cdb, Libc, Io, Run}
use vscsi_hba.Scsi.Table.{Entry}
use vscsi_hba.Target.{LunData, Target, lun_numbers}

-- No LUN of the list has the number.
abbrev pub IsMissing : {F : Type 0} → ℕ → List (LunData F) → Type 0
IsMissing n = All (λ l. l.lun_data.lun ≢ n)

-- How a command of a LUN's table runs on the LUN.
abbrev pub run_func :
    {F : Type 0} → Libc F → Target F → LunData F → Entry F → Cdb → Buf → ℕ → Run (Io F)
run_func io td l e cdb b size =
    e.func io (lun_numbers td.luns) l.lun_data cdb
      (record { file = l.lun_fh; data_ = b; data_size = size; status = 0 })
