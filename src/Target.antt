-- ===== src/Target.antt =====
-- The targets of user/scsi_target.c and the dispatch of one SCSI command.
pub mod Dispatch
pub mod Luns
pub mod Missing
use vscsi_hba.Base.{
  ℕ, Bool, true, false, ◌&&◌, List, [], ◌∷◌, Option, none, some, ◌==◌, if◌then◌else◌, map,
}
use vscsi_hba.Scsi.Engine.{Buf, Cdb, Libc, Lun, Io, Run, finished, crashes, exits, unfinished}
use vscsi_hba.Scsi.Table.{Entry, Table}

-- A LUN on a target's list: `lun_data_t` with its open file and its command table.
pub record LunData (F : Type 0) : Type 0 where
  pub lun_data : Lun
  pub lun_fh : F
  pub cmds : Table F

-- `struct _target_data_t`. Names are their characters.
pub record Target (F : Type 0) : Type 0 where
  pub type : ℕ
  pub targetname : List ℕ
  pub pt_device : ℕ
  pub luns : List (LunData F)

-- TARGET_TYPE_EMULATION
abbrev pub target_type_emulation : ℕ
target_type_emulation = 0

abbrev pub lun_numbers : {F : Type 0} → List (LunData F) → List ℕ
lun_numbers = map (λ l. l.lun_data.lun)

module _ {F : Type 0} where
  -- The first LUN with the number.
  unfoldable pub find_lun : ℕ → List (LunData F) → Option (LunData F)
  find_lun n [] = none
  find_lun n (l ∷ ls) = if l.lun_data.lun == n then some l else find_lun n ls

  -- The file of that LUN, written.
  unfoldable pub set_file : ℕ → F → List (LunData F) → List (LunData F)
  set_file n f [] = []
  set_file n f (l ∷ ls) =
      if l.lun_data.lun == n then record l { lun_fh = f } ∷ ls else l ∷ set_file n f ls

-- What a command leaves: its status, the target and the data buffer.
pub record Reply (F : Type 0) : Type 0 where
  pub status : ℕ
  pub target : Target F
  pub data_ : Buf

abbrev pub reply_of : {F : Type 0} → ℕ → Target F → Run (Io F) → Run (Reply F)
reply_of n td (finished s) = finished (record {
  status = s.status;
  target = record td { luns = set_file n s.file td.luns };
  data_ = s.data_;
})
reply_of n td crashes = crashes
reply_of n td (exits c) = exits c
reply_of n td unfinished = unfinished

-- The command of a table entry on a LUN, or status 2 for a null entry.
unfoldable pub run_entry :
    {F : Type 0} → Libc F → Target F → LunData F → Option (Entry F) → Cdb → Buf → ℕ → Run (Reply F)
unfolding set_file
run_entry io td l none cdb b data_size = finished (record { status = 2; target = td; data_ = b })
run_entry io td l (some e) cdb b data_size = reply_of l.lun_data.lun td (
    e.func io (lun_numbers td.luns) l.lun_data cdb
      (record { file = l.lun_fh; data_ = b; data_size = data_size; status = 0 }))

-- Where `ld` points behind the loop over the LUNs: at a LUN of the list, at DUMMY_LUN_0, or nowhere.
pub data Selected (F : Type 0) : Type 0 where
  listed : LunData F → Selected F
  dummy_lun_0 : Selected F
  null_lun : Selected F

-- LUN 0 falls back on DUMMY_LUN_0.
abbrev pub select_lun : {F : Type 0} → Option (LunData F) → ℕ → Selected F
select_lun (some l) lun = listed l
select_lun none lun = if lun == 0 then dummy_lun_0 else null_lun

-- `ld->cmds`: the outer `none` is the null `ld`, the inner one a null table. DUMMY_LUN_0 is static
-- and nothing sets it, so its table is null.
abbrev pub cmds_of : {F : Type 0} → Selected F → Option (Option (Table F))
cmds_of (listed l) = some (some l.cmds)
cmds_of dummy_lun_0 = some none
cmds_of null_lun = none

-- `ld->cmds[opcode]`, where neither pointer is null.
abbrev pub entry_of : {F : Type 0} → Option (Option (Table F)) → ℕ → Option (Option (Entry F))
entry_of (some (some cmds)) opcode = some (cmds opcode)
entry_of _ opcode = none

-- A null pointer that is followed crashes. Only a LUN of the list has a table, and so a file.
unfoldable pub run_on :
    {F : Type 0}
    → Libc F
    → Target F
    → Selected F
    → Option (Option (Entry F))
    → Cdb
    → Buf
    → ℕ
    → Run (Reply F)
unfolding run_entry
run_on io td (listed l) (some e) cdb b data_size = run_entry io td l e cdb b data_size
run_on io td _ _ cdb b data_size = crashes

-- `data_size` is passed by value: what the command makes of it is lost.
unfoldable pub run_scsi_command :
    {F : Type 0} → Libc F → Target F → ℕ → Cdb → Buf → ℕ → Run (Reply F)
unfolding run_on find_lun
run_scsi_command io td lun cdb b data_size =
    let ld = select_lun (find_lun lun td.luns) lun in
    if td.type == target_type_emulation
    then run_on io td ld (entry_of (cmds_of ld) (cdb 0)) cdb b data_size
    else finished (record { status = 0; target = td; data_ = b })

-- `strcmp` is 0.
unfoldable pub same_name : List ℕ → List ℕ → Bool
same_name [] [] = true
same_name (a ∷ as_) (b ∷ bs) = a == b && same_name as_ bs
same_name _ _ = false

module _ {F : Type 0} where
  -- The new target is the first of the list.
  unfoldable pub add_target : List ℕ → ℕ → List (Target F) → List (Target F)
  add_target name type targets =
      record { type = type; targetname = name; pt_device = 0; luns = [] } ∷ targets

  unfoldable pub find_target : List ℕ → List (Target F) → Option (Target F)
  unfolding same_name
  find_target name [] = none
  find_target name (t ∷ ts) = if same_name name t.targetname then some t else find_target name ts

  -- The first target with the name goes.
  unfoldable pub delete_target : List ℕ → List (Target F) → List (Target F)
  unfolding same_name
  delete_target name [] = []
  delete_target name (t ∷ ts) =
      if same_name t.targetname name then ts else t ∷ delete_target name ts
