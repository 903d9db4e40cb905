-- ===== src/Target/Dispatch.antt =====
-- The dispatch of user/scsi_target.c, and its list of targets.
use vscsi_hba.Base.{
  ℕ, ◌≡◌, ◌≢◌, refl, ap, ◌∙◌, true, List, [], ◌∷◌, some, ◌==◌, arith, Bool-cases, inl, inr, ◌↔◌,
}
use vscsi_hba.Scsi.Engine.{Buf, Cdb, Libc, Io, finished}
use vscsi_hba.Scsi.Table.{Entry}
use vscsi_hba.Target.{
  LunData, Target, Reply, find_lun, set_file, lun_numbers, run_scsi_command, run_on, run_entry,
  select_lun, cmds_of, entry_of, reply_of, same_name, add_target, find_target, delete_target,
}

module _ {F : Type 0} where
  number-find_lun :
      (n : ℕ) (ls : List (LunData F)) (l : LunData F) → find_lun n ls ≡ some l → l.lun_data.lun ≡ n
  unfolding find_lun
  number-find_lun n [] l e = cc
  number-find_lun n (x ∷ ls) l e = ground (arith, number-find_lun n ls l)

  find_lun-set_file_self :
      (n : ℕ) (f : F) (ls : List (LunData F)) (l : LunData F)
      → find_lun n ls ≡ some l
      → find_lun n (set_file n f ls) ≡ some (record l { lun_fh = f })
  unfolding find_lun set_file
  find_lun-set_file_self n f [] l e = cc
  find_lun-set_file_self n f (x ∷ ls) l e = ground (arith, find_lun-set_file_self n f ls l)

  find_lun-set_file_ne :
      (n m : ℕ) (f : F) (ls : List (LunData F))
      → m ≢ n
      → find_lun m (set_file n f ls) ≡ find_lun m ls
  unfolding find_lun set_file
  find_lun-set_file_ne n m f [] ne = refl
  find_lun-set_file_ne n m f (x ∷ ls) ne = ground (arith, find_lun-set_file_ne n m f ls ne)

pub dispatches :
    {F : Type 0} (io : Libc F) (td : Target F) (lun : ℕ) (cdb : Cdb) (b : Buf) (size : ℕ)
    → td.type ≡ 0
    → let ld = select_lun (find_lun lun td.luns) lun in
      run_scsi_command io td lun cdb b size
      ≡ run_on io td ld (entry_of (cmds_of ld) (cdb 0)) cdb b size
unfolding run_scsi_command
dispatches io td lun cdb b size emulated =
    let test : (td.type == 0) ≡ true = ground arith in rw test

-- On an emulated target, a command for a LUN that the target has, with an entry in that LUN's
-- table, runs that entry on that LUN: when it ends, its status and its data come back, the LUN's
-- file is what the command left, and every other LUN is as it was.
pub run_scsi_command_runs :
    {F : Type 0} (io : Libc F) (td : Target F) (lun : ℕ) (cdb : Cdb) (b : Buf) (size : ℕ)
    (l : LunData F) (e : Entry F) (s' : Io F)
    → td.type ≡ 0
    → find_lun lun td.luns ≡ some l
    → l.cmds (cdb 0) ≡ some e
    → e.func io
        (lun_numbers td.luns)
        l.lun_data
        cdb
        (record { file = l.lun_fh; data_ = b; data_size = size; status = 0 })
      ≡ finished s'
    → (r : Reply F) × (run_scsi_command io td lun cdb b size ≡ finished r)
      × (r.status ≡ s'.status)
      × (r.data_ ≡ s'.data_)
      × (find_lun lun r.target.luns ≡ some (record l { lun_fh = s'.file }))
      × ((m : ℕ) → m ≢ lun → find_lun m r.target.luns ≡ find_lun m td.luns)
unfolding run_on run_entry
run_scsi_command_runs io td lun cdb b size l e s' emulated found listed ran =
    let same = number-find_lun lun td.luns l found in
    let reply = λ (n : ℕ).
      let r : Reply _ = record {
        status = s'.status;
        target = record td { luns = set_file n s'.file td.luns };
        data_ = s'.data_;
      } in
      r in
    (
      reply lun,
      dispatches io td lun cdb b size emulated
          ∙ ap
              (λ o.
                let ld = select_lun o lun in
                run_on io td ld (entry_of (cmds_of ld) (cdb 0)) cdb b size)
              found
          ∙ ap (λ o. run_entry io td l o cdb b size) listed
          ∙ ap (reply_of l.lun_data.lun td) ran
          ∙ ap (λ n. finished (reply n)) same,
      refl,
      refl,
      find_lun-set_file_self lun s'.file td.luns l found,
      λ m ne. find_lun-set_file_ne lun m s'.file td.luns ne,
    )

pub same_name_iff : (a b : List ℕ) → (same_name a b ≡ true) ↔ (a ≡ b)
unfolding same_name
same_name_iff [] [] = (λ _. refl, λ _. refl)
same_name_iff [] (b ∷ bs) = (λ h. cc, λ h. cc)
same_name_iff (a ∷ as_) [] = (λ h. cc, λ h. cc)
same_name_iff (a ∷ as_) (b ∷ bs) =
    let ih = same_name_iff as_ bs in (λ h. ground (arith, ih), λ h. ground (arith, ih))

module _ {F : Type 0} where
  -- The list of targets as a stack by name: a target that is added is found, whatever was there
  -- before, other names are found as before, and deleting its name takes it off again.
  pub add_target_lem :
      (name : List ℕ) (type : ℕ) (ts : List (Target F))
      → (find_target name (add_target name type ts)
          ≡ some (record { type = type; targetname = name; pt_device = 0; luns = [] }))
        × ((other : List ℕ)
            → other ≢ name
            → find_target other (add_target name type ts) ≡ find_target other ts)
        × (delete_target name (add_target name type ts) ≡ ts)
  unfolding find_target add_target delete_target
  add_target_lem name type ts =
      let same = (same_name_iff name name).1 refl in
      (
        rw same,
        λ other ne. elim (Bool-cases (same_name other name)) [
          | inl e ↦ absurd (ne ((same_name_iff other name).0 e))
          | inr e ↦ rw e
        ],
        rw same,
      )

  -- Deleting a name leaves every other name's target to be found as before.
  pub find_target-delete_target :
      (name other : List ℕ) (ts : List (Target F))
      → other ≢ name
      → find_target other (delete_target name ts) ≡ find_target other ts
  unfolding find_target delete_target
  find_target-delete_target name other [] ne = refl
  find_target-delete_target name other (t ∷ ts) ne = ground (
    arith,
    same_name_iff t.targetname name,
    same_name_iff other t.targetname,
    find_target-delete_target name other ts ne,
  )
