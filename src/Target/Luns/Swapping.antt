-- ===== src/Target/Luns/Swapping.antt =====
-- A DVD-R from `add_lun` of user/scsi_target.c, and START STOP UNIT on it.
use mathlib.Core.Path.{subst}
use mathlib.Core.Option
use vscsi_hba.Base.{
  ℕ, ◌%◌, ◌≡◌, ◌≢◌, ◌<◌, refl, sym, ap, ◌∙◌, List, ◌∷◌, Option, none, some, ◌==◌, if◌then◌else◌,
  arith,
}
use vscsi_hba.Scsi.Engine.{Buf, Cdb, Libc, Lun, Io, Run, finished, exits, good}
use vscsi_hba.Scsi.Mmc.{start_stop_unit, insert_new_dvd_r, with_file}
use vscsi_hba.Scsi.Table.{entry, no_data, scsi_mmc_commands, mmc_entries, look_up}
use vscsi_hba.Target.{
  LunData, Target, Reply, find_lun, lun_numbers, run_scsi_command, run_on, run_entry, select_lun,
  cmds_of, entry_of, reply_of,
}
use vscsi_hba.Target.Dispatch.{run_scsi_command_runs, dispatches}
use vscsi_hba.Target.Luns.{Files, lun_type_dvd_r, create, new_dvd_r, new_lun, add_lun}

module _ {F : Type 0} (files : Files F) where
  -- The drive that `add_lun` puts on the target.
  abbrev pub drive : LunData F → ℕ → ℕ → F → LunData F
  drive raw n mb f =
      let l = new_dvd_r files raw f in
      record l {
        lun_data = record (l.lun_data) { lun = n; luntype = lun_type_dvd_r; lunsizeinmb = mb };
      }

  new_lun-drive :
      (raw : LunData F) (name : List ℕ) (mb : ℕ) (f : F)
      → files.fopen name create ≡ some f
      → new_lun files raw name lun_type_dvd_r mb ≡ some (new_dvd_r files raw f)
  unfolding new_lun
  new_lun-drive raw name mb f e = ap (Option.map (new_dvd_r files raw)) e

  add_lun-drive :
      (raw : LunData F) (t : Target F) (n mb : ℕ) (name : List ℕ) (f : F)
      → n < 256
      → files.fopen name create ≡ some f
      → add_lun files raw t n name lun_type_dvd_r mb ≡ record t { luns = drive raw n mb f ∷ t.luns }
  unfolding add_lun
  add_lun-drive raw t n mb name f small e =
      let same : n % 256 ≡ n = omega arith in rw (add_lun, new_lun-drive raw name mb f e, same) refl

-- The image that a drive lets go of, unless it is empty under another name.
abbrev pub put_aside : {F : Type 0} → Libc F → F → F
put_aside io f =
    let (size, f') = io.size f in if size == 0 then io.fclose f' else io.rename (io.fclose f')

insert_new_dvd_r-put_aside :
    {F : Type 0} (io : Libc F) (f : F)
    → insert_new_dvd_r io f
      ≡ elim (io.fopen_w (put_aside io f)) [ none ↦ exits 10 | some g ↦ finished g ]
unfolding insert_new_dvd_r
insert_new_dvd_r-put_aside io f = refl

find_lun_head :
    {F : Type 0} (n : ℕ) (l : LunData F) (ls : List (LunData F))
    → l.lun_data.lun ≡ n
    → find_lun n (l ∷ ls) ≡ some l
unfolding find_lun
find_lun_head n l ls e = ground (arith, e)

-- The command's end, by what `fopen` answers for the new image.
abbrev swapped : {F : Type 0} → Io F → Option F → Run (Io F)
swapped s none = exits 10
swapped s (some g) = finished (good 0 (record s { file = g }))

start_stop_unit-swapped :
    {F : Type 0} (io : Libc F) (luns : List ℕ) (ld : Lun) (cdb : Cdb) (s : Io F)
    → ld.current_profile ≡ 0x0011
    → start_stop_unit io luns ld cdb s ≡ swapped s (io.fopen_w (put_aside io s.file))
unfolding start_stop_unit insert_new_dvd_r
start_stop_unit-swapped io luns ld cdb s profile =
    rw (profile)
      (elim (io.fopen_w (put_aside io s.file))
        as (λ o.
          with_file s (elim o as (λ _. Run _) [ none ↦ exits 10 | some g ↦ finished g ])
          ≡ swapped s o) [ none ↦ refl | some g ↦ refl ])

has_start_stop_unit :
    {F : Type 0} (op : ℕ)
    → op ≡ 0x1b
    → scsi_mmc_commands op ≡ some (entry {F = F} start_stop_unit 6 no_data)
unfolding scsi_mmc_commands look_up mmc_entries
has_start_stop_unit op e = rw e refl

-- What START STOP UNIT answers on a drive, by what `fopen` answers for the new image: a new blank
-- disc in the drive, with all other LUNs as they were, or the end of the process.
abbrev pub Swapped :
    {F : Type 0} → Target F → ℕ → LunData F → Buf → Option F → Run (Reply F) → Type 0
Swapped t n l b none r = r ≡ exits 10
Swapped t n l b (some g) r =
    (x : Reply _) × (r ≡ finished x)
    × (x.status ≡ 0)
    × (x.data_ ≡ b)
    × (find_lun n x.target.luns ≡ some (record l { lun_fh = g }))
    × ((m : ℕ) → m ≢ n → find_lun m x.target.luns ≡ find_lun m t.luns)

module _ {F : Type 0} (io : Libc F) (l : LunData F) (t : Target F) (n : ℕ) (cdb : Cdb) (b : Buf)
    (size : ℕ) (emulated : t.type ≡ 0) (found : find_lun n t.luns ≡ some l)
    (listed : l.cmds (cdb 0) ≡ some (entry start_stop_unit 6 no_data))
    (profile : l.lun_data.current_profile ≡ 0x0011) where
  abbrev before : Io F
  before = record { file = l.lun_fh; data_ = b; data_size = size; status = 0 }

  start_stop_unit-Swapped :
      (o : Option F)
      → io.fopen_w (put_aside io l.lun_fh) ≡ o
      → Swapped t n l b o (run_scsi_command io t n cdb b size)
  unfolding run_on run_entry
  start_stop_unit-Swapped none e =
      dispatches io t n cdb b size emulated
      ∙ ap
          (λ o.
            let ld = select_lun o n in run_on io t ld (entry_of (cmds_of ld) (cdb 0)) cdb b size)
          found
      ∙ ap (λ o. run_entry io t l o cdb b size) listed
      ∙ ap (reply_of l.lun_data.lun t) (
          start_stop_unit-swapped io (lun_numbers t.luns) l.lun_data cdb before profile
          ∙ ap (swapped before) e)
  start_stop_unit-Swapped (some g) e =
      run_scsi_command_runs io t n cdb b size l (entry start_stop_unit 6 no_data)
        (good 0 (record before { file = g })) emulated found listed
        (start_stop_unit-swapped io (lun_numbers t.luns) l.lun_data cdb before profile
          ∙ ap (swapped before) e)

-- On a DVD-R that `add_lun` put on an emulated target, under a number below 256 and with its
-- image created, START STOP UNIT, whatever else it asks for, swaps the disc: the image is closed,
-- and put aside under another name unless it is empty, and the drive's file is the one that
-- `fopen` creates in its place, with status 0, the data buffer and all other LUNs as they were.
-- If `fopen` fails, the process ends with code 10.
pub add_lun-start_stop_unit :
    {F : Type 0} (io : Libc F) (files : Files F) (raw : LunData F) (t : Target F) (n mb : ℕ)
    (name : List ℕ) (f : F) (cdb : Cdb) (b : Buf) (size : ℕ)
    → t.type ≡ 0
    → n < 256
    → files.fopen name create ≡ some f
    → cdb 0 ≡ 0x1b
    → let t' = add_lun files raw t n name lun_type_dvd_r mb in
      Swapped t' n
        (drive files raw n mb f)
        b
        (io.fopen_w (put_aside io f))
        (run_scsi_command io t' n cdb b size)
unfolding new_dvd_r
add_lun-start_stop_unit io files raw t n mb name f cdb b size emulated small opens op =
    let l = drive files raw n mb f in
    subst
      (λ t'. Swapped t' n l b (io.fopen_w (put_aside io f)) (run_scsi_command io t' n cdb b size))
      (sym (add_lun-drive files raw t n mb name f small opens))
      (start_stop_unit-Swapped io l (record t { luns = l ∷ t.luns }) n cdb b size emulated
        (find_lun_head n l t.luns refl) (has_start_stop_unit (cdb 0) op) refl _ refl)
