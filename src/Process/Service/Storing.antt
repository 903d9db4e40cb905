-- ===== src/Process/Service/Storing.antt =====
-- WRITE(10) through the whole program: from the mid layer's command to the bytes of the LUN's file.
use mathlib.Core.Path.{subst}
use vscsi_hba.Base.{ℕ, ◌+◌, ◌-◌, ◌%◌, ◌≡◌, ◌≢◌, ◌≤◌, ◌<◌, refl, ap, ◌∙◌, false, List, some, arith}
use vscsi_hba.Driver.State.{Task, ScsiCmnd, Hba, Ensures}
use vscsi_hba.Driver.Sessions.{hba_at}
use vscsi_hba.Driver.Uaccess.{IsResident, Mem, load}
use vscsi_hba.Driver.Device.Reading.{contents}
use vscsi_hba.Scsi.Engine.{Cdb, Libc, Io, be32_at, be16_at}
use vscsi_hba.Scsi.Block.{write10, write_blocks, beyond_end}
use vscsi_hba.Scsi.Block.Transfer.{IsFile, Finishes, Finishes-map}
use vscsi_hba.Scsi.Block.RoundTrip.{Answers, WriteGood, write_blocks-WriteGood}
use vscsi_hba.Scsi.Table.{entry, write_data, scsi_sbc_commands, sbc_entries, look_up}
use vscsi_hba.Target.{LunData, Target, find_lun, lun_numbers}
use vscsi_hba.Target.Dispatch.{run_scsi_command_runs}
use vscsi_hba.Api.{Env}
use vscsi_hba.Api.Taking.{described}
use vscsi_hba.Process.Service.{Server, cdb_of, serve}
use vscsi_hba.Process.Service.Steps.{load_cong, ended, block_of, cdb_of-described}
use vscsi_hba.Process.Service.Progress.{IsWaiting}
use vscsi_hba.Process.Service.Disk.{first_byte, byte_count}
use vscsi_hba.Process.Service.Writing.{Stored, serve_writes}

has_write10 :
    {F : Type 0} (op : ℕ)
    → op ≡ 0x2a
    → scsi_sbc_commands op ≡ some (entry {F = F} write10 10 write_data)
unfolding scsi_sbc_commands look_up sbc_entries
has_write10 op e = rw e refl

-- WRITE(10) for blocks that lie on the disk, as many bytes as the command transfers.
pub record WritesDisk {F : Type 0} (c : ScsiCmnd) (l : LunData F) : Type 0 where
  pub long : 10 ≤ c.cmd_len
  pub opcode : block_of c 0 ≡ 0x2a
  pub table : l.cmds ≡ scsi_sbc_commands
  pub exact : byte_count c l ≡ c.request_bufflen
  pub on_disk : beyond_end l.lun_data (first_byte c l + byte_count c l) ≡ false

-- The LUN of the number after the write: the bytes of its file from `first` on are those that the
-- command carries, all others are as they were, and the other LUNs of the target too.
abbrev pub IsWritten :
    {F : Type 0} → (F → ℕ → ℕ) → ℕ → ℕ → List ℕ → ℕ → LunData F → Target F → Target F → Type 0
IsWritten view first n bs lun l t t' =
    ((l' : LunData _) × (find_lun lun t'.luns ≡ some l')
      × (load (view l'.lun_fh) first n ≡ bs)
      × ((j : ℕ) → j < first → view l'.lun_fh j ≡ view l.lun_fh j)
      × ((j : ℕ) → first + n ≤ j → view l'.lun_fh j ≡ view l.lun_fh j))
    × ((i : ℕ) → i ≢ lun → find_lun i t'.luns ≡ find_lun i t.luns)

-- What a write leaves of the status and the file.
abbrev Written : {F : Type 0} → (F → ℕ → ℕ) → ℕ → ℕ → Io F → Io F → Type 0
Written view first n s s' =
    (s'.status ≡ 0)
    × ((j : ℕ) → first ≤ j → j < first + n → view s'.file j ≡ s.data_.cell (j - first))
    × ((j : ℕ) → j < first → view s'.file j ≡ view s.file j)
    × ((j : ℕ) → first + n ≤ j → view s'.file j ≡ view s.file j)

module _ {F : Type 0} (io : Libc F) (view : F → ℕ → ℕ) (len : F → ℕ)
    (law : IsFile io view len) where
  write10-Written :
      (luns : List ℕ) (c : ScsiCmnd) (l : LunData F) (cdb : Cdb) (s : Io F)
      → ((i : ℕ) → i < 10 → cdb i ≡ block_of c i)
      → WritesDisk c l
      → Finishes
          (Written view (first_byte c l) c.request_bufflen s)
          (write10 io luns l.lun_data cdb s)
  unfolding write10
  write10-Written luns c l cdb s same writes =
      let block = be32_at (block_of c) 2 in
      let blocks = be16_at (block_of c) 7 in
      rw
        (
          same 2 (omega arith),
          same 3 (omega arith),
          same 4 (omega arith),
          same 5 (omega arith),
          same 7 (omega arith),
          same 8 (omega arith),
        )
        (subst
          (λ n.
            Finishes (Written view (first_byte c l) n s)
              (write_blocks io l.lun_data block blocks s))
          writes.exact
          (Finishes-map (WriteGood io view len law l.lun_data block blocks s) _
            (write_blocks io l.lun_data block blocks s)
            (λ s' (ok_, _, new, low, high, _, _). (ok_, new, low, high))
            (subst
              (λ off.
                Answers off (WriteGood io view len law l.lun_data block blocks s) s
                  (write_blocks io l.lun_data block blocks s))
              writes.on_disk (write_blocks-WriteGood io view len law l.lun_data block blocks s))))

-- A WRITE(10) that waits in a ready session that the process is attached to is stored on the disk
-- in one round of the process, under these conditions. In the session, the queue lock is free,
-- the task is the first that no target has taken and its number leads to it, and its number and
-- LUN fit in 32 bits; its command carries a command array of 16 bytes, of which it uses at most
-- 16, and a transfer that is not empty, fits the process's buffer behind a header and is exactly
-- as long as the request buffer, whose pages are mapped. The command has at least ten bytes,
-- writes, and names, by the low eight bits of its LUN, a LUN that the emulated target has as a
-- hard disk, and blocks that lie on the disk, as many bytes as it transfers. The file behaves as
-- the C library documents, a freed task that was received does not read as aborted, the user
-- memory is resident, and the driver was built for command blocks of 16 bytes. Then the round
-- ends, those blocks of the LUN's file hold exactly the bytes of the command's buffer, flat or
-- scattered, and no other byte of the file and no other LUN has changed; the command is as it was
-- but for its sense buffer, with result 0, and `scsi_done` was called once for it.
pub serve-write10 :
    {F : Type 0} (v : Env) (io : Libc F) (view : F → ℕ → ℕ) (len : F → ℕ) (m : Mem) (s : Server F)
    (a : ℕ) (h : Hba) (t : Task) (l : LunData F)
    → IsFile io view len
    → IsResident v.uaccess
    → v.linux.max_command_size ≡ 16
    → IsWaiting v.linux b'O' t h
    → s.world.file.private_data ≡ some a
    → hba_at a s.world.driver.hbas ≡ some h
    → s.target.type ≡ 0
    → find_lun (t.lun % 256) s.target.luns ≡ some l
    → WritesDisk (h.cmnds t.sc) l
    → let c = h.cmnds t.sc in
      Ensures
        (Finishes (
          Stored v.linux a t h (
            IsWritten view
              (first_byte c l)
              c.request_bufflen
              (contents c.request_buffer)
              (t.lun % 256)
              l
              s.target)))
        (serve v io m s)
serve-write10 v io view len m s a h t l law res size waits points there emulated found writes =
    let c = h.cmnds t.sc in
    let cdb = cdb_of (described c t s.task) in
    let n = c.request_bufflen in
    let first = first_byte c l in
    let P = IsWritten view first n (contents c.request_buffer) (t.lun % 256) l s.target in
    let same : (i : ℕ) → i < 10 → cdb i ≡ block_of c i = λ i p.
      cdb_of-described c t s.task i (omega (arith, p, writes.long))
        (omega (arith, waits.cmnd_length, waits.cmd_len_fits)) in
    let listed : l.cmds (cdb 0) ≡ some (entry write10 10 write_data) =
      ap (λ cmds. cmds (cdb 0)) writes.table
      ∙ has_write10 (cdb 0) (same 0 (omega arith) ∙ writes.opcode) in
    serve_writes v io m s a h t P res size waits points there (λ b arrived.
      let before : Io _ = record { file = l.lun_fh; data_ = b; data_size = n; status = 0 } in
      let (s1, ran, (ok_, new, low, high)) =
        ended (Written view first n before)
          (write10 io (lun_numbers s.target.luns) l.lun_data cdb before)
          (write10-Written io view len law (lun_numbers s.target.luns) c l cdb before same
            writes) in
      let (r, replied, status, _, file, others) =
        run_scsi_command_runs io s.target (t.lun % 256) cdb b n l (entry write10 10 write_data) s1
          emulated found listed ran in
      rw replied (
        status ∙ ok_,
        (
          (
            record l { lun_fh = s1.file },
            file,
            load_cong (view s1.file) b.cell first 0 n
                  (λ k p. new (first + k) (omega arith) (omega arith) ∙ ap b.cell (omega arith))
                ∙ arrived,
            low,
            high,
          ),
          others,
        ),
      ))
