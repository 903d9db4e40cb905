-- ===== src/Process/Service/Disk.antt =====
-- READ(10) through the whole program: from the mid layer's command to the bytes of the LUN's file.
use mathlib.Core.Path.{subst}
use vscsi_hba.Base.{ℕ, ◌+◌, ◌*◌, ◌%◌, ◌≡◌, ◌≤◌, ◌<◌, refl, sym, ap, ◌∙◌, false, List, some, arith}
use vscsi_hba.Linux.{received}
use vscsi_hba.Driver.State.{Task, ScsiCmnd, Hba, bytes, Ensures, Ensures-map}
use vscsi_hba.Driver.Sessions.{hba_at}
use vscsi_hba.Driver.Uaccess.{Mem, IsResident, load}
use vscsi_hba.Driver.Device.Reading.{contents}
use vscsi_hba.Driver.Device.Completing.{Completed}
use vscsi_hba.Scsi.Engine.{Buf, Cdb, Lun, Libc, Io, be32_at, be16_at}
use vscsi_hba.Scsi.Block.{read10, read_blocks, beyond_end}
use vscsi_hba.Scsi.Block.Transfer.{IsFile, Finishes, Finishes-map}
use vscsi_hba.Scsi.Block.RoundTrip.{Answers, ReadGood, read_blocks-ReadGood}
use vscsi_hba.Scsi.Table.{entry, read_data, scsi_sbc_commands, sbc_entries, look_up}
use vscsi_hba.Target.{LunData, Target, find_lun, lun_numbers}
use vscsi_hba.Target.Dispatch.{run_scsi_command_runs}
use vscsi_hba.Api.{Env}
use vscsi_hba.Api.Taking.{taken, described}
use vscsi_hba.Process.Service.{Server, window, cdb_of, serve}
use vscsi_hba.Process.Service.Progress.{IsWaiting, Answered, serve_lem}
use vscsi_hba.Process.Service.Steps.{load_cong, ended, block_of, cdb_of-described}

has_read10 :
    {F : Type 0} (op : ℕ)
    → op ≡ 0x28
    → scsi_sbc_commands op ≡ some (entry {F = F} read10 10 read_data)
unfolding scsi_sbc_commands look_up sbc_entries
has_read10 op e = rw e refl

-- The bytes that the command names on a disk.
abbrev pub first_byte : {F : Type 0} → ScsiCmnd → LunData F → ℕ
first_byte c l = be32_at (block_of c) 2 * l.lun_data.block_size

abbrev pub byte_count : {F : Type 0} → ScsiCmnd → LunData F → ℕ
byte_count c l = be16_at (block_of c) 7 * l.lun_data.block_size

-- READ(10) for blocks that lie on the disk and in its file, as many bytes as the command transfers.
pub record ReadsDisk {F : Type 0} (len : F → ℕ) (c : ScsiCmnd) (l : LunData F) : Type 0 where
  pub long : 10 ≤ c.cmd_len
  pub opcode : block_of c 0 ≡ 0x28
  pub table : l.cmds ≡ scsi_sbc_commands
  pub exact : byte_count c l ≡ c.request_bufflen
  pub inside : first_byte c l + byte_count c l ≤ len l.lun_fh
  pub on_disk : beyond_end l.lun_data (first_byte c l + byte_count c l) ≡ false

-- What a read leaves of the buffer, the status and the file.
abbrev Delivered : {F : Type 0} → (F → ℕ → ℕ) → ℕ → ℕ → F → Io F → Type 0
Delivered view first n f s =
    (s.status ≡ 0)
    × (view s.file ≡ view f)
    × ((i : ℕ) → i < n → s.data_.cell i ≡ view f (first + i))

module _ {F : Type 0} (io : Libc F) (view : F → ℕ → ℕ) (len : F → ℕ)
    (law : IsFile io view len) where
  read_blocks-Delivered :
      (ld : Lun) (block blocks : ℕ) (s : Io F)
      → block * ld.block_size + blocks * ld.block_size ≤ len s.file
      → beyond_end ld (block * ld.block_size + blocks * ld.block_size) ≡ false
      → Finishes
          (Delivered view (block * ld.block_size) (blocks * ld.block_size) s.file)
          (read_blocks io ld block blocks s)
  read_blocks-Delivered ld block blocks s fits on =
      Finishes-map (ReadGood io view len law ld block blocks s) _ (read_blocks io ld block blocks s)
        (λ s' (ok_, _, same, cells, _, _). (ok_, same, cells))
        (subst
          (λ off.
            Answers off (ReadGood io view len law ld block blocks s) s
              (read_blocks io ld block blocks s))
          on (read_blocks-ReadGood io view len law ld block blocks s (λ _. fits)))

  -- The command as the target sees it, in the user task.
  read10-Delivered :
      (luns : List ℕ) (c : ScsiCmnd) (l : LunData F) (cdb : Cdb) (s : Io F)
      → ((i : ℕ) → i < 10 → cdb i ≡ block_of c i)
      → s.file ≡ l.lun_fh
      → ReadsDisk len c l
      → Finishes
          (Delivered view (first_byte c l) c.request_bufflen l.lun_fh)
          (read10 io luns l.lun_data cdb s)
  unfolding read10
  read10-Delivered luns c l cdb s same is reads =
      let at = λ (i : ℕ) (h : i < 10). same i h in
      rw
        (
          at 2 (omega arith),
          at 3 (omega arith),
          at 4 (omega arith),
          at 5 (omega arith),
          at 7 (omega arith),
          at 8 (omega arith),
        )
        (subst
          (λ n.
            Finishes (Delivered view (first_byte c l) n l.lun_fh)
              (read_blocks io l.lun_data (be32_at (block_of c) 2) (be16_at (block_of c) 7) s))
          reads.exact
          (subst
            (λ f.
              Finishes (Delivered view (first_byte c l) (byte_count c l) f)
                (read_blocks io l.lun_data (be32_at (block_of c) 2) (be16_at (block_of c) 7) s))
            is
            (read_blocks-Delivered l.lun_data (be32_at (block_of c) 2) (be16_at (block_of c) 7) s
              (subst (λ f. first_byte c l + byte_count c l ≤ len f) (sym is) reads.inside)
              reads.on_disk)))

-- What the round leaves: the session at the address completed the task once, with the bytes of the
-- disk in the command's buffer, and the LUN's file has the bytes that it had.
abbrev pub ReadFromDisk :
    {F : Type 0} → (F → ℕ → ℕ) → ℕ → Task → Hba → LunData F → Server F → Type 0
ReadFromDisk view a t h l s =
    let n = (h.cmnds t.sc).request_bufflen in
    ((l' : LunData _) × (find_lun (t.lun % 256) s.target.luns ≡ some l')
      × (view l'.lun_fh ≡ view l.lun_fh))
    × ((h' : Hba) × (hba_at a s.world.driver.hbas ≡ some h')
        × (c : ScsiCmnd) × Completed (n + 6) (record t { flags = received }) c
            (taken t.cmd_number h) (bytes (n + 6), h')
        × (contents c.request_buffer ≡ load (view l.lun_fh) (first_byte (h.cmnds t.sc) l) n)
        × (c.result ≡ 0))

-- A READ(10) that waits in a ready session that the process is attached to is answered from the
-- disk in one round of the process, under these conditions. In the session, the queue lock is
-- free, the task is the first that no target has taken and its number leads to it, and its number
-- and LUN fit in 32 bits; its command carries a command array of 16 bytes, of which it uses at
-- most 16, and a transfer that is not empty, fits the process's buffer behind a header and is
-- exactly as long as the request buffer, whose pages are mapped. The command has at least ten
-- bytes, reads, and names, by the low eight bits of its LUN, a LUN that the emulated target has
-- as a hard disk, and blocks that lie on the disk and in its file, as many bytes as it transfers.
-- The file behaves as the C library documents, a freed task that was received does not read as
-- aborted, the user memory is resident, and the driver was built for command blocks of 16 bytes.
-- Then the round ends, the command's buffer, flat or scattered, holds exactly the bytes of those
-- blocks in the LUN's file, its result is 0, `scsi_done` was called once for it, and the file has
-- the bytes that it had.
pub serve-read10 :
    {F : Type 0} (v : Env) (io : Libc F) (view : F → ℕ → ℕ) (len : F → ℕ) (m : Mem) (s : Server F)
    (a : ℕ) (h : Hba) (t : Task) (l : LunData F)
    → IsFile io view len
    → IsResident v.uaccess
    → v.linux.max_command_size ≡ 16
    → IsWaiting v.linux b'I' t h
    → s.world.file.private_data ≡ some a
    → hba_at a s.world.driver.hbas ≡ some h
    → s.target.type ≡ 0
    → find_lun (t.lun % 256) s.target.luns ≡ some l
    → ReadsDisk len (h.cmnds t.sc) l
    → Ensures (Finishes (ReadFromDisk view a t h l)) (serve v io m s)
serve-read10 v io view len m s a h t l law res size waits points there emulated found reads =
    let c = h.cmnds t.sc in
    let task = described c t s.task in
    let b = window 6 s.task.request_buffer in
    let before : Io _ = record {
      file = l.lun_fh;
      data_ = b;
      data_size = c.request_bufflen;
      status = 0;
    } in
    let same : (i : ℕ) → i < 10 → cdb_of task i ≡ block_of c i = λ i p.
      cdb_of-described c t s.task i (omega (arith, p, reads.long))
        (omega (arith, waits.cmnd_length, waits.cmd_len_fits)) in
    let listed : l.cmds (cdb_of task 0) ≡ some (entry read10 10 read_data) =
      ap (λ cmds. cmds (cdb_of task 0)) reads.table
      ∙ has_read10 (cdb_of task 0) (same 0 (omega arith) ∙ reads.opcode) in
    let (s1, ran, (ok_, kept, cells)) =
      ended (Delivered view (first_byte c l) c.request_bufflen l.lun_fh) _ (
        read10-Delivered io view len law (lun_numbers s.target.luns) c l (cdb_of task) before same
          refl reads) in
    let (r, replied, status, same_data, file, _) =
      run_scsi_command_runs io s.target (t.lun % 256) (cdb_of task) b c.request_bufflen l
        (entry read10 10 read_data) s1 emulated found listed ran in
    Ensures-map (Finishes (Answered a t h r)) _ (serve v io m s)
      (λ e.
        Finishes-map (Answered a t h r) (ReadFromDisk view a t h l) e
          (λ s' (target, (h', place, c', completed, delivered, result)). (
            (
              record l { lun_fh = s1.file },
              ap (λ (x : Target _). find_lun (t.lun % 256) x.luns) target ∙ file,
              kept,
            ),
            (
              h',
              place,
              c',
              completed,
              delivered
                  ∙ load_cong r.data_.cell (view l.lun_fh) 0 (first_byte c l) c.request_bufflen
                      (λ k p.
                        ap (λ (x : Buf). x.cell (0 + k)) same_data
                        ∙ ap s1.data_.cell (omega arith)
                        ∙ cells k p),
              result,
            ),
          )))
      (serve_lem v io m s a h t r res size waits points there replied (status ∙ ok_))
