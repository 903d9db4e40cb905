-- ===== src/Examples/Disk.antt =====
-- The theorems on the SCSI commands and the targets, at concrete inputs.
use vscsi_hba.Base.{
  true, inr, ℕ, ◌+◌, ◌*◌, ◌≡◌, ◌≢◌, ◌<◌, refl, false, [], ◌∷◌, some, ◌==◌, if◌then◌else◌, arith,
}
use vscsi_hba.Scsi.Engine.{be32_at, Buf, Cdb, Lun, Io, finished, unfinished, be16_at, Libc}
use vscsi_hba.Scsi.Primary.{inquiry, test_unit_ready}
use vscsi_hba.Scsi.Primary.Inquiring.{padded, inquiry_lem}
use vscsi_hba.Scsi.Block.Wrapping.{write12-WriteGood, write12_loses}
use vscsi_hba.Scsi.Block.Capacity.{read_capacity10_lem}
use vscsi_hba.Scsi.Block.{
  write12, read_capacity10, read_blocks, write_blocks, read_loop, read10, write10, beyond_end,
}
use vscsi_hba.Scsi.Block.Transfer.{Finishes}
use vscsi_hba.Scsi.Block.RoundTrip.{
  Answers, ReadGood, WriteGood, read_blocks-ReadGood, write_blocks-WriteGood, then_with,
  write10-read10, read_past_end,
}
use vscsi_hba.Scsi.Table.{Entry, no_data, scsi_sbc_commands, look_up, sbc_entries}
use vscsi_hba.Target.{LunData, Target, Reply, find_lun, run_scsi_command, lun_numbers}
use vscsi_hba.Examples.Image.{Image, memory, memory-IsFile, image, lun}
use vscsi_hba.Target.Dispatch.{run_scsi_command_runs}

-- One block, from block 1 on.
abbrev cdb : Cdb
cdb i = if i == 5 then 1 else if i == 8 then 1 else 0

abbrev buf : Buf
buf = record { cell = λ i. 7; top = 0 }

abbrev io : Io Image
io = record { file = image; data_ = buf; data_size = 4096; status = 0 }

on_disk : beyond_end lun 1024 ≡ false
on_disk = refl

read_blocks-ReadGood_example :
    Answers false
      (ReadGood memory (λ f. f.bytes) (λ f. f.size) memory-IsFile lun 1 1 io)
      io
      (read_blocks memory lun 1 1 io)
read_blocks-ReadGood_example =
    read_blocks-ReadGood memory (λ f. f.bytes) (λ f. f.size) memory-IsFile lun 1 1 io (omega arith)

write_blocks-WriteGood_example :
    Answers false
      (WriteGood memory (λ f. f.bytes) (λ f. f.size) memory-IsFile lun 1 1 io)
      io
      (write_blocks memory lun 1 1 io)
write_blocks-WriteGood_example =
    write_blocks-WriteGood memory (λ f. f.bytes) (λ f. f.size) memory-IsFile lun 1 1 io

write10-read10_example :
    Finishes
      (λ s'.
        (s'.status ≡ 0)
        × ((i : ℕ) → i < be16_at cdb 7 * lun.block_size → s'.data_.cell i ≡ io.data_.cell i))
      (then_with (write10 memory [] lun cdb io) buf (read10 memory [] lun cdb))
write10-read10_example =
    write10-read10 memory (λ f. f.bytes) (λ f. f.size) [] lun cdb io buf memory-IsFile (omega arith)
      refl

-- WRITE(12) of block 1.
abbrev cdb_12 : Cdb
cdb_12 i = if i == 5 then 1 else if i == 9 then 1 else 0

write12-WriteGood_example :
    Answers false
      (WriteGood memory (λ f. f.bytes) (λ f. f.size) memory-IsFile lun 1 1 io)
      io
      (write12 memory [] lun cdb_12 io)
write12-WriteGood_example =
    write12-WriteGood memory (λ f. f.bytes) (λ f. f.size) memory-IsFile [] lun cdb_12 io
      (inr (omega arith))

-- WRITE(12) of four gigabytes from block 1 on, where `long` has four bytes.
abbrev cdb_huge : Cdb
cdb_huge i = if i == 5 then 1 else if i == 7 then 128 else 0

abbrev narrow : Libc Image
narrow = record memory { sizeof_long = 4 }

write12_loses_example :
    (beyond_end lun (512 + 4294967296) ≡ true)
    × ((s' : Io Image) × (write12 narrow [] lun cdb_huge io ≡ finished s')
        × (s'.status ≡ 0)
        × (s'.file ≡ image))
write12_loses_example = write12_loses narrow [] lun cdb_huge io refl (omega arith) refl refl

-- A read of one byte behind the image.
read_past_end_example : read_loop memory 1048576 1 5 0 io ≡ unfinished
read_past_end_example =
    read_past_end memory (λ f. f.size) 1048576 1 5 io (λ f off m p. ground arith) (omega arith)
      (omega arith)

-- Allocation length 32.
abbrev report_cdb : Cdb
report_cdb i = if i == 9 then 32 else 0

abbrev disk : LunData Image
disk = record { lun_data = lun; lun_fh = image; cmds = scsi_sbc_commands }

abbrev target : Target Image
target = record { type = 0; targetname = b'd' ∷ []; pt_device = 0; luns = disk ∷ [] }

-- TEST UNIT READY.
abbrev ready_cdb : Cdb
ready_cdb i = 0

found_disk : find_lun 3 target.luns ≡ some disk
unfolding find_lun
found_disk = refl

abbrev ready_entry : Entry Image
ready_entry = record { func = test_unit_ready; cdb_size = 6; direction = no_data }

listed_ready : disk.cmds (ready_cdb 0) ≡ some ready_entry
unfolding scsi_sbc_commands look_up sbc_entries
listed_ready = refl

ran_ready :
    ready_entry.func memory
      (lun_numbers target.luns)
      lun
      ready_cdb
      (record { file = image; data_ = buf; data_size = 0; status = 0 })
    ≡ finished (record { file = image; data_ = buf; data_size = 0; status = 0 })
unfolding test_unit_ready
ran_ready = refl

run_scsi_command_runs_example :
    (r : Reply Image) × (run_scsi_command memory target 3 ready_cdb buf 0 ≡ finished r)
    × (r.status ≡ 0)
    × (r.data_ ≡ buf)
    × (find_lun 3 r.target.luns ≡ some disk)
    × ((m : ℕ) → m ≢ 3 → find_lun m r.target.luns ≡ find_lun m target.luns)
run_scsi_command_runs_example =
    run_scsi_command_runs memory target 3 ready_cdb buf 0 disk ready_entry
      (record { file = image; data_ = buf; data_size = 0; status = 0 }) refl found_disk listed_ready
      ran_ready

read_capacity10_lem_example :
    Finishes
      (λ s'.
        (s'.status ≡ 0)
        × (s'.data_size ≡ 8)
        × (be32_at s'.data_.cell 0 ≡ 2047)
        × (be32_at s'.data_.cell 4 ≡ 512)
        × (s'.file ≡ image))
      (read_capacity10 memory [] lun cdb io)
read_capacity10_lem_example =
    read_capacity10_lem memory [] lun cdb io 2048 (inr refl) (omega arith) refl (omega arith)
      (omega arith)

-- Allocation length 36.
abbrev inquiry_cdb : Cdb
inquiry_cdb i = if i == 4 then 36 else 0

abbrev named : Lun
named = record lun { vendor = b'V' ∷ b'D' ∷ []; productid = b'X' ∷ []; revision = b'1' ∷ [] }

inquiry_lem_example :
    Finishes
      (λ s'.
        (s'.status ≡ 0)
        × (s'.data_size ≡ 36)
        × (s'.file ≡ image)
        × (s'.data_.cell 0 ≡ 0)
        × (s'.data_.cell 4 ≡ 31)
        × ((j : ℕ) → j < 8 → s'.data_.cell (8 + j) ≡ padded (b'V' ∷ b'D' ∷ []) j)
        × ((j : ℕ) → j < 16 → s'.data_.cell (16 + j) ≡ padded (b'X' ∷ []) j)
        × ((j : ℕ) → j < 4 → s'.data_.cell (32 + j) ≡ padded (b'1' ∷ []) j))
      (inquiry memory [] named inquiry_cdb io)
inquiry_lem_example = inquiry_lem memory [] named inquiry_cdb io refl
