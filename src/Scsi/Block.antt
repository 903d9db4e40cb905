-- ===== src/Scsi/Block.antt =====
-- The block commands (SBC) of user/scsi.c.
pub mod Transfer
pub mod RoundTrip
pub mod Wrapping
pub mod Capacity
use vscsi_hba.Base.{
  ℕ, zero, suc, ◌+◌, ◌-◌, ◌*◌, ◌/◌, ◌%◌, ◌^◌, Bool, true, false, List, [], ◌∷◌, ◌==◌, ltb, leb,
  if◌then◌else◌, length,
}
use vscsi_hba.Driver.Uaccess.{load}
use vscsi_hba.Scsi.Engine.{
  Buf, pokes, clear, put_long, is_negative, be32_at, be16_at, Cdb, Libc, Lun, Io, Run, finished,
  unfinished, Command, check_condition, good, max, fill, poke, be32,
}

-- sbc_verify10, sbc_verify12 and sbc_verify16 have one body.
unfoldable pub verify : {F : Type 0} → Command F
verify io luns ld cdb s = finished (good 0 s)

-- The last block's number: a quotient that a `long` cannot hold is taken one lower, and an empty
-- file gives -1.
abbrev pub last_block : ℕ → ℕ → ℕ
last_block sizeof_long q =
    (q + 2 ^ 32 - (if leb (2 ^ (8 * sizeof_long - 1)) q then 2 else 1)) % 2 ^ 32

unfoldable pub read_capacity10 : {F : Type 0} → Command F
unfolding pokes
read_capacity10 io luns ld cdb s =
    let (total_size, file) = io.size s.file in
    let b = clear 8 s.data_ in
    let b = put_long io 0 (last_block io.sizeof_long (total_size / ld.block_size)) b in
    let b = put_long io 4 ld.block_size b in finished (good 8 (record s { file = file; data_ = b }))

-- `lba+transfer_len > ld->lunsizeinmb*1024*1024`. The product is an `int`, and wraps.
abbrev pub beyond_end : Lun → ℕ → Bool
beyond_end ld n =
    let size = ld.lunsizeinmb * 1048576 % 2 ^ 32 in if ltb size (2 ^ 31) then ltb size n else true

-- `while(count<transfer_len)`, at most `fuel` rounds.
module _ {F : Type 0} (io : Libc F) (lba transfer_len : ℕ) where
  unfoldable pub read_loop : ℕ → ℕ → Io F → Run (Io F)
  unfolding pokes
  read_loop zero count s = if ltb count transfer_len then unfinished else finished s
  read_loop (suc fuel) count s =
      let (bs, file) = io.pread s.file (lba + count) (transfer_len - count) in
      let rest =
        read_loop fuel (count + length bs)
          (record s { file = file; data_ = pokes count bs s.data_ }) in
      if ltb count transfer_len then rest else finished s

  unfoldable pub write_loop : ℕ → ℕ → Io F → Run (Io F)
  write_loop zero count s = if ltb count transfer_len then unfinished else finished s
  write_loop (suc fuel) count s =
      let (res, file) =
        io.pwrite s.file (lba + count) (load s.data_.cell count (transfer_len - count)) in
      let rest = write_loop fuel (count + res) (record s { file = file }) in
      if ltb count transfer_len then rest else finished s

abbrev pub then_good : {F : Type 0} → ℕ → Run (Io F) → Run (Io F)
then_good n (finished s) = finished (good n s)
then_good n r = r

-- The body that the reads and the writes share, from the block address and the block count on.
-- The fuel is the number of bytes.
unfoldable pub read_blocks : {F : Type 0} → Libc F → Lun → ℕ → ℕ → Io F → Run (Io F)
unfolding read_loop
read_blocks io ld block blocks s =
    let lba = block * ld.block_size in
    let n = blocks * ld.block_size in
    if beyond_end ld (lba + n)
    then finished (check_condition s)
    else then_good n (read_loop io lba n n 0 s)

unfoldable pub write_bytes : {F : Type 0} → Libc F → Lun → ℕ → ℕ → Io F → Run (Io F)
unfolding write_loop
write_bytes io ld lba n s =
    if beyond_end ld (lba + n)
    then finished (check_condition s)
    else then_good n (write_loop io lba n n 0 s)

unfoldable pub write_blocks : {F : Type 0} → Libc F → Lun → ℕ → ℕ → Io F → Run (Io F)
unfolding write_bytes
write_blocks io ld block blocks s =
    write_bytes io ld (block * ld.block_size) (blocks * ld.block_size) s

unfoldable pub read10 : {F : Type 0} → Command F
unfolding read_blocks
read10 io luns ld cdb s = read_blocks io ld (be32_at cdb 2) (be16_at cdb 7) s

-- `lba+transfer_len > ld->lunsizeinmb*1024*1024` for the negative length `n - 2 ^ 32`, with 2 ^ 32
-- added to both sides.
abbrev beyond_end_negative : Lun → ℕ → ℕ → Bool
beyond_end_negative ld lba n =
    let size = ld.lunsizeinmb * 1048576 % 2 ^ 32 in
    ltb (if ltb size (2 ^ 31) then size + 2 ^ 32 else size) (lba + n)

-- The length is a `long`. One of four bytes wraps, and a negative one that passes the test writes
-- nothing and is good.
unfoldable pub write12 : {F : Type 0} → Command F
unfolding write_bytes
write12 io luns ld cdb s =
    let lba = be32_at cdb 2 * ld.block_size in
    let n = be32_at cdb 6 * ld.block_size in
    let wrapped = n % 2 ^ 32 in
    if io.sizeof_long == 4
    then if is_negative io wrapped
      then if beyond_end_negative ld lba wrapped
        then finished (check_condition s)
        else finished (good wrapped s)
      else write_bytes io ld lba wrapped s
    else write_bytes io ld lba n s

unfoldable pub write10 : {F : Type 0} → Command F
unfolding write_blocks
write10 io luns ld cdb s = write_blocks io ld (be32_at cdb 2) (be16_at cdb 7) s

unfoldable pub write6 : {F : Type 0} → Command F
unfolding write_blocks
write6 io luns ld cdb s = write_blocks io ld (be16_at cdb 2) (cdb 4) s
