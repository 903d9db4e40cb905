-- ===== src/Scsi/Block/Wrapping.antt =====
-- WRITE(12) of user/scsi.c, whose number of bytes is a `long`.
use vscsi_hba.Base.{
  ℕ, ◌+◌, ◌*◌, ◌%◌, ◌^◌, ◌≡◌, ◌≢◌, ◌≤◌, ◌<◌, refl, true, false, List, ◌==◌, ltb, leb, arith,
  Bool-cases, inl, inr, ◌⊎◌,
}
use vscsi_hba.Scsi.Engine.{Libc, Lun, Io, Cdb, finished, be32_at}
use vscsi_hba.Scsi.Block.{write12, write_bytes, write_blocks, write_loop, beyond_end}
use vscsi_hba.Scsi.Block.Transfer.{IsFile}
use vscsi_hba.Scsi.Block.RoundTrip.{Answers, WriteGood, write_blocks-WriteGood}

-- No disk reaches 2 ^ 32 bytes further.
beyond_end_more :
    (ld : Lun) (first n : ℕ) → 0 < n → n % 2 ^ 32 ≡ 0 → beyond_end ld (first + n) ≡ true
beyond_end_more ld first n more whole =
    let size = ld.lunsizeinmb * 1048576 % 2 ^ 32 in
    let below : size < 2 ^ 32 = omega arith in
    let large : 2 ^ 32 ≤ n = omega arith in
    elim (Bool-cases (ltb size (2 ^ 31))) [
      | inl p ↦ let far : ltb size (first + n) ≡ true = ground arith in rw (p, far) refl
      | inr p ↦ rw p refl
    ]

module _ {F : Type 0} (io : Libc F) (view : F → ℕ → ℕ) (len : F → ℕ) (law : IsFile io view len)
    (luns : List ℕ) (ld : Lun) (cdb : Cdb) (s : Io F) where
  abbrev first : ℕ
  first = be32_at cdb 2 * ld.block_size

  abbrev total : ℕ
  total = be32_at cdb 6 * ld.block_size

  abbrev Stores : Type 0
  Stores =
      Answers (beyond_end ld (first + total))
        (WriteGood io view len law ld (be32_at cdb 2) (be32_at cdb 6) s) s
        (write12 io luns ld cdb s)

  write12_wide : io.sizeof_long ≢ 4 → Stores
  unfolding write12 write_blocks
  write12_wide wide =
      let test : (io.sizeof_long == 4) ≡ false = ground (arith, wide) in
      rw test (write_blocks-WriteGood io view len law ld (be32_at cdb 2) (be32_at cdb 6) s)

  write12_narrow : io.sizeof_long ≡ 4 → total < 2 ^ 31 → Stores
  unfolding write12 write_blocks
  write12_narrow narrow small =
      let test : (io.sizeof_long == 4) ≡ true = ground (arith, narrow) in
      let kept : total % 2 ^ 32 ≡ total = omega arith in
      let positive : leb (2 ^ 31) total ≡ false = ground arith in
      rw (test, kept, positive)
        (write_blocks-WriteGood io view len law ld (be32_at cdb 2) (be32_at cdb 6) s)

  -- On a file that behaves as the C library documents, WRITE(12) ends, where `long` has more than
  -- four bytes or fewer than 2 ^ 31 bytes are to be written. On the disk it answers status 0 and
  -- stores the start of the buffer in exactly its blocks of the file; off the disk it answers
  -- status 2 and changes nothing else.
  pub write12-WriteGood :
      (io.sizeof_long ≢ 4) ⊎ (total < 2 ^ 31)
      → Answers
          (beyond_end ld (first + total))
          (WriteGood io view len law ld (be32_at cdb 2) (be32_at cdb 6) s)
          s
          (write12 io luns ld cdb s)
  write12-WriteGood (inl wide) = write12_wide wide
  write12-WriteGood (inr small) = elim (Bool-cases (io.sizeof_long == 4)) [
    | inl p ↦ write12_narrow (ground arith) small
    | inr p ↦ write12_wide (λ e. ground arith)
  ]

-- Where `long` has four bytes, a WRITE(12) of a positive multiple of 2 ^ 32 bytes, from a byte on
-- the disk on, is lost: although its end lies off the disk, whose size is an `int`, it answers
-- status 0, and the file is as it was.
pub write12_loses :
    {F : Type 0} (io : Libc F) (luns : List ℕ) (ld : Lun) (cdb : Cdb) (s : Io F)
    → io.sizeof_long ≡ 4
    → 0 < be32_at cdb 6 * ld.block_size
    → be32_at cdb 6 * ld.block_size % 2 ^ 32 ≡ 0
    → beyond_end ld (be32_at cdb 2 * ld.block_size) ≡ false
    → (beyond_end ld (be32_at cdb 2 * ld.block_size + be32_at cdb 6 * ld.block_size) ≡ true)
      × ((s' : Io F) × (write12 io luns ld cdb s ≡ finished s')
          × (s'.status ≡ 0)
          × (s'.file ≡ s.file))
unfolding write12 write_bytes write_loop
write12_loses io luns ld cdb s narrow some_ whole on =
    let first = be32_at cdb 2 * ld.block_size in
    let test : (io.sizeof_long == 4) ≡ true = ground (arith, narrow) in
    let start : first + 0 ≡ first = omega arith in
    (
      beyond_end_more ld first (be32_at cdb 6 * ld.block_size) some_ whole,
      rw (test, whole, start, on) (_, refl, refl, refl),
    )
