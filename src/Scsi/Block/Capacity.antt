-- ===== src/Scsi/Block/Capacity.antt =====
-- What READ CAPACITY(10) of user/scsi.c answers.
use vscsi_hba.Base.{
  ℕ, ◌+◌, ◌-◌, ◌/◌, ◌^◌, ◌≡◌, ◌<◌, refl, ap, ◌∙◌, List, ◌++◌, length-append, replicate, arith, ◌⊎◌,
  inl, inr,
}
use vscsi_hba.Scsi.Engine.{Buf, clear, put_long, be32, Cdb, be32_at, Libc, Lun, Io}
use vscsi_hba.Scsi.Engine.Buffers.{pokes_below, pokes_at}
use vscsi_hba.Scsi.Block.{read_capacity10, last_block}
use vscsi_hba.Scsi.Block.Transfer.{Finishes}

-- The first four bytes of a `long`, read back.
be32_at-put_long :
    {F : Type 0} (io : Libc F) (i v : ℕ) (b : Buf)
    → v < 2 ^ 32
    → be32_at (put_long io i v b).cell i ≡ v
be32_at-put_long io i v b small =
    let field = be32 v ++ replicate (io.sizeof_long - 4) 0 in
    let long = length-append {0} (be32 v) (replicate (io.sizeof_long - 4) 0) in
    omega (
      arith,
      pokes_at i field b i 0 (omega arith) (omega arith),
      pokes_at i field b (i + 1) 1 (omega arith) (omega arith),
      pokes_at i field b (i + 2) 2 (omega arith) (omega arith),
      pokes_at i field b (i + 3) 3 (omega arith) (omega arith),
    )

-- The four bytes in front of a `long` stay as they are.
be32_at-put_long_below :
    {F : Type 0} (io : Libc F) (v : ℕ) (b : Buf)
    → be32_at (put_long io 4 v b).cell 0 ≡ be32_at b.cell 0
be32_at-put_long_below io v b =
    let field = be32 v ++ replicate (io.sizeof_long - 4) 0 in
    omega (
      arith,
      pokes_below 4 field b 0 (omega arith),
      pokes_below 4 field b 1 (omega arith),
      pokes_below 4 field b 2 (omega arith),
      pokes_below 4 field b 3 (omega arith),
    )

last_block_lem : (n q : ℕ) → (n ≡ 4) ⊎ (n ≡ 8) → 0 < q → q < 2 ^ 31 → last_block n q ≡ q - 1
last_block_lem n q (inl e) pos small = ground arith
last_block_lem n q (inr e) pos small = ground arith

-- With a `long` of four or eight bytes, a file of at least one block and fewer than 2^31, the
-- command succeeds with eight bytes: the number of the last block, which is the file's length in
-- blocks less one, and the block size, each with its most significant byte first. The file is
-- left as the C library left it.
pub read_capacity10_lem :
    {F : Type 0} (io : Libc F) (luns : List ℕ) (ld : Lun) (cdb : Cdb) (s : Io F) (q : ℕ)
    → (io.sizeof_long ≡ 4) ⊎ (io.sizeof_long ≡ 8)
    → ld.block_size < 2 ^ 16
    → (io.size s.file).0 / ld.block_size ≡ q
    → 0 < q
    → q < 2 ^ 31
    → Finishes
        (λ s'.
          (s'.status ≡ 0)
          × (s'.data_size ≡ 8)
          × (be32_at s'.data_.cell 0 ≡ q - 1)
          × (be32_at s'.data_.cell 4 ≡ ld.block_size)
          × (s'.file ≡ (io.size s.file).1))
        (read_capacity10 io luns ld cdb s)
unfolding read_capacity10
read_capacity10_lem io luns ld cdb s q wide small blocks pos few =
    let last = last_block io.sizeof_long ((io.size s.file).0 / ld.block_size) in
    let last_is : last ≡ q - 1 =
      ap (last_block io.sizeof_long) blocks ∙ last_block_lem io.sizeof_long q wide pos few in
    let b1 = put_long io 0 last (clear 8 s.data_) in
    (
      refl,
      refl,
      be32_at-put_long_below io ld.block_size b1
          ∙ be32_at-put_long io 0 last (clear 8 s.data_) (omega arith)
          ∙ last_is,
      be32_at-put_long io 4 ld.block_size b1 (omega arith),
      refl,
    )
