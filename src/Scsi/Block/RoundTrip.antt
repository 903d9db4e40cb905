-- ===== src/Scsi/Block/RoundTrip.antt =====
-- The read and write commands of user/scsi.c as a disk: what is written is read back.
use vscsi_hba.Base.{
  Bool, ℕ, zero, suc, ◌+◌, ◌-◌, ◌*◌, ◌≡◌, ◌≤◌, ◌<◌, refl, ap, ◌∙◌, true, false, List, [], ltb,
  arith,
}
use vscsi_hba.Scsi.Engine.{
  Buf, pokes, Libc, Lun, Io, Run, finished, unfinished, crashes, exits, Cdb, be32_at, be16_at,
  check_condition,
}
use vscsi_hba.Scsi.Block.{
  read_blocks, write_blocks, write_bytes, read_loop, write_loop, beyond_end, then_good, read10,
  write10,
}
use vscsi_hba.Scsi.Block.Transfer.{
  IsFile, Finishes, Finishes-map, ReadFrom, Wrote, read_loop-ReadFrom, write_loop-Wrote,
}

then_good_lem :
    {F : Type 0} (P Q : Io F → Type 0) (n : ℕ) (r : Run (Io F))
    → ((s : Io F) → P s → Q (record s { data_size = n; status = 0 }))
    → Finishes P r
    → Finishes Q (then_good n r)
then_good_lem P Q n (finished s) f h = f s h
then_good_lem P Q n crashes f h = h
then_good_lem P Q n (exits c) f h = h
then_good_lem P Q n unfinished f h = h

-- How a command answers: off the disk with status 2 and nothing else changed, on it as `P` says.
abbrev pub Answers : {F : Type 0} → Bool → (Io F → Type 0) → Io F → Run (Io F) → Type 0
Answers true P s r = r ≡ finished (check_condition s)
Answers false P s r = Finishes P r

Answers-of :
    {F : Type 0} (off : Bool) (P : Io F → Type 0) (s : Io F) (r : Run (Io F))
    → (off ≡ false → Finishes P r) × (off ≡ true → r ≡ finished (check_condition s))
    → Answers off P s r
Answers-of true P s r (on, beyond) = beyond refl
Answers-of false P s r (on, beyond) = on refl

module _ {F : Type 0} (io : Libc F) (view : F → ℕ → ℕ) (len : F → ℕ) (law : IsFile io view len)
    (ld : Lun) (block blocks : ℕ) where
  -- The first byte and the number of bytes.
  abbrev first : ℕ
  first = block * ld.block_size

  abbrev total : ℕ
  total = blocks * ld.block_size

  -- What a good read leaves.
  abbrev pub ReadGood : Io F → Io F → Type 0
  ReadGood s s' =
      (s'.status ≡ 0)
      × (s'.data_size ≡ total)
      × (view s'.file ≡ view s.file)
      × ((i : ℕ) → i < total → s'.data_.cell i ≡ view s.file (first + i))
      × ((i : ℕ) → total ≤ i → s'.data_.cell i ≡ s.data_.cell i)
      × ((k : ℕ) → s.data_.top ≤ k → total ≤ k → s'.data_.top ≤ k)

  -- What a good write leaves.
  abbrev pub WriteGood : Io F → Io F → Type 0
  WriteGood s s' =
      (s'.status ≡ 0)
      × (s'.data_size ≡ total)
      × ((j : ℕ) → first ≤ j → j < first + total → view s'.file j ≡ s.data_.cell (j - first))
      × ((j : ℕ) → j < first → view s'.file j ≡ view s.file j)
      × ((j : ℕ) → first + total ≤ j → view s'.file j ≡ view s.file j)
      × (s'.data_ ≡ s.data_)
      × (len s.file ≤ len s'.file)

  read_blocks_cases :
      (s : Io F)
      → (beyond_end ld (first + total) ≡ false → first + total ≤ len s.file)
      → (beyond_end ld (first + total) ≡ false
          → Finishes (ReadGood s) (read_blocks io ld block blocks s))
        × (beyond_end ld (first + total) ≡ true
            → read_blocks io ld block blocks s ≡ finished (check_condition s))
  unfolding read_blocks
  read_blocks_cases s fits = (
    λ on. rw on (
        then_good_lem (ReadFrom io view len law first total 0 s) (ReadGood s) total
          (read_loop io first total total 0 s)
          (λ s' (same, new, _, high, peak).
            (refl, refl, same, λ i p. new i (omega arith) p, high, peak))
          (read_loop-ReadFrom io view len law first total total 0 s (omega arith) (omega arith)
            (fits on))),
    λ off. rw off,
  )

  write_blocks_cases :
      (s : Io F)
      → (beyond_end ld (first + total) ≡ false
          → Finishes (WriteGood s) (write_blocks io ld block blocks s))
        × (beyond_end ld (first + total) ≡ true
            → write_blocks io ld block blocks s ≡ finished (check_condition s))
  unfolding write_blocks write_bytes
  write_blocks_cases s = (
    λ on. rw on (
        then_good_lem (Wrote io view len law first total 0 s) (WriteGood s) total
          (write_loop io first total total 0 s)
          (λ s' (new, low, high, same, grows). (
            refl,
            refl,
            λ j p q. new j (omega arith) q,
            λ j p. low j (omega arith),
            high,
            same,
            grows,
          ))
          (write_loop-Wrote io view len law first total total 0 s (omega arith) (omega arith))),
    λ off. rw off,
  )

  -- On a file that behaves as the C library documents, a read of blocks that lie on the disk
  -- ends, where the file holds them. It answers status 0 and the number of bytes, puts exactly
  -- the bytes of those blocks at the start of the buffer and writes no byte behind them, and
  -- leaves the file as it was. Off the disk, whatever the file holds, it answers status 2 and
  -- changes nothing else.
  pub read_blocks-ReadGood :
      (s : Io F)
      → (beyond_end ld (first + total) ≡ false → first + total ≤ len s.file)
      → Answers (beyond_end ld (first + total)) (ReadGood s) s (read_blocks io ld block blocks s)
  read_blocks-ReadGood s fits =
      Answers-of (beyond_end ld (first + total)) (ReadGood s) s (read_blocks io ld block blocks s)
        (read_blocks_cases s fits)

  -- On a file that behaves as the C library documents, a write of blocks that lie on the disk
  -- ends. It answers status 0 and the number of bytes, stores the start of the buffer in exactly
  -- those blocks of the file, and leaves the buffer as it was. Off the disk it answers status 2
  -- and changes nothing else.
  pub write_blocks-WriteGood :
      (s : Io F)
      → Answers (beyond_end ld (first + total)) (WriteGood s) s (write_blocks io ld block blocks s)
  write_blocks-WriteGood s =
      Answers-of (beyond_end ld (first + total)) (WriteGood s) s (write_blocks io ld block blocks s)
        (write_blocks_cases s)

-- One command, then another on the file that the first left, with a buffer of its own.
abbrev pub then_with : {F : Type 0} → Run (Io F) → Buf → (Io F → Run (Io F)) → Run (Io F)
then_with (finished s) b f = f (record s { data_ = b })
then_with crashes b f = crashes
then_with (exits c) b f = exits c
then_with unfinished b f = unfinished

then_with_lem :
    {F : Type 0} (P Q : Io F → Type 0) (b : Buf) (r : Run (Io F)) (f : Io F → Run (Io F))
    → ((s : Io F) → P s → Finishes Q (f (record s { data_ = b })))
    → Finishes P r
    → Finishes Q (then_with r b f)
then_with_lem P Q b (finished s) f g h = g s h
then_with_lem P Q b crashes f g h = h
then_with_lem P Q b (exits c) f g h = h
then_with_lem P Q b unfinished f g h = h

-- On a file that behaves as the C library documents, WRITE(10) of some blocks, then READ(10) of
-- the same blocks into any buffer, end with status 0 and give back the bytes that were written,
-- where the blocks lie on the disk and in its file.
pub write10-read10 :
    {F : Type 0} (io : Libc F) (view : F → ℕ → ℕ) (len : F → ℕ) (luns : List ℕ) (ld : Lun)
    (cdb : Cdb) (s : Io F) (b : Buf)
    → IsFile io view len
    → be32_at cdb 2 * ld.block_size + be16_at cdb 7 * ld.block_size ≤ len s.file
    → beyond_end ld (be32_at cdb 2 * ld.block_size + be16_at cdb 7 * ld.block_size) ≡ false
    → Finishes
        (λ s'.
          (s'.status ≡ 0)
          × ((i : ℕ) → i < be16_at cdb 7 * ld.block_size → s'.data_.cell i ≡ s.data_.cell i))
        (then_with (write10 io luns ld cdb s) b (read10 io luns ld cdb))
unfolding write10 read10
write10-read10 io view len luns ld cdb s b law fits on =
    let block = be32_at cdb 2 in
    let blocks = be16_at cdb 7 in
    let from = block * ld.block_size in
    let n = blocks * ld.block_size in
    then_with_lem (WriteGood io view len law ld block blocks s) _ b
      (write_blocks io ld block blocks s) (read_blocks io ld block blocks)
      (λ s1 (_, _, new, _, _, _, grows).
        Finishes-map (ReadGood io view len law ld block blocks (record s1 { data_ = b })) _
          (read_blocks io ld block blocks (record s1 { data_ = b }))
          (λ s2 (ok_, _, _, cells, _, _). (
            ok_,
            λ i p.
                cells i p
                ∙ new (from + i) (omega arith) (omega arith)
                ∙ ap s.data_.cell (omega arith),
          ))
          ((read_blocks_cases io view len law ld block blocks (record s1 { data_ = b })
              (λ _. omega arith)).0
            on))
      ((write_blocks_cases io view len law ld block blocks s).0 on)

-- A read that starts at or behind the end of the file makes no progress: where the C library has
-- nothing to give there, the loop does not end, whatever fuel it has.
pub read_past_end :
    {F : Type 0} (io : Libc F) (len : F → ℕ) (lba n fuel : ℕ) (s : Io F)
    → ((f : F) (off m : ℕ) → len f ≤ off → io.pread f off m ≡ ([], f))
    → len s.file ≤ lba
    → 0 < n
    → read_loop io lba n fuel 0 s ≡ unfinished
unfolding read_loop
read_past_end io len lba n zero s nothing behind more =
    let waits : ltb 0 n ≡ true = ground arith in rw waits
read_past_end io len lba n (suc fuel) s nothing behind more =
    let waits : ltb 0 n ≡ true = ground arith in
    rw (waits, nothing s.file (lba + 0) (n - 0) (omega arith))
      (unfold pokes in read_past_end io len lba n fuel s nothing behind more)
