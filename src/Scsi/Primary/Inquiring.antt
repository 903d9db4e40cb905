-- ===== src/Scsi/Primary/Inquiring.antt =====
-- The standard data of INQUIRY, user/scsi.c, by which the kernel knows the disk.
use vscsi_hba.Base.{
  ℕ, zero, suc, ◌+◌, ◌%◌, ◌≡◌, ◌≤◌, ◌<◌, refl, ◌∙◌, false, List, [], ◌∷◌, ◌==◌, ltb, if◌then◌else◌,
  length, take, get_or, arith, Bool-cases, inl, inr,
}
use vscsi_hba.Scsi.Engine.{Buf, pokes, fill, clear, be16_at, Cdb, Libc, Lun, Io}
use vscsi_hba.Scsi.Engine.Buffers.{pokes_below, pokes_above, pokes_at}
use vscsi_hba.Scsi.Primary.{put_text, standard_inquiry, inquiry}
use vscsi_hba.Scsi.Block.Transfer.{Finishes}

-- A character of a text that is filled up with blanks.
abbrev pub padded : List ℕ → ℕ → ℕ
padded text j = if ltb j (length text) then get_or text j 0 else b' '

length-take_le : (n : ℕ) (text : List ℕ) → length (take n text) ≤ n
length-take_le zero text = omega arith
length-take_le (suc n) [] = omega arith
length-take_le (suc n) (c ∷ cs) = omega (arith, length-take_le n cs)

length-take_full :
    (n j : ℕ) (text : List ℕ) → j < n → ltb j (length (take n text)) ≡ ltb j (length text)
length-take_full zero j text h = absurd (omega arith)
length-take_full (suc n) j [] h = refl
length-take_full (suc n) zero (c ∷ cs) h = ground arith
length-take_full (suc n) (suc j) (c ∷ cs) h = ground (arith, length-take_full n j cs (omega arith))

get_or-take : (n j : ℕ) (text : List ℕ) → j < n → get_or (take n text) j 0 ≡ get_or text j 0
get_or-take zero j text h = absurd (omega arith)
get_or-take (suc n) j [] h = refl
get_or-take (suc n) zero (c ∷ cs) h = refl
get_or-take (suc n) (suc j) (c ∷ cs) h = get_or-take n j cs (omega arith)

put_text_at :
    (i n : ℕ) (text : List ℕ) (b : Buf) (j : ℕ)
    → j < n
    → (put_text i n text b).cell (i + j) ≡ padded text j
unfolding put_text
put_text_at i n text b j h =
    let same = length-take_full n j text h in
    elim (Bool-cases (ltb j (length text))) [
      | inl e ↦ rw e (
          pokes_at i (take n text) (fill i n b' ' b) (i + j) j (omega arith)
            (ground (arith, same, e))
          ∙ get_or-take n j text h)
      | inr e ↦ rw e (
          pokes_above i (take n text) (fill i n b' ' b) (i + j) (ground (arith, same, e))
          ∙ ground arith)
    ]

put_text_below :
    (i n : ℕ) (text : List ℕ) (b : Buf) (j : ℕ) → j < i → (put_text i n text b).cell j ≡ b.cell j
unfolding put_text
put_text_below i n text b j h = pokes_below i (take n text) (fill i n b' ' b) j h ∙ ground arith

-- Without the bit for vital product data, the command succeeds with as many bytes as were asked
-- for. Its answer has the LUN's device type, 31 more bytes announced behind the fifth, and the
-- vendor, the product and the revision, each cut to its field of 8, 16 and 4 bytes or filled up
-- with blanks.
pub inquiry_lem :
    {F : Type 0} (io : Libc F) (luns : List ℕ) (ld : Lun) (cdb : Cdb) (s : Io F)
    → cdb 1 % 2 ≡ 0
    → Finishes
        (λ s'.
          (s'.status ≡ 0)
          × (s'.data_size ≡ be16_at cdb 3)
          × (s'.file ≡ s.file)
          × (s'.data_.cell 0 ≡ ld.device_type)
          × (s'.data_.cell 4 ≡ 31)
          × ((j : ℕ) → j < 8 → s'.data_.cell (8 + j) ≡ padded ld.vendor j)
          × ((j : ℕ) → j < 16 → s'.data_.cell (16 + j) ≡ padded ld.productid j)
          × ((j : ℕ) → j < 4 → s'.data_.cell (32 + j) ≡ padded ld.revision j))
        (inquiry io luns ld cdb s)
unfolding inquiry standard_inquiry
inquiry_lem io luns ld cdb s plain =
    let test : (cdb 1 % 2 == 1) ≡ false = ground (arith, plain) in
    let head = ld.device_type ∷ 0x00 ∷ 0x05 ∷ 0x02 ∷ 31 ∷ 0 ∷ 0x80 ∷ 0 ∷ [] in
    let b1 = pokes 0 head (clear (be16_at cdb 3) s.data_) in
    let b2 = put_text 8 8 ld.vendor b1 in
    let b3 = put_text 16 16 ld.productid b2 in
    let early : (j : ℕ) → j < 8 → (put_text 32 4 ld.revision b3).cell j ≡ b1.cell j = λ j h.
      put_text_below 32 4 ld.revision b3 j (omega arith)
      ∙ put_text_below 16 16 ld.productid b2 j (omega arith)
      ∙ put_text_below 8 8 ld.vendor b1 j h in
    rw test (
      refl,
      refl,
      refl,
      early 0 (omega arith)
          ∙ pokes_at 0 head (clear (be16_at cdb 3) s.data_) 0 0 refl (omega arith),
      early 4 (omega arith)
          ∙ pokes_at 0 head (clear (be16_at cdb 3) s.data_) 4 4 refl (omega arith),
      λ j h.
          put_text_below 32 4 ld.revision b3 (8 + j) (omega arith)
          ∙ put_text_below 16 16 ld.productid b2 (8 + j) (omega arith)
          ∙ put_text_at 8 8 ld.vendor b1 j h,
      λ j h.
          put_text_below 32 4 ld.revision b3 (16 + j) (omega arith)
          ∙ put_text_at 16 16 ld.productid b2 j h,
      λ j h. put_text_at 32 4 ld.revision b3 j h,
    )
