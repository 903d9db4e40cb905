-- ===== src/Scsi/Primary.antt =====
-- The primary commands (SPC) of user/scsi.c.
pub mod Inventory
use Prim.Native.Nat.{bit_and}
pub mod Inquiring
use vscsi_hba.Base.{
  ℕ, zero, suc, ◌+◌, ◌-◌, ◌*◌, ◌/◌, ◌%◌, ◌^◌, Bool, true, false, ◌&&◌, List, [], ◌∷◌, ◌++◌, ◌==◌,
  ltb, leb, if◌then◌else◌, length, take, replicate,
}
use vscsi_hba.Scsi.Engine.{
  Buf, poke, pokes, fill, clear, put_long, is_negative, be32_at, be16_at, be32, Cdb, Libc, Lun, Io,
  Run, finished, crashes, Command, check_condition, good, max,
}

-- The parameter data of ILLEGAL_REQUEST.
abbrev pub illegal_request_data : List ℕ
illegal_request_data =
    0x00 ∷ 0x1c ∷ 0x70 ∷ 0x00 ∷ 0x05 ∷ 0x00 ∷ 0x00 ∷ 0x00 ∷ 0x00 ∷ 0x12 ∷ 0x00 ∷ 0x00 ∷ 0x00 ∷ 0x00
    ∷ 0x24 ∷ 0x00 ∷ 0x00 ∷ 0x00 ∷ 0x00 ∷ 0x00 ∷ 0x00 ∷ 0x01 ∷ 0x02 ∷ 0x03 ∷ 0x04 ∷ 0x05 ∷ 0x06
    ∷ 0x07 ∷ []

unfoldable pub illegal_request : {F : Type 0} → Io F → Io F
unfolding pokes
illegal_request s = record s {
  data_size = 28;
  status = 2;
  data_ = pokes 0 illegal_request_data s.data_;
}

-- Where the LUN number of entry `n` goes.
abbrev pub entry_offset : ℕ → ℕ
entry_offset n = 8 + 1 + n * 8

-- The loop over the target's LUNs, from entry `n` on.
module _ (alloc_len : ℕ) where
  unfoldable pub fill_luns : ℕ → List ℕ → Buf → ℕ × Buf
  fill_luns n [] b = (n, b)
  fill_luns n (l ∷ ls) b =
      fill_luns (n + 1) ls (if leb (entry_offset n) alloc_len then poke (entry_offset n) l b else b)

-- A length that is negative as a `long` is below `data_size`, and `memset` runs off the address
-- space.
unfoldable pub report_luns : {F : Type 0} → Command F
unfolding fill_luns pokes
report_luns io luns ld cdb s =
    let alloc_len = be32_at cdb 6 in
    if is_negative io alloc_len
    then crashes
    else if ltb s.data_size alloc_len
    then finished (check_condition s)
    else (let (numluns, b) = fill_luns alloc_len 0 luns (clear alloc_len s.data_) in
        finished (good alloc_len (record s { data_ = put_long io 0 (numluns * 8) b })))

-- The commands that transfer nothing and succeed: spc_test_unit_ready.
unfoldable pub test_unit_ready : {F : Type 0} → Command F
test_unit_ready io luns ld cdb s = finished (good 0 s)

abbrev pub sense_is_ok : List ℕ
sense_is_ok =
    0x70 ∷ 0x00 ∷ 0x00 ∷ 0x00 ∷ 0x00 ∷ 0x00 ∷ 0x00 ∷ 0x12 ∷ 0x00 ∷ 0x00 ∷ 0x00 ∷ 0x00 ∷ 0x00 ∷ 0x00
    ∷ 0x00 ∷ 0x00 ∷ 0x00 ∷ 0x00 ∷ 0x00 ∷ 0x01 ∷ 0x02 ∷ 0x03 ∷ 0x04 ∷ 0x05 ∷ 0x06 ∷ 0x07 ∷ []

-- The 26 bytes go out whatever the allocation length.
unfoldable pub request_sense : {F : Type 0} → Command F
unfolding pokes
request_sense io luns ld cdb s =
    if cdb 1 % 2 == 1
    then finished (check_condition s)
    else finished (good (cdb 4) (record s { data_ = pokes 0 sense_is_ok s.data_ }))

-- The block descriptor, then the mode pages 1 to 4, 0x0a, 0x18 and 0x19, from offset 4 on.
abbrev pub mode_pages : List ℕ
mode_pages =
    0 ∷ 0 ∷ 0 ∷ 0 ∷ 0 ∷ 0 ∷ 0x02 ∷ 0 ∷ 0x01 ∷ 0x0a ∷ 0xe4 ∷ 0 ∷ 0 ∷ 0 ∷ 0 ∷ 0 ∷ 0 ∷ 0 ∷ 0 ∷ 0 ∷ 0x02
    ∷ 0x0e ∷ 0 ∷ 0 ∷ 0 ∷ 0 ∷ 0 ∷ 0 ∷ 0 ∷ 0 ∷ 0x08 ∷ 0 ∷ 0 ∷ 0 ∷ 0 ∷ 0 ∷ 0x03 ∷ 0x16 ∷ 0 ∷ 0x01 ∷ 0
    ∷ 0 ∷ 0 ∷ 0 ∷ 0 ∷ 0 ∷ 0 ∷ 0x10 ∷ 0x02 ∷ 0 ∷ 0 ∷ 0x01 ∷ 0 ∷ 0 ∷ 0 ∷ 0 ∷ 0x40 ∷ 0 ∷ 0 ∷ 0 ∷ 0x04
    ∷ 0x16 ∷ 0x02 ∷ 0 ∷ 0 ∷ 0x01 ∷ 0 ∷ 0 ∷ 0 ∷ 0 ∷ 0 ∷ 0 ∷ 0 ∷ 0 ∷ 0 ∷ 0 ∷ 0 ∷ 0 ∷ 0 ∷ 0 ∷ 0x11
    ∷ 0x30 ∷ 0 ∷ 0 ∷ 0x0a ∷ 0x0a ∷ 0 ∷ 0 ∷ 0 ∷ 0 ∷ 0 ∷ 0 ∷ 0xff ∷ 0xff ∷ 0 ∷ 0 ∷ 0x18 ∷ 0x01 ∷ 0x05
    ∷ 0x19 ∷ 0x01 ∷ 0x05 ∷ []

-- All pages, or 18 zeros for any other request. The header's length byte is one less than `pos`.
unfoldable pub mode_sense6 : {F : Type 0} → Command F
unfolding pokes
mode_sense6 io luns ld cdb s =
    if cdb 1 / 8 % 2 == 0 && cdb 2 / 64 % 4 == 0 && cdb 2 % 64 == 0x3f
    then (let pos = 4 + length mode_pages in
        let b = pokes 4 mode_pages s.data_ in
        let b = pokes 0 ((pos - 1) % 256 ∷ 0x00 ∷ 0x00 ∷ 8 ∷ []) b in
        finished (good pos (record s { data_ = b })))
    else finished (good 18 (record s { data_ = clear 18 s.data_ }))

-- spc_mode_sense10, spc_prevent_allow_media_removal and spc_mode_select10 transfer nothing too.
unfoldable pub mode_sense10 : {F : Type 0} → Command F
mode_sense10 io luns ld cdb s = finished (good 0 s)

unfoldable pub prevent_allow_media_removal : {F : Type 0} → Command F
prevent_allow_media_removal io luns ld cdb s = finished (good 0 s)

unfoldable pub mode_select10 : {F : Type 0} → Command F
mode_select10 io luns ld cdb s = finished (good 0 s)

-- The four service actions that pass.
abbrev pub is_known_action : ℕ → Bool
is_known_action sa = ltb sa 4

unfoldable pub persistent_reserve_out : {F : Type 0} → Command F
unfolding illegal_request
persistent_reserve_out io luns ld cdb s =
    if is_known_action (cdb 1 % 32)
    then finished (good (be32_at cdb 5) s)
    else finished (illegal_request s)

unfoldable pub persistent_reserve_in : {F : Type 0} → Command F
unfolding illegal_request
persistent_reserve_in io luns ld cdb s =
    let alloc_len = be16_at cdb 7 in
    let s' = record s { data_ = clear alloc_len s.data_ } in
    if is_known_action (cdb 1 % 32)
    then finished (good alloc_len s')
    else finished (illegal_request s')

-- `memset(data+i, ' ', n); strncpy(data+i, text, MIN(strlen(text),n));`
unfoldable pub put_text : ℕ → ℕ → List ℕ → Buf → Buf
unfolding pokes
put_text i n text b = pokes i (take n text) (fill i n b' ' b)

unfoldable pub standard_inquiry : Lun → Buf → Buf
unfolding put_text
standard_inquiry ld b =
    let b = pokes 0 (ld.device_type ∷ 0x00 ∷ 0x05 ∷ 0x02 ∷ 31 ∷ 0 ∷ 0x80 ∷ 0 ∷ []) b in
    let b = put_text 8 8 ld.vendor b in
    let b = put_text 16 16 ld.productid b in put_text 32 4 ld.revision b

unfoldable pub inquiry : {F : Type 0} → Command F
unfolding standard_inquiry
inquiry io luns ld cdb s =
    let alloc_len = be16_at cdb 3 in
    let b = clear alloc_len s.data_ in
    if cdb 1 % 2 == 1
    then if cdb 2 == 0
      then finished (good alloc_len (record s { data_ = pokes 0 (0x05 ∷ 0 ∷ 0 ∷ 1 ∷ 0 ∷ []) b }))
      else if cdb 2 == 0x83
      then finished (good alloc_len (record s { data_ = pokes 0 (0x05 ∷ 0x83 ∷ []) b }))
      else finished (check_condition (record s { data_ = b }))
    else finished (good alloc_len (record s { data_ = standard_inquiry ld b }))
