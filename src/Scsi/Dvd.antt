-- ===== src/Scsi/Dvd.antt =====
-- GET PERFORMANCE and READ DVD STRUCTURE of user/scsi.c.
use vscsi_hba.Base.{ℕ, ◌/◌, ◌%◌, ◌^◌, List, [], ◌∷◌, ◌==◌, if◌then◌else◌, length}
use vscsi_hba.Scsi.Engine.{
  pokes, clear, be16_at, Libc, Lun, Io, Run, finished, Command, check_condition, good,
}
use vscsi_hba.Scsi.Primary.{illegal_request}
use vscsi_hba.Scsi.Mmc.{by_profile, blocks_of}

abbrev pub nominal_performance : List ℕ
nominal_performance =
    0x00 ∷ 0x00 ∷ 0x00 ∷ 0x14 ∷ 0x02 ∷ 0x00 ∷ 0x00 ∷ 0x00 ∷ 0x00 ∷ 0x00 ∷ 0x00 ∷ 0x00 ∷ 0x00 ∷ 0x00
    ∷ 0x15 ∷ 0xa4 ∷ 0x00 ∷ 0x23 ∷ 0x10 ∷ 0x1f ∷ 0x00 ∷ 0x00 ∷ 0x15 ∷ 0xa4 ∷ []

abbrev pub write_speeds : List ℕ
write_speeds =
    0x00 ∷ 0x00 ∷ 0x00 ∷ 0x24 ∷ 0x00 ∷ 0x00 ∷ 0x00 ∷ 0x00 ∷ 0x00 ∷ 0x00 ∷ 0x00 ∷ 0x00 ∷ 0x00 ∷ 0x23
    ∷ 0x10 ∷ 0x1f ∷ 0x00 ∷ 0x00 ∷ 0x12 ∷ 0xb3 ∷ 0x00 ∷ 0x00 ∷ 0x15 ∷ 0xa4 ∷ 0x00 ∷ 0x00 ∷ 0x00
    ∷ 0x00 ∷ 0x00 ∷ 0x23 ∷ 0x10 ∷ 0x1f ∷ 0x00 ∷ 0x00 ∷ 0x12 ∷ 0xb3 ∷ 0x00 ∷ 0x00 ∷ 0x0c ∷ 0xfc ∷ []

abbrev pub rom_performance : List ℕ
rom_performance = 0x00 ∷ 0x00 ∷ 0x00 ∷ 0x04 ∷ 0x02 ∷ 0x00 ∷ 0x00 ∷ 0x00 ∷ []

-- `data` with a list at its start, and status 0.
abbrev pub answer_list : {F : Type 0} → List ℕ → Io F → Run (Io F)
answer_list bs s = finished (good (length bs) (record s { data_ = pokes 0 bs s.data_ }))

unfoldable pub get_performance : {F : Type 0} → Command F
unfolding pokes illegal_request
get_performance io luns ld cdb s =
    by_profile ld
      (if cdb 10 == 0
        then answer_list nominal_performance s
        else if cdb 10 == 3
        then answer_list write_speeds s
        else finished (check_condition s))
      (if cdb 10 == 0 then answer_list rom_performance s else finished (illegal_request s))
      (finished (good 0 s))

abbrev pub lead_in : List ℕ
lead_in =
    0x00 ∷ 0x6c ∷ 0x00 ∷ 0x00 ∷ 0x01 ∷ 0x40 ∷ 0xc1 ∷ 0xfd ∷ 0x9e ∷ 0xd8 ∷ 0x58 ∷ 0x00 ∷ 0x02 ∷ 0x35
    ∷ 0x0d ∷ 0x0e ∷ 0x88 ∷ 0x9a ∷ 0x80 ∷ 0x00 ∷ 0x03 ∷ 0x43 ∷ 0x4d ∷ 0x43 ∷ 0x20 ∷ 0x4d ∷ 0x41
    ∷ 0x00 ∷ 0x04 ∷ 0x47 ∷ 0x2e ∷ 0x20 ∷ 0x41 ∷ 0x45 ∷ 0x31 ∷ 0x00 ∷ 0x05 ∷ 0x00 ∷ 0x00 ∷ 0x00
    ∷ 0x00 ∷ 0x00 ∷ 0x02 ∷ 0x00 ∷ 0x06 ∷ 0x09 ∷ 0x0d ∷ 0x11 ∷ 0x87 ∷ 0x78 ∷ 0x90 ∷ 0x00 ∷ 0x07
    ∷ 0x88 ∷ 0x80 ∷ 0x00 ∷ 0x00 ∷ 0x00 ∷ 0x00 ∷ 0x00 ∷ 0x08 ∷ 0x05 ∷ 0x15 ∷ 0x0d ∷ 0x0f ∷ 0x0a
    ∷ 0x09 ∷ 0x00 ∷ []

-- The last block of a DVD-ROM is written to three bytes, of which the third is the lowest one.
unfoldable pub physical_format : {F : Type 0} → Libc F → Lun → Io F → Io F
unfolding pokes
physical_format io ld s =
    let b = pokes 0 (8 ∷ 2 ∷ 0 ∷ 0 ∷ []) s.data_ in
    let (total_size, file) = io.size s.file in
    let blocks = blocks_of io.sizeof_long (total_size / ld.block_size) in
    by_profile ld
      (record s {
        data_ = pokes 9 (0x03 ∷ 0x00 ∷ 0x00 ∷ []) (pokes 4 (0x25 ∷ 0x0f ∷ 0x02 ∷ 0x00 ∷ []) b);
      })
      (record s {
        file = file;
        data_ =
            pokes 13 (blocks / 2 ^ 24 % 256 ∷ blocks / 2 ^ 16 % 256 ∷ blocks % 256 ∷ [])
              (pokes 9 (0x03 ∷ 0x00 ∷ 0x00 ∷ []) (pokes 4 (0x01 ∷ 0x02 ∷ 0x01 ∷ 0x00 ∷ []) b));
      })
      (record s { data_ = b })

-- A list for a DVD-R, refused for a DVD-ROM, nothing for any other profile.
abbrev pub dvd_r_only : {F : Type 0} → Lun → ℕ → List ℕ → Io F → Run (Io F)
dvd_r_only ld alloc_len bs s =
    by_profile ld (finished (good alloc_len (record s { data_ = pokes 0 bs s.data_ })))
      (finished (illegal_request s)) (finished (good alloc_len s))

unfoldable pub read_dvd_structure : {F : Type 0} → Command F
unfolding pokes illegal_request physical_format
read_dvd_structure io luns ld cdb s =
    let alloc_len = be16_at cdb 8 in
    let s = record s { data_ = clear alloc_len s.data_ } in
    if cdb 7 == 0
    then finished (good alloc_len (physical_format io ld s))
    else if cdb 7 == 1
    then finished (good alloc_len (record s { data_ = pokes 0 (0 ∷ 6 ∷ []) s.data_ }))
    else if cdb 7 == 0x0d
    then dvd_r_only ld alloc_len (0x80 ∷ 0x06 ∷ []) s
    else if cdb 7 == 0x0e
    then dvd_r_only ld alloc_len lead_in s
    else if cdb 7 == 0x11
    then finished (illegal_request s)
    else finished (check_condition s)
