-- ===== src/Scsi/Mmc.antt =====
-- The CD and DVD commands (MMC) of user/scsi.c, but for those of Scsi.Dvd and Scsi.Configuration.
-- `lun_fh` is not null, as `add_lun` leaves it.
use vscsi_hba.Base.{
  ℕ, ◌+◌, ◌-◌, ◌*◌, ◌/◌, ◌%◌, ◌^◌, ◌||◌, not, List, [], ◌∷◌, ◌++◌, none, some, ◌==◌, leb,
  if◌then◌else◌,
}
use vscsi_hba.Scsi.Engine.{
  pokes, clear, be32_at, be16_at, be32, Libc, Lun, Io, Run, finished, crashes, exits, unfinished,
  Command, check_condition, good,
}

-- The two profiles that the commands tell apart: 0x0011, DVD-R, and 0x0010, DVD-ROM.
abbrev pub by_profile {ℓ} : {A : Type ℓ} → Lun → A → A → A → A
by_profile ld dvd_r dvd_rom other =
    if ld.current_profile == 0x0011
    then dvd_r
    else if ld.current_profile == 0x0010
    then dvd_rom
    else other

-- The capacities are constants.
abbrev pub buffer_capacity : List ℕ
buffer_capacity =
    0x00 ∷ 0x0a ∷ 0x00 ∷ 0x00 ∷ 0x00 ∷ 0x13 ∷ 0x00 ∷ 0x00 ∷ 0x00 ∷ 0x13 ∷ 0x00 ∷ 0x00 ∷ []

unfoldable pub read_buffer_capacity : {F : Type 0} → Command F
unfolding pokes
read_buffer_capacity io luns ld cdb s =
    if cdb 1 % 2 == 1
    then finished (check_condition s)
    else finished (good 12 (record s { data_ = pokes 0 buffer_capacity s.data_ }))

unfoldable pub synchronize_cache : {F : Type 0} → Command F
synchronize_cache io luns ld cdb s = finished (good 0 s)

unfoldable pub reserve_track : {F : Type 0} → Command F
reserve_track io luns ld cdb s = finished (good 0 s)

-- mmc_prevent_allow_media_removal
unfoldable pub lock_media : {F : Type 0} → Command F
lock_media io luns ld cdb s = finished (good 0 s)

unfoldable pub set_cd_speed : {F : Type 0} → Command F
set_cd_speed io luns ld cdb s = finished (good 0 s)

unfoldable pub set_streaming : {F : Type 0} → Command F
set_streaming io luns ld cdb s = finished (good 0 s)

-- `insert_new_dvd_r` of user/scsi_target.c: the image is closed, put aside under a new name unless
-- it is empty, and begun anew.
unfoldable pub insert_new_dvd_r : {F : Type 0} → Libc F → F → Run F
insert_new_dvd_r io f =
    let (total_size, f) = io.size f in
    let f = io.fclose f in
    let f = if total_size == 0 then f else io.rename f in
    elim (io.fopen_w f) [ none ↦ exits 10 | some f' ↦ finished f' ]

abbrev pub with_file : {F : Type 0} → Io F → Run F → Run (Io F)
with_file s (finished f) = finished (good 0 (record s { file = f }))
with_file s crashes = crashes
with_file s (exits c) = exits c
with_file s unfinished = unfinished

unfoldable pub start_stop_unit : {F : Type 0} → Command F
unfolding insert_new_dvd_r
start_stop_unit io luns ld cdb s =
    if ld.current_profile == 0x0011
    then with_file s (insert_new_dvd_r io s.file)
    else finished (good 0 s)

abbrev pub empty_disc : List ℕ
empty_disc = 0x00 ∷ 0x20 ∷ 0x00 ∷ 0x01 ∷ 0x01 ∷ 0x01 ∷ 0x01 ∷ 0x20 ∷ 0x00 ∷ 0x00 ∷ 0x00 ∷ 0x00 ∷ []

abbrev pub complete_disc : List ℕ
complete_disc =
    0x00 ∷ 0x20 ∷ 0x0e ∷ 0x01 ∷ 0x01 ∷ 0x01 ∷ 0x01 ∷ 0x20 ∷ 0x00 ∷ 0x00 ∷ 0x00 ∷ 0x00 ∷ []

unfoldable pub read_disc_information : {F : Type 0} → Command F
unfolding pokes
read_disc_information io luns ld cdb s =
    let alloc_len = be16_at cdb 7 in
    let b = clear alloc_len s.data_ in
    finished (
      good alloc_len
        (record s { data_ = by_profile ld (pokes 0 empty_disc b) (pokes 0 complete_disc b) b }))

-- A number of blocks as a `long` holds it, one lower where it does not fit, modulo 2^32.
abbrev pub blocks_of : ℕ → ℕ → ℕ
blocks_of sizeof_long q =
    (q + 2 ^ 32 - (if leb (2 ^ (8 * sizeof_long - 1)) q then 1 else 0)) % 2 ^ 32

abbrev pub track_dvd_r : List ℕ
track_dvd_r =
    0x00 ∷ 0x22 ∷ 0x01 ∷ 0x01 ∷ 0x00 ∷ 0x04 ∷ 0x61 ∷ 0x03 ∷ 0x00 ∷ 0x00 ∷ 0x00 ∷ 0x00 ∷ 0x00 ∷ 0x00
    ∷ 0x00 ∷ 0x00 ∷ 0x00 ∷ 0x23 ∷ 0x10 ∷ 0x20 ∷ 0x00 ∷ 0x00 ∷ 0x00 ∷ 0x10 ∷ 0x00 ∷ 0x23 ∷ 0x10
    ∷ 0x20 ∷ 0x00 ∷ 0x00 ∷ 0x00 ∷ 0x00 ∷ 0x00 ∷ 0x00 ∷ []

-- What stands in front of the track size of a DVD-ROM, and behind it.
abbrev pub track_dvd_rom : List ℕ
track_dvd_rom =
    0x00 ∷ 0x22 ∷ 0x01 ∷ 0x01 ∷ 0x00 ∷ 0x04 ∷ 0x01 ∷ 0x00 ∷ 0x00 ∷ 0x00 ∷ 0x00 ∷ 0x00 ∷ 0x00 ∷ 0x00
    ∷ 0x00 ∷ 0x00 ∷ 0x00 ∷ 0x00 ∷ 0x00 ∷ 0x00 ∷ 0x00 ∷ 0x00 ∷ 0x00 ∷ 0x10 ∷ []

abbrev pub track_end : List ℕ
track_end = 0x00 ∷ 0x00 ∷ 0x00 ∷ 0x00 ∷ 0x00 ∷ 0x00 ∷ []

unfoldable pub read_track_information : {F : Type 0} → Command F
unfolding pokes
read_track_information io luns ld cdb s =
    let alloc_len = be16_at cdb 7 in
    let b = clear alloc_len s.data_ in
    let blocks = blocks_of io.sizeof_long (io.tell s.file / ld.block_size) in
    if not (cdb 1 % 4 == 1) || be32_at cdb 2 == 0
    then finished (check_condition s)
    else finished (
        good alloc_len (record s {
          data_ =
              by_profile ld (pokes 0 track_dvd_r b)
                (pokes 0 (track_dvd_rom ++ be32 blocks ++ track_end) b) b;
        }))

abbrev pub blank_sense : List ℕ
blank_sense =
    0x00 ∷ 0x12 ∷ 0x70 ∷ 0x00 ∷ 0x05 ∷ 0x00 ∷ 0x00 ∷ 0x00 ∷ 0x00 ∷ 0x12 ∷ 0x00 ∷ 0x00 ∷ 0x00 ∷ 0x00
    ∷ 0x24 ∷ 0x00 ∷ 0x00 ∷ 0x00 ∷ 0x00 ∷ 0x00 ∷ []

-- One track in one session.
abbrev pub toc : List ℕ
toc = 0x00 ∷ 0x0a ∷ 1 ∷ 1 ∷ 0 ∷ 0x14 ∷ 0x01 ∷ 0 ∷ 0 ∷ 0 ∷ 0 ∷ 0 ∷ []

-- The length is a `short`: from 2^15 on it is negative, and `memset` runs off the address space.
unfoldable pub read_toc : {F : Type 0} → Command F
unfolding pokes
read_toc io luns ld cdb s =
    let alloc_len = be16_at cdb 7 in
    let b = clear alloc_len s.data_ in
    if leb (2 ^ 15) alloc_len
    then crashes
    else if ld.is_blank
    then finished (record s { data_size = 20; status = 2; data_ = pokes 0 blank_sense b })
    else if cdb 2 % 16 == 0
    then finished (good alloc_len (record s { data_ = pokes 0 toc b }))
    else finished (check_condition (record s { data_ = b }))

-- Only key format 8 is known.
unfoldable pub report_key : {F : Type 0} → Command F
unfolding pokes
report_key io luns ld cdb s =
    let alloc_len = be16_at cdb 8 in
    if cdb 10 % 64 == 8
    then finished (
        good alloc_len (record s {
          data_ =
              pokes 4 (0x63 ∷ 0xf7 ∷ 0x01 ∷ []) (pokes 0 (0 ∷ 6 ∷ []) (clear alloc_len s.data_));
        }))
    else finished (check_condition s)
