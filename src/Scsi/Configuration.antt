-- ===== src/Scsi/Configuration.antt =====
-- GET CONFIGURATION of user/scsi.c: the features of a drive.
pub mod Framing
use vscsi_hba.Base.{
  ℕ, zero, suc, ◌+◌, ◌-◌, ◌*◌, ◌/◌, ◌%◌, ◌^◌, Bool, true, false, List, [], ◌∷◌, ◌++◌, Option, none,
  some, ◌==◌, ltb, leb, if◌then◌else◌, length, replicate,
}
use vscsi_hba.Scsi.Engine.{
  Buf, pokes, fill, clear, be16_at, be32, Cdb, Libc, Lun, Io, Run, finished, Command, good, poke,
  max,
}
use vscsi_hba.Scsi.Mmc.{by_profile}

abbrev pub profile_list : List ℕ
profile_list = 0x0008 ∷ 0x0009 ∷ 0x000a ∷ 0x0010 ∷ 0x0011 ∷ 0x0014 ∷ 0x001a ∷ 0x001b ∷ []

-- One profile: its number and whether it is the current one.
abbrev pub profile_entry : Lun → ℕ → List ℕ
profile_entry ld p =
    p / 2 ^ 8 % 256 ∷ p % 256 ∷ (if p == ld.current_profile then 0x01 else 0x00) ∷ 0 ∷ []

unfoldable pub profile_entries : Lun → List ℕ → List ℕ
profile_entries ld [] = []
profile_entries ld (p ∷ ps) = profile_entry ld p ++ profile_entries ld ps

-- The flags of a feature that depends on the disc; no byte at all for any other profile.
abbrev pub flags_by_profile : Lun → ℕ → ℕ → List ℕ
flags_by_profile ld dvd_r dvd_rom = by_profile ld (dvd_r ∷ []) (dvd_rom ∷ []) []

-- The serial number, filled up to a multiple of four.
unfoldable pub padded_serial : Lun → List ℕ
padded_serial ld = ld.serial_number ++ replicate ((4 - length ld.serial_number % 4) % 4) b' '

-- The flags of a feature and what follows its length byte; `none` for the `default` case.
unfoldable pub feature : Lun → ℕ → Option (List ℕ × List ℕ)
unfolding profile_entries padded_serial
feature ld n =
    if n == 0x0000
    then some (0x03 ∷ [], profile_entries ld profile_list)
    else if n == 0x0001
    then some (0x07 ∷ [], 0 ∷ 0 ∷ 0 ∷ 1 ∷ 0 ∷ 0 ∷ 0 ∷ 0 ∷ [])
    else if n == 0x0002
    then some (0x03 ∷ [], 0 ∷ 0 ∷ 0 ∷ 0 ∷ [])
    else if n == 0x0003
    then some (0x03 ∷ [], 0x29 ∷ 0 ∷ 0 ∷ 0 ∷ [])
    else if n == 0x0010
    then some (flags_by_profile ld 0x00 0x01, be32 ld.block_size ++ (0 ∷ 0x10 ∷ 0 ∷ 0 ∷ []))
    else if n == 0x001f
    then some (flags_by_profile ld 0x00 0x01, [])
    else if n == 0x0021
    then some (flags_by_profile ld 0x05 0x04, 0x3f ∷ 0x0b ∷ 0x01 ∷ 0x01 ∷ 0 ∷ 0 ∷ 0 ∷ 0 ∷ [])
    else if n == 0x002f
    then some (flags_by_profile ld 0x05 0x04, 0x46 ∷ 0 ∷ 0 ∷ 0 ∷ [])
    else if n == 0x0100
    then some (0x03 ∷ [], [])
    else if n == 0x0105
    then some (0x03 ∷ [], 0x00 ∷ 0 ∷ 0 ∷ 0 ∷ [])
    else if n == 0x0107
    then some (0x0d ∷ [], 0x1f ∷ 0 ∷ 0 ∷ 0 ∷ [])
    else if n == 0x0108
    then some (0x03 ∷ [], padded_serial ld)
    else none

-- The descriptor behind the eight bytes of the header, and where `ptr` stands after it: at its last
-- byte. The `default` case leaves the feature code in the buffer and counts it as absent.
unfoldable pub descriptor : ℕ → Option (List ℕ × List ℕ) → List ℕ × ℕ
descriptor n none = (n / 2 ^ 8 % 256 ∷ n % 256 ∷ [], 7)
descriptor n (some (flags, rest)) = (
  n / 2 ^ 8 % 256 ∷ n % 256 ∷ (flags ++ (length rest % 256 ∷ rest)),
  10 + length flags + length rest,
)

-- The buffer with the descriptor, then the header with the data length and the current profile.
unfoldable pub configured : Lun → ℕ → Option (List ℕ × List ℕ) → Buf → Buf
unfolding pokes descriptor
configured ld n o b =
    let (bs, ptr) = descriptor n o in
    let profile = ld.current_profile / 2 ^ 8 % 256 ∷ ld.current_profile % 256 ∷ [] in
    pokes 0 (be32 (ptr - 3) ++ (0 ∷ 0 ∷ profile)) (pokes 8 bs b)

unfoldable pub get_configuration : {F : Type 0} → Command F
get_configuration io luns ld cdb s =
    let alloc_len = be16_at cdb 7 in
    let n = be16_at cdb 2 in
    finished (
      good alloc_len
        (record s { data_ = configured ld n (feature ld n) (clear alloc_len s.data_) }))
