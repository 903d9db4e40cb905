-- ===== src/Target/Luns.antt =====
-- `add_lun` of user/scsi_target.c: a LUN on a file.
pub mod Swapping
use vscsi_hba.Base.{
  ℕ, ◌+◌, ◌*◌, ◌%◌, ◌^◌, Bool, true, false, List, [], ◌∷◌, Option, none, some, ◌==◌, if◌then◌else◌,
}
use mathlib.Core.Option
use vscsi_hba.Scsi.Engine.{Lun}
use vscsi_hba.Scsi.Table.{Table, scsi_sbc_commands, scsi_mmc_commands}
use vscsi_hba.Target.{LunData, Target}

-- The modes "r+", "w+" and "r" of `fopen`.
pub data Mode : Type 0 where
  update create read_only : Mode

-- What the operating system answers about files by name: `fopen`, `truncate` on an open file, the
-- size that `stat` finds, and the time in eight hexadecimal digits. The files of a target have
-- different names, so that an answer does not depend on the calls for other files.
pub record Files (F : Type 0) : Type 0 where
  pub fopen : List ℕ → Mode → Option F
  pub truncate : ℕ → F → F
  pub stat : List ℕ → Option ℕ
  pub time : List ℕ

abbrev pub lun_type_hd : ℕ
lun_type_hd = 1

abbrev pub lun_type_dvd_r : ℕ
lun_type_dvd_r = 2

abbrev pub lun_type_dvd_rom : ℕ
lun_type_dvd_rom = 3

abbrev virtual_hd : List ℕ
virtual_hd = b'V' ∷ b'i' ∷ b'r' ∷ b't' ∷ b'u' ∷ b'a' ∷ b'l' ∷ b'H' ∷ b'D' ∷ []

abbrev vhd : List ℕ
vhd = b'V' ∷ b'H' ∷ b'D' ∷ []

abbrev virtual_dvdr : List ℕ
virtual_dvdr = b'V' ∷ b'i' ∷ b'r' ∷ b't' ∷ b'u' ∷ b'a' ∷ b'l' ∷ b'D' ∷ b'V' ∷ b'D' ∷ b'R' ∷ []

abbrev vdr : List ℕ
vdr = b'V' ∷ b'd' ∷ b'R' ∷ []

abbrev virtual_dvdrom : List ℕ
virtual_dvdrom =
    b'V' ∷ b'i' ∷ b'r' ∷ b't' ∷ b'u' ∷ b'a' ∷ b'l' ∷ b'D' ∷ b'V' ∷ b'D' ∷ b'R' ∷ b'O' ∷ b'M' ∷ []

abbrev vdrom : List ℕ
vdrom = b'V' ∷ b'd' ∷ b'R' ∷ b'O' ∷ b'M' ∷ []

module _ {F : Type 0} (files : Files F) where
  -- `fopen(lunfile, "r+")`, else with "w+".
  abbrev pub open_or_create : List ℕ → Option F
  open_or_create name = elim (files.fopen name update) [
    | none ↦ files.fopen name create
    | some f ↦ some f
  ]

  -- The fields that each type sets in the memory that `malloc` gave; the rest stays as it was.
  -- `off_t` is wide enough for the size.
  unfoldable pub new_hd : LunData F → ℕ → F → LunData F
  new_hd raw lunsizeinmb f = record {
    lun_data = record (raw.lun_data) {
      device_type = 0x00;
      is_blank = false;
      block_size = 512;
      vendor = virtual_hd;
      productid = vhd;
      revision = b'0' ∷ [];
      serial_number = files.time;
    };
    lun_fh = files.truncate (lunsizeinmb * 1024 * 1024) f;
    cmds = scsi_sbc_commands;
  }

  unfoldable pub new_dvd_r : LunData F → F → LunData F
  new_dvd_r raw f = record {
    lun_data = record (raw.lun_data) {
      device_type = 0x05;
      current_profile = 0x0011;
      is_blank = true;
      block_size = 2048;
      vendor = virtual_dvdr;
      productid = vdr;
      revision = b'0' ∷ [];
      serial_number = files.time;
    };
    lun_fh = f;
    cmds = scsi_mmc_commands;
  }

  unfoldable pub new_dvd_rom : LunData F → F → LunData F
  new_dvd_rom raw f = record {
    lun_data = record (raw.lun_data) {
      device_type = 0x05;
      current_profile = 0x0010;
      is_blank = false;
      block_size = 2048;
      vendor = virtual_dvdrom;
      productid = vdrom;
      revision = b'0' ∷ [];
      serial_number = files.time;
    };
    lun_fh = f;
    cmds = scsi_mmc_commands;
  }

  -- The `switch`; `none` is the return of null. Any other type leaves the memory as it was.
  unfoldable pub new_lun : LunData F → List ℕ → ℕ → ℕ → Option (LunData F)
  unfolding new_hd new_dvd_r new_dvd_rom
  new_lun raw name luntype lunsizeinmb =
      if luntype == lun_type_hd
      then Option.map (new_hd raw lunsizeinmb) (open_or_create name)
      else if luntype == lun_type_dvd_r
      then Option.map (new_dvd_r raw) (files.fopen name create)
      else if luntype == lun_type_dvd_rom
      then Option.map (new_dvd_rom raw) (files.fopen name read_only)
      else some raw

  -- The LUN at the head of the target's list, under its number as an `unsigned char`.
  abbrev pub link_lun : ℕ → ℕ → ℕ → Target F → LunData F → Target F
  link_lun lun luntype lunsizeinmb t l = record t {
    luns =
        record l {
          lun_data = record (l.lun_data) {
            lun = lun % 256;
            luntype = luntype;
            lunsizeinmb = lunsizeinmb;
          };
        }
        ∷ t.luns;
  }

  -- The return value, which no caller reads, is left out.
  unfoldable pub add_lun : LunData F → Target F → ℕ → List ℕ → ℕ → ℕ → Target F
  unfolding new_lun
  add_lun raw t lun name luntype lunsizeinmb = elim (new_lun raw name luntype lunsizeinmb) [
    | none ↦ t
    | some l ↦ link_lun lun luntype lunsizeinmb t l
  ]
