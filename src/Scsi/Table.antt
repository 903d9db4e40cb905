-- ===== src/Scsi/Table.antt =====
-- The command tables of user/scsi.c: `scsi_sbc_commands` of a hard disk, `scsi_mmc_commands` of a CD
-- or DVD drive.
use vscsi_hba.Base.{ℕ, Option, none, some, ◌==◌, if◌then◌else◌, List, [], ◌∷◌}
use vscsi_hba.Scsi.Engine.{Command}
use vscsi_hba.Scsi.Mmc.{
  read_buffer_capacity, synchronize_cache, reserve_track, lock_media, set_cd_speed, set_streaming,
  start_stop_unit, read_disc_information, read_track_information, read_toc, report_key,
}
use vscsi_hba.Scsi.Dvd.{get_performance, read_dvd_structure}
use vscsi_hba.Scsi.Configuration.{get_configuration}
use vscsi_hba.Scsi.Primary.{
  report_luns, test_unit_ready, request_sense, mode_sense6, prevent_allow_media_removal,
  mode_select10, persistent_reserve_out, persistent_reserve_in, inquiry, mode_sense10,
}
use vscsi_hba.Scsi.Block.{verify, read_capacity10, read10, write6, write10, write12}

-- DIRECTION_NO_DATA, DIRECTION_READ and DIRECTION_WRITE.
pub data Transfer : Type 0 where
  no_data read_data write_data : Transfer

-- `scsi_command_table`: an entry whose `func` is not null.
pub record Entry (F : Type 0) : Type 0 where
  pub func : Command F
  pub cdb_size : ℕ
  pub direction : Transfer

-- A table, by opcode; `none` is a null `func`.
abbrev pub Table : Type 0 → Type 0
Table F = ℕ → Option (Entry F)

module _ {F : Type 0} where
  abbrev pub entry : Command F → ℕ → Transfer → Entry F
  entry f n d = record { func = f; cdb_size = n; direction = d }

  -- The entries of a list, by opcode.
  unfoldable pub look_up : List (ℕ × Entry F) → Table F
  look_up [] op = none
  look_up ((o, e) ∷ es) op = if o == op then some e else look_up es op

  -- The non-null entries of the table, in its order.
  unfoldable pub sbc_entries : List (ℕ × Entry F)
  sbc_entries =
      (0x00, entry test_unit_ready 6 no_data)
      ∷ (0x03, entry request_sense 6 read_data)
      ∷ (0x0a, entry write6 6 write_data)
      ∷ (0x12, entry inquiry 6 read_data)
      ∷ (0x1a, entry mode_sense6 6 read_data)
      ∷ (0x1e, entry prevent_allow_media_removal 6 no_data)
      ∷ (0x25, entry read_capacity10 10 read_data)
      ∷ (0x28, entry read10 10 read_data)
      ∷ (0x2a, entry write10 10 write_data)
      ∷ (0x2f, entry verify 10 no_data)
      ∷ (0x55, entry mode_select10 10 write_data)
      ∷ (0x5e, entry persistent_reserve_in 10 read_data)
      ∷ (0x5f, entry persistent_reserve_out 10 write_data)
      ∷ (0x8f, entry verify 16 no_data)
      ∷ (0xa0, entry report_luns 12 read_data)
      ∷ (0xaa, entry write12 12 write_data)
      ∷ (0xaf, entry verify 12 no_data)
      ∷ []

  unfoldable pub scsi_sbc_commands : Table F
  unfolding look_up sbc_entries
  scsi_sbc_commands = look_up sbc_entries

  unfoldable pub mmc_entries : List (ℕ × Entry F)
  mmc_entries =
      (0x00, entry test_unit_ready 6 no_data)
      ∷ (0x03, entry request_sense 6 read_data)
      ∷ (0x12, entry inquiry 6 read_data)
      ∷ (0x1a, entry mode_sense6 6 read_data)
      ∷ (0x1b, entry start_stop_unit 6 no_data)
      ∷ (0x1e, entry lock_media 6 no_data)
      ∷ (0x25, entry read_capacity10 10 read_data)
      ∷ (0x28, entry read10 10 read_data)
      ∷ (0x2a, entry write10 10 write_data)
      ∷ (0x35, entry synchronize_cache 10 no_data)
      ∷ (0x43, entry read_toc 10 read_data)
      ∷ (0x46, entry get_configuration 10 read_data)
      ∷ (0x51, entry read_disc_information 10 read_data)
      ∷ (0x52, entry read_track_information 10 read_data)
      ∷ (0x53, entry reserve_track 10 no_data)
      ∷ (0x55, entry mode_select10 10 write_data)
      ∷ (0x5a, entry mode_sense10 10 read_data)
      ∷ (0x5c, entry read_buffer_capacity 10 read_data)
      ∷ (0xa0, entry report_luns 12 read_data)
      ∷ (0xa4, entry report_key 12 read_data)
      ∷ (0xac, entry get_performance 12 read_data)
      ∷ (0xad, entry read_dvd_structure 12 read_data)
      ∷ (0xb6, entry set_streaming 12 write_data)
      ∷ (0xbb, entry set_cd_speed 12 no_data)
      ∷ []

  unfoldable pub scsi_mmc_commands : Table F
  unfolding look_up mmc_entries
  scsi_mmc_commands = look_up mmc_entries
