-- ===== src/Examples/Start.antt =====
-- The theorems on the start of the target process, and on GET CONFIGURATION, at concrete inputs.
use vscsi_hba.Base.{
  none, ℕ, ◌+◌, ◌%◌, ◌≡◌, ◌<◌, refl, true, List, [], ◌∷◌, some, ◌==◌, if◌then◌else◌, get_or, arith,
  inl,
}
use vscsi_hba.Scsi.Engine.{Lun, Cdb, Io, finished, exits, be16_at, be32_at}
use vscsi_hba.Scsi.Block.Transfer.{Finishes}
use vscsi_hba.Scsi.Configuration.{feature, get_configuration}
use vscsi_hba.Scsi.Configuration.Framing.{get_configuration_lem}
use vscsi_hba.Scsi.Table.{scsi_sbc_commands}
use vscsi_hba.Target.{LunData, Target, run_scsi_command}
use vscsi_hba.Target.Luns.{Files, add_lun}
use vscsi_hba.Target.Luns.Swapping.{drive, Swapped, add_lun-start_stop_unit}
use vscsi_hba.Process.Arguments.{Options, parse_arguments}
use vscsi_hba.Process.Arguments.Order.{dev_first, files_first, parse_arguments_order}
use vscsi_hba.Process.Configure.{
  Split, is_duplicate, accept_name, end_name, split_names, no_names, configure_luns,
}
use vscsi_hba.Process.Configure.Splitting.{fields, take_fields, split_names-fields}
use vscsi_hba.Process.Configure.Numbering.{HasDisk, configure_luns-HasDisk}
use vscsi_hba.Driver.State.{Ensures}
use vscsi_hba.Driver.Sessions.{get_session, hba_at, new_hba, init}
use vscsi_hba.Driver.Control.Registering.{session_for}
use vscsi_hba.Process.Start.{start}
use vscsi_hba.Process.Start.Attached.{Started, start-Started}
use vscsi_hba.Examples.Worlds.{host, env}
use vscsi_hba.Examples.Image.{Image, memory, image, lun}

parse_arguments_order_example :
    ((o : Options) × (parse_arguments (dev_first 1 0 2 (b'd' ∷ []) (b'f' ∷ [])) ≡ finished o)
      × (o.devname ≡ some (b'd' ∷ []))
      × (o.filenames ≡ some (b'f' ∷ []))
      × (o.verbose ≡ true))
    × (parse_arguments (files_first 1 0 2 (b'd' ∷ []) (b'f' ∷ [])) ≡ exits 100)
parse_arguments_order_example = parse_arguments_order 1 0 2 (b'd' ∷ []) (b'f' ∷ [])

-- Every file is there; `b` has two megabytes, the others one.
abbrev files : Files Image
files = record {
  fopen = λ name mode. some image;
  truncate = λ n f. record f { size = n };
  stat = λ name. if get_or name 0 0 == b'b' then some 2097152 else some 1048576;
  time = [];
}

-- `a,,b`
abbrev two_names : List ℕ
two_names = b'a' ∷ b',' ∷ b',' ∷ b'b' ∷ []

split_names-fields_example :
    split_names files.stat two_names no_names
    ≡ take_fields files.stat ((b'a' ∷ []) ∷ [] ∷ (b'b' ∷ []) ∷ []) no_names
split_names-fields_example = split_names-fields files.stat two_names

abbrev split : Split
split = record { fname = []; lunfiles = (b'a' ∷ []) ∷ (b'b' ∷ []) ∷ []; st_size = 2097152 }

fields_are_taken : take_fields files.stat (fields two_names) no_names ≡ finished split
unfolding end_name accept_name is_duplicate
fields_are_taken = refl

abbrev fresh_lun : ℕ → LunData Image
fresh_lun i = record { lun_data = lun; lun_fh = image; cmds = scsi_sbc_commands }

configure_luns-HasDisk_example :
    (t : Target Image) × (configure_luns files fresh_lun two_names ≡ finished t)
    × ((k : ℕ)
        → k < 2
        → HasDisk files fresh_lun 2097152 k (get_or ((b'a' ∷ []) ∷ (b'b' ∷ []) ∷ []) k []) t)
configure_luns-HasDisk_example =
    configure_luns-HasDisk files fresh_lun two_names split fields_are_taken
      ((image, refl), ((image, refl), tt))

abbrev dvd : Lun
dvd = record lun { current_profile = 0x0011; serial_number = b'1' ∷ b'2' ∷ [] }

-- Feature 0x0108, the serial number, in 24 bytes.
abbrev serial_cdb : Cdb
serial_cdb i = get_or (0x46 ∷ 0 ∷ 0x01 ∷ 0x08 ∷ 0 ∷ 0 ∷ 0 ∷ 0 ∷ 24 ∷ 0 ∷ []) i 0

abbrev io : Io Image
io = record {
  file = image;
  data_ = record { cell = λ _. 0xff; top = 0 };
  data_size = 0;
  status = 0;
}

abbrev serial : List ℕ
serial = b'1' ∷ b'2' ∷ b' ' ∷ b' ' ∷ []

has_serial : feature dvd (be16_at serial_cdb 2) ≡ some (0x03 ∷ [], serial)
unfolding feature
has_serial = refl

get_configuration_lem_example :
    Finishes
      (λ (s' : Io Image).
        (s'.status ≡ 0)
        × (s'.data_size ≡ 24)
        × (s'.file ≡ image)
        × (be32_at s'.data_.cell 0 ≡ 12)
        × (be16_at s'.data_.cell 6 ≡ 0x0011)
        × (be16_at s'.data_.cell 8 ≡ 0x0108)
        × (s'.data_.cell 11 ≡ 4)
        × (4 % 4 ≡ 0)
        × ((i : ℕ) → i < 4 → s'.data_.cell (12 + i) ≡ get_or serial i 0))
      (get_configuration memory [] dvd serial_cdb io)
get_configuration_lem_example =
    get_configuration_lem memory [] dvd serial_cdb io (0x03 ∷ []) serial (inl refl) (omega arith)
      (omega arith) has_serial

-- A target with a hard disk as LUN 0, to which a DVD-R is added as LUN 1.
abbrev target : Target Image
target = record { type = 0; targetname = []; pt_device = 0; luns = fresh_lun 0 ∷ [] }

abbrev eject_cdb : Cdb
eject_cdb i = get_or (0x1b ∷ 0 ∷ 0 ∷ 0 ∷ 2 ∷ 0 ∷ []) i 0

add_lun-start_stop_unit_example :
    Swapped
      (add_lun files (fresh_lun 1) target 1 (b'r' ∷ []) 2 0)
      1
      (drive files (fresh_lun 1) 1 0 image)
      io.data_
      (some (record image { size = 0 }))
      (run_scsi_command memory
        (add_lun files (fresh_lun 1) target 1 (b'r' ∷ []) 2 0)
        1
        eject_cdb
        io.data_
        0)
add_lun-start_stop_unit_example =
    add_lun-start_stop_unit memory files (fresh_lun 1) target 1 0 (b'r' ∷ []) image eject_cdb
      io.data_ 0 refl (omega arith) refl refl

no_sessions : (a : ℕ) → host.shost ≡ some a → hba_at a init.hbas ≡ none
unfolding init hba_at
no_sessions a e = refl

new_session : session_for host 0 (get_session 0 init.hbas) ≡ some (new_hba 7 0 host.cmnds)
unfolding session_for get_session init new_hba
new_session = refl

start-Started_example :
    Ensures
      (Finishes (Started files fresh_lun 42 (new_hba 7 0 host.cmnds) split))
      (start env 42 files fresh_lun true (dev_first 0 1 0 (b'd' ∷ []) two_names) init)
unfolding init
start-Started_example =
    start-Started env files fresh_lun 42 0 1 0 (b'd' ∷ []) two_names split (new_hba 7 0 host.cmnds)
      init fields_are_taken ((image, refl), ((image, refl), tt)) refl tt no_sessions new_session
