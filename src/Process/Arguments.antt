-- ===== src/Process/Arguments.antt =====
-- The loop over `argv` in `configure_scsi_target` of user/main.c. Texts are their characters.
pub mod Order
use vscsi_hba.Base.{ℕ, Bool, true, false, ◌&&◌, List, [], ◌∷◌, Option, none, some, if◌then◌else◌}
use vscsi_hba.Scsi.Engine.{Run, finished, exits, and_then}
use vscsi_hba.Target.{same_name}

-- `opt`: what the next argument is.
pub data Waits : Type 0 where
  for_option for_device for_files : Waits

-- The variables of the loop; the three Booleans are the bits 1, 2 and 4 of `selection`.
pub record Options : Type 0 where
  pub opt : Waits
  pub devname : Option (List ℕ)
  pub filenames : Option (List ℕ)
  pub dev_selected : Bool
  pub files_selected : Bool
  pub v_selected : Bool
  pub verbose : Bool

abbrev pub no_options : Options
no_options = record {
  opt = for_option;
  devname = none;
  filenames = none;
  dev_selected = false;
  files_selected = false;
  v_selected = false;
  verbose = false;
}

abbrev pub dash_dev : List ℕ
dash_dev = b'-' ∷ b'd' ∷ b'e' ∷ b'v' ∷ []

abbrev pub dash_files : List ℕ
dash_files = b'-' ∷ b'f' ∷ b'i' ∷ b'l' ∷ b'e' ∷ b's' ∷ []

abbrev pub dash_v : List ℕ
dash_v = b'-' ∷ b'v' ∷ []

-- An argument where an option is expected. `-dev` sets `selection` to 1, whatever it was.
unfoldable pub read_option : List ℕ → Options → Run Options
unfolding same_name
read_option arg o =
    if same_name arg dash_dev
    then if o.dev_selected
      then exits 100
      else finished (record o {
        opt = for_device;
        dev_selected = true;
        files_selected = false;
        v_selected = false;
      })
    else if same_name arg dash_files
    then if o.files_selected
      then exits 100
      else finished (record o { opt = for_files; files_selected = true })
    else if same_name arg dash_v
    then finished (record o { opt = for_option; v_selected = true; verbose = true })
    else exits 100

unfoldable pub read_argument : Waits → List ℕ → Options → Run Options
unfolding read_option
read_argument for_device arg o = finished (record o { opt = for_option; devname = some arg })
read_argument for_files arg o = finished (record o { opt = for_option; filenames = some arg })
read_argument for_option arg o = read_option arg o

unfoldable pub read_arguments : List (List ℕ) → Options → Run Options
unfolding read_argument
read_arguments [] o = finished o
read_arguments (arg ∷ args) o = and_then (read_argument o.opt arg o) (read_arguments args)

-- `((selection & 3) != 3) || opt`
abbrev pub is_complete : Waits → Options → Bool
is_complete for_option o = o.dev_selected && o.files_selected
is_complete _ o = false

-- `argv` without the program's name.
unfoldable pub parse_arguments : List (List ℕ) → Run Options
unfolding read_arguments
parse_arguments argv =
    and_then (read_arguments argv no_options)
      (λ o. if is_complete o.opt o then finished o else exits 100)
