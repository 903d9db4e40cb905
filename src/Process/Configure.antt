-- ===== src/Process/Configure.antt =====
-- The rest of `configure_scsi_target` of user/main.c: the names of the LUN files and their LUNs.
pub mod Splitting
pub mod Numbering
use vscsi_hba.Base.{
  ℕ, ◌+◌, ◌*◌, ◌/◌, ◌%◌, Bool, true, false, ◌&&◌, ◌||◌, List, [], ◌∷◌, ◌++◌, Option, none, some,
  ◌==◌, leb, if◌then◌else◌, length,
}
use vscsi_hba.Scsi.Engine.{Run, finished, crashes, exits, and_then}
use vscsi_hba.Target.{LunData, Target, same_name, add_target, target_type_emulation}
use vscsi_hba.Target.Luns.{Files, add_lun}
use vscsi_hba.Process.Arguments.{Options, parse_arguments}

-- The variables of the loop over the characters: the name so far, which is `fname` up to `j`, the
-- names that are done, and the size in `fstat`, of the last file that was looked at.
pub record Split : Type 0 where
  pub fname : List ℕ
  pub lunfiles : List (List ℕ)
  pub st_size : ℕ

-- Whether the name is one of those that are done.
unfoldable pub is_duplicate : List ℕ → List (List ℕ) → Bool
unfolding same_name
is_duplicate name [] = false
is_duplicate name (n ∷ ns) = same_name n name || is_duplicate name ns

-- A name that `stat` finds, with its size. `lunfiles` has room for 256.
unfoldable pub accept_name : ℕ → Split → Run Split
unfolding is_duplicate
accept_name size st =
    if size % 1048576 == 0
    then if is_duplicate st.fname st.lunfiles
      then exits 1
      else if leb 256 (length st.lunfiles)
      then crashes
      else finished
          (record { fname = []; lunfiles = st.lunfiles ++ (st.fname ∷ []); st_size = size })
    else exits 1

-- A comma, or the end of the text.
unfoldable pub end_name : (List ℕ → Option ℕ) → List ℕ → Split → Run Split
unfolding accept_name
end_name stat [] st = finished (record st { fname = [] })
end_name stat (c ∷ cs) st = elim (stat (c ∷ cs)) [
  | none ↦ exits 1
  | some size ↦ accept_name size st
]

-- One round of the loop. `fname` has room for 64 characters with the final zero.
unfoldable pub split_char : (List ℕ → Option ℕ) → ℕ → Split → Run Split
unfolding end_name
split_char stat c st =
    if c == b','
    then end_name stat st.fname st
    else if leb 63 (length st.fname)
    then exits 1
    else finished (record st { fname = st.fname ++ (c ∷ []) })

-- The text, then the comma that takes the place of its final zero.
unfoldable pub split_names : (List ℕ → Option ℕ) → List ℕ → Split → Run Split
unfolding split_char
split_names stat [] st = split_char stat b',' st
split_names stat (c ∷ cs) st = and_then (split_char stat c st) (split_names stat cs)

abbrev pub no_names : Split
no_names = record { fname = []; lunfiles = []; st_size = 0 }

module _ {F : Type 0} (files : Files F) (raw : ℕ → LunData F) where
  -- The last loop, from LUN `i` on; `raw i` is the memory that `malloc` gives for it.
  unfoldable pub add_luns : ℕ → ℕ → List (List ℕ) → Target F → Target F
  unfolding add_lun
  add_luns size i [] t = t
  add_luns size i (name ∷ names) t =
      add_luns size (i + 1) names (add_lun files (raw i) t i name 1 (size / 1048576))

  abbrev pub target_name : List ℕ
  target_name =
      b'v' ∷ b'i' ∷ b'r' ∷ b't' ∷ b'u' ∷ b'a' ∷ b'l' ∷ b'2' ∷ b'0' ∷ b'm' ∷ b'h' ∷ b'd' ∷ []

  -- A new target, from the `targets` list's only entry.
  abbrev pub empty_target : Target F
  empty_target = record {
    type = target_type_emulation;
    targetname = target_name;
    pt_device = 0;
    luns = [];
  }

  unfoldable pub configure_luns : List ℕ → Run (Target F)
  unfolding split_names add_luns
  configure_luns names =
      and_then (split_names files.stat names no_names)
        (λ st. finished (add_luns st.st_size 0 st.lunfiles empty_target))

  -- `filenames` is not null once the arguments are complete.
  unfoldable pub configure_scsi_target : List (List ℕ) → Run (Options × Target F)
  unfolding parse_arguments configure_luns
  configure_scsi_target argv = and_then (parse_arguments argv) (λ o. elim o.filenames [
    | none ↦ crashes
    | some names ↦ and_then (configure_luns names) (λ t. finished (o, t))
  ])
