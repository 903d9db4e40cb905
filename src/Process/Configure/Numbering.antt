-- ===== src/Process/Configure/Numbering.antt =====
-- The numbers of the LUNs that the last loop of `configure_scsi_target`, user/main.c, adds.
use vscsi_hba.Base.{
  ℕ, zero, suc, ◌+◌, ◌*◌, ◌/◌, ◌%◌, ◌≡◌, ◌≢◌, ◌≤◌, ◌<◌, refl, ap, ◌∙◌, true, false, Bool, List, [],
  ◌∷◌, Option, none, some, ◌==◌, leb, if◌then◌else◌, length, length-append, get_or, All, arith,
}
use mathlib.Core.Option
use mathlib.Core.Path.{subst}
use vscsi_hba.Scsi.Engine.{Run, finished, crashes, exits, unfinished, and_then}
use vscsi_hba.Scsi.Table.{scsi_sbc_commands}
use vscsi_hba.Target.{LunData, Target, find_lun}
use vscsi_hba.Target.Luns.{Files, lun_type_hd, open_or_create, new_hd, new_lun, link_lun, add_lun}
use vscsi_hba.Process.Configure.{
  Split, is_duplicate, accept_name, end_name, add_luns, empty_target, configure_luns, no_names,
}
use vscsi_hba.Process.Configure.Splitting.{fields, take_field, take_fields, split_names-fields}

module _ {F : Type 0} (files : Files F) (raw : ℕ → LunData F) where
  -- The hard disk with the number on an open file of `size` bytes.
  abbrev pub disk : ℕ → ℕ → F → LunData F
  disk size i f =
      let l = new_hd files (raw i) (size / 1048576) f in
      record l {
        lun_data = record (l.lun_data) {
          lun = i;
          luntype = lun_type_hd;
          lunsizeinmb = size / 1048576;
        };
      }

  find_lun-add_lun_ne :
      (n i mb : ℕ) (name : List ℕ) (l : LunData F) (t : Target F)
      → i < 256
      → n ≢ i
      → find_lun n (add_lun files l t i name 1 mb).luns ≡ find_lun n t.luns
  unfolding add_lun find_lun
  find_lun-add_lun_ne n i mb name l t small ne =
      let other : (i % 256 == n) ≡ false = ground (arith, ne) in
      elim (new_lun files l name 1 mb)
        as (λ o.
          find_lun n
            (elim o as (λ _. Target F) [ none ↦ t | some x ↦ link_lun files i 1 mb t x ]).luns
          ≡ find_lun n t.luns) [ none ↦ refl | some x ↦ rw other refl ]

  find_lun-add_luns_ne :
      (n size i : ℕ) (names : List (List ℕ)) (t : Target F)
      → i + length names ≤ 256
      → n < i
      → find_lun n (add_luns files raw size i names t).luns ≡ find_lun n t.luns
  unfolding add_luns
  find_lun-add_luns_ne n size i [] t few h = refl
  find_lun-add_luns_ne n size i (name ∷ names) t few h =
      find_lun-add_luns_ne n size (i + 1) names _ (omega arith) (omega arith)
      ∙ find_lun-add_lun_ne n i (size / 1048576) name (raw i) t (omega arith) (λ e. omega arith)

  new_lun-open_or_create :
      (l : LunData F) (name : List ℕ) (mb : ℕ) (f : F)
      → open_or_create files name ≡ some f
      → new_lun files l name 1 mb ≡ some (new_hd files l mb f)
  unfolding new_lun
  new_lun-open_or_create l name mb f e = ap (Option.map (new_hd files l mb)) e

  find_lun-add_lun_self :
      (i size : ℕ) (name : List ℕ) (f : F) (t : Target F)
      → i < 256
      → open_or_create files name ≡ some f
      → find_lun i (add_lun files (raw i) t i name 1 (size / 1048576)).luns ≡ some (disk size i f)
  unfolding add_lun find_lun
  find_lun-add_lun_self i size name f t small e =
      let same : i % 256 ≡ i = omega arith in
      let hit : (i == i) ≡ true = ground arith in
      rw (find_lun, new_lun-open_or_create (raw i) name (size / 1048576) f e, same, hit) refl

  -- Whether the file opens, for reading and writing or as a new one.
  abbrev pub Opens : List ℕ → Type 0
  Opens name = (f : F) × (open_or_create files name ≡ some f)

  -- The LUN of the number is a hard disk on the file of the name, cut to whole megabytes.
  abbrev pub HasDisk : ℕ → ℕ → List ℕ → Target F → Type 0
  HasDisk size i name t =
      (f : F) × (open_or_create files name ≡ some f)
      × (l : LunData F) × (find_lun i t.luns ≡ some l)
      × (l.lun_fh ≡ files.truncate (size / 1048576 * 1048576) f)
      × (l.cmds ≡ scsi_sbc_commands)
      × (l.lun_data.lun ≡ i)
      × (l.lun_data.luntype ≡ 1)
      × (l.lun_data.lunsizeinmb ≡ size / 1048576)
      × (l.lun_data.device_type ≡ 0)
      × (l.lun_data.block_size ≡ 512)
      × (l.lun_data.is_blank ≡ false)

  disk-HasDisk :
      (size i : ℕ) (name : List ℕ) (f : F) (t : Target F)
      → open_or_create files name ≡ some f
      → find_lun i t.luns ≡ some (disk size i f)
      → HasDisk size i name t
  unfolding new_hd
  disk-HasDisk size i name f t opens found =
      let cut : size / 1048576 * 1024 * 1024 ≡ size / 1048576 * 1048576 = omega arith in
      (
        f,
        opens,
        disk size i f,
        found,
        ap (λ n. files.truncate n f) cut,
        refl,
        refl,
        refl,
        refl,
        refl,
        refl,
        refl,
      )

  add_luns-HasDisk :
      (size i : ℕ) (names : List (List ℕ)) (t : Target F)
      → i + length names ≤ 256
      → All Opens names
      → (k : ℕ) → k < length names
      → HasDisk size (i + k) (get_or names k []) (add_luns files raw size i names t)
  unfolding add_luns
  add_luns-HasDisk size i [] t few opens k h = absurd (omega arith)
  add_luns-HasDisk size i (name ∷ names) t few ((f, e), opens) zero h =
      let here : i + 0 ≡ i = omega arith in
      rw here (
        disk-HasDisk size i name f
          (add_luns files raw size (i + 1) names
            (add_lun files (raw i) t i name 1 (size / 1048576)))
          e
          (find_lun-add_luns_ne i size (i + 1) names _ (omega arith) (omega arith)
            ∙ find_lun-add_lun_self i size name f t (omega arith) e))
  add_luns-HasDisk size i (name ∷ names) t few (o, opens) (suc k) h =
      let there : (i + 1) + k ≡ i + suc k = omega arith in
      rw (← there) (add_luns-HasDisk size (i + 1) names _ (omega arith) opens k (omega arith))

-- `lunfiles` has room for 256 names.
abbrev HasRoom : Run Split → Type 0
HasRoom (finished s) = length s.lunfiles ≤ 256
HasRoom _ = Unit

HasRoom-and_then :
    (r : Run Split) (f : Split → Run Split)
    → HasRoom r
    → ((s : Split) → length s.lunfiles ≤ 256 → HasRoom (f s))
    → HasRoom (and_then r f)
HasRoom-and_then (finished s) f h g = g s h
HasRoom-and_then crashes f h g = tt
HasRoom-and_then (exits c) f h g = tt
HasRoom-and_then unfinished f h g = tt

HasRoom-if :
    (b : Bool) (r s : Run Split)
    → (b ≡ true → HasRoom r)
    → (b ≡ false → HasRoom s)
    → HasRoom (if b then r else s)
HasRoom-if true r s p q = p refl
HasRoom-if false r s p q = q refl

accept_name-HasRoom : (size : ℕ) (st : Split) → HasRoom (accept_name size st)
unfolding accept_name
accept_name-HasRoom size st =
    HasRoom-if (size % 1048576 == 0) _ _
      (λ _.
        HasRoom-if (is_duplicate st.fname st.lunfiles) _ _ (λ _. tt)
          (λ _.
            HasRoom-if (leb 256 (length st.lunfiles)) _ _ (λ _. tt)
              (λ room. ground (arith, length-append {0} st.lunfiles (st.fname ∷ [])))))
      (λ _. tt)

end_name-HasRoom :
    (stat : List ℕ → Option ℕ) (f : List ℕ) (st : Split)
    → length st.lunfiles ≤ 256
    → HasRoom (end_name stat f st)
unfolding end_name
end_name-HasRoom stat [] st h = h
end_name-HasRoom stat (c ∷ cs) st h =
    elim (stat (c ∷ cs))
      as (λ o.
        HasRoom (elim o as (λ _. Run Split) [ none ↦ exits 1 | some size ↦ accept_name size st ])) [
          | none ↦ tt
          | some size ↦ accept_name-HasRoom size st
        ]

take_fields-HasRoom :
    (stat : List ℕ → Option ℕ) (fs : List (List ℕ)) (st : Split)
    → length st.lunfiles ≤ 256
    → HasRoom (take_fields stat fs st)
take_fields-HasRoom stat [] st h = h
take_fields-HasRoom stat (f ∷ fs) st h =
    HasRoom-and_then (take_field stat f st) (take_fields stat fs)
      (HasRoom-if (leb 64 (length f)) _ _ (λ _. tt)
        (λ _. end_name-HasRoom stat f (record st { fname = f }) h))
      (take_fields-HasRoom stat fs)

-- Where the names in the text are accepted and their files open, the configuration ends, and the
-- target has, under the number of each name's place, a LUN that is a hard disk: its file is the
-- one that opened under that name, truncated to whole megabytes, its table is that of the block
-- commands, its device type is 0, its blocks have 512 bytes, it is not blank, and its size in
-- megabytes is that of its file. The size of every one of them is that of the last file.
pub configure_luns-HasDisk :
    {F : Type 0} (files : Files F) (raw : ℕ → LunData F) (names : List ℕ) (st : Split)
    → take_fields files.stat (fields names) no_names ≡ finished st
    → All (Opens files raw) st.lunfiles
    → (t : Target F) × (configure_luns files raw names ≡ finished t)
      × ((k : ℕ)
          → k < length st.lunfiles
          → HasDisk files raw st.st_size k (get_or st.lunfiles k []) t)
unfolding configure_luns
configure_luns-HasDisk files raw names st e opens =
    let room =
      subst HasRoom e (take_fields-HasRoom files.stat (fields names) no_names (omega arith)) in
    (
      add_luns files raw st.st_size 0 st.lunfiles (empty_target files raw),
      rw (split_names-fields files.stat names, e) refl,
      λ k h.
          let there : 0 + k ≡ k = omega arith in
          subst
            (λ i.
              HasDisk files raw st.st_size i (get_or st.lunfiles k [])
                (add_luns files raw st.st_size 0 st.lunfiles (empty_target files raw)))
            there
            (add_luns-HasDisk files raw st.st_size 0 st.lunfiles (empty_target files raw)
              (omega (arith, room)) opens k h),
    )
