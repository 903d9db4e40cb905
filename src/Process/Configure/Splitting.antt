-- ===== src/Process/Configure/Splitting.antt =====
-- The loop over the characters of the `-files` argument in user/main.c, against the text cut at its
-- commas.
use mathlib.Core.List.{append-nil, append_assoc}
use vscsi_hba.Base.{
  ℕ, ◌≡◌, ◌≤◌, refl, sym, ◌∙◌, true, false, List, [], ◌∷◌, ◌++◌, Option, ◌==◌, leb, if◌then◌else◌,
  length, length-append, arith, Bool-cases, Option-cases, inl, inr,
}
use vscsi_hba.Scsi.Engine.{Run, finished, crashes, exits, unfinished, and_then}
use vscsi_hba.Process.Configure.{Split, accept_name, end_name, split_char, split_names, no_names}

-- A character put in front of the first field.
abbrev pub onto_first : ℕ → List (List ℕ) → List (List ℕ)
onto_first c [] = (c ∷ []) ∷ []
onto_first c (f ∷ fs) = (c ∷ f) ∷ fs

-- What stands between the commas of a text.
abbrev pub fields : List ℕ → List (List ℕ)
fields [] = [] ∷ []
fields (c ∷ cs) = let rest = fields cs in if c == b',' then [] ∷ rest else onto_first c rest

-- A field that is too long for the array ends the process; another is looked up if it is not empty.
abbrev pub take_field : (List ℕ → Option ℕ) → List ℕ → Split → Run Split
take_field stat f st =
    if leb 64 (length f) then exits 1 else end_name stat f (record st { fname = f })

abbrev pub take_fields : (List ℕ → Option ℕ) → List (List ℕ) → Split → Run Split
take_fields stat [] st = finished st
take_fields stat (f ∷ fs) st = and_then (take_field stat f st) (take_fields stat fs)

-- The rest of the fields, with what was read of the first one.
abbrev take_rest : (List ℕ → Option ℕ) → List (List ℕ) → Split → Run Split
take_rest stat [] st = finished st
take_rest stat (f ∷ fs) st = and_then (take_field stat (st.fname ++ f) st) (take_fields stat fs)

and_then-finished : (r : Run Split) → and_then r finished ≡ r
and_then-finished (finished s) = refl
and_then-finished crashes = refl
and_then-finished (exits c) = refl
and_then-finished unfinished = refl

fields_cons : (cs : List ℕ) → (f : List ℕ) × (fs : List (List ℕ)) × (fields cs ≡ f ∷ fs)
fields_cons [] = ([], [], refl)
fields_cons (c ∷ cs) =
    let (f, fs, e) = fields_cons cs in
    elim (Bool-cases (c == b',')) [
      | inl comma ↦ ([], fields cs, rw comma)
      | inr other ↦ (c ∷ f, fs, rw (other, e))
    ]

and_then_cong :
    (r : Run Split) (f g : Split → Run Split)
    → ((s : Split) → r ≡ finished s → f s ≡ g s)
    → and_then r f ≡ and_then r g
and_then_cong (finished s) f g h = h s refl
and_then_cong crashes f g h = refl
and_then_cong (exits c) f g h = refl
and_then_cong unfinished f g h = refl

fname-finished : (st s : Split) → finished st ≡ finished s → st.fname ≡ [] → s.fname ≡ []
fname-finished st s e h = cc

fname-accept_name : (size : ℕ) (st s : Split) → accept_name size st ≡ finished s → s.fname ≡ []
unfolding accept_name
fname-accept_name size st s e = ground arith

fname-end_name :
    (stat : List ℕ → Option ℕ) (f : List ℕ) (st s : Split)
    → end_name stat f st ≡ finished s
    → s.fname ≡ []
unfolding end_name
fname-end_name stat [] st s e = fname-finished _ s e refl
fname-end_name stat (c ∷ cs) st s e = elim (Option-cases (stat (c ∷ cs))) [
  | inl missing ↦ absurd (ground arith)
  | inr (size, found) ↦ fname-accept_name size st s (ground arith)
]

-- A character more of the first field, where it is read.
take_rest-onto_first :
    (stat : List ℕ → Option ℕ) (c : ℕ) (gs : List (List ℕ)) (st : Split)
    → (f : List ℕ) × (fs : List (List ℕ)) × (gs ≡ f ∷ fs)
    → take_rest stat (onto_first c gs) st
      ≡ take_rest stat gs (record st { fname = st.fname ++ (c ∷ []) })
take_rest-onto_first stat c gs st (f, fs, e) = rw (e, append_assoc st.fname (c ∷ []) f) refl

take_rest_long :
    (stat : List ℕ → Option ℕ) (c : ℕ) (gs : List (List ℕ)) (st : Split)
    → 63 ≤ length st.fname
    → take_rest stat (onto_first c gs) st ≡ exits 1
take_rest_long stat c [] st h =
    let long : leb 64 (length (st.fname ++ (c ∷ []))) ≡ true =
      ground (arith, length-append {0} st.fname (c ∷ [])) in
    rw long refl
take_rest_long stat c (g ∷ gs) st h =
    let long : leb 64 (length (st.fname ++ (c ∷ g))) ≡ true =
      ground (arith, length-append {0} st.fname (c ∷ g)) in
    rw long refl

take_rest_empty :
    (stat : List ℕ → Option ℕ) (gs : List (List ℕ)) (st : Split)
    → st.fname ≡ []
    → take_rest stat gs st ≡ take_fields stat gs st
take_rest_empty stat [] st e = refl
take_rest_empty stat (g ∷ gs) st e = rw e refl

split_names-take_rest :
    (stat : List ℕ → Option ℕ) (cs : List ℕ) (st : Split)
    → length st.fname ≤ 63
    → split_names stat cs st ≡ take_rest stat (fields cs) st
unfolding split_names split_char
split_names-take_rest stat [] st h =
    let short : leb 64 (length st.fname) ≡ false = ground arith in
    rw (append-nil st.fname, short) (sym (and_then-finished (end_name stat st.fname st)))
split_names-take_rest stat (c ∷ cs) st h = elim (Bool-cases (c == b',')) [
  | inl comma ↦
      let short : leb 64 (length st.fname) ≡ false = ground arith in
      rw (comma, append-nil st.fname, short)
        (and_then_cong (end_name stat st.fname st) _ _ (λ s e.
          let none_left = fname-end_name stat st.fname st s e in
          split_names-take_rest stat cs s (rw none_left (omega arith))
          ∙ take_rest_empty stat (fields cs) s none_left))
  | inr other ↦ elim (Bool-cases (leb 63 (length st.fname))) [
    | inl full ↦ rw (other, full) (sym (take_rest_long stat c (fields cs) st (ground arith)))
    | inr room ↦
        rw (other, room)
          (split_names-take_rest stat cs (record st { fname = st.fname ++ (c ∷ []) })
              (ground (arith, length-append {0} st.fname (c ∷ [])))
            ∙ sym (take_rest-onto_first stat c (fields cs) st (fields_cons cs)))
  ]
]

-- The loop over the characters does what cutting the text at its commas first and looking the
-- fields up one by one does: the same names, in the same order, with the size of the last of
-- them, or the same end of the process at the same field, whether it is 64 characters or longer,
-- names no file, or is refused for its size or as a duplicate. A field without characters is
-- passed over.
pub split_names-fields :
    (stat : List ℕ → Option ℕ) (cs : List ℕ)
    → split_names stat cs no_names ≡ take_fields stat (fields cs) no_names
split_names-fields stat cs =
    split_names-take_rest stat cs no_names (omega arith)
    ∙ take_rest_empty stat (fields cs) no_names refl
