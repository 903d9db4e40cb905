-- ===== src/Process/Arguments/Order.antt =====
-- The order of the options in `configure_scsi_target` of user/main.c.
use vscsi_hba.Base.{
  ℕ, zero, suc, ◌≡◌, refl, ap, ◌∙◌, Bool, true, false, ◌||◌, List, ◌∷◌, ◌++◌, some, replicate,
}
use vscsi_hba.Scsi.Engine.{finished, exits}
use vscsi_hba.Target.{same_name}
use vscsi_hba.Process.Arguments.{
  for_option, Options, no_options, dash_dev, dash_files, dash_v, read_option, read_argument,
  read_arguments, parse_arguments,
}

-- `-v`, that many times.
abbrev pub v_times : ℕ → List (List ℕ)
v_times n = replicate n dash_v

or_true : (b : Bool) → (b || true) ≡ true
or_true true = refl
or_true false = refl

-- What they make of the variables.
abbrev after_v : ℕ → Options → Options
after_v zero o = o
after_v (suc n) o = after_v n (record o { opt = for_option; v_selected = true; verbose = true })

read_arguments-v_times :
    (n : ℕ) (args : List (List ℕ)) (o : Options)
    → o.opt ≡ for_option
    → read_arguments (v_times n ++ args) o ≡ read_arguments args (after_v n o)
unfolding read_arguments read_argument read_option same_name
read_arguments-v_times zero args o e = refl
read_arguments-v_times (suc n) args o e = rw e (
    read_arguments-v_times n args (record o { opt = for_option; v_selected = true; verbose = true })
      refl)

opt-after_v : (n : ℕ) (o : Options) → o.opt ≡ for_option → (after_v n o).opt ≡ for_option
opt-after_v zero o e = e
opt-after_v (suc n) o e = opt-after_v n _ refl

-- The other variables, but for the third bit of `selection`.
abbrev Same : Options → Options → Type 0
Same o o' =
    (o'.devname ≡ o.devname)
    × (o'.filenames ≡ o.filenames)
    × (o'.dev_selected ≡ o.dev_selected)
    × (o'.files_selected ≡ o.files_selected)

after_v-Same : (n : ℕ) (o : Options) → Same o (after_v n o)
after_v-Same zero o = (refl, refl, refl, refl)
after_v-Same (suc n) o =
    after_v-Same n (record o { opt = for_option; v_selected = true; verbose = true })

abbrev pub is_given : ℕ → Bool
is_given zero = false
is_given (suc n) = true

verbose-after_v : (n : ℕ) (o : Options) → (after_v n o).verbose ≡ (is_given n || o.verbose)
verbose-after_v zero o = refl
verbose-after_v (suc n) o =
    verbose-after_v n (record o { opt = for_option; v_selected = true; verbose = true })
    ∙ or_true (is_given n)

read_arguments_end :
    (n : ℕ) (o : Options)
    → o.opt ≡ for_option
    → read_arguments (v_times n) o ≡ finished (after_v n o)
unfolding read_arguments read_argument read_option same_name
read_arguments_end zero o e = refl
read_arguments_end (suc n) o e =
    rw e
      (read_arguments_end n (record o { opt = for_option; v_selected = true; verbose = true }) refl)

-- `-dev` and its value, where an option is expected.
abbrev after_dev : List ℕ → Options → Options
after_dev d o = record o {
  opt = for_option;
  devname = some d;
  dev_selected = true;
  files_selected = false;
  v_selected = false;
}

read_arguments_dev :
    (d : List ℕ) (args : List (List ℕ)) (o : Options)
    → o.opt ≡ for_option
    → o.dev_selected ≡ false
    → read_arguments (dash_dev ∷ d ∷ args) o ≡ read_arguments args (after_dev d o)
unfolding read_arguments read_argument read_option same_name
read_arguments_dev d args o e s = rw (e, s) refl

abbrev after_files : List ℕ → Options → Options
after_files f o = record o { opt = for_option; filenames = some f; files_selected = true }

read_arguments_files :
    (f : List ℕ) (args : List (List ℕ)) (o : Options)
    → o.opt ≡ for_option
    → o.files_selected ≡ false
    → read_arguments (dash_files ∷ f ∷ args) o ≡ read_arguments args (after_files f o)
unfolding read_arguments read_argument read_option same_name
read_arguments_files f args o e s = rw (e, s) refl

module _ (n m p : ℕ) (d f : List ℕ) where
  abbrev pub dev_first : List (List ℕ)
  dev_first = v_times n ++ (dash_dev ∷ d ∷ (v_times m ++ (dash_files ∷ f ∷ v_times p)))

  abbrev pub files_first : List (List ℕ)
  files_first = v_times n ++ (dash_files ∷ f ∷ (v_times m ++ (dash_dev ∷ d ∷ v_times p)))

  abbrev from_dev_first : Options
  from_dev_first = after_v p (after_files f (after_v m (after_dev d (after_v n no_options))))

  abbrev from_files_first : Options
  from_files_first = after_v p (after_dev d (after_v m (after_files f (after_v n no_options))))

  read_dev_first : read_arguments dev_first no_options ≡ finished from_dev_first
  read_dev_first =
      let o1 = after_v n no_options in
      let s1 = after_v-Same n no_options in
      let o3 = after_v m (after_dev d o1) in
      let s3 = after_v-Same m (after_dev d o1) in
      read_arguments-v_times n _ no_options refl
      ∙ read_arguments_dev d _ o1 (opt-after_v n no_options refl) s1.2
      ∙ read_arguments-v_times m _ (after_dev d o1) refl
      ∙ read_arguments_files f _ o3 (opt-after_v m _ refl) s3.3
      ∙ read_arguments_end p (after_files f o3) refl

  read_files_first : read_arguments files_first no_options ≡ finished from_files_first
  read_files_first =
      let o1 = after_v n no_options in
      let s1 = after_v-Same n no_options in
      let o3 = after_v m (after_files f o1) in
      let s3 = after_v-Same m (after_files f o1) in
      read_arguments-v_times n _ no_options refl
      ∙ read_arguments_files f _ o1 (opt-after_v n no_options refl) s1.3
      ∙ read_arguments-v_times m _ (after_files f o1) refl
      ∙ read_arguments_dev d _ o3 (opt-after_v m _ refl) (s3.2 ∙ s1.2)
      ∙ read_arguments_end p (after_dev d o3) refl

  from_dev_first_lem :
      (from_dev_first.opt ≡ for_option)
      × (from_dev_first.dev_selected ≡ true)
      × (from_dev_first.files_selected ≡ true)
      × (from_dev_first.devname ≡ some d)
      × (from_dev_first.filenames ≡ some f)
      × (from_dev_first.verbose ≡ (is_given p || (is_given m || (is_given n || false))))
  from_dev_first_lem =
      let o2 = after_dev d (after_v n no_options) in
      let o4 = after_files f (after_v m o2) in
      let s3 = after_v-Same m o2 in
      let s5 = after_v-Same p o4 in
      (
        opt-after_v p o4 refl,
        s5.2 ∙ s3.2,
        s5.3,
        s5.0 ∙ s3.0,
        s5.1,
        verbose-after_v p o4
            ∙ ap (◌||◌ (is_given p))
                (verbose-after_v m o2 ∙ ap (◌||◌ (is_given m)) (verbose-after_v n no_options)),
      )

-- Texts with both options, each once, and `-v` any number of times before, between and behind
-- them: if `-dev` comes first, the result has both values, and is verbose if a `-v` was there; if
-- `-files` comes first, the process ends with code 100.
pub parse_arguments_order :
    (n m p : ℕ) (d f : List ℕ)
    → ((o : Options) × (parse_arguments (dev_first n m p d f) ≡ finished o)
        × (o.devname ≡ some d)
        × (o.filenames ≡ some f)
        × (o.verbose ≡ (is_given p || (is_given m || (is_given n || false)))))
      × (parse_arguments (files_first n m p d f) ≡ exits 100)
unfolding parse_arguments
parse_arguments_order n m p d f =
    let (waits, dev, files, name, names, verbose) = from_dev_first_lem n m p d f in
    let o3 = after_v m (after_files f (after_v n no_options)) in
    let unset = after_v-Same p (after_dev d o3) in
    (
      (
        from_dev_first n m p d f,
        rw (read_dev_first n m p d f, waits, dev, files) refl,
        name,
        names,
        verbose,
      ),
      rw (read_files_first n m p d f, opt-after_v p (after_dev d o3) refl, unset.2, unset.3) refl,
    )
