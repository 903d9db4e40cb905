-- ===== src/Scsi/Configuration/Framing.antt =====
-- The feature descriptors that GET CONFIGURATION of user/scsi.c builds by moving a pointer.
use mathlib.Core.Path.{subst}
use vscsi_hba.Base.{
  ℕ, suc, ◌+◌, ◌-◌, ◌*◌, ◌/◌, ◌%◌, ◌^◌, ◌≡◌, ◌≤◌, ◌<◌, refl, ap, ◌∙◌, Bool, true, false, List, [],
  ◌∷◌, ◌++◌, Option, none, some, ◌==◌, if◌then◌else◌, length, length-append, length-replicate,
  replicate, get_or, arith, ◌⊎◌, inl, inr,
}
use vscsi_hba.Scsi.Engine.{Buf, pokes, clear, be32, be32_at, be16_at, Cdb, Libc, Lun, Io}
use vscsi_hba.Scsi.Engine.Buffers.{pokes_above, pokes_at}
use vscsi_hba.Scsi.Block.Transfer.{Finishes}
use vscsi_hba.Scsi.Configuration.{
  profile_entries, profile_list, padded_serial, flags_by_profile, feature, descriptor,
  get_configuration, configured,
}

-- One byte of flags, and a body of whole words that is not too long.
abbrev Framed : ℕ → Option (List ℕ × List ℕ) → Type 0
Framed n none = Unit {0}
Framed n (some (flags, rest)) = (length flags ≡ 1) × (length rest % 4 ≡ 0) × (length rest ≤ n + 32)

if-Framed :
    (n : ℕ) (b : Bool) (x y : Option (List ℕ × List ℕ))
    → Framed n x
    → Framed n y
    → Framed n (if b then x else y)
if-Framed n true x y p q = p
if-Framed n false x y p q = q

length-padded_serial :
    (ld : Lun)
    → (length (padded_serial ld) % 4 ≡ 0)
      × (length (padded_serial ld) ≤ length ld.serial_number + 3)
unfolding padded_serial
length-padded_serial ld =
    let n = length ld.serial_number in
    let total = length-append {0} ld.serial_number (replicate ((4 - n % 4) % 4) b' ') in
    let fill = length-replicate {0} {A = ℕ} ((4 - n % 4) % 4) b' ' in
    (omega (arith, total, fill), omega (arith, total, fill))

length-profile_entries : (ld : Lun) (ps : List ℕ) → length (profile_entries ld ps) ≡ 4 * length ps
unfolding profile_entries
length-profile_entries ld [] = refl
length-profile_entries ld (p ∷ ps) = omega (arith, length-profile_entries ld ps)

-- The two profiles that the code tells apart.
abbrev pub IsDvd : Lun → Type 0
IsDvd ld = (ld.current_profile ≡ 0x0011) ⊎ (ld.current_profile ≡ 0x0010)

length-flags_by_profile : (ld : Lun) (a b : ℕ) → IsDvd ld → length (flags_by_profile ld a b) ≡ 1
length-flags_by_profile ld a b (inl e) = ground arith
length-flags_by_profile ld a b (inr e) = ground arith

feature-Framed : (ld : Lun) (n : ℕ) → IsDvd ld → Framed (length ld.serial_number) (feature ld n)
unfolding feature
feature-Framed ld n dvd =
    let m = length ld.serial_number in
    let serial = length-padded_serial ld in
    let entries = length-profile_entries ld profile_list in
    let one = λ (a b : ℕ). length-flags_by_profile ld a b dvd in
    if-Framed m (n == 0x0000) _ _ (refl, omega (arith, entries), omega (arith, entries))
      (if-Framed m (n == 0x0001) _ _ (refl, refl, omega arith)
        (if-Framed m (n == 0x0002) _ _ (refl, refl, omega arith)
          (if-Framed m (n == 0x0003) _ _ (refl, refl, omega arith)
            (if-Framed m (n == 0x0010) _ _ (one 0 1, refl, omega arith)
              (if-Framed m (n == 0x001f) _ _ (one 0 1, refl, omega arith)
                (if-Framed m (n == 0x0021) _ _ (one 5 4, refl, omega arith)
                  (if-Framed m (n == 0x002f) _ _ (one 5 4, refl, omega arith)
                    (if-Framed m (n == 0x0100) _ _ (refl, refl, omega arith)
                      (if-Framed m (n == 0x0105) _ _ (refl, refl, omega arith)
                        (if-Framed m (n == 0x0107) _ _ (refl, refl, omega arith)
                          (if-Framed m (n == 0x0108) _ _ (refl, serial.0, omega (arith, serial))
                            tt)))))))))))

Framed-of :
    (n : ℕ) (o : Option (List ℕ × List ℕ)) (flags rest : List ℕ)
    → o ≡ some (flags, rest)
    → Framed n o
    → (length flags ≡ 1) × (length rest % 4 ≡ 0) × (length rest ≤ n + 32)
Framed-of n o flags rest e h = subst (Framed n) e h

get_or-behind :
    (flags xs : List ℕ) (i : ℕ) → length flags ≡ 1 → get_or (flags ++ xs) (suc i) 0 ≡ get_or xs i 0
get_or-behind [] xs i e = absurd (omega arith)
get_or-behind (f ∷ []) xs i e = refl
get_or-behind (f ∷ g ∷ fs) xs i e = absurd (omega arith)

-- The buffer of a feature with one byte of flags.
module _ (ld : Lun) (n : ℕ) (flags rest : List ℕ) (b : Buf) (one : length flags ≡ 1) where
  abbrev bytes_of : List ℕ
  bytes_of = n / 2 ^ 8 % 256 ∷ n % 256 ∷ (flags ++ (length rest % 256 ∷ rest))

  length-bytes_of : length bytes_of ≡ 4 + length rest
  length-bytes_of = omega (arith, one, length-append {0} flags (length rest % 256 ∷ rest))

  abbrev header_of : List ℕ
  header_of =
      let p = ld.current_profile in
      be32 (10 + length flags + length rest - 3) ++ (0 ∷ 0 ∷ p / 2 ^ 8 % 256 ∷ p % 256 ∷ [])

  abbrev result : Buf
  result = configured ld n (some (flags, rest)) b

  configured_head : (i : ℕ) → i < 8 → result.cell i ≡ get_or header_of i 0
  unfolding configured descriptor
  configured_head i h = pokes_at 0 header_of (pokes 8 bytes_of b) i i (omega arith) h

  configured_tail : (i : ℕ) → i < 4 + length rest → result.cell (8 + i) ≡ get_or bytes_of i 0
  unfolding configured descriptor
  configured_tail i h =
      pokes_above 0 header_of (pokes 8 bytes_of b) (8 + i) (omega arith)
      ∙ pokes_at 8 bytes_of b (8 + i) i refl (omega (arith, length-bytes_of))

  configured_size : length rest < 2 ^ 31 → be32_at result.cell 0 ≡ 8 + length rest
  configured_size h = omega (
    arith,
    one,
    configured_head 0 (omega arith),
    configured_head 1 (omega arith),
    configured_head 2 (omega arith),
    configured_head 3 (omega arith),
  )

  configured_profile : ld.current_profile < 2 ^ 16 → be16_at result.cell 6 ≡ ld.current_profile
  configured_profile h =
      omega (arith, configured_head 6 (omega arith), configured_head 7 (omega arith))

  configured_code : n < 2 ^ 16 → be16_at result.cell 8 ≡ n
  configured_code h =
      omega (arith, configured_tail 0 (omega arith), configured_tail 1 (omega arith))

  configured_body : (i : ℕ) → i < length rest → result.cell (12 + i) ≡ get_or rest i 0
  configured_body i h =
      let there : 12 + i ≡ 8 + (4 + i) = omega arith in
      let place : 4 + i ≡ suc (suc (suc (suc i))) = omega arith in
      ap result.cell there
      ∙ configured_tail (4 + i) (omega arith)
      ∙ ap (λ j. get_or bytes_of j 0) place
      ∙ get_or-behind flags (length rest % 256 ∷ rest) (suc i) one

-- For a feature that the drive has, with a DVD-R or a DVD-ROM in it and a serial number of fewer
-- than 224 characters, the answer is well-formed: its length field counts the bytes behind it,
-- the current profile and the feature's code, of 16 bits, can be read back, the additional length
-- is the length of the feature's body, a multiple of four, and the body follows it byte for byte.
pub get_configuration_lem :
    {F : Type 0} (io : Libc F) (luns : List ℕ) (ld : Lun) (cdb : Cdb) (s : Io F)
    (flags rest : List ℕ)
    → IsDvd ld
    → be16_at cdb 2 < 2 ^ 16
    → length ld.serial_number < 224
    → feature ld (be16_at cdb 2) ≡ some (flags, rest)
    → Finishes
        (λ s'.
          (s'.status ≡ 0)
          × (s'.data_size ≡ be16_at cdb 7)
          × (s'.file ≡ s.file)
          × (be32_at s'.data_.cell 0 ≡ 8 + length rest)
          × (be16_at s'.data_.cell 6 ≡ ld.current_profile)
          × (be16_at s'.data_.cell 8 ≡ be16_at cdb 2)
          × (s'.data_.cell 11 ≡ length rest)
          × (length rest % 4 ≡ 0)
          × ((i : ℕ) → i < length rest → s'.data_.cell (12 + i) ≡ get_or rest i 0))
        (get_configuration io luns ld cdb s)
unfolding get_configuration
get_configuration_lem io luns ld cdb s flags rest dvd code short found =
    let n = be16_at cdb 2 in
    let b = clear (be16_at cdb 7) s.data_ in
    let (one, whole, small) =
      Framed-of (length ld.serial_number) (feature ld n) flags rest found
        (feature-Framed ld n dvd) in
    rw found (
      refl,
      refl,
      refl,
      configured_size ld n flags rest b one (omega arith),
      configured_profile ld n flags rest b one (ground (arith, dvd)),
      configured_code ld n flags rest b one code,
      configured_tail ld n flags rest b one 3 (omega arith)
          ∙ get_or-behind flags (length rest % 256 ∷ rest) 0 one
          ∙ omega arith,
      whole,
      configured_body ld n flags rest b one,
    )
