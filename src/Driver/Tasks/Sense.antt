-- ===== src/Driver/Tasks/Sense.antt =====
-- The sense data that the driver fills in: bytes 0 (the response code), 2 (the sense key), 7 and 12
-- (the additional sense code) of `sense_buffer`.
use vscsi_hba.Base.{
  ℕ, ◌≤◌, ◌≡◌, List, get_or, set, length, length-set, get_or-set_self, get_or-set_ne, ◌≢◌,
  replicate, length-replicate, arith, ◌∙◌,
}
use vscsi_hba.Linux.{Linux}
use vscsi_hba.Driver.State.{ScsiCmnd}
use vscsi_hba.Driver.Tasks.{set_sensedata_illegal}

-- The five stores that both routines make, one after the other.
module _ (b : List ℕ) (key code : ℕ) where
  abbrev after_1 : List ℕ
  after_1 = set b 0 0x70

  abbrev after_2 : List ℕ
  after_2 = set after_1 2 key

  abbrev after_3 : List ℕ
  after_3 = set after_2 7 0x6

  abbrev after_4 : List ℕ
  after_4 = set after_3 12 code

  abbrev stores : List ℕ
  stores = set after_4 13 0x00

  length-after_3 : length after_3 ≡ length b
  length-after_3 = length-set after_2 7 0x6 ∙ length-set after_1 2 key ∙ length-set b 0 0x70

  length-stores : length stores ≡ length b
  length-stores = length-set after_4 13 0x00 ∙ length-set after_3 12 code ∙ length-after_3

  -- Byte `j` after the last two stores.
  keep_late : (j : ℕ) → 13 ≢ j → 12 ≢ j → get_or stores j 0 ≡ get_or after_3 j 0
  keep_late j p q = get_or-set_ne after_4 13 j 0x00 0 p ∙ get_or-set_ne after_3 12 j code 0 q

  stores_0 : 14 ≤ length b → get_or stores 0 0 ≡ 0x70
  stores_0 long =
      keep_late 0 (omega arith) (omega arith)
      ∙ get_or-set_ne after_2 7 0 0x6 0 (omega arith)
      ∙ get_or-set_ne after_1 2 0 key 0 (omega arith)
      ∙ get_or-set_self b 0 0x70 0 (omega arith)

  stores_2 : 14 ≤ length b → get_or stores 2 0 ≡ key
  stores_2 long =
      keep_late 2 (omega arith) (omega arith)
      ∙ get_or-set_ne after_2 7 2 0x6 0 (omega arith)
      ∙ get_or-set_self after_1 2 key 0 (omega (arith, length-set b 0 0x70))

  stores_12 : 14 ≤ length b → get_or stores 12 0 ≡ code
  stores_12 long =
      get_or-set_ne after_4 13 12 0x00 0 (omega arith)
      ∙ get_or-set_self after_3 12 code 0 (omega (arith, length-after_3))

-- "Illegal request" in the routine's name, but the key and the code that it stores are "no sense".
pub illegal_sense :
    (k : Linux) (c : ScsiCmnd)
    → 14 ≤ k.sense_buffersize
    → (get_or (set_sensedata_illegal k c).sense_buffer 0 0 ≡ 0x70)
      × (get_or (set_sensedata_illegal k c).sense_buffer 2 0 ≡ 0)
      × (get_or (set_sensedata_illegal k c).sense_buffer 12 0 ≡ 0)
      × (length (set_sensedata_illegal k c).sense_buffer ≡ k.sense_buffersize)
unfolding set_sensedata_illegal
illegal_sense k c long =
    let b = replicate k.sense_buffersize 0 in
    let long' : 14 ≤ length b = omega (arith, length-replicate {A = ℕ} k.sense_buffersize 0) in
    (
      stores_0 b 0 0 long',
      stores_2 b 0 0 long',
      stores_12 b 0 0 long',
      length-stores b 0 0 ∙ length-replicate {A = ℕ} k.sense_buffersize 0,
    )
