-- ===== src/Examples/Image.antt =====
-- A disk in memory: a file, the C library on it, and a LUN.
use vscsi_hba.Base.{
  ℕ, zero, suc, ◌+◌, ◌-◌, ◌%◌, ◌≡◌, ◌<◌, refl, ap, ◌∙◌, false, ◌&&◌, List, [], some, ltb, leb,
  if◌then◌else◌, length, get_or, arith,
}
use vscsi_hba.Driver.Uaccess.{load}
use vscsi_hba.Scsi.Engine.{Libc, Lun}
use vscsi_hba.Scsi.Block.Transfer.{IsFile}

-- A file in memory.
pub record Image : Type 0 where
  pub size : ℕ
  pub bytes : ℕ → ℕ

abbrev pub least : ℕ → ℕ → ℕ
least a b = if ltb a b then a else b

abbrev pub written : Image → ℕ → List ℕ → Image
written f off bs = record {
  size = if ltb f.size (off + length bs) then off + length bs else f.size;
  bytes = λ j. if leb off j && ltb j (off + length bs) then get_or bs (j - off) 0 else f.bytes j;
}

abbrev pub memory : Libc Image
memory = record {
  sizeof_long = 8;
  size = λ f. (f.size, f);
  tell = λ f. 0;
  pread = λ f off n. (load f.bytes off (least n (f.size - off)), f);
  pwrite = λ f off bs. (length bs, written f off bs);
  fclose = λ f. f;
  rename = λ f. record f { size = 0 };
  fopen_w = λ f. some (record f { size = 0 });
}

length-load : (m : ℕ → ℕ) (i n : ℕ) → length (load m i n) ≡ n
length-load m i zero = refl
length-load m i (suc n) = omega (arith, length-load m (i + 1) n)

get_or-load : (m : ℕ → ℕ) (i n j : ℕ) → j < n → get_or (load m i n) j 0 ≡ m (i + j)
get_or-load m i zero j h = absurd (omega arith)
get_or-load m i (suc n) zero h = ap m (omega arith)
get_or-load m i (suc n) (suc j) h = get_or-load m (i + 1) n j (omega arith) ∙ ap m (omega arith)

pub memory-IsFile : IsFile memory (λ f. f.bytes) (λ f. f.size)
memory-IsFile = record {
  read_some = λ f off n p q.
      let e = length-load f.bytes off (least n (f.size - off)) in
      (ground (arith, e), ground (arith, e));
  read_bytes = λ f off n i p.
      get_or-load f.bytes off (least n (f.size - off)) i
        (ground (arith, length-load f.bytes off (least n (f.size - off))));
  read_view = λ f off n. refl;
  read_len = λ f off n. refl;
  write_some = λ f off bs p. (p, omega arith);
  write_view = λ f off bs j. refl;
  write_len = λ f off bs. ground arith;
}

abbrev pub image : Image
image = record { size = 1048576; bytes = λ j. j % 256 }

abbrev pub lun : Lun
lun = record {
  device_type = 0;
  block_size = 512;
  vendor = [];
  productid = [];
  revision = [];
  serial_number = [];
  lun = 3;
  luntype = 0;
  lunsizeinmb = 1;
  is_blank = false;
  current_profile = 0;
}
