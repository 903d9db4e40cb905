-- ===== src/Scsi/Engine.antt =====
-- What the commands of user/scsi.c work on: include/scsi.h, the data buffer and the C library.
pub mod Buffers
use vscsi_hba.Base.{
  ℕ, zero, suc, ◌+◌, ◌-◌, ◌*◌, ◌/◌, ◌%◌, ◌^◌, Bool, true, false, ◌&&◌, List, [], ◌∷◌, ◌++◌, Option,
  none, some, ◌==◌, ltb, leb, if◌then◌else◌, length, get_or, replicate, of_be32, of_be16,
}

-- A data buffer: its bytes, and one past the highest offset that was ever written, which is how an
-- overrun shows.
pub record Buf : Type 0 where
  pub cell : ℕ → ℕ
  pub top : ℕ

abbrev pub max : ℕ → ℕ → ℕ
max a b = if ltb a b then b else a

-- `data[i] = v`
abbrev pub poke : ℕ → ℕ → Buf → Buf
poke i v b = record { cell = λ j. if i == j then v else b.cell j; top = max b.top (i + 1) }

-- Consecutive bytes from `i` on: `memcpy`, or a run of assignments.
unfoldable pub pokes : ℕ → List ℕ → Buf → Buf
pokes i [] b = b
pokes i (v ∷ vs) b = pokes (i + 1) vs (poke i v b)

-- `memset(data + i, v, n)`
abbrev pub fill : ℕ → ℕ → ℕ → Buf → Buf
fill i n v b = record {
  cell = λ j. if leb i j && ltb j (i + n) then v else b.cell j;
  top = if n == 0 then b.top else max b.top (i + n);
}

-- `memset(data, 0, n)`
abbrev pub clear : ℕ → Buf → Buf
clear n = fill 0 n 0

-- A command block, as the memory at its start.
abbrev pub Cdb : Type 0
Cdb = ℕ → ℕ

abbrev pub be32_at : Cdb → ℕ → ℕ
be32_at c i = of_be32 (c i) (c (i + 1)) (c (i + 2)) (c (i + 3))

abbrev pub be16_at : Cdb → ℕ → ℕ
be16_at c i = of_be16 (c i) (c (i + 1))

-- The bytes of `htonl(v)`.
abbrev pub be32 : ℕ → List ℕ
be32 v = v / 2 ^ 24 % 256 ∷ v / 2 ^ 16 % 256 ∷ v / 2 ^ 8 % 256 ∷ v % 256 ∷ []

-- The C library on an open file of type `F`, and the width of `long` in bytes, 4 or 8, on a
-- little-endian machine. `size` is `fseeko(f, 0, SEEK_END)` and `ftello`, `tell` is `ftello`;
-- `pread` and `pwrite` are `fseeko(f, offset, SEEK_SET)` followed by `fread` or `fwrite`, with the
-- bytes that were read, or the number of those that were written. `fclose`, `rename` and `fopen_w`
-- are the calls on the LUN's file of these names, the last with mode "w+"; `none` is its null. `F`
-- is the open file with what the file system knows of it.
pub record Libc (F : Type 0) : Type 0 where
  pub sizeof_long : ℕ
  pub size : F → ℕ × F
  pub tell : F → ℕ
  pub pread : F → ℕ → ℕ → List ℕ × F
  pub pwrite : F → ℕ → List ℕ → ℕ × F
  pub fclose : F → F
  pub rename : F → F
  pub fopen_w : F → Option F

-- `*((long *)(data + i)) = htonl(v)`: the value's four bytes, then those above them.
abbrev pub put_long : {F : Type 0} → Libc F → ℕ → ℕ → Buf → Buf
put_long io i v = pokes i (be32 v ++ replicate (io.sizeof_long - 4) 0)

-- Whether a `long` that was given the unsigned 32-bit value is negative.
abbrev pub is_negative : {F : Type 0} → Libc F → ℕ → Bool
is_negative io v = io.sizeof_long == 4 && leb (2 ^ 31) v

-- `struct _lun_data_t`, the fields that the commands read. Strings are their characters.
pub record Lun : Type 0 where
  pub device_type : ℕ
  pub block_size : ℕ
  pub vendor : List ℕ
  pub productid : List ℕ
  pub revision : List ℕ
  pub serial_number : List ℕ
  pub lun : ℕ
  pub luntype : ℕ
  pub lunsizeinmb : ℕ
  pub is_blank : Bool
  pub current_profile : ℕ

-- What a command changes: the LUN's file, the data buffer, `*data_size` and `*status`.
pub record Io (F : Type 0) : Type 0 where
  pub file : F
  pub data_ : Buf
  pub data_size : ℕ
  pub status : ℕ

-- How a call ends: it returns, faults (a null pointer, a write past an array, or `memset` off the
-- address space), ends the process with a code, or has used up its fuel.
pub data Run (A : Type 0) : Type 0 where
  finished : A → Run A
  crashes : Run A
  exits : ℕ → Run A
  unfinished : Run A

-- What a computation is followed by, if it returns.
abbrev pub and_then : {A B : Type 0} → Run A → (A → Run B) → Run B
and_then (finished a) f = f a
and_then crashes f = crashes
and_then (exits c) f = exits c
and_then unfinished f = unfinished

-- `luns` are the numbers of the target's LUNs, in the order of its list.
abbrev pub Command : Type 0 → Type 0
Command F = Libc F → List ℕ → Lun → Cdb → Io F → Run (Io F)

-- `*status=2;return;`
abbrev pub check_condition : {F : Type 0} → Io F → Io F
check_condition s = record s { status = 2 }

-- `*data_size=n; *status=0;`
abbrev pub good : {F : Type 0} → ℕ → Io F → Io F
good n s = record s { data_size = n; status = 0 }
