-- ===== src/Driver/Uaccess.antt =====
-- The kernel's access to user memory (asm/uaccess.h), which the driver calls and does not define.
-- Offsets count from the start of the buffer that the system call was given. The results of
-- `put_user` and `get_user` are ignored by the driver, so they are left out.
use vscsi_hba.Base.{
  ℕ, zero, suc, ◌+◌, ◌≡◌, ◌<◌, ◌≤◌, refl, List, [], ◌∷◌, length, get_or, ◌==◌, if◌then◌else◌, arith,
}

abbrev pub Mem : Type 0
Mem = ℕ → ℕ

-- `copy_to_user` and `copy_from_user` return the number of bytes that could not be copied.
pub record Uaccess : Type 0 where
  pub put_user : Mem → ℕ → ℕ → Mem
  pub copy_to_user : Mem → ℕ → List ℕ → ℕ × Mem
  pub get_user : Mem → ℕ → ℕ
  pub copy_from_user : Mem → ℕ → ℕ → ℕ × List ℕ

-- One byte stored, and a run of bytes stored and loaded.
abbrev pub put : Mem → ℕ → ℕ → Mem
put m i v j = if i == j then v else m j

abbrev pub store : Mem → ℕ → List ℕ → Mem
store m i [] = m
store m i (b ∷ bs) = store (put m i b) (i + 1) bs

abbrev pub load : Mem → ℕ → ℕ → List ℕ
load m i zero = []
load m i (suc n) = m i ∷ load m (i + 1) n

-- The documented behaviour where the buffer is resident, as `mlock` makes it: nothing faults.
pub record IsResident (u : Uaccess) : Type 0 where
  pub puts : (m : Mem) (i v : ℕ) → u.put_user m i v ≡ put m i v
  pub stores : (m : Mem) (i : ℕ) (bs : List ℕ) → u.copy_to_user m i bs ≡ (0, store m i bs)
  pub gets : (m : Mem) (i : ℕ) → u.get_user m i ≡ m i
  pub loads : (m : Mem) (i n : ℕ) → u.copy_from_user m i n ≡ (0, load m i n)

-- An access where every byte is resident.
abbrev pub resident : Uaccess
resident = record {
  put_user = put;
  copy_to_user = λ m i bs. (0, store m i bs);
  get_user = λ m i. m i;
  copy_from_user = λ m i n. (0, load m i n);
}

pub resident-IsResident : IsResident resident
resident-IsResident = record {
  puts = λ m i v. refl;
  stores = λ m i bs. refl;
  gets = λ m i. refl;
  loads = λ m i n. refl;
}

pub store_below : (m : Mem) (i : ℕ) (bs : List ℕ) (j : ℕ) → j < i → store m i bs j ≡ m j
store_below m i [] j h = refl
store_below m i (b ∷ bs) j h = ground (arith, store_below (put m i b) (i + 1) bs j (omega arith))

pub store_above : (m : Mem) (i : ℕ) (bs : List ℕ) (j : ℕ) → i + length bs ≤ j → store m i bs j ≡ m j
store_above m i [] j h = refl
store_above m i (b ∷ bs) j h = ground (arith, store_above (put m i b) (i + 1) bs j (omega arith))

pub store_at :
    (m : Mem) (i : ℕ) (bs : List ℕ) (j n : ℕ)
    → j ≡ i + n
    → n < length bs
    → store m i bs j ≡ get_or bs n 0
store_at m i [] j n e h = absurd (omega arith)
store_at m i (b ∷ bs) j zero e h =
    ground (arith, store_below (put m i b) (i + 1) bs j (omega arith))
store_at m i (b ∷ bs) j (suc n) e h =
    store_at (put m i b) (i + 1) bs j n (omega arith) (omega arith)

-- What was stored is loaded again.
pub load-store : (m : Mem) (i j : ℕ) (bs : List ℕ) → i ≡ j → load (store m i bs) j (length bs) ≡ bs
load-store m i j [] e = refl
load-store m i j (b ∷ bs) e = ground (
  arith,
  store_below (put m i b) (i + 1) bs j (omega arith),
  load-store (put m i b) (i + 1) (j + 1) bs (omega arith),
)
