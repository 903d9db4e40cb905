-- ===== src/Scsi/Block/Transfer.antt =====
-- What the transfer loops of user/scsi.c do on a file that behaves as the C library documents.
use vscsi_hba.Base.{
  ℕ, zero, suc, ◌+◌, ◌-◌, ◌≡◌, ◌≤◌, ◌<◌, refl, ap, ◌∙◌, true, false, ◌&&◌, List, ltb, leb,
  if◌then◌else◌, length, get_or, arith, Bool-cases, inl, inr,
}
use vscsi_hba.Driver.Uaccess.{load}
use vscsi_hba.Scsi.Engine.{pokes, Libc, Io, Run, finished, unfinished, crashes, exits}
use vscsi_hba.Scsi.Engine.Buffers.{pokes_below, pokes_above, pokes_at, top-pokes}
use vscsi_hba.Scsi.Block.{read_loop, write_loop}

-- The documented behaviour of reading and writing a file: `view` is its bytes and `len` its length.
-- Inside the file a read returns at least one byte and at most those asked for, and changes
-- nothing. A write stores at least one byte, says how many, and changes no others.
pub record IsFile {F : Type 0} (io : Libc F) (view : F → ℕ → ℕ) (len : F → ℕ) : Type 0 where
  pub read_some :
      (f : F) (off n : ℕ)
      → off < len f
      → 0 < n
      → (0 < length (io.pread f off n).0) × (length (io.pread f off n).0 ≤ n)
  pub read_bytes :
      (f : F) (off n i : ℕ)
      → i < length (io.pread f off n).0
      → get_or (io.pread f off n).0 i 0 ≡ view f (off + i)
  pub read_view : (f : F) (off n : ℕ) → view (io.pread f off n).1 ≡ view f
  pub read_len : (f : F) (off n : ℕ) → len (io.pread f off n).1 ≡ len f
  pub write_some :
      (f : F) (off : ℕ) (bs : List ℕ)
      → 0 < length bs
      → (0 < (io.pwrite f off bs).0) × ((io.pwrite f off bs).0 ≤ length bs)
  pub write_view :
      (f : F) (off : ℕ) (bs : List ℕ) (j : ℕ)
      → view (io.pwrite f off bs).1 j ≡ (
          if leb off j && ltb j (off + (io.pwrite f off bs).0)
          then get_or bs (j - off) 0
          else view f j)
  pub write_len : (f : F) (off : ℕ) (bs : List ℕ) → len f ≤ len (io.pwrite f off bs).1

-- The command returns, and its state has the property.
abbrev pub Finishes : {A : Type 0} → (A → Type 0) → Run A → Type 0
Finishes P (finished a) = P a
Finishes P crashes = ⊥
Finishes P (exits c) = ⊥
Finishes P unfinished = ⊥

pub Finishes-map :
    {A : Type 0} (P Q : A → Type 0) (r : Run A)
    → ((a : A) → P a → Q a)
    → Finishes P r
    → Finishes Q r
Finishes-map P Q (finished a) f h = f a h
Finishes-map P Q crashes f h = h
Finishes-map P Q (exits c) f h = h
Finishes-map P Q unfinished f h = h

module _ {F : Type 0} (io : Libc F) (view : F → ℕ → ℕ) (len : F → ℕ) (law : IsFile io view len)
    (lba n : ℕ) where
  -- The bytes from `count` to `n` are those of the file from `lba + count` on; all else is as it
  -- was, and no byte from `n` on was written.
  abbrev pub ReadFrom : ℕ → Io F → Io F → Type 0
  ReadFrom count s s' =
      (view s'.file ≡ view s.file)
      × ((i : ℕ) → count ≤ i → i < n → s'.data_.cell i ≡ view s.file (lba + i))
      × ((i : ℕ) → i < count → s'.data_.cell i ≡ s.data_.cell i)
      × ((i : ℕ) → n ≤ i → s'.data_.cell i ≡ s.data_.cell i)
      × ((k : ℕ) → s.data_.top ≤ k → n ≤ k → s'.data_.top ≤ k)

  ReadFrom-done : (count : ℕ) (s : Io F) → n ≤ count → ReadFrom count s s
  ReadFrom-done count s h =
      (refl, λ i p q. absurd (omega arith), λ i p. refl, λ i p. refl, λ k p q. p)

  -- One round of the loop, and the rest from there.
  ReadFrom-round :
      (count : ℕ) (s s' : Io F)
      → count < n
      → lba + n ≤ len s.file
      → let (bs, file) = io.pread s.file (lba + count) (n - count) in
        ReadFrom (count + length bs) (record s { file = file; data_ = pokes count bs s.data_ }) s'
        → ReadFrom count s s'
  ReadFrom-round count s s' more fits (same, new, low, high, peak) =
      let (bs, file) = io.pread s.file (lba + count) (n - count) in
      let some_ = law.read_some s.file (lba + count) (n - count) (omega arith) (omega arith) in
      (
        same ∙ law.read_view s.file (lba + count) (n - count),
        λ i p q. elim (Bool-cases (ltb i (count + length bs))) [
          | inl near ↦
              low i (ground arith)
              ∙ pokes_at count bs s.data_ i (i - count) (omega arith) (ground arith)
              ∙ law.read_bytes s.file (lba + count) (n - count) (i - count) (ground arith)
              ∙ ap (view s.file) (omega arith)
          | inr far ↦
              new i (ground arith) q
              ∙ ap (λ v. v (lba + i)) (law.read_view s.file (lba + count) (n - count))
        ],
        λ i p. low i (omega arith) ∙ pokes_below count bs s.data_ i p,
        λ i p. high i p ∙ pokes_above count bs s.data_ i (omega (arith, some_)),
        λ k p q. peak k (top-pokes count bs s.data_ k p (omega (arith, some_))) q,
      )

  -- With fuel for each byte that is left, inside the file, the loop ends.
  pub read_loop-ReadFrom :
      (fuel count : ℕ) (s : Io F)
      → n - count ≤ fuel
      → count ≤ n
      → lba + n ≤ len s.file
      → Finishes (ReadFrom count s) (read_loop io lba n fuel count s)
  unfolding read_loop
  read_loop-ReadFrom zero count s enough h fits =
      let over : ltb count n ≡ false = ground arith in rw over (ReadFrom-done count s (omega arith))
  read_loop-ReadFrom (suc fuel) count s enough h fits = elim (Bool-cases (ltb count n)) [
    | inr over ↦ rw over (ReadFrom-done count s (ground arith))
    | inl more ↦
        let (bs, file) = io.pread s.file (lba + count) (n - count) in
        let s1 = record s { file = file; data_ = pokes count bs s.data_ } in
        let less : count < n = ground arith in
        let some_ = law.read_some s.file (lba + count) (n - count) (omega arith) (omega arith) in
        let rest =
          read_loop-ReadFrom fuel (count + length bs) s1 (omega (arith, some_))
            (omega (arith, some_)) (omega (arith, law.read_len s.file (lba + count) (n - count))) in
        rw more (
          Finishes-map (ReadFrom (count + length bs) s1) (ReadFrom count s)
            (read_loop io lba n fuel (count + length bs) s1)
            (λ s' r. ReadFrom-round count s s' less fits r) rest)
  ]

  -- Bytes `lba + count` to `lba + n` of the file are those of the buffer from `count` on; the rest
  -- of the file and the buffer are as they were.
  abbrev pub Wrote : ℕ → Io F → Io F → Type 0
  Wrote count s s' =
      ((j : ℕ) → lba + count ≤ j → j < lba + n → view s'.file j ≡ s.data_.cell (j - lba))
      × ((j : ℕ) → j < lba + count → view s'.file j ≡ view s.file j)
      × ((j : ℕ) → lba + n ≤ j → view s'.file j ≡ view s.file j)
      × (s'.data_ ≡ s.data_)
      × (len s.file ≤ len s'.file)

  Wrote-done : (count : ℕ) (s : Io F) → n ≤ count → Wrote count s s
  Wrote-done count s h =
      (λ j p q. absurd (omega arith), λ j p. refl, λ j p. refl, refl, omega arith)

  get_or-load : (m : ℕ → ℕ) (i l j : ℕ) → j < l → get_or (load m i l) j 0 ≡ m (i + j)
  get_or-load m i zero j h = absurd (omega arith)
  get_or-load m i (suc l) zero h = ap m (omega arith)
  get_or-load m i (suc l) (suc j) h = get_or-load m (i + 1) l j (omega arith) ∙ ap m (omega arith)

  length-load : (m : ℕ → ℕ) (i l : ℕ) → length (load m i l) ≡ l
  length-load m i zero = refl
  length-load m i (suc l) = ap suc (length-load m (i + 1) l)

  Wrote-round :
      (count : ℕ) (s s' : Io F)
      → count < n
      → let (res, file) = io.pwrite s.file (lba + count) (load s.data_.cell count (n - count)) in
        Wrote (count + res) (record s { file = file }) s' → Wrote count s s'
  Wrote-round count s s' more (new, low, high, same, grows) =
      let bs = load s.data_.cell count (n - count) in
      let size = length-load s.data_.cell count (n - count) in
      let (res, file) = io.pwrite s.file (lba + count) bs in
      let some_ = law.write_some s.file (lba + count) bs (omega (arith, size)) in
      (
        λ j p q. elim (Bool-cases (ltb j (lba + (count + res)))) [
          | inl near ↦
              let inside : (leb (lba + count) j && ltb j (lba + count + res)) ≡ true =
                ground arith in
              low j (ground arith)
              ∙ law.write_view s.file (lba + count) bs j
              ∙ rw inside (
                  get_or-load s.data_.cell count (n - count) (j - (lba + count)) (omega arith)
                  ∙ ap s.data_.cell (omega arith))
          | inr far ↦ new j (ground arith) q
        ],
        λ j p.
            let outside : (leb (lba + count) j && ltb j (lba + count + res)) ≡ false =
              ground arith in
            low j (omega arith) ∙ law.write_view s.file (lba + count) bs j ∙ rw outside,
        λ j p.
            let outside : (leb (lba + count) j && ltb j (lba + count + res)) ≡ false =
              ground (arith, some_, size) in
            high j p ∙ law.write_view s.file (lba + count) bs j ∙ rw outside,
        same,
        omega (arith, law.write_len s.file (lba + count) bs),
      )

  pub write_loop-Wrote :
      (fuel count : ℕ) (s : Io F)
      → n - count ≤ fuel
      → count ≤ n
      → Finishes (Wrote count s) (write_loop io lba n fuel count s)
  unfolding write_loop
  write_loop-Wrote zero count s enough h =
      let over : ltb count n ≡ false = ground arith in rw over (Wrote-done count s (omega arith))
  write_loop-Wrote (suc fuel) count s enough h = elim (Bool-cases (ltb count n)) [
    | inr over ↦ rw over (Wrote-done count s (ground arith))
    | inl more ↦
        let bs = load s.data_.cell count (n - count) in
        let size = length-load s.data_.cell count (n - count) in
        let (res, file) = io.pwrite s.file (lba + count) bs in
        let s1 = record s { file = file } in
        let less : count < n = ground arith in
        let some_ = law.write_some s.file (lba + count) bs (omega (arith, size)) in
        rw more (
          Finishes-map (Wrote (count + res) s1) (Wrote count s)
            (write_loop io lba n fuel (count + res) s1) (λ s' r. Wrote-round count s s' less r)
            (write_loop-Wrote fuel (count + res) s1 (omega (arith, some_, size))
              (omega (arith, some_, size))))
  ]
