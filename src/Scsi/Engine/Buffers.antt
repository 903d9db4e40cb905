-- ===== src/Scsi/Engine/Buffers.antt =====
-- Which cells of a data buffer the stores of the engine change.
use vscsi_hba.Base.{ℕ, zero, suc, ◌+◌, ◌≡◌, ◌≤◌, ◌<◌, refl, List, [], ◌∷◌, length, get_or, arith}
use vscsi_hba.Scsi.Engine.{Buf, poke, pokes}

pub pokes_below : (i : ℕ) (bs : List ℕ) (b : Buf) (j : ℕ) → j < i → (pokes i bs b).cell j ≡ b.cell j
unfolding pokes
pokes_below i [] b j h = refl
pokes_below i (v ∷ vs) b j h = ground (arith, pokes_below (i + 1) vs (poke i v b) j (omega arith))

pub pokes_above :
    (i : ℕ) (bs : List ℕ) (b : Buf) (j : ℕ) → i + length bs ≤ j → (pokes i bs b).cell j ≡ b.cell j
unfolding pokes
pokes_above i [] b j h = refl
pokes_above i (v ∷ vs) b j h = ground (arith, pokes_above (i + 1) vs (poke i v b) j (omega arith))

pub pokes_at :
    (i : ℕ) (bs : List ℕ) (b : Buf) (j n : ℕ)
    → j ≡ i + n
    → n < length bs
    → (pokes i bs b).cell j ≡ get_or bs n 0
unfolding pokes
pokes_at i [] b j n e h = absurd (omega arith)
pokes_at i (v ∷ vs) b j zero e h =
    ground (arith, pokes_below (i + 1) vs (poke i v b) j (omega arith))
pokes_at i (v ∷ vs) b j (suc n) e h =
    pokes_at (i + 1) vs (poke i v b) j n (omega arith) (omega arith)

-- The buffer is overrun no further than the last byte stored.
pub top-pokes :
    (i : ℕ) (bs : List ℕ) (b : Buf) (k : ℕ) → b.top ≤ k → i + length bs ≤ k → (pokes i bs b).top ≤ k
unfolding pokes
top-pokes i [] b k h e = h
top-pokes i (v ∷ vs) b k h e = top-pokes (i + 1) vs (poke i v b) k (ground arith) (omega arith)
