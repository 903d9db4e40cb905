-- ===== src/Process/Service/Steps.antt =====
-- What the proofs on the loop of user/main.c share: outcomes, bytes and command blocks.
use vscsi_hba.Base.{
  ℕ, zero, suc, ◌+◌, ◌≡◌, ◌≤◌, ◌<◌, refl, ap, ◌∙◌, List, [], ◌∷◌, ◌++◌, length, take, drop, get_or,
  arith,
}
use vscsi_hba.Driver.State.{Task, ScsiCmnd}
use vscsi_hba.Driver.Uaccess.{Mem, load}
use vscsi_hba.Scsi.Engine.{Cdb, Run, finished, crashes, exits, unfinished}
use vscsi_hba.Scsi.Block.Transfer.{Finishes}
use vscsi_hba.Api.{UserTask}
use vscsi_hba.Api.Taking.{described}
use vscsi_hba.Process.Service.{cdb_of}

pub load_cong :
    (m m' : Mem) (i j n : ℕ) → ((k : ℕ) → k < n → m (i + k) ≡ m' (j + k)) → load m i n ≡ load m' j n
load_cong m m' i j zero same = refl
load_cong m m' i j (suc n) same =
    let first : m i ≡ m' j = ap m (omega arith) ∙ same 0 (omega arith) ∙ ap m' (omega arith) in
    let rest =
      load_cong m m' (i + 1) (j + 1) n
        (λ k h. ap m (omega arith) ∙ same (suc k) (omega arith) ∙ ap m' (omega arith)) in
    rw (first, rest) refl

get_or-take :
    (xs ys : List ℕ) (n i : ℕ)
    → i < n
    → n ≤ length xs
    → get_or (take n xs ++ ys) i 0 ≡ get_or xs i 0
get_or-take xs ys zero i h l = absurd (omega arith)
get_or-take [] ys (suc n) i h l = absurd (omega arith)
get_or-take (x ∷ xs) ys (suc n) zero h l = refl
get_or-take (x ∷ xs) ys (suc n) (suc i) h l = get_or-take xs ys n i (omega arith) (omega arith)

pub ended :
    {A : Type 0} (P : A → Type 0) (r : Run A) → Finishes P r → (a : A) × (r ≡ finished a) × P a
ended P (finished a) p = (a, refl, p)
ended P crashes p = absurd p
ended P (exits c) p = absurd p
ended P unfinished p = absurd p

-- The command block of the mid layer.
abbrev pub block_of : ScsiCmnd → Cdb
block_of c i = get_or c.cmnd i 0

pub cdb_of-described :
    (c : ScsiCmnd) (t : Task) (old : UserTask) (i : ℕ)
    → i < c.cmd_len
    → c.cmd_len ≤ length c.cmnd
    → cdb_of (described c t old) i ≡ block_of c i
cdb_of-described c t old i h l = get_or-take c.cmnd (drop c.cmd_len old.cdb) c.cmd_len i h l
