-- ===== src/Driver/Control/Sparing.antt =====
-- Tasks whose completion is not read as an abort, on the queue of kernel/hba.c.
use vscsi_hba.Base.{ℕ, ◌≡◌, refl, Bool, true, false, List, [], ◌∷◌, ◌++◌, some, arith}
use vscsi_hba.Linux.{Linux, submitted, received}
use vscsi_hba.Driver.State.{Task, Hba}
use vscsi_hba.Driver.Tasks.{task_of_cmd, list_del, is_aborted}
use vscsi_hba.Driver.Tasks.Aborting.{Pending}
use vscsi_hba.Driver.Device.{mark_received}

-- Where no command may be dropped, no queued task reads as aborted once it was freed.
abbrev pub IsSpared : Linux → Bool → Hba → Type 0
IsSpared k d h = d ≡ false → Pending k h.session.scsitap_queue

-- Then the flags of a task that no target aborted must not either.
abbrev pub IsFaithful : Linux → Bool → Type 0
IsFaithful k d =
    d ≡ false
    → (is_aborted (k.flags_after_free submitted) ≡ false)
      × (is_aborted (k.flags_after_free received) ≡ false)

pub drop_allowed : (d b : Bool) → (d ≡ false → b ≡ false) → b ≡ true → d ≡ true
drop_allowed true b f e = refl
drop_allowed false b f e = let g : b ≡ false = f refl in absurd (cc)

pub list_del-Pending :
    (k : Linux) (a : ℕ) (ts : List Task) → Pending k ts → Pending k (list_del a ts)
unfolding list_del
list_del-Pending k a [] p = tt
list_del-Pending k a (t ∷ ts) p = ground (arith, p.0, p.1, list_del-Pending k a ts p.1)

pub task_of_cmd-Pending :
    (k : Linux) (n : ℕ) (ts : List Task) (t : Task)
    → task_of_cmd n ts ≡ some t
    → Pending k ts
    → is_aborted (k.flags_after_free t.flags) ≡ false
unfolding task_of_cmd
task_of_cmd-Pending k n [] t e p = cc
task_of_cmd-Pending k n (x ∷ ts) t e p = ground (arith, p.0, task_of_cmd-Pending k n ts t)

pub append-Pending :
    (k : Linux) (ts : List Task) (t : Task)
    → Pending k ts
    → is_aborted (k.flags_after_free t.flags) ≡ false
    → Pending k (ts ++ (t ∷ []))
append-Pending k [] t p live = (live, tt)
append-Pending k (x ∷ ts) t p live = (p.0, append-Pending k ts t p.1 live)

pub mark_received-Pending :
    (k : Linux) (n : ℕ) (ts : List Task)
    → is_aborted (k.flags_after_free received) ≡ false
    → Pending k ts
    → Pending k (mark_received n ts)
unfolding mark_received
mark_received-Pending k n [] live p = tt
mark_received-Pending k n (t ∷ ts) live p =
    ground (arith, live, p.0, p.1, mark_received-Pending k n ts live p.1)
