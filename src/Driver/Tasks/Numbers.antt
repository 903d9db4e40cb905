-- ===== src/Driver/Tasks/Numbers.antt =====
-- Command numbers: a task's number is how user space names it.
use mathlib.Core.Path.{subst}
use vscsi_hba.Base.{
  ℕ, suc, sym, All, ◌≢◌, Bool-cases, ltb, inl, inr, ◌⊎◌, ◌+◌, ◌^◌, ◌<◌, ◌≤◌, ◌≡◌, refl, false, List,
  [], ◌∷◌, ◌++◌, none, some, arith, u32,
}
use vscsi_hba.Linux.{Linux, submitted}
use vscsi_hba.Driver.State.{Task, Hba, ready, Ret, bytes, Ensures, spin_lock_free}
use vscsi_hba.Driver.Tasks.{
  queuecommand, queue_locked, enqueue, alloc_task, fresh_number, list_del, task_at, task_of_cmd,
  complete_task,
}

-- The numbers rise along the list, from `lo` on and below `hi`.
abbrev pub Rising : ℕ → ℕ → List Task → Type 0
Rising lo hi [] = lo ≤ hi
Rising lo hi (t ∷ ts) = (lo ≤ t.cmd_number) × Rising (suc t.cmd_number) hi ts

-- The queue's numbers are positive, rise along the queue and stay below the next one.
abbrev pub IsNumbered : Hba → Type 0
IsNumbered h = Rising 1 h.session.next_cmdnumber h.session.scsitap_queue

Rising-le : (lo hi : ℕ) (ts : List Task) → Rising lo hi ts → lo ≤ hi
Rising-le lo hi [] r = r
Rising-le lo hi (t ∷ ts) r = omega (arith, Rising-le (suc t.cmd_number) hi ts r.1)

Rising-mono : (lo lo' hi : ℕ) (ts : List Task) → lo' ≤ lo → Rising lo hi ts → Rising lo' hi ts
Rising-mono lo lo' hi [] h r = omega arith
Rising-mono lo lo' hi (t ∷ ts) h r = (omega arith, r.1)

Rising-append :
    (lo hi : ℕ) (ts : List Task) (t : Task)
    → t.cmd_number ≡ hi
    → Rising lo hi ts
    → Rising lo (hi + 1) (ts ++ (t ∷ []))
Rising-append lo hi [] t e r = (omega arith, omega arith)
Rising-append lo hi (x ∷ ts) t e r = (r.0, Rising-append (suc x.cmd_number) hi ts t e r.1)

Rising-list_del : (lo hi a : ℕ) (ts : List Task) → Rising lo hi ts → Rising lo hi (list_del a ts)
unfolding list_del
Rising-list_del lo hi a [] r = r
Rising-list_del lo hi a (t ∷ ts) r = ground (
  arith,
  r.0,
  Rising-mono (suc t.cmd_number) lo hi ts (omega arith) r.1,
  Rising-list_del (suc t.cmd_number) hi a ts r.1,
)

-- A task that is completed leaves the others numbered as they were.
pub complete_task-IsNumbered :
    (k : Linux) (t : Task) (h : Hba) → IsNumbered h → IsNumbered (complete_task k t h)
unfolding complete_task
complete_task-IsNumbered k t h r =
    Rising-list_del 1 h.session.next_cmdnumber t.addr h.session.scsitap_queue r

task_of_cmd_below :
    (lo hi n : ℕ) (ts : List Task) → n < lo → Rising lo hi ts → task_of_cmd n ts ≡ none
unfolding task_of_cmd
task_of_cmd_below lo hi n [] h r = refl
task_of_cmd_below lo hi n (t ∷ ts) h r =
    ground (arith, task_of_cmd_below (suc t.cmd_number) hi n ts (omega arith) r.1)

above_of_task_at :
    (lo hi a : ℕ) (ts : List Task) (t : Task)
    → task_at a ts ≡ some t
    → Rising lo hi ts
    → lo ≤ t.cmd_number
unfolding task_at
above_of_task_at lo hi a [] t e r = cc
above_of_task_at lo hi a (x ∷ ts) t e r =
    ground (arith, above_of_task_at (suc x.cmd_number) hi a ts t)

-- In a numbered queue, the number of a queued task leads back to that task and no other.
pub task_of_cmd-task_at :
    (lo hi a : ℕ) (ts : List Task) (t : Task)
    → task_at a ts ≡ some t
    → Rising lo hi ts
    → task_of_cmd t.cmd_number ts ≡ some t
unfolding task_at task_of_cmd
task_of_cmd-task_at lo hi a [] t e r = cc
task_of_cmd-task_at lo hi a (x ∷ ts) t e r = ground (
  arith,
  above_of_task_at (suc x.cmd_number) hi a ts t,
  task_of_cmd-task_at (suc x.cmd_number) hi a ts t,
)

task_of_cmd_above :
    (lo hi : ℕ) (ts : List Task) (t : Task)
    → t.cmd_number ≡ hi
    → Rising lo hi ts
    → task_of_cmd t.cmd_number (ts ++ (t ∷ [])) ≡ some t
unfolding task_of_cmd
task_of_cmd_above lo hi [] t e r = ground arith
task_of_cmd_above lo hi (x ∷ ts) t e r = ground (
  arith,
  Rising-le (suc x.cmd_number) hi ts r.1,
  task_of_cmd_above (suc x.cmd_number) hi ts t e r.1,
)

task_of_cmd-append_ne :
    (n : ℕ) (ts : List Task) (t : Task)
    → n ≢ t.cmd_number
    → task_of_cmd n (ts ++ (t ∷ [])) ≡ task_of_cmd n ts
unfolding task_of_cmd
task_of_cmd-append_ne n [] t ne = ground arith
task_of_cmd-append_ne n (x ∷ ts) t ne = ground (arith, task_of_cmd-append_ne n ts t ne)

Rising-All : (lo hi : ℕ) (ts : List Task) → Rising lo hi ts → All (λ t. t.cmd_number < hi) ts
Rising-All lo hi [] r = tt
Rising-All lo hi (t ∷ ts) r =
    (omega (arith, Rising-le (suc t.cmd_number) hi ts r.1), Rising-All (suc t.cmd_number) hi ts r.1)

-- What queuing a command leaves: at the end of the queue one task more, of that command and for its
-- LUN, that no target has taken, whose number is above those of all others; this number leads to
-- it, all others to the tasks that they led to before.
abbrev pub Numbered : ℕ → ℕ → Hba → Ret × Hba → Type 0
Numbered a sc h (r, h') =
    let q = h.session.scsitap_queue in
    let q' = h'.session.scsitap_queue in
    (r ≡ bytes 0)
    × ((t : Task) × (q' ≡ q ++ (t ∷ []))
        × (t.sc ≡ sc)
        × (t.addr ≡ a)
        × (t.flags ≡ submitted)
        × (t.lun ≡ (h.cmnds sc).lun)
        × All (λ x. x.cmd_number < t.cmd_number) q
        × (task_of_cmd t.cmd_number q' ≡ some t)
        × ((n : ℕ) → n ≢ t.cmd_number → task_of_cmd n q' ≡ task_of_cmd n q))
    × IsNumbered h'
    × ((h'.cmnds sc).ptr ≡ some a)
    × (h'.completed ≡ h.completed)

-- On a ready session with the lock free, with a free slot and until the counter wraps, a command
-- that comes to a numbered queue is queued: the call returns 0, and the queue has one task more,
-- at its end, of that command, in that slot, for its LUN and submitted. The task's number is
-- above those of all tasks before it and leads back to it, every other number leads to the task
-- that it led to before, the queue stays numbered, the command points at its task and none is
-- completed.
pub queuecommand-IsNumbered :
    (k : Linux) (a sc : ℕ) (h : Hba)
    → h.session.queue_locked ≡ false
    → h.session.flags ≡ ready
    → h.session.next_cmdnumber + 1 < 2 ^ 32
    → IsNumbered h
    → Ensures (Numbered a sc h) (queuecommand k (some a) sc h)
unfolding queuecommand
queuecommand-IsNumbered k a sc h free attached room r =
    let n = h.session.next_cmdnumber in
    let q = h.session.scsitap_queue in
    let pos : 1 ≤ n = Rising-le 1 n q r in
    let number : fresh_number n ≡ n = ground arith in
    let next : u32 (fresh_number n + 1) ≡ n + 1 = omega (arith, number) in
    rw (spin_lock_free h free) (
      rw attached (
        unfold queue_locked enqueue alloc_task in
        (
          refl,
          (
            _,
            refl,
            refl,
            refl,
            refl,
            ground arith,
            subst (λ m. All (λ x. x.cmd_number < m) q) (sym number) (Rising-All 1 n q r),
            task_of_cmd_above 1 n q _ number r,
            λ m ne. task_of_cmd-append_ne m q _ ne,
          ),
          rw next (Rising-append 1 n q _ number r),
          ground arith,
          refl,
        )))

wraps : (n : ℕ) → n < 2 ^ 32 → (u32 (n + 1) ≡ n + 1) ⊎ ((u32 (n + 1) ≡ 0) × (n + 1 ≡ 2 ^ 32))
wraps n h = elim (Bool-cases (ltb (n + 1) (2 ^ 32))) [
  | inl p ↦ inl (ground arith)
  | inr p ↦ let top : n + 1 ≡ 2 ^ 32 = ground arith in inr (omega arith, top)
]

-- Whatever the counter is, and when it wraps too, a command that is queued on a ready session
-- with the lock free gets a number of 32 bits that is not zero, and the counter stays below 2 ^
-- 32 and is the number's successor, which wraps to zero behind 2 ^ 32 - 1.
pub queuecommand_bounds :
    (k : Linux) (a sc : ℕ) (h : Hba)
    → h.session.queue_locked ≡ false
    → h.session.flags ≡ ready
    → h.session.next_cmdnumber < 2 ^ 32
    → Ensures
        (λ (_, h').
          (t : Task) × (h'.session.scsitap_queue ≡ h.session.scsitap_queue ++ (t ∷ []))
          × (0 < t.cmd_number)
          × (t.cmd_number < 2 ^ 32)
          × (h'.session.next_cmdnumber < 2 ^ 32)
          × ((h'.session.next_cmdnumber ≡ t.cmd_number + 1)
              ⊎ ((h'.session.next_cmdnumber ≡ 0) × (t.cmd_number + 1 ≡ 2 ^ 32))))
        (queuecommand k (some a) sc h)
unfolding queuecommand
queuecommand_bounds k a sc h free attached fits =
    let n = h.session.next_cmdnumber in
    rw (spin_lock_free h free) (
      rw attached (
        unfold queue_locked enqueue alloc_task in
        (_, refl, ground arith, ground arith, omega arith, wraps (fresh_number n) (ground arith))))
