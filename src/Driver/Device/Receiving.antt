-- ===== src/Driver/Device/Receiving.antt =====
-- The RECEIVE_TASK ioctl: a target takes a task, so that no other reads its header again.
use mathlib.Core.Path.{subst}
use vscsi_hba.Base.{
  ℕ, suc, ◌≡◌, ◌≢◌, refl, sym, ap, ◌∙◌, true, false, List, [], ◌∷◌, Option, some, ◌==◌, u32, length,
  arith, Bool-cases, inl, inr,
}
use vscsi_hba.Linux.{Linux, received}
use vscsi_hba.Driver.State.{
  Task, ScsiCmnd, Hba, ready, not_ready, deadlock, Ret, success, eperm, Ensures, spin_lock_free,
  spin_lock_held, with_lock,
}
use vscsi_hba.Driver.Tasks.{task_of_cmd, task_at, queuecommand, eh_abort, eh_host_reset}
use vscsi_hba.Driver.Tasks.Invariant.{IsConsistent, Linked, has_addr}
use vscsi_hba.Driver.Tasks.Numbers.{Rising, IsNumbered}
use vscsi_hba.Driver.Uaccess.{Mem, Uaccess}
use vscsi_hba.Driver.Device.{receive_task, receive_locked, mark_received, ctl_write}

-- Every entry point that takes the queue lock spins for ever.
abbrev pub IsWedged : Hba → Type 0
IsWedged h =
    ((k : Linux) (slot : Option ℕ) (sc : ℕ) → queuecommand k slot sc h ≡ deadlock)
    × ((k : Linux) (sc : ℕ) → eh_abort k sc h ≡ deadlock)
    × ((k : Linux) → eh_host_reset k h ≡ deadlock)
    × ((u : Uaccess) (k : Linux) (count : ℕ) (m : Mem) → ctl_write u k count m h ≡ deadlock)

wedged : (h : Hba) → h.session.queue_locked ≡ true → IsWedged h
unfolding queuecommand eh_abort eh_host_reset ctl_write
wedged h held = (
  λ k slot sc. rw (spin_lock_held h held),
  λ k sc. rw (spin_lock_held h held),
  λ k. rw (spin_lock_held h held),
  λ u k count m. rw (spin_lock_held h held),
)

-- The early return of the ioctl keeps the lock: on a session that is not ready, with the lock
-- free, the call returns -1, and from then on queuing a command, aborting one, resetting the host
-- and a target's write all spin for ever.
pub receive_task_wedges :
    (n : ℕ) (h : Hba)
    → h.session.queue_locked ≡ false
    → h.session.flags ≡ not_ready
    → Ensures (λ (r, h'). (r ≡ eperm) × IsWedged h') (receive_task n h)
unfolding receive_task
receive_task_wedges n h free closed = rw (spin_lock_free h free) (
    subst
      (λ c.
        ((receive_locked (u32 n) c (with_lock true h)).0 ≡ eperm)
        × IsWedged (receive_locked (u32 n) c (with_lock true h)).1)
      (sym closed) (unfold receive_locked in (refl, wedged (with_lock true h) refl)))

has_addr-mark_received :
    (a n : ℕ) (ts : List Task) → has_addr a (mark_received n ts) ≡ has_addr a ts
unfolding has_addr mark_received
has_addr-mark_received a n [] = refl
has_addr-mark_received a n (t ∷ ts) = ground (arith, has_addr-mark_received a n ts)

Linked-mark_received :
    (c : ℕ → ScsiCmnd) (n : ℕ) (ts : List Task) → Linked c ts → Linked c (mark_received n ts)
unfolding mark_received
Linked-mark_received c n [] l = tt
Linked-mark_received c n (t ∷ ts) l =
    ground (arith, has_addr-mark_received t.addr n ts, Linked-mark_received c n ts l.2)

pub length-mark_received : (n : ℕ) (ts : List Task) → length (mark_received n ts) ≡ length ts
unfolding mark_received
length-mark_received n [] = refl
length-mark_received n (t ∷ ts) = ground (arith, length-mark_received n ts)

task_at-mark_received :
    (a n : ℕ) (ts : List Task) (t : Task)
    → task_at a ts ≡ some t
    → (t' : Task) × (task_at a (mark_received n ts) ≡ some t') × (t'.sc ≡ t.sc)
unfolding task_at mark_received
task_at-mark_received a n [] t e = absurd (cc)
task_at-mark_received a n (x ∷ ts) t e = elim (Bool-cases (x.addr == a)) [
  | inl hit ↦ elim (Bool-cases (x.cmd_number == n)) [
    | inl p ↦ (record x { flags = received }, rw (p, hit), ground arith)
    | inr p ↦ (x, rw (p, hit), ground arith)
  ]
  | inr miss ↦
      let (t', at, same) = task_at-mark_received a n ts t (ground arith) in
      elim (Bool-cases (x.cmd_number == n)) [
        | inl p ↦ (t, ground arith, refl)
        | inr p ↦ (t', ground arith, same)
      ]
]

Rising-mark_received :
    (lo hi n : ℕ) (ts : List Task) → Rising lo hi ts → Rising lo hi (mark_received n ts)
unfolding mark_received
Rising-mark_received lo hi n [] r = r
Rising-mark_received lo hi n (t ∷ ts) r =
    ground (arith, Rising-mark_received (suc t.cmd_number) hi n ts r.1)

pub task_of_cmd-mark_received :
    (n : ℕ) (ts : List Task) (t : Task)
    → task_of_cmd n ts ≡ some t
    → task_of_cmd n (mark_received n ts) ≡ some (record t { flags = received })
unfolding task_of_cmd mark_received
task_of_cmd-mark_received n [] t e = cc
task_of_cmd-mark_received n (x ∷ ts) t e = ground (arith, task_of_cmd-mark_received n ts t)

pub task_of_cmd-mark_received_ne :
    (n m : ℕ) (ts : List Task) → m ≢ n → task_of_cmd m (mark_received n ts) ≡ task_of_cmd m ts
unfolding task_of_cmd mark_received
task_of_cmd-mark_received_ne n m [] ne = refl
task_of_cmd-mark_received_ne n m (x ∷ ts) ne =
    ground (arith, task_of_cmd-mark_received_ne n m ts ne)

-- What a taken task leaves: the queue consistent and numbered, the number still that of the same
-- task, now marked as received, nothing else of the session changed, and the lock free.
abbrev pub Received : ℕ → Task → Hba → Ret × Hba → Type 0
Received n t h (r, h') =
    (r ≡ success)
    × IsConsistent h'
    × (IsNumbered h → IsNumbered h')
    × (task_of_cmd n h'.session.scsitap_queue ≡ some (record t { flags = received }))
    × (h'.cmnds ≡ h.cmnds)
    × (h'.completed ≡ h.completed)
    × (h'.session.queue_locked ≡ false)

pub receive_locked-Received :
    (n : ℕ) (t : Task) (h : Hba)
    → task_of_cmd n h.session.scsitap_queue ≡ some t
    → IsConsistent h
    → Received n t h (receive_locked n ready h)
unfolding receive_locked
receive_locked-Received n t h e v =
    let q = h.session.scsitap_queue in
    rw (e, receive_locked)
      (
        refl,
        record {
          counted = v.counted ∙ ap u32 (sym (length-mark_received n q));
          linked = Linked-mark_received h.cmnds n q v.linked;
          backed = λ sc a p.
              let (w, at, same) = v.backed sc a p in
              let (w', at', same') = task_at-mark_received a n q w at in (w', at', same' ∙ same);
        },
        λ r. Rising-mark_received 1 h.session.next_cmdnumber n q r,
        task_of_cmd-mark_received n q t e,
        refl,
        refl,
        refl,
      )

-- On a consistent, ready session with the lock free, the ioctl marks the queued task whose number
-- is the low 32 bits of its argument as taken and keeps the invariants: the queue is consistent,
-- and numbered if it was, the commands and completions are as they were, and the lock is free
-- again.
pub receive_task-Received :
    (n : ℕ) (t : Task) (h : Hba)
    → h.session.queue_locked ≡ false
    → h.session.flags ≡ ready
    → task_of_cmd (u32 n) h.session.scsitap_queue ≡ some t
    → IsConsistent h
    → Ensures (Received (u32 n) t h) (receive_task n h)
unfolding receive_task
receive_task-Received n t h free attached e v = rw (spin_lock_free h free) (
    subst (λ c. Received (u32 n) t h (receive_locked (u32 n) c (with_lock true h))) (sym attached)
      (receive_locked-Received (u32 n) t (with_lock true h) e
        (record { counted = v.counted; linked = v.linked; backed = v.backed })))
