-- ===== src/Driver/Device/Writing.antt =====
-- What `scsitap_ctl_write` does with a target's reply.
use vscsi_hba.Base.{
  ℕ, ◌≡◌, refl, true, false, List, [], ◌∷◌, Option, none, some, ◌==◌, arith, Bool-cases, inl, inr,
}
use vscsi_hba.Linux.{Linux}
use vscsi_hba.Driver.State.{
  Task, ScsiCmnd, Hba, Connection, ready, not_ready, Ensures, spin_lock_free, with_lock,
}
use vscsi_hba.Driver.Tasks.{task_of_cmd, task_at}
use vscsi_hba.Driver.Tasks.Invariant.{
  IsConsistent, Linked, has_addr, update_cmnd-IsConsistent, complete_task-IsConsistent,
}
use vscsi_hba.Driver.Uaccess.{Mem, Uaccess}
use vscsi_hba.Driver.Device.{
  ctl_write, write_locked, write_task, finish_task, answer, cmd_number_of,
}

has_addr_of_cmd :
    (n : ℕ) (ts : List Task) (t : Task) → task_of_cmd n ts ≡ some t → has_addr t.addr ts ≡ true
unfolding task_of_cmd has_addr
has_addr_of_cmd n [] t e = cc
has_addr_of_cmd n (x ∷ ts) t e = ground (arith, has_addr_of_cmd n ts t)

-- A task found by its number is the one at its address.
pub task_at_of_cmd :
    (c : ℕ → ScsiCmnd) (n : ℕ) (ts : List Task) (t : Task)
    → task_of_cmd n ts ≡ some t
    → Linked c ts
    → task_at t.addr ts ≡ some t
unfolding task_of_cmd task_at
task_at_of_cmd c n [] t e l = cc
task_at_of_cmd c n (x ∷ ts) t e l = ground (arith, has_addr_of_cmd n ts t, task_at_of_cmd c n ts t)

ptr-answer :
    (u : Uaccess) (k : Linux) (count : ℕ) (m : Mem) (status : ℕ) (c : ScsiCmnd)
    → (answer u k count m status c).1.ptr ≡ c.ptr
unfolding answer
ptr-answer u k count m status c = ground arith

finish_task-IsConsistent :
    (k : Linux) (count : ℕ) (t : Task) (a : Option ℕ × ScsiCmnd) (h : Hba)
    → task_at t.addr h.session.scsitap_queue ≡ some t
    → a.1.ptr ≡ (h.cmnds t.sc).ptr
    → IsConsistent h
    → IsConsistent (finish_task k count t a h).1
unfolding finish_task
finish_task-IsConsistent k count t (none, c) h e p v = update_cmnd-IsConsistent t.sc (λ _. c) h p v
finish_task-IsConsistent k count t (some status, c) h e p v =
    complete_task-IsConsistent k t t _ e refl
      (update_cmnd-IsConsistent t.sc (λ _. record c { result = status }) h p v)

write_task-IsConsistent :
    (u : Uaccess) (k : Linux) (count n : ℕ) (m : Mem) (o : Option Task) (h : Hba)
    → task_of_cmd n h.session.scsitap_queue ≡ o
    → IsConsistent h
    → IsConsistent (write_task u k count m o h).1
unfolding write_task
write_task-IsConsistent u k count n m none h e v = v
write_task-IsConsistent u k count n m (some t) h e v =
    finish_task-IsConsistent k count t _ h
      (task_at_of_cmd h.cmnds n h.session.scsitap_queue t e v.linked)
      (ptr-answer u k count m (u.get_user m 5) (h.cmnds t.sc)) v

pub write_locked-IsConsistent :
    (u : Uaccess) (k : Linux) (count : ℕ) (m : Mem) (c : Connection) (h : Hba)
    → IsConsistent h
    → IsConsistent (write_locked u k count m c h).1
unfolding write_locked
write_locked-IsConsistent u k count m not_ready h v = v
write_locked-IsConsistent u k count m ready h v =
    let (r, bs) = u.copy_from_user m 1 4 in
    let n = cmd_number_of bs in
    let w =
      write_task-IsConsistent u k count n m (task_of_cmd n h.session.scsitap_queue) h refl v in
    elim (Bool-cases (u.get_user m 0 == b'D')) [
      | inl d ↦ elim (Bool-cases (r == 0)) [ inl z ↦ rw (d, z) w | inr z ↦ rw (d, z) v ]
      | inr d ↦ rw d v
    ]

-- On a consistent session with the lock free, whatever a target writes, and wherever a copy
-- faults, the call returns with the lock free and the queue consistent.
pub ctl_write-IsConsistent :
    (u : Uaccess) (k : Linux) (count : ℕ) (m : Mem) (h : Hba)
    → h.session.queue_locked ≡ false
    → IsConsistent h
    → Ensures (λ o. IsConsistent o.1 × (o.1.session.queue_locked ≡ false)) (ctl_write u k count m h)
unfolding ctl_write
ctl_write-IsConsistent u k count m h free v =
    let w =
      write_locked-IsConsistent u k count m h.session.flags (with_lock true h)
        (record { counted = v.counted; linked = v.linked; backed = v.backed }) in
    rw (spin_lock_free h free)
      (record { counted = w.counted; linked = w.linked; backed = w.backed }, refl)
