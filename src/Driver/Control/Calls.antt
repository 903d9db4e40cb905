-- ===== src/Driver/Control/Calls.antt =====
-- What a call on a session, of the mid layer or of a target, leaves alone: the session's address,
-- `Device_Open` and the connection flag.
use mathlib.Core.Path.{subst}
use vscsi_hba.Base.{
  ℕ, u32, ◌≡◌, refl, true, List, [], ◌∷◌, Option, none, some, ◌==◌, Bool-cases, Option-cases, inl,
  inr,
}
use vscsi_hba.Linux.{Linux, aborted}
use vscsi_hba.Driver.State.{
  Task, ScsiCmnd, Hba, Connection, ready, not_ready, Outcome, returns, sleeps, deadlock, dangling,
  ◌>>=◌, Ret, spin_lock, with_lock,
}
use vscsi_hba.Driver.Tasks.{
  complete_task, queuecommand, queue_locked, enqueue, eh_abort, abort_ptr, abort_at, abort_all,
  eh_host_reset, task_at, task_of_cmd,
}
use vscsi_hba.Driver.Uaccess.{Mem, Uaccess}
use vscsi_hba.Driver.Device.{
  ctl_write, write_locked, write_task, answer, finish_task, cmd_number_of, receive_task,
  receive_locked,
}

abbrev pub SameFrame : Hba → Hba → Type 0
SameFrame h h' =
    (h'.session.shost ≡ h.session.shost)
    × (h'.session.device_open ≡ h.session.device_open)
    × (h'.session.flags ≡ h.session.flags)

-- One call that returned.
pub data Call (k : Linux) : Hba → Hba → Type 0 where
  queues :
      (slot : Option ℕ) (sc : ℕ) (h : Hba) (r : Ret) (h' : Hba)
      → queuecommand k slot sc h ≡ returns (r, h')
      → Call k h h'
  aborts : (sc : ℕ) (h : Hba) (r : Ret) (h' : Hba) → eh_abort k sc h ≡ returns (r, h') → Call k h h'
  resets : (h : Hba) (r : Ret) (h' : Hba) → eh_host_reset k h ≡ returns (r, h') → Call k h h'
  takes : (n : ℕ) (h : Hba) (r : Ret) (h' : Hba) → receive_task n h ≡ returns (r, h') → Call k h h'
  writes :
      (u : Uaccess) (count : ℕ) (m : Mem) (h : Hba) (r : Ret) (h' : Hba)
      → ctl_write u k count m h ≡ returns (r, h')
      → Call k h h'

-- The property holds if the call returns.
abbrev pub Whenever {ℓ} : {A : Type ℓ} → (A → Type 0) → Outcome A → Type 0
Whenever P (returns a) = P a
Whenever P sleeps = Unit
Whenever P deadlock = Unit
Whenever P dangling = Unit

-- Behind a lock, it is enough to look at the locked section.
pub locked-Whenever :
    (P : Ret × Hba → Type 0) (h : Hba) (f : Hba → Outcome (Ret × Hba))
    → Whenever P (f (with_lock true h))
    → Whenever P (spin_lock h >>= f)
unfolding spin_lock
locked-Whenever P h f p = elim (Bool-cases h.session.queue_locked) [
  | inl e ↦ rw e tt
  | inr e ↦ rw e p
]

queue_locked-SameFrame :
    (k : Linux) (slot : Option ℕ) (sc : ℕ) (c : Connection) (h : Hba)
    → SameFrame h (queue_locked k slot sc c h).1
unfolding queue_locked enqueue
queue_locked-SameFrame k slot sc not_ready h = (refl, refl, refl)
queue_locked-SameFrame k none sc ready h = (refl, refl, refl)
queue_locked-SameFrame k (some a) sc ready h = (refl, refl, refl)

abort_at-SameFrame :
    (k : Linux) (t : Option Task) (h : Hba) → Whenever (λ o. SameFrame h o.1) (abort_at k t h)
unfolding abort_at complete_task
abort_at-SameFrame k none h = tt
abort_at-SameFrame k (some t) h = (refl, refl, refl)

abort_ptr-SameFrame :
    (k : Linux) (p : Option ℕ) (h : Hba) → Whenever (λ o. SameFrame h o.1) (abort_ptr k p h)
unfolding abort_ptr
abort_ptr-SameFrame k none h = (refl, refl, refl)
abort_ptr-SameFrame k (some a) h = abort_at-SameFrame k (task_at a h.session.scsitap_queue) h

abort_all-SameFrame : (k : Linux) (ts : List Task) (h : Hba) → SameFrame h (abort_all k ts h)
unfolding abort_all complete_task
abort_all-SameFrame k [] h = (refl, refl, refl)
abort_all-SameFrame k (t ∷ ts) h =
    abort_all-SameFrame k ts (complete_task k (record t { flags = aborted }) h)

receive_locked-SameFrame : (n : ℕ) (c : Connection) (h : Hba) → SameFrame h (receive_locked n c h).1
unfolding receive_locked
receive_locked-SameFrame n not_ready h = (refl, refl, refl)
receive_locked-SameFrame n ready h = elim (Option-cases (task_of_cmd n h.session.scsitap_queue)) [
  | inl e ↦ rw (e, receive_locked) (refl, refl, refl)
  | inr (t, e) ↦ rw (e, receive_locked) (refl, refl, refl)
]

finish_task-SameFrame :
    (k : Linux) (count : ℕ) (t : Task) (a : Option ℕ × ScsiCmnd) (h : Hba)
    → SameFrame h (finish_task k count t a h).1
unfolding finish_task complete_task
finish_task-SameFrame k count t (none, c) h = (refl, refl, refl)
finish_task-SameFrame k count t (some s, c) h = (refl, refl, refl)

write_task-SameFrame :
    (u : Uaccess) (k : Linux) (count : ℕ) (m : Mem) (t : Option Task) (h : Hba)
    → SameFrame h (write_task u k count m t h).1
unfolding write_task
write_task-SameFrame u k count m none h = (refl, refl, refl)
write_task-SameFrame u k count m (some t) h =
    finish_task-SameFrame k count t (answer u k count m (u.get_user m 5) (h.cmnds t.sc)) h

write_locked-SameFrame :
    (u : Uaccess) (k : Linux) (count : ℕ) (m : Mem) (c : Connection) (h : Hba)
    → SameFrame h (write_locked u k count m c h).1
unfolding write_locked
write_locked-SameFrame u k count m not_ready h = (refl, refl, refl)
write_locked-SameFrame u k count m ready h = elim (Bool-cases (u.get_user m 0 == b'D')) [
  | inr e ↦ rw e (refl, refl, refl)
  | inl e ↦ elim (Bool-cases ((u.copy_from_user m 1 4).0 == 0)) [
    | inr r ↦ rw (e, r) (refl, refl, refl)
    | inl r ↦
        let bs = (u.copy_from_user m 1 4).1 in
        rw (e, r)
          (write_task-SameFrame u k count m (task_of_cmd (cmd_number_of bs) h.session.scsitap_queue)
            h)
  ]
]

-- A call that returned left the frame of its session alone.
pub Whenever_returns :
    {A : Type 0} (P : A → Type 0) (o : Outcome A) (a : A) → Whenever P o → o ≡ returns a → P a
Whenever_returns P o a w e = subst (Whenever P) e w

pub Call-SameFrame : (k : Linux) (h h' : Hba) → Call k h h' → SameFrame h h'
unfolding queuecommand eh_abort eh_host_reset receive_task ctl_write
Call-SameFrame k _ _ (queues slot sc h r h' e) =
    Whenever_returns (λ o. SameFrame h o.1) (queuecommand k slot sc h) (r, h')
      (locked-Whenever (λ o. SameFrame h o.1) h _
        (queue_locked-SameFrame k slot sc h.session.flags (with_lock true h)))
      e
Call-SameFrame k _ _ (aborts sc h r h' e) =
    Whenever_returns (λ o. SameFrame h o.1) (eh_abort k sc h) (r, h')
      (locked-Whenever (λ o. SameFrame h o.1) h _
        (abort_ptr-SameFrame k (h.cmnds sc).ptr (with_lock true h)))
      e
Call-SameFrame k _ _ (resets h r h' e) =
    Whenever_returns (λ o. SameFrame h o.1) (eh_host_reset k h) (r, h')
      (locked-Whenever (λ o. SameFrame h o.1) h _
        (abort_all-SameFrame k h.session.scsitap_queue (with_lock true h)))
      e
Call-SameFrame k _ _ (takes n h r h' e) =
    Whenever_returns (λ o. SameFrame h o.1) (receive_task n h) (r, h')
      (locked-Whenever (λ o. SameFrame h o.1) h _
        (receive_locked-SameFrame (u32 n) h.session.flags (with_lock true h)))
      e
Call-SameFrame k _ _ (writes u count m h r h' e) =
    Whenever_returns (λ o. SameFrame h o.1) (ctl_write u k count m h) (r, h')
      (locked-Whenever (λ o. SameFrame h o.1) h _
        (write_locked-SameFrame u k count m h.session.flags (with_lock true h)))
      e
