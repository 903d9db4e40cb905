-- ===== src/Driver/Tasks.antt =====
-- The task queue of one session: kernel/hba.c, lines 49 to 296.
-- The calls run on one processor. `kmem_cache_alloc`'s answer is an argument, and `wake_up` and
-- `printk` change nothing here. The host lock, which `queuecommand` and `eh_abort` drop and take
-- back, is the mid layer's.
pub mod Sense
pub mod Invariant
pub mod Queueing
pub mod Aborting
pub mod Numbers
use vscsi_hba.Base.{
  ℕ, suc, ◌+◌, ◌*◌, ◌^◌, Bool, true, false, List, [], ◌∷◌, ◌++◌, Option, none, some, ◌==◌,
  if◌then◌else◌, set, replicate, u32, dec32,
}
use vscsi_hba.Linux.{Linux, TaskFlags, empty, submitted, aborted}
use vscsi_hba.Driver.State.{
  Task, ScsiCmnd, Session, Hba, Connection, ready, not_ready, Outcome, returns, dangling, ◌>>=◌,
  Ret, bytes, success, host_busy, spin_lock, spin_unlock, update_cmnd, with_ptr,
}

-- `enum scsi_eh_timer_return`, the value that the driver uses.
pub data TimerReturn : Type 0 where
  eh_handled : TimerReturn

-- All zeros.
unfoldable pub set_sensedata : Linux → ScsiCmnd → ScsiCmnd
set_sensedata k sc = record sc { sense_buffer = replicate k.sense_buffersize 0 }

unfoldable pub set_sensedata_illegal : Linux → ScsiCmnd → ScsiCmnd
set_sensedata_illegal k sc =
    let b = replicate k.sense_buffersize 0 in
    record sc { sense_buffer = set (set (set (set (set b 0 0x70) 2 0) 7 0x6) 12 0) 13 0x00 }

-- The other bytes stay as they are.
unfoldable pub set_sensedata_commfailure : Linux → ScsiCmnd → ScsiCmnd
set_sensedata_commfailure k sc =
    let b = sc.sense_buffer in
    record sc {
      sense_buffer = set (set (set (set (set b 0 0x70) 2 k.not_ready) 7 0x6) 12 0x08) 13 0x00;
    }

-- What a command gets when there is no target: `DID_NO_CONNECT << 16` and the sense data.
unfoldable pub fail_no_connect : Linux → ScsiCmnd → ScsiCmnd
unfolding set_sensedata_commfailure
fail_no_connect k sc =
    set_sensedata_commfailure k
      (record sc { result = k.did_no_connect * 2 ^ 16; resid = sc.request_bufflen })

-- The first task with the number, in the queue's order.
unfoldable pub task_of_cmd : ℕ → List Task → Option Task
task_of_cmd n [] = none
task_of_cmd n (t ∷ ts) = if t.cmd_number == n then some t else task_of_cmd n ts

-- `list_del`: the task leaves the queue.
unfoldable pub list_del : ℕ → List Task → List Task
list_del a [] = []
list_del a (t ∷ ts) = if t.addr == a then ts else t ∷ list_del a ts

-- A pointer to a task followed: the task at the address, if it was not freed.
unfoldable pub task_at : ℕ → List Task → Option Task
task_at a [] = none
task_at a (t ∷ ts) = if t.addr == a then some t else task_at a ts

abbrev pub is_aborted : TaskFlags → Bool
is_aborted aborted = true
is_aborted _ = false

-- The queue lock is held by the caller. The flags are read after the slot was freed.
unfoldable pub complete_task : Linux → Task → Hba → Hba
unfolding list_del
complete_task k task h =
    let s = h.session in
    update_cmnd
      (record h {
        session = record s {
          cmd_numbers = dec32 s.cmd_numbers;
          scsitap_queue = list_del task.addr s.scsitap_queue;
        };
        completed =
            if is_aborted (k.flags_after_free task.flags)
            then h.completed
            else task.sc ∷ h.completed;
      })
      task.sc (with_ptr none)

-- A new task, in the slot that the cache gave.
unfoldable pub alloc_task : Session → ℕ → Task
alloc_task s slot = record {
  addr = slot;
  cmd_number = 0;
  lun = 0;
  flags = empty;
  type = 0;
  sc = 0;
  session = s.shost;
}

-- `session->next_cmdnumber ? session->next_cmdnumber : 1`
abbrev pub fresh_number : ℕ → ℕ
fresh_number n = if n == 0 then 1 else n

-- `result = 0` and the scratch area `SCp` cleared.
abbrev pub start_cmnd : ScsiCmnd → ScsiCmnd
start_cmnd c = record c { result = 0; ptr = none }

-- The second half of `queuecommand`: the task filled in and put at the end of the queue.
unfoldable pub enqueue : ℕ → ℕ → Hba → Hba
unfolding alloc_task
enqueue slot sc h =
    let s = h.session in
    let number = fresh_number s.next_cmdnumber in
    let task = record (alloc_task s slot) {
      lun = (h.cmnds sc).lun;
      flags = submitted;
      sc = sc;
      cmd_number = number;
      type = b'C';
    } in
    update_cmnd
      (record h {
        session = record s {
          cmd_numbers = u32 (s.cmd_numbers + 1);
          next_cmdnumber = u32 (number + 1);
          scsitap_queue = s.scsitap_queue ++ (task ∷ []);
        };
      })
      sc (with_ptr (some slot))

-- `queuecommand` with the lock held. `slot` is what `kmem_cache_alloc` returned.
unfoldable pub queue_locked : Linux → Option ℕ → ℕ → Connection → Hba → Ret × Hba
unfolding fail_no_connect enqueue
queue_locked k slot sc not_ready h =
    let h' = update_cmnd (spin_unlock h) sc (fail_no_connect k) in
    (bytes 0, record h' { completed = sc ∷ h'.completed })
queue_locked k none sc ready h = (host_busy, spin_unlock (update_cmnd h sc start_cmnd))
queue_locked k (some a) sc ready h =
    (bytes 0, spin_unlock (enqueue a sc (update_cmnd h sc start_cmnd)))

unfoldable pub queuecommand : Linux → Option ℕ → ℕ → Hba → Outcome (Ret × Hba)
unfolding queue_locked spin_lock
queuecommand k slot sc h = do h ← spin_lock h; returns (queue_locked k slot sc h.session.flags h)

-- The task that `SCp.ptr` leads to, aborted. Where the slot was freed, the driver would write to
-- freed memory.
unfoldable pub abort_at : Linux → Option Task → Hba → Outcome (Ret × Hba)
unfolding complete_task
abort_at k none h = dangling
abort_at k (some task) h =
    returns (success, spin_unlock (complete_task k (record task { flags = aborted }) h))

unfoldable pub abort_ptr : Linux → Option ℕ → Hba → Outcome (Ret × Hba)
unfolding abort_at task_at
abort_ptr k none h = returns (success, spin_unlock h)
abort_ptr k (some a) h = abort_at k (task_at a h.session.scsitap_queue) h

unfoldable pub eh_abort : Linux → ℕ → Hba → Outcome (Ret × Hba)
unfolding abort_ptr spin_lock
eh_abort k sc h = do h ← spin_lock h; abort_ptr k (h.cmnds sc).ptr h

-- The loop of the host reset, over the tasks that were queued when it began.
unfoldable pub abort_all : Linux → List Task → Hba → Hba
unfolding complete_task
abort_all k [] h = h
abort_all k (t ∷ ts) h = abort_all k ts (complete_task k (record t { flags = aborted }) h)

unfoldable pub eh_host_reset : Linux → Hba → Outcome (Ret × Hba)
unfolding abort_all spin_lock
eh_host_reset k h = do
  h ← spin_lock h
  returns (success, spin_unlock (abort_all k h.session.scsitap_queue h))

-- The time-out handler, which the host template does not name, and the device reset: the one tells
-- the mid layer that the time-out was dealt with, and neither touches the task.
unfoldable pub eh_timed_out : Hba → TimerReturn × Hba
eh_timed_out h = (eh_handled, h)

unfoldable pub eh_device_reset : Hba → Ret × Hba
eh_device_reset h = (success, h)

-- The loop of `scsitap_destroy_session`: every queued command fails with the sense data.
unfoldable pub fail_all : Linux → List Task → Hba → Hba
unfolding complete_task fail_no_connect
fail_all k [] h = h
fail_all k (t ∷ ts) h = fail_all k ts (complete_task k t (update_cmnd h t.sc (fail_no_connect k)))
