-- ===== src/Api/Replying.antt =====
-- How a target completes a task: `complete_scsi_task` of user/vscsiapi.c, down to `scsi_done`.
use vscsi_hba.Base.{
  ℕ, zero, suc, ◌+◌, ◌≡◌, ◌<◌, ◌^◌, refl, ◌∙◌, false, some, ◌==◌, length, le32, of_le32,
  of_le32-le32, u8, arith, ==-refl,
}
use vscsi_hba.Driver.State.{
  Task, ScsiCmnd, Hba, ready, Outcome, returns, sleeps, deadlock, dangling, Ret, bytes, Ensures,
}
use vscsi_hba.Driver.Tasks.{task_of_cmd, is_aborted}
use vscsi_hba.Driver.Sessions.{hba_at}
use vscsi_hba.Driver.Sessions.Lookup.{shost-hba_at, hba_at-put_hba_self}
use vscsi_hba.Driver.Uaccess.{IsResident, put, store_above, load}
use vscsi_hba.Driver.Device.{ctl_write}
use vscsi_hba.Driver.Device.Reading.{contents, IsMapped}
use vscsi_hba.Driver.Device.Completing.{IsReply, Completed, ctl_write_delivers}
use vscsi_hba.Driver.Control.{file_write, on_hba}
use vscsi_hba.Driver.Control.Calls.{writes, Call-SameFrame}
use vscsi_hba.Api.{UserTask, Env, World, Result, done, complete_scsi_task, reply_buffer}

-- The six bytes in front of the data, and the data.
pub reply_number :
    (task : UserTask)
    → task.cmd_number < 2 ^ 32
    → let m = reply_buffer task in of_le32 (m 1) (m 2) (m 3) (m 4) ≡ task.cmd_number
reply_number task h = ground (arith, of_le32-le32 task.cmd_number h)

reply_above : (task : UserTask) (i : ℕ) → 5 < i → reply_buffer task i ≡ task.request_buffer i
reply_above task i h =
    let far : (5 == i) ≡ false = ground arith in
    let zero_ : (0 == i) ≡ false = ground arith in
    rw far (
      store_above (put task.request_buffer 0 b'D') 1 (le32 task.cmd_number) i (omega arith)
      ∙ rw zero_ refl)

load_above :
    (task : UserTask) (i n : ℕ)
    → 5 < i
    → load (reply_buffer task) i n ≡ load task.request_buffer i n
load_above task i zero h = refl
load_above task i (suc n) h =
    ground (arith, reply_above task i h, load_above task (i + 1) n (omega arith))

pub returned :
    {A : Type 0} (P : A → Type 0) (o : Outcome A) → Ensures P o → (a : A) × (o ≡ returns a) × P a
returned P (returns a) p = (a, refl, p)
returned P sleeps p = absurd p
returned P deadlock p = absurd p
returned P dangling p = absurd p

-- A task that the target has run: it is queued under the user task's number, is not being aborted,
-- and its command's buffer is mapped and as long as the transfer.
pub record IsServed (v : Env) (task : UserTask) (t : Task) (h : Hba) : Type 0 where
  pub resident : IsResident v.uaccess
  pub number : task.cmd_number ≡ t.cmd_number
  pub small : t.cmd_number < 2 ^ 32
  pub queued : task_of_cmd t.cmd_number h.session.scsitap_queue ≡ some t
  pub live : is_aborted (v.linux.flags_after_free t.flags) ≡ false
  pub free : h.session.queue_locked ≡ false
  pub attached : h.session.flags ≡ ready
  pub mapped : IsMapped (h.cmnds t.sc).request_buffer
  pub sized : (h.cmnds t.sc).request_bufflen ≡ length (contents (h.cmnds t.sc).request_buffer)
  pub length_ : task.request_bufflen ≡ (h.cmnds t.sc).request_bufflen
  pub transfers : 0 < (h.cmnds t.sc).request_bufflen
  pub passed : u8 task.status ≡ 0

-- What the session at an address is after the completion with command `c`.
abbrev pub CompletedAt : ℕ → ℕ → Task → ScsiCmnd → Hba → Result × UserTask × World → Type 0
CompletedAt a n t c h (res, task', w') =
    (res ≡ done)
    × ((h' : Hba) × (hba_at a w'.driver.hbas ≡ some h') × Completed n t c h (bytes n, h'))

reply_buffer-IsReply :
    (v : Env) (task : UserTask) (t : Task) (h : Hba)
    → IsServed v task t h
    → IsReply v.uaccess v.linux (reply_buffer task) t h
reply_buffer-IsReply v task t h s = record {
  resident = s.resident;
  type = refl;
  number = reply_number task (omega (arith, s.number, s.small)) ∙ s.number;
  queued = s.queued;
  live = s.live;
  free = s.free;
  attached = s.attached;
}

pub complete_world :
    (v : Env) (task : UserTask) (w : World) (a n : ℕ) (t : Task) (c : ScsiCmnd) (h h' : Hba)
    (r : Ret)
    → task.request_bufflen + 6 ≡ n
    → w.file.private_data ≡ some a
    → hba_at a w.driver.hbas ≡ some h
    → ctl_write v.uaccess v.linux n (reply_buffer task) h ≡ returns (r, h')
    → Completed n t c h (r, h')
    → Ensures (CompletedAt a n t c h) (complete_scsi_task v task w)
unfolding complete_scsi_task file_write on_hba
complete_world v task w a n t c h h' r count points there wrote (is, out, done_, its, others) =
    let same =
      (Call-SameFrame v.linux h h' (writes v.uaccess n (reply_buffer task) h r h' wrote)).0
      ∙ shost-hba_at a w.driver.hbas h there in
    rw (count, points, there, on_hba, wrote, is, ==-refl n)
      (
        refl,
        (h', hba_at-put_hba_self a w.driver.hbas h h' same there, (refl, out, done_, its, others)),
      )

-- A target that has run a task with status 0 completes it: the call returns 0, the command's buffer,
-- flat or scattered, holds the bytes that stand behind the six bytes of the reply in the user's
-- buffer, and the session at the file's address has lost the task, with its command handed to
-- `scsi_done` once.
pub complete_scsi_task_lem :
    (v : Env) (task : UserTask) (w : World) (a : ℕ) (t : Task) (h : Hba)
    → IsServed v task t h
    → w.file.private_data ≡ some a
    → hba_at a w.driver.hbas ≡ some h
    → (c : ScsiCmnd) × Ensures
        (CompletedAt a ((h.cmnds t.sc).request_bufflen + 6) t c h)
        (complete_scsi_task v task w)
      × (contents c.request_buffer ≡ load task.request_buffer 6 (h.cmnds t.sc).request_bufflen)
      × (c.result ≡ 0)
complete_scsi_task_lem v task w a t h s points there =
    let n = (h.cmnds t.sc).request_bufflen + 6 in
    let m = reply_buffer task in
    let (c, wrote, delivered, result, _) =
      ctl_write_delivers v.uaccess v.linux n m t h (reply_buffer-IsReply v task t h s) s.passed
        (omega (arith, s.transfers)) s.mapped s.sized in
    let ((r, h'), e, p) = returned (Completed n t c h) (ctl_write v.uaccess v.linux n m h) wrote in
    (
      c,
      complete_world v task w a n t c h h' r (omega (arith, s.length_)) points there e p,
      delivered ∙ load_above task 6 (h.cmnds t.sc).request_bufflen (omega arith),
      result,
    )
