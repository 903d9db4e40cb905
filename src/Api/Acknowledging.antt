-- ===== src/Api/Acknowledging.antt =====
-- How a target completes a command that wrote: `complete_scsi_task` of user/vscsiapi.c, no data.
use vscsi_hba.Base.{ℕ, ◌^◌, ◌≡◌, ◌<◌, refl, ◌∙◌, false, some, u8, arith}
use vscsi_hba.Driver.State.{Task, Hba, ready, Ensures}
use vscsi_hba.Driver.Tasks.{task_of_cmd, is_aborted}
use vscsi_hba.Driver.Sessions.{hba_at}
use vscsi_hba.Driver.Uaccess.{IsResident}
use vscsi_hba.Driver.Device.{ctl_write}
use vscsi_hba.Driver.Device.Completing.{IsReply, Completed}
use vscsi_hba.Driver.Device.Acknowledging.{acknowledged, ctl_write_acknowledges}
use vscsi_hba.Api.{UserTask, Env, World, complete_scsi_task, reply_buffer}
use vscsi_hba.Api.Replying.{returned, reply_number, CompletedAt, complete_world}

-- A task that the target has run, and that takes no data back.
pub record IsDone (v : Env) (task : UserTask) (t : Task) (h : Hba) : Type 0 where
  pub resident : IsResident v.uaccess
  pub number : task.cmd_number ≡ t.cmd_number
  pub small : t.cmd_number < 2 ^ 32
  pub queued : task_of_cmd t.cmd_number h.session.scsitap_queue ≡ some t
  pub live : is_aborted (v.linux.flags_after_free t.flags) ≡ false
  pub free : h.session.queue_locked ≡ false
  pub attached : h.session.flags ≡ ready
  pub no_data : task.request_bufflen ≡ 0
  pub passed : u8 task.status ≡ 0

reply_buffer-IsReply :
    (v : Env) (task : UserTask) (t : Task) (h : Hba)
    → IsDone v task t h
    → IsReply v.uaccess v.linux (reply_buffer task) t h
reply_buffer-IsReply v task t h s = record {
  resident = s.resident;
  type = refl;
  number = reply_number task (omega (arith, s.number, s.small)) ∙ s.number;
  queued = s.queued;
  live = s.live;
  free = s.free;
  attached = s.attached;
}

-- A target that has run a task with status 0 and sends no data back completes it: the call returns
-- 0, the command's buffer is as it was, with result 0, and the session at the file's address has lost
-- the task, with its command handed to `scsi_done` once.
pub complete_scsi_task_acknowledges :
    (v : Env) (task : UserTask) (w : World) (a : ℕ) (t : Task) (h : Hba)
    → IsDone v task t h
    → w.file.private_data ≡ some a
    → hba_at a w.driver.hbas ≡ some h
    → Ensures
        (CompletedAt a 6 t (acknowledged v.linux (h.cmnds t.sc)) h)
        (complete_scsi_task v task w)
complete_scsi_task_acknowledges v task w a t h s points there =
    let m = reply_buffer task in
    let c = acknowledged v.linux (h.cmnds t.sc) in
    let wrote =
      ctl_write_acknowledges v.uaccess v.linux 6 m t h (reply_buffer-IsReply v task t h s) s.passed
        (omega arith) in
    let ((r, h'), e, p) = returned (Completed 6 t c h) (ctl_write v.uaccess v.linux 6 m h) wrote in
    complete_world v task w a 6 t c h h' r (omega (arith, s.no_data)) points there e p
