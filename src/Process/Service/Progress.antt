-- ===== src/Process/Service/Progress.antt =====
-- One round of the loop of user/main.c on a command that reads from the target.
use mathlib.Core.Path.{subst}
use vscsi_hba.Base.{
  ℕ, zero, suc, ◌+◌, ◌-◌, ◌%◌, ◌^◌, ◌≡◌, ◌≤◌, ◌<◌, refl, sym, ◌∙◌, true, false, some, ◌==◌, ltb,
  length, arith,
}
use vscsi_hba.Linux.{Linux, received}
use vscsi_hba.Driver.State.{Task, ScsiCmnd, Hba, ready, bytes, Ensures}
use vscsi_hba.Driver.Tasks.{task_of_cmd, is_aborted}
use vscsi_hba.Driver.Sessions.{hba_at}
use vscsi_hba.Driver.Uaccess.{Mem, IsResident, load}
use vscsi_hba.Driver.Device.{uheader_size, direction_byte, first_submitted}
use vscsi_hba.Driver.Device.Reading.{contents, IsMapped}
use vscsi_hba.Driver.Device.Receiving.{task_of_cmd-mark_received}
use vscsi_hba.Driver.Device.Completing.{Completed}
use vscsi_hba.Scsi.Engine.{Buf, Libc, finished}
use vscsi_hba.Scsi.Block.Transfer.{Finishes}
use vscsi_hba.Target.{Target, Reply, run_scsi_command}
use vscsi_hba.Api.{buffer_size, UserTask, Env, World, done, get_scsi_task, complete_scsi_task}
use vscsi_hba.Api.Taking.{taken, described, get_scsi_task_takes}
use vscsi_hba.Api.Replying.{returned, IsServed, CompletedAt, complete_scsi_task_lem}
use vscsi_hba.Process.Service.{
  Server, window, with_window, cdb_of, reply_with, run_at, serve_task, serve_got, serve,
}

load-with_window :
    (k : ℕ) (m : Mem) (b : Buf) (i j n : ℕ)
    → j ≡ k + i
    → load (with_window k m b) j n ≡ load b.cell i n
load-with_window k m b i j zero e = refl
load-with_window k m b i j (suc n) e =
    let back : j - k ≡ i = omega arith in
    let above : ltb j k ≡ false = ground arith in
    rw (above, back, load-with_window k m b (i + 1) (j + 1) n (omega arith)) refl

-- A task that waits at the head of those that no target has taken, with the direction of its
-- command: its fields fit the header, its buffer is mapped and as long as the transfer, and
-- the transfer fits the buffer of the process behind a header.
pub record IsWaiting (k : Linux) (d : ℕ) (t : Task) (h : Hba) : Type 0 where
  pub free : h.session.queue_locked ≡ false
  pub attached : h.session.flags ≡ ready
  pub first : first_submitted h.session.scsitap_queue ≡ some t
  pub numbered : task_of_cmd t.cmd_number h.session.scsitap_queue ≡ some t
  pub cmnd_length : length (h.cmnds t.sc).cmnd ≡ 16
  pub cmd_len_fits : (h.cmnds t.sc).cmd_len ≤ 16
  pub number_fits : t.cmd_number < 2 ^ 32
  pub lun_fits : t.lun < 2 ^ 32
  pub length_fits : (h.cmnds t.sc).request_bufflen + uheader_size ≤ buffer_size
  pub directed : direction_byte (h.cmnds t.sc).direction ≡ d
  pub live : is_aborted (k.flags_after_free received) ≡ false
  pub mapped : IsMapped (h.cmnds t.sc).request_buffer
  pub sized : (h.cmnds t.sc).request_bufflen ≡ length (contents (h.cmnds t.sc).request_buffer)
  pub transfers : 0 < (h.cmnds t.sc).request_bufflen

-- What the round leaves: the session at the address completed the task with a command whose buffer
-- holds the bytes that the target's command answered, and the target is as the command left it.
abbrev pub Answered : {F : Type 0} → ℕ → Task → Hba → Reply F → Server F → Type 0
Answered a t h r s =
    let n = (h.cmnds t.sc).request_bufflen in
    (s.target ≡ r.target)
    × ((h' : Hba) × (hba_at a s.world.driver.hbas ≡ some h')
        × (c : ScsiCmnd) × Completed (n + 6) (record t { flags = received }) c
            (taken t.cmd_number h) (bytes (n + 6), h')
        × (contents c.request_buffer ≡ load r.data_.cell 0 n)
        × (c.result ≡ 0))

module _ {F : Type 0} (v : Env) (io : Libc F) (a : ℕ) (h : Hba) (t : Task) (old : UserTask)
    (r : Reply F) (res : IsResident v.uaccess) (waits : IsWaiting v.linux b'I' t h)
    (passed : r.status ≡ 0) where
  abbrev task_ : UserTask
  task_ = described (h.cmnds t.sc) t old

  abbrev run_task : UserTask
  run_task = record task_ {
    status = r.status;
    request_buffer = with_window 6 old.request_buffer r.data_;
  }

  run_task-IsServed : IsServed v run_task (record t { flags = received }) (taken t.cmd_number h)
  run_task-IsServed = record {
    resident = res;
    number = refl;
    small = waits.number_fits;
    queued = task_of_cmd-mark_received t.cmd_number h.session.scsitap_queue t waits.numbered;
    live = waits.live;
    free = refl;
    attached = waits.attached;
    mapped = waits.mapped;
    sized = waits.sized;
    length_ = refl;
    transfers = waits.transfers;
    passed = ground (arith, passed);
  }

  reply_with-Answered :
      (w : World)
      → w.file.private_data ≡ some a
      → hba_at a w.driver.hbas ≡ some (taken t.cmd_number h)
      → Ensures
          (Finishes (Answered a t h r))
          (reply_with v 6 (h.cmnds t.sc).request_bufflen task_ w (finished r))
  unfolding reply_with
  reply_with-Answered w points there =
      let n = (h.cmnds t.sc).request_bufflen in
      let t' : Task = record t { flags = received } in
      let (c, completes, delivered, result) =
        complete_scsi_task_lem v run_task w a t' (taken t.cmd_number h) run_task-IsServed points
          there in
      let ((x, task', w'), e, at_) =
        returned (CompletedAt a (n + 6) t' c (taken t.cmd_number h))
          (complete_scsi_task v run_task w) completes in
      let (ok_, (h', place, completed)) = at_ in
      rw (e, ok_)
        (
          refl,
          (
            h',
            place,
            c,
            completed,
            delivered ∙ load-with_window 6 old.request_buffer r.data_ 0 6 n refl,
            result,
          ),
        )

  serve_task-Answered :
      (w : World)
      → w.file.private_data ≡ some a
      → hba_at a w.driver.hbas ≡ some (taken t.cmd_number h)
      → (target : Target F)
      → run_scsi_command io target
          (t.lun % 256)
          (cdb_of task_)
          (window 6 old.request_buffer)
          (h.cmnds t.sc).request_bufflen
        ≡ finished r
      → Ensures (Finishes (Answered a t h r)) (serve_task v io target task_ w)
  unfolding serve_task run_at
  serve_task-Answered w points there target ran =
      let test : (direction_byte (h.cmnds t.sc).direction == b'I') ≡ true =
        ground (arith, waits.directed) in
      rw (test, ran) (reply_with-Answered w points there)

-- A command that reads and waits in a ready session that the process is attached to is answered
-- in one round, if its command on the target finishes with status 0 and these conditions hold. In
-- the session, the queue lock is free, the task is the first that no target has taken and its
-- number leads to it, and its number and LUN fit in 32 bits; its command carries a command array
-- of 16 bytes, of which it uses at most 16, and a transfer that is not empty, fits the process's
-- buffer behind a header and is exactly as long as the request buffer, whose pages are mapped;
-- further, a freed task that was received does not read as aborted, the user memory is resident,
-- and the driver was built for command blocks of 16 bytes. Then the round ends neither asleep nor
-- at a lock nor with a fault, the command's buffer holds the bytes that the target's command put
-- in front, its result is 0, the task is out of the queue, `scsi_done` was called once for it,
-- and the process goes on with the target as the command left it.
pub serve_lem :
    {F : Type 0} (v : Env) (io : Libc F) (m : Mem) (s : Server F) (a : ℕ) (h : Hba) (t : Task)
    (r : Reply F)
    → IsResident v.uaccess
    → v.linux.max_command_size ≡ 16
    → IsWaiting v.linux b'I' t h
    → s.world.file.private_data ≡ some a
    → hba_at a s.world.driver.hbas ≡ some h
    → run_scsi_command io s.target
        (t.lun % 256)
        (cdb_of (described (h.cmnds t.sc) t s.task))
        (window 6 s.task.request_buffer)
        (h.cmnds t.sc).request_bufflen
      ≡ finished r
    → r.status ≡ 0
    → Ensures (Finishes (Answered a t h r)) (serve v io m s)
unfolding serve serve_got
serve_lem v io m s a h t r res size waits points there ran passed =
    let got =
      get_scsi_task_takes v m s.task s.world a h t res size points there waits.free waits.attached
        waits.first waits.numbered waits.cmnd_length waits.cmd_len_fits waits.number_fits
        waits.lun_fits (omega (arith, waits.length_fits)) in
    let ((x, task', w'), e, (ok_, is, there', points')) =
      returned
        (λ (r, task, w').
          (r ≡ done)
          × (task ≡ described (h.cmnds t.sc) t s.task)
          × (hba_at a w'.driver.hbas ≡ some (taken t.cmd_number h))
          × (w'.file.private_data ≡ some a))
        (get_scsi_task v m s.task s.world) got in
    let served =
      serve_task-Answered v io a h t s.task r res waits passed w' points' there' s.target ran in
    rw e (
      subst (λ y. Ensures (Finishes (Answered a t h r)) (serve_got v io s.target y task' w'))
        (sym ok_)
        (subst (λ y. Ensures (Finishes (Answered a t h r)) (serve_task v io s.target y w')) (sym is)
          served))
