-- ===== src/Process/Service/Writing.antt =====
-- One round of the loop of user/main.c on a command that writes to the target.
use mathlib.Core.Path.{subst}
use vscsi_hba.Base.{ℕ, ◌%◌, ◌≡◌, refl, sym, ap, ◌∙◌, true, false, some, ◌==◌, arith}
use vscsi_hba.Linux.{Linux, received}
use vscsi_hba.Driver.State.{Task, Hba, bytes, Ensures}
use vscsi_hba.Driver.Tasks.{task_of_cmd}
use vscsi_hba.Driver.Sessions.{hba_at}
use vscsi_hba.Driver.Uaccess.{Mem, IsResident, load}
use vscsi_hba.Driver.Device.{direction_byte}
use vscsi_hba.Driver.Device.Reading.{contents}
use vscsi_hba.Driver.Device.Receiving.{task_of_cmd-mark_received}
use vscsi_hba.Driver.Device.Completing.{Completed}
use vscsi_hba.Driver.Device.Acknowledging.{acknowledged}
use vscsi_hba.Scsi.Engine.{Buf, Libc, finished}
use vscsi_hba.Scsi.Block.Transfer.{Finishes}
use vscsi_hba.Target.{Target, Reply, run_scsi_command}
use vscsi_hba.Api.{UserTask, Env, World, get_scsi_task, receive_scsi_data, complete_scsi_task}
use vscsi_hba.Api.Taking.{taken, described, get_scsi_task_takes}
use vscsi_hba.Api.Replying.{returned, CompletedAt}
use vscsi_hba.Api.Fetching.{IsFetched, FetchedAt, receive_scsi_data_lem}
use vscsi_hba.Api.Acknowledging.{complete_scsi_task_acknowledges}
use vscsi_hba.Process.Service.{
  Server, window, with_window, cdb_of, reply_with, run_at, serve_out, serve_task, serve_got, serve,
}
use vscsi_hba.Process.Service.Steps.{load_cong, ended}
use vscsi_hba.Process.Service.Progress.{IsWaiting}

-- What the round leaves: the session at the address completed the task with its command as it was
-- but for the sense buffer, and the target is as `P` says.
abbrev pub Stored : {F : Type 0} → Linux → ℕ → Task → Hba → (Target F → Type 0) → Server F → Type 0
Stored k a t h P s =
    P s.target
    × ((h' : Hba) × (hba_at a s.world.driver.hbas ≡ some h')
        × Completed 6 (record t { flags = received }) (acknowledged k (h.cmnds t.sc))
            (taken t.cmd_number h) (bytes 6, h'))

module _ {F : Type 0} (v : Env) (io : Libc F) (a : ℕ) (h : Hba) (t : Task) (old : UserTask)
    (target : Target F) (P : Target F → Type 0) (res : IsResident v.uaccess)
    (size : v.linux.max_command_size ≡ 16) (waits : IsWaiting v.linux b'O' t h) where
  abbrev task_ : UserTask
  task_ = described (h.cmnds t.sc) t old

  abbrev fetched : Mem → UserTask
  fetched m = record task_ { request_buffer = m }

  -- The command, run on any buffer that holds the data.
  abbrev Runs : Type 0
  Runs =
      (b : Buf)
      → load b.cell 0 (h.cmnds t.sc).request_bufflen ≡ contents (h.cmnds t.sc).request_buffer
      → Finishes (λ r. (r.status ≡ 0) × P r.target)
          (run_scsi_command io target (t.lun % 256) (cdb_of task_) b (h.cmnds t.sc).request_bufflen)

  taken_queue :
      task_of_cmd t.cmd_number (taken t.cmd_number h).session.scsitap_queue
      ≡ some (record t { flags = received })
  taken_queue = task_of_cmd-mark_received t.cmd_number h.session.scsitap_queue t waits.numbered

  task-IsFetched : IsFetched v task_ (record t { flags = received }) (taken t.cmd_number h)
  task-IsFetched = record {
    resident = res;
    size = size;
    writes = waits.directed;
    free = refl;
    attached = waits.attached;
    small = waits.number_fits;
    numbered = taken_queue;
    is_taken = refl;
    mapped = waits.mapped;
    transfers = waits.transfers;
    sized = waits.sized;
    length_ = refl;
  }

  reply_with-Stored :
      (m : Mem) (r : Reply F) (w : World)
      → w.file.private_data ≡ some a
      → hba_at a w.driver.hbas ≡ some (taken t.cmd_number h)
      → r.status ≡ 0
      → P r.target
      → Ensures (Finishes (Stored v.linux a t h P)) (reply_with v 31 0 (fetched m) w (finished r))
  unfolding reply_with
  reply_with-Stored m r w points there passed holds =
      let t' : Task = record t { flags = received } in
      let run_task : UserTask = record (fetched m) {
        status = r.status;
        request_bufflen = 0;
        request_buffer = with_window 31 m r.data_;
      } in
      let c = acknowledged v.linux (h.cmnds t.sc) in
      let completes =
        complete_scsi_task_acknowledges v run_task w a t' (taken t.cmd_number h)
          (record {
            resident = res;
            number = refl;
            small = waits.number_fits;
            queued = taken_queue;
            live = waits.live;
            free = refl;
            attached = waits.attached;
            no_data = refl;
            passed = ground (arith, passed);
          })
          points there in
      let ((x, task', w'), e, (ok_, (h', place, completed))) =
        returned (CompletedAt a 6 t' c (taken t.cmd_number h)) (complete_scsi_task v run_task w)
          completes in
      rw (e, ok_) (holds, (h', place, completed))

  run_at-Stored :
      (m : Mem) (w : World)
      → w.file.private_data ≡ some a
      → hba_at a w.driver.hbas ≡ some (taken t.cmd_number h)
      → load m 31 (h.cmnds t.sc).request_bufflen ≡ contents (h.cmnds t.sc).request_buffer
      → Runs
      → Ensures (Finishes (Stored v.linux a t h P)) (run_at v io 31 0 target (fetched m) w)
  unfolding run_at
  run_at-Stored m w points there arrived runs =
      let n = (h.cmnds t.sc).request_bufflen in
      let (r, ran, (passed, holds)) =
        ended (λ (x : Reply F). (x.status ≡ 0) × P x.target)
          (run_scsi_command io target (t.lun % 256) (cdb_of task_) (window 31 m) n)
          (runs (window 31 m)
            (load_cong (window 31 m).cell m 0 31 n (λ i p. ap m (omega arith)) ∙ arrived)) in
      rw ran (reply_with-Stored m r w points there passed holds)

  serve_task-Stored :
      (w : World)
      → w.file.private_data ≡ some a
      → hba_at a w.driver.hbas ≡ some (taken t.cmd_number h)
      → Runs
      → Ensures (Finishes (Stored v.linux a t h P)) (serve_task v io target task_ w)
  unfolding serve_task serve_out
  serve_task-Stored w points there runs =
      let c = h.cmnds t.sc in
      let not_in : (direction_byte c.direction == b'I') ≡ false = ground (arith, waits.directed) in
      let out : (direction_byte c.direction == b'O') ≡ true = ground (arith, waits.directed) in
      let ((x, task', w'), e, (ok_, is, arrived, there', points')) =
        returned (FetchedAt a task_ c (taken t.cmd_number h)) (receive_scsi_data v task_ w) (
          receive_scsi_data_lem v task_ w a (record t { flags = received }) (taken t.cmd_number h)
            task-IsFetched points there) in
      rw (e, not_in, out, ok_)
        (subst (λ y. Ensures (Finishes (Stored v.linux a t h P)) (run_at v io 31 0 target y w'))
          (sym is) (run_at-Stored task'.request_buffer w' points' there' arrived runs))

-- A command that writes, waiting at the head of a ready session that the process is attached to,
-- is answered in one round, if its command on the target, run on any buffer that holds the data
-- of the mid layer's command, finishes with status 0 and a target that has a given property: the
-- round ends neither asleep nor at a lock nor with a fault, the target has the property, the task
-- is out of the queue, the command's buffer is as it was and its result is 0, and `scsi_done` was
-- called once for it. The memory is resident and command blocks have 16 bytes.
pub serve_writes :
    {F : Type 0} (v : Env) (io : Libc F) (m : Mem) (s : Server F) (a : ℕ) (h : Hba) (t : Task)
    (P : Target F → Type 0)
    → IsResident v.uaccess
    → v.linux.max_command_size ≡ 16
    → IsWaiting v.linux b'O' t h
    → s.world.file.private_data ≡ some a
    → hba_at a s.world.driver.hbas ≡ some h
    → ((b : Buf)
        → load b.cell 0 (h.cmnds t.sc).request_bufflen ≡ contents (h.cmnds t.sc).request_buffer
        → Finishes
            (λ r. (r.status ≡ 0) × P r.target)
            (run_scsi_command io s.target
              (t.lun % 256)
              (cdb_of (described (h.cmnds t.sc) t s.task))
              b
              (h.cmnds t.sc).request_bufflen))
    → Ensures (Finishes (Stored v.linux a t h P)) (serve v io m s)
unfolding serve serve_got
serve_writes v io m s a h t P res size waits points there runs =
    let got =
      get_scsi_task_takes v m s.task s.world a h t res size points there waits.free waits.attached
        waits.first waits.numbered waits.cmnd_length waits.cmd_len_fits waits.number_fits
        waits.lun_fits (omega (arith, waits.length_fits)) in
    let ((x, task', w'), e, (ok_, is, there', points')) =
      returned _ (get_scsi_task v m s.task s.world) got in
    rw e (
      subst (λ y. Ensures (Finishes (Stored v.linux a t h P)) (serve_got v io s.target y task' w'))
        (sym ok_)
        (subst (λ y. Ensures (Finishes (Stored v.linux a t h P)) (serve_task v io s.target y w'))
          (sym is)
          (serve_task-Stored v io a h t s.task s.target P res size waits w' points' there' runs)))
