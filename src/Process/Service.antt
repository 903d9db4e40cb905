-- ===== src/Process/Service.antt =====
-- The loop of `main`, user/main.c: one task at a time.
pub mod Steps
pub mod Progress
pub mod Disk
pub mod Writing
pub mod Storing
use vscsi_hba.Base.{
  ℕ, ◌+◌, ◌-◌, ◌%◌, Bool, true, false, List, [], ◌∷◌, ◌==◌, ltb, if◌then◌else◌, get_or,
}
use vscsi_hba.Driver.State.{Outcome, returns, ◌>>=◌}
use vscsi_hba.Driver.Uaccess.{Mem}
use vscsi_hba.Scsi.Engine.{Buf, Cdb, Libc, Run, finished, crashes, exits, unfinished}
use vscsi_hba.Target.{Target, Reply, run_scsi_command}
use vscsi_hba.Api.{
  UserTask, Env, World, Result, done, again, failed, get_scsi_task, complete_scsi_task,
  receive_scsi_data,
}

-- What the process keeps: its target, the static task and the open device with the driver.
pub record Server (F : Type 0) : Type 0 where
  pub target : Target F
  pub task : UserTask
  pub world : World

-- The memory from an address on as a data buffer, and back.
abbrev pub window : ℕ → Mem → Buf
window k m = record { cell = λ i. m (k + i); top = 0 }

abbrev pub with_window : ℕ → Mem → Buf → Mem
with_window k m b i = if ltb i k then m i else b.cell (i - k)

abbrev pub cdb_of : UserTask → Cdb
cdb_of task i = get_or task.cdb i 0

abbrev pub failed_exits : {A : Type 0} → Result → A → Run A
failed_exits failed a = exits 1
failed_exits done a = finished a
failed_exits again a = finished a

module _ {F : Type 0} (v : Env) where
  -- The command ran on the memory from `k` on; `n` is the length that the reply gets.
  unfoldable pub reply_with : ℕ → ℕ → UserTask → World → Run (Reply F) → Outcome (Run (Server F))
  unfolding complete_scsi_task
  reply_with k n task w (finished r) =
      let task' = record task {
        status = r.status;
        request_bufflen = n;
        request_buffer = with_window k task.request_buffer r.data_;
      } in
      complete_scsi_task v task' w >>= λ (res, task'', w').
      returns (failed_exits res (record { target = r.target; task = task''; world = w' }))
  reply_with k n task w crashes = returns crashes
  reply_with k n task w (exits c) = returns (exits c)
  reply_with k n task w unfinished = returns unfinished

  unfoldable pub run_at : Libc F → ℕ → ℕ → Target F → UserTask → World → Outcome (Run (Server F))
  unfolding reply_with run_scsi_command
  run_at io k n t task w = reply_with k n task w (
      run_scsi_command io t (task.lun % 256) (cdb_of task) (window k task.request_buffer)
        task.request_bufflen)

  -- A command that carries data to the device: its data is fetched first.
  unfoldable pub serve_out :
      Libc F → Target F → Result → UserTask → World → Outcome (Run (Server F))
  unfolding run_at
  serve_out io t failed task w = returns (exits 1)
  serve_out io t done task w = run_at io 31 0 t task w
  serve_out io t again task w = run_at io 31 0 t task w

  -- What a task asks for.
  unfoldable pub serve_task : Libc F → Target F → UserTask → World → Outcome (Run (Server F))
  unfolding run_at serve_out receive_scsi_data
  serve_task io t task w =
      if task.direction == b'I'
      then run_at io 6 task.request_bufflen t task w
      else if task.direction == b'O'
      then (receive_scsi_data v task w >>= λ (r, task', w'). serve_out io t r task' w')
      else returns (finished (record { target = t; task = task; world = w }))

  unfoldable pub serve_got :
      Libc F → Target F → Result → UserTask → World → Outcome (Run (Server F))
  unfolding serve_task
  serve_got io t failed task w = returns (exits 1)
  serve_got io t again task w = returns (finished (record { target = t; task = task; world = w }))
  serve_got io t done task w = serve_task io t task w

  -- One round of the loop; `m` is what the local array of `get_scsi_task` holds.
  unfoldable pub serve : Libc F → Mem → Server F → Outcome (Run (Server F))
  unfolding serve_got get_scsi_task
  serve io m s = get_scsi_task v m s.task s.world >>= λ (r, task, w). serve_got io s.target r task w
