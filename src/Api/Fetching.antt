-- ===== src/Api/Fetching.antt =====
-- How a target fetches the data of a command that writes: `receive_scsi_data` of user/vscsiapi.c.
use mathlib.Core.Path.{subst}
use vscsi_hba.Base.{
  ◌==◌, ℕ, ◌+◌, ◌≡◌, ◌<◌, ◌^◌, u32, refl, sym, Bool, true, false, List, [], ◌∷◌, some, length,
  arith,
}
use vscsi_hba.Linux.{received}
use vscsi_hba.Driver.State.{Task, ScsiCmnd, Hba, ready, returns, Ret, bytes, Ensures}
use vscsi_hba.Driver.Tasks.{task_of_cmd}
use vscsi_hba.Driver.Sessions.{hba_at, put_hba}
use vscsi_hba.Driver.Sessions.Lookup.{shost-hba_at, hba_at-put_hba_self}
use vscsi_hba.Driver.Uaccess.{Mem, IsResident, load}
use vscsi_hba.Driver.Device.{ctl_read, is_empty}
use vscsi_hba.Driver.Device.Reading.{contents, IsMapped, WouldSleep, ctl_read_data}
use vscsi_hba.Driver.Control.{ctl_ioctl, file_read, read_at}
use vscsi_hba.Api.{UserTask, Env, World, Result, done, receive_scsi_data}
use vscsi_hba.Api.Replying.{returned}

has_task : (n : ℕ) (ts : List Task) (t : Task) → task_of_cmd n ts ≡ some t → is_empty ts ≡ false
unfolding task_of_cmd
has_task n [] t e = cc
has_task n (x ∷ ts) t e = refl

awake :
    (i : Bool) (n : ℕ) (h : Hba) (t : Task)
    → task_of_cmd n h.session.scsitap_queue ≡ some t
    → ¬ WouldSleep i h
awake i n h t e sleeping = let busy = has_task n h.session.scsitap_queue t e in ground arith

-- A task that the target has taken and whose data it may fetch.
pub record IsFetched (v : Env) (task : UserTask) (t : Task) (h : Hba) : Type 0 where
  pub resident : IsResident v.uaccess
  pub size : v.linux.max_command_size ≡ 16
  pub writes : task.direction ≡ b'O'
  pub free : h.session.queue_locked ≡ false
  pub attached : h.session.flags ≡ ready
  pub small : task.cmd_number < 2 ^ 32
  pub numbered : task_of_cmd task.cmd_number h.session.scsitap_queue ≡ some t
  pub is_taken : t.flags ≡ received
  pub mapped : IsMapped (h.cmnds t.sc).request_buffer
  pub transfers : 0 < (h.cmnds t.sc).request_bufflen
  pub sized : (h.cmnds t.sc).request_bufflen ≡ length (contents (h.cmnds t.sc).request_buffer)
  pub length_ : task.request_bufflen ≡ (h.cmnds t.sc).request_bufflen

-- What the call leaves: the user task with the command's data behind the header, the session as it
-- was.
abbrev pub FetchedAt : ℕ → UserTask → ScsiCmnd → Hba → Result × UserTask × World → Type 0
FetchedAt a task c h (r, task', w') =
    (r ≡ done)
    × (task' ≡ record task { request_buffer = task'.request_buffer })
    × (load task'.request_buffer 31 c.request_bufflen ≡ contents c.request_buffer)
    × (hba_at a w'.driver.hbas ≡ some h)
    × (w'.file.private_data ≡ some a)

fetched_world :
    (v : Env) (task : UserTask) (w : World) (a n : ℕ) (c : ScsiCmnd) (h h' : Hba) (r : Ret)
    (m' : Mem)
    → task.direction ≡ b'O'
    → w.file.private_data ≡ some a
    → hba_at a w.driver.hbas ≡ some h
    → task.request_bufflen + 31 ≡ n
    → ctl_read v.uaccess v.linux v.interrupted n task.cmd_number h task.request_buffer
      ≡ returns (r, m', h')
    → (r ≡ bytes 31) × (load m' 31 c.request_bufflen ≡ contents c.request_buffer) × (h' ≡ h)
    → Ensures (FetchedAt a task c h) (receive_scsi_data v task w)
unfolding receive_scsi_data ctl_ioctl file_read read_at
fetched_world v task w a n c h h' r m' out points there count read (is, delivered, same) =
    let test : (task.direction == b'O') ≡ true = ground (arith, out) in
    let address = shost-hba_at a w.driver.hbas h there in
    rw (test, points, there, count, read_at, read, is, same)
      (
        refl,
        refl,
        delivered,
        subst (λ x. hba_at a (put_hba x h w.driver.hbas) ≡ some h) (sym address)
            (hba_at-put_hba_self a w.driver.hbas h h address there),
        refl,
      )

-- On a task that the target has taken, of a ready session that the file is attached to, with a
-- mapped buffer as long as the transfer and resident memory, the call returns 0, and the bytes that
-- the command transfers stand behind the 31 bytes of the header in the user's buffer; the rest of
-- the user task, the session and the file's session pointer are as they were.
pub receive_scsi_data_lem :
    (v : Env) (task : UserTask) (w : World) (a : ℕ) (t : Task) (h : Hba)
    → IsFetched v task t h
    → w.file.private_data ≡ some a
    → hba_at a w.driver.hbas ≡ some h
    → Ensures (FetchedAt a task (h.cmnds t.sc) h) (receive_scsi_data v task w)
receive_scsi_data_lem v task w a t h f points there =
    let c = h.cmnds t.sc in
    let n = 31 + c.request_bufflen in
    let number : u32 task.cmd_number ≡ task.cmd_number = omega (arith, f.small) in
    let read =
      ctl_read_data v.uaccess v.linux v.interrupted task.cmd_number h task.request_buffer t
        f.resident f.size f.free f.attached (awake v.interrupted task.cmd_number h t f.numbered)
        (rw number f.numbered) f.is_taken f.mapped f.transfers f.sized in
    let ((r, m', h'), e, p) =
      returned _ (ctl_read v.uaccess v.linux v.interrupted n task.cmd_number h task.request_buffer)
        read in
    fetched_world v task w a n c h h' r m' f.writes points there (omega (arith, f.length_)) e p
