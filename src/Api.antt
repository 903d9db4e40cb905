-- ===== src/Api.antt =====
-- The user-space API, user/vscsiapi.c, over the driver's file operations.
pub mod Header
pub mod Taking
pub mod Replying
pub mod Fetching
pub mod Acknowledging
use vscsi_hba.Base.{
  ℕ, ◌+◌, ◌*◌, ◌^◌, ◌≡◌, Bool, true, false, not, List, [], ◌∷◌, ◌++◌, Option, none, some, ◌==◌,
  if◌then◌else◌, drop, le32, of_le32, u8,
}
use vscsi_hba.Linux.{Linux}
use vscsi_hba.Driver.State.{
  Outcome, returns, ◌>>=◌, Ret, bytes, success, host_busy, eperm, efault, einval, ebadf,
}
use vscsi_hba.Driver.Sessions.{Driver, NewHost}
use vscsi_hba.Driver.Uaccess.{Mem, Uaccess, put, store, load}
use vscsi_hba.Driver.Device.{uheader_size}
use vscsi_hba.Driver.Control.{
  File, Ioctl, register_client, receive, set_task, ctl_open, ctl_ioctl, file_read, file_write,
}

-- BUFFER_SIZE
abbrev pub buffer_size : ℕ
buffer_size = 135168

-- `struct user_scsitap_task`, without the file descriptor. `request_buffer` is memory from its
-- start, of which the first `buffer_size` bytes are its own; `request_bufflen`, an `int`, is taken as not negative.
pub record UserTask : Type 0 where
  pub cmd_number : ℕ
  pub type : ℕ
  pub direction : ℕ
  pub lun : ℕ
  pub cdblen : ℕ
  pub cdb : List ℕ
  pub request_bufflen : ℕ
  pub request_buffer : Mem
  pub status : ℕ

-- An `unsigned int` at an offset.
abbrev pub word_at : Mem → ℕ → ℕ
word_at m i = of_le32 (m i) (m (i + 1)) (m (i + 2)) (m (i + 3))

unfoldable pub task_buffer_to_task : Mem → UserTask → UserTask
task_buffer_to_task m task = record task {
  type = m 0;
  direction = m 1;
  cmd_number = word_at m 2;
  lun = word_at m 6;
  cdblen = m 10;
  cdb = load m 11 (m 10) ++ drop (m 10) task.cdb;
  request_bufflen = word_at m 27;
}

-- What the functions return: 0, 1 and -1.
pub data Result : Type 0 where
  done again failed : Result

abbrev pub is_negative : Ret → Bool
is_negative (bytes n) = false
is_negative success = false
is_negative host_busy = false
is_negative _ = true

-- Whether a call returned the number of bytes.
abbrev pub is_bytes : ℕ → Ret → Bool
is_bytes n (bytes x) = x == n
is_bytes n _ = false

-- The process that has opened the device, and the driver behind it.
pub record World : Type 0 where
  pub file : File
  pub driver : Driver

-- `register_scsi_host` after `open`: the result of the ioctl is not looked at, and the buffer is
-- cleared. The other fields of the static task are zero.
unfoldable pub register_scsi_host : Linux → NewHost → ℕ → ℕ → Driver → Outcome (UserTask × World)
unfolding ctl_open ctl_ioctl
register_scsi_host k n minor pid d = do
  (r, file, d') ← ctl_ioctl k n minor ctl_open (register_client pid) d
  returns (
    record {
      cmd_number = 0;
      type = 0;
      direction = 0;
      lun = 0;
      cdblen = 0;
      cdb = 0 ∷ 0 ∷ 0 ∷ 0 ∷ 0 ∷ 0 ∷ 0 ∷ 0 ∷ 0 ∷ 0 ∷ 0 ∷ 0 ∷ 0 ∷ 0 ∷ 0 ∷ 0 ∷ [];
      request_bufflen = 0;
      request_buffer = λ _. 0;
      status = 0;
    },
    record { file = file; driver = d' },
  )

-- The environment of the calls: user memory, the kernel's constants, the mid layer's answer to a
-- request for a host, the device's minor number, and whether a signal ends a wait.
pub record Env : Type 0 where
  pub uaccess : Uaccess
  pub linux : Linux
  pub new_host : NewHost
  pub minor : ℕ
  pub interrupted : Bool

-- After the header was read into `m`.
unfoldable pub take_task : Env → Mem → UserTask → World → Outcome (Result × UserTask × World)
unfolding task_buffer_to_task ctl_ioctl
take_task v m task w =
    let task' = task_buffer_to_task m task in
    ctl_ioctl v.linux v.new_host v.minor w.file (receive task'.cmd_number) w.driver
    >>= λ (r, file, d).
        returns (if is_negative r then failed else done, task', record { file = file; driver = d })

-- `m` is what the local array `task_buffer` holds.
unfoldable pub get_scsi_task : Env → Mem → UserTask → World → Outcome (Result × UserTask × World)
unfolding take_task file_read
get_scsi_task v m task w =
    file_read v.uaccess v.linux v.interrupted uheader_size w.file w.file.private_data w.driver m
    >>= λ (r, m', d).
        let w' = record w { driver = d } in
        if is_bytes uheader_size r
        then take_task v m' task w'
        else returns (if is_bytes 0 r then again else failed, task, w')

-- The buffer with the reply's type, number and status in front.
abbrev pub reply_buffer : UserTask → Mem
reply_buffer task =
    put (store (put task.request_buffer 0 b'D') 1 (le32 task.cmd_number)) 5 (u8 task.status)

unfoldable pub complete_scsi_task : Env → UserTask → World → Outcome (Result × UserTask × World)
unfolding file_write
complete_scsi_task v task w =
    let m = reply_buffer task in
    let n = task.request_bufflen + 6 in
    file_write v.uaccess v.linux n m w.file.private_data w.driver >>= λ (r, d). returns (
      if is_bytes n r then done else failed,
      record task { request_buffer = m },
      record w { driver = d },
    )

unfoldable pub receive_scsi_data : Env → UserTask → World → Outcome (Result × UserTask × World)
unfolding ctl_ioctl file_read
receive_scsi_data v task w =
    if task.direction == b'O'
    then (do
      (_, file, d) ← ctl_ioctl v.linux v.new_host v.minor w.file (set_task task.cmd_number) w.driver
      (r, m, d') ←
          file_read v.uaccess v.linux v.interrupted (task.request_bufflen + uheader_size) file
            file.private_data d task.request_buffer
      returns (
        if is_bytes uheader_size r then done else failed,
        record task { request_buffer = m },
        record { file = file; driver = d' },
      ))
    else returns (again, task, w)
