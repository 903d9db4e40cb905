-- ===== src/Driver/Device.antt =====
-- The character device on one session: `scsitap_task_to_user`, `scsitap_ctl_read`,
-- `scsitap_ctl_write`, the two scatter copies and the RECEIVE_TASK ioctl of kernel/device.c.
-- `mlock`ed pages, faults and partial copies are `Uaccess`'s. An `unsigned int` is four bytes.
pub mod Header
pub mod Reading
pub mod Writing
pub mod Completing
pub mod Acknowledging
pub mod Receiving
use vscsi_hba.Base.{
  ℕ, suc, ◌+◌, ◌-◌, ◌/◌, ◌%◌, ◌^◌, ◌≡◌, Bool, true, false, ◌&&◌, not, List, [], ◌∷◌, ◌++◌, Option,
  none, some, ◌==◌, ltb, if◌then◌else◌, length, take, drop, get_or, u32, le32, of_le32,
}
use vscsi_hba.Linux.{Linux, TaskFlags, submitted, received}
use vscsi_hba.Driver.State.{
  Task, Segment, RequestBuffer, flat, scatter, Direction, to_device, ScsiCmnd, Session, Hba,
  Connection, ready, not_ready, Outcome, returns, sleeps, ◌>>=◌, Ret, bytes, success, eperm, efault,
  einval, ebadf, spin_lock, spin_unlock, update_cmnd,
}
use vscsi_hba.Driver.Tasks.{task_of_cmd, complete_task, set_sensedata, set_sensedata_illegal}
use vscsi_hba.Driver.Uaccess.{Mem, Uaccess}

-- SCSITAP_UHEADER_SIZE
abbrev pub uheader_size : ℕ
uheader_size = 31

-- 'O' for a command that carries data to the device, 'I' for all others.
abbrev pub direction_byte : Direction → ℕ
direction_byte to_device = b'O'
direction_byte _ = b'I'

-- The header at the start of the buffer, and its length; -EFAULT leaves what was copied.
unfoldable pub task_to_user : Uaccess → Linux → ScsiCmnd → Task → ℕ → Mem → Ret × Mem
task_to_user u k c task type m =
    let m = u.put_user m 0 type in
    let m = u.put_user m 1 (direction_byte c.direction) in
    let (r, m) = u.copy_to_user m 2 (le32 task.cmd_number) in
    if r == 0
    then (let (r, m) = u.copy_to_user m 6 (le32 task.lun) in
        if r == 0
        then (let m = u.put_user m 10 c.cmd_len in
            let (r, m) = u.copy_to_user m 11 c.cmnd in
            if r == 0
            then (let (r, m) =
                  u.copy_to_user m (11 + k.max_command_size) (le32 c.request_bufflen) in
                if r == 0 then (bytes (15 + k.max_command_size), m) else (efault, m))
            else (efault, m))
        else (efault, m))
    else (efault, m)

-- From the scatter list to the user's buffer: how many bytes of the failing entry are left.
unfoldable pub copy_to_user_sg : Uaccess → Mem → ℕ → List Segment → ℕ × Mem
copy_to_user_sg u m i [] = (0, m)
copy_to_user_sg u m i (s ∷ ss) =
    let (r, m') = u.copy_to_user m i s.bytes in
    let rest = copy_to_user_sg u m' (i + length s.bytes) ss in
    if s.mapped then (if r == 0 then rest else (r, m')) else (1, m)

-- The other way. What arrived before a fault is in the entry.
unfoldable pub copy_from_user_sg : Uaccess → Mem → ℕ → List Segment → ℕ × List Segment
copy_from_user_sg u m i [] = (0, [])
copy_from_user_sg u m i (s ∷ ss) =
    let (r, bs) = u.copy_from_user m i (length s.bytes) in
    let s' = record s { bytes = bs ++ drop (length bs) s.bytes } in
    let (r', ss') = copy_from_user_sg u m (i + length s.bytes) ss in
    if s.mapped then (if r == 0 then (r', s' ∷ ss') else (r, s' ∷ ss)) else (1, s ∷ ss)

-- The data of the command after the header; `n` is what the read returns.
unfoldable pub data_to_user : Uaccess → ScsiCmnd → RequestBuffer → ℕ → Mem → Ret × Mem
unfolding copy_to_user_sg
data_to_user u c (flat b) n m =
    let (r, m) = u.copy_to_user m n (take c.request_bufflen b) in
    (if r == 0 then bytes n else efault, m)
data_to_user u c (scatter ss) n m =
    let (r, m) = copy_to_user_sg u m n ss in (if r == 0 then bytes n else efault, m)

abbrev pub is_submitted : TaskFlags → Bool
is_submitted submitted = true
is_submitted _ = false

abbrev pub is_received : TaskFlags → Bool
is_received received = true
is_received _ = false

-- The first task that no target has taken.
unfoldable pub first_submitted : List Task → Option Task
first_submitted [] = none
first_submitted (t ∷ ts) = if is_submitted t.flags then some t else first_submitted ts

-- The branch of a read that asks for the header alone.
unfoldable pub read_header : Uaccess → Linux → Hba → Option Task → Mem → Ret × Mem
unfolding task_to_user
read_header u k h none m = (bytes 0, m)
read_header u k h (some t) m = task_to_user u k (h.cmnds t.sc) t t.type m

abbrev pub then_data : Uaccess → ScsiCmnd → Ret × Mem → Ret × Mem
then_data u c (bytes n, m) =
    if c.request_bufflen == 0 then (bytes n, m) else data_to_user u c c.request_buffer n m
then_data u c (r, m) = (r, m)

-- The branch of a read that asks for the header and the data of one command.
unfoldable pub read_data : Uaccess → Linux → ℕ → Hba → Option Task → Mem → Ret × Mem
unfolding task_to_user data_to_user
read_data u k count h none m = (bytes 0, m)
read_data u k count h (some t) m =
    let c = h.cmnds t.sc in
    if is_received t.flags
    then if count == uheader_size + c.request_bufflen
      then then_data u c (task_to_user u k c t b'D' m)
      else (ebadf, m)
    else (bytes 0, m)

-- A read with the lock held. `fp` is the file position, which SET_TASK sets; its low
-- 32 bits are the number.
unfoldable pub read_locked : Uaccess → Linux → ℕ → ℕ → Connection → Hba → Mem → Ret × Mem
unfolding read_header read_data first_submitted task_of_cmd
read_locked u k count fp not_ready h m = (einval, m)
read_locked u k count fp ready h m =
    if count == uheader_size
    then read_header u k h (first_submitted h.session.scsitap_queue) m
    else if ltb uheader_size count
    then read_data u k count h (task_of_cmd (u32 fp) h.session.scsitap_queue) m
    else (einval, m)

abbrev pub is_empty {ℓ} : {A : Type ℓ} → List A → Bool
is_empty [] = true
is_empty (x ∷ xs) = false

-- `interrupted`: a signal ends the wait on an empty queue, which the code does not look at.
unfoldable pub ctl_read : Uaccess → Linux → Bool → ℕ → ℕ → Hba → Mem → Outcome (Ret × Mem × Hba)
unfolding read_locked spin_lock
ctl_read u k interrupted count fp h m =
    if is_empty h.session.scsitap_queue && not interrupted then sleeps else (do
      h ← spin_lock h
      let (r, m') = read_locked u k count fp h.session.flags h m
      returns (r, m', spin_unlock h))

-- What a copy from user space leaves of a kernel buffer.
abbrev pub overlay : List ℕ → List ℕ → List ℕ
overlay bs old = bs ++ drop (length bs) old

-- The data after the command number and the status.
unfoldable pub data_from_user : Uaccess → Mem → ℕ → RequestBuffer → ℕ × RequestBuffer
unfolding copy_from_user_sg
data_from_user u m n (flat b) = let (r, bs) = u.copy_from_user m 6 n in (r, flat (overlay bs b))
data_from_user u m n (scatter ss) = let (r, ss') = copy_from_user_sg u m 6 ss in (r, scatter ss')

-- The command with its data or its sense buffer filled in, and the status to report; `none` is
-- -EFAULT. `count` is what the caller of `write` gave.
unfoldable pub answer : Uaccess → Linux → ℕ → Mem → ℕ → ScsiCmnd → Option ℕ × ScsiCmnd
unfolding data_from_user set_sensedata set_sensedata_illegal
answer u k count m status c =
    if status == 0
    then if ltb 6 count
      then (let (r, b) = data_from_user u m c.request_bufflen c.request_buffer in
          let c' = record c { request_buffer = b } in
          if r == 0 then (some status, set_sensedata k c') else (none, c'))
      else (some status, set_sensedata k c)
    else if status / 128 == 0
    then (some status, set_sensedata_illegal k c)
    else (let (r, bs) = u.copy_from_user m 6 14 in
        let c' = record c { sense_buffer = overlay bs c.sense_buffer } in
        if r == 0 then (some (status % 32), c') else (none, c'))

-- The task's command as `answer` left it, and its completion.
unfoldable pub finish_task : Linux → ℕ → Task → Option ℕ × ScsiCmnd → Hba → Ret × Hba
unfolding complete_task
finish_task k count t (none, c) h = (efault, update_cmnd h t.sc (λ _. c))
finish_task k count t (some status, c) h =
    (bytes count, complete_task k t (update_cmnd h t.sc (λ _. record c { result = status })))

unfoldable pub write_task : Uaccess → Linux → ℕ → Mem → Option Task → Hba → Ret × Hba
unfolding answer finish_task
write_task u k count m none h = (bytes count, h)
write_task u k count m (some t) h =
    finish_task k count t (answer u k count m (u.get_user m 5) (h.cmnds t.sc)) h

abbrev pub cmd_number_of : List ℕ → ℕ
cmd_number_of bs = of_le32 (get_or bs 0 0) (get_or bs 1 0) (get_or bs 2 0) (get_or bs 3 0)

-- A write with the lock held.
unfoldable pub write_locked : Uaccess → Linux → ℕ → Mem → Connection → Hba → Ret × Hba
unfolding write_task task_of_cmd
write_locked u k count m not_ready h = (einval, h)
write_locked u k count m ready h =
    if u.get_user m 0 == b'D'
    then (let (r, bs) = u.copy_from_user m 1 4 in
        if r == 0
        then write_task u k count m (task_of_cmd (cmd_number_of bs) h.session.scsitap_queue) h
        else (efault, h))
    else (bytes 0, h)

unfoldable pub ctl_write : Uaccess → Linux → ℕ → Mem → Hba → Outcome (Ret × Hba)
unfolding write_locked spin_lock
ctl_write u k count m h = do
  h ← spin_lock h
  let (r, h') = write_locked u k count m h.session.flags h
  returns (r, spin_unlock h')

-- The first task with the number, taken by a target.
unfoldable pub mark_received : ℕ → List Task → List Task
mark_received n [] = []
mark_received n (t ∷ ts) =
    if t.cmd_number == n then record t { flags = received } ∷ ts else t ∷ mark_received n ts

-- RECEIVE_TASK with the lock held: the early return keeps it.
unfoldable pub receive_locked : ℕ → Connection → Hba → Ret × Hba
unfolding mark_received task_of_cmd
receive_locked n not_ready h = (eperm, h)
receive_locked n ready h = elim (task_of_cmd n h.session.scsitap_queue) [
  | none ↦ (bytes 0, spin_unlock h)
  | some t ↦ (
    success,
    spin_unlock (record h {
      session = record (h.session) { scsitap_queue = mark_received n h.session.scsitap_queue };
    }),
  )
]

-- The argument is the number, as an `unsigned int`.
unfoldable pub receive_task : ℕ → Hba → Outcome (Ret × Hba)
unfolding receive_locked spin_lock
receive_task n h = do h ← spin_lock h; returns (receive_locked (u32 n) h.session.flags h)
