-- ===== src/Api/Taking.antt =====
-- How a target takes a task: `get_scsi_task` of user/vscsiapi.c, a read and an ioctl.
use mathlib.Core.Path.{subst}
use vscsi_hba.Base.{
  ℕ, ◌≡◌, ◌≤◌, ◌<◌, ◌^◌, refl, sym, ap, ◌∙◌, Bool, true, false, List, [], ◌∷◌, ◌++◌, some, length,
  u32, ◌≢◌, take, drop, arith,
}
use vscsi_hba.Linux.{Linux, received}
use vscsi_hba.Driver.State.{
  Task, ScsiCmnd, Hba, Connection, ready, returns, Ret, bytes, success, Ensures, spin_lock_free,
  with_lock,
}
use vscsi_hba.Driver.Tasks.{task_of_cmd}
use vscsi_hba.Driver.Sessions.{hba_at, put_hba}
use vscsi_hba.Driver.Sessions.Lookup.{shost-hba_at, hba_at-put_hba_self}
use vscsi_hba.Driver.Uaccess.{Mem, Uaccess, IsResident}
use vscsi_hba.Driver.Device.{
  ctl_read, read_locked, read_header, first_submitted, is_empty, mark_received, receive_task,
  receive_locked, direction_byte,
}
use vscsi_hba.Driver.Device.Header.{header, task_to_user-header}
use vscsi_hba.Driver.Control.{file_read, read_at, ctl_ioctl, file_receive, on_hba}
use vscsi_hba.Api.{UserTask, Env, World, done, get_scsi_task, take_task, task_buffer_to_task}
use vscsi_hba.Api.Header.{header_roundtrip}

not_empty : (ts : List Task) (t : Task) → first_submitted ts ≡ some t → is_empty ts ≡ false
unfolding first_submitted
not_empty [] t e = cc
not_empty (x ∷ ts) t e = refl

unlocked : (h : Hba) → h.session.queue_locked ≡ false → with_lock false (with_lock true h) ≡ h
unlocked h free = ground arith

read_locked-header :
    (u : Uaccess) (k : Linux) (fp : ℕ) (c : Connection) (h : Hba) (m : Mem) (t : Task)
    → IsResident u
    → k.max_command_size ≡ 16
    → c ≡ ready
    → first_submitted h.session.scsitap_queue ≡ some t
    → read_locked u k 31 fp c h m ≡ (bytes 31, header (h.cmnds t.sc) t t.type m)
unfolding read_locked read_header
read_locked-header u k fp c h m t res size attached found =
    rw (attached, read_locked, found) (task_to_user-header u k (h.cmnds t.sc) t t.type m res size)

-- The read of a header finds the first task that no target has taken.
ctl_read-header :
    (u : Uaccess) (k : Linux) (interrupted : Bool) (fp : ℕ) (h : Hba) (m : Mem) (t : Task)
    → IsResident u
    → k.max_command_size ≡ 16
    → h.session.queue_locked ≡ false
    → h.session.flags ≡ ready
    → first_submitted h.session.scsitap_queue ≡ some t
    → ctl_read u k interrupted 31 fp h m ≡ returns (bytes 31, header (h.cmnds t.sc) t t.type m, h)
unfolding ctl_read
ctl_read-header u k interrupted fp h m t res size free attached found =
    rw
      (
        not_empty h.session.scsitap_queue t found,
        spin_lock_free h free,
        read_locked-header u k fp h.session.flags (with_lock true h) m t res size attached found,
      )
      (ap (λ (x : Hba). returns (bytes 31, header (h.cmnds t.sc) t t.type m, x)) (unlocked h free))

-- A session whose task of the number was taken.
abbrev pub taken : ℕ → Hba → Hba
taken n h = record h {
  session = record (h.session) {
    scsitap_queue = mark_received n h.session.scsitap_queue;
    queue_locked = false;
  };
}

-- The user's task, as the header of a task describes it.
abbrev pub described : ScsiCmnd → Task → UserTask → UserTask
described c t old = record old {
  type = t.type;
  direction = direction_byte c.direction;
  cmd_number = t.cmd_number;
  lun = t.lun;
  cdblen = c.cmd_len;
  cdb = take c.cmd_len c.cmnd ++ drop c.cmd_len old.cdb;
  request_bufflen = c.request_bufflen;
}

receive_task_eq :
    (n : ℕ) (h : Hba) (t : Task)
    → n < 2 ^ 32
    → h.session.queue_locked ≡ false
    → h.session.flags ≡ ready
    → task_of_cmd n h.session.scsitap_queue ≡ some t
    → receive_task n h ≡ returns (success, taken n h)
unfolding receive_task receive_locked
receive_task_eq n h t small free attached found =
    let number : u32 n ≡ n = omega arith in
    let locked : (c : Connection)
        → c ≡ ready
        → receive_locked n c (with_lock true h) ≡ (success, taken n h) =
      λ c e. rw (e, receive_locked, found) refl in
    rw (number, spin_lock_free h free, locked h.session.flags attached) refl

-- The call returns the task, and the session is `taken`.
pub get_scsi_task_takes :
    (v : Env) (m : Mem) (old : UserTask) (w : World) (a : ℕ) (h : Hba) (t : Task)
    → IsResident v.uaccess
    → v.linux.max_command_size ≡ 16
    → w.file.private_data ≡ some a
    → hba_at a w.driver.hbas ≡ some h
    → h.session.queue_locked ≡ false
    → h.session.flags ≡ ready
    → first_submitted h.session.scsitap_queue ≡ some t
    → task_of_cmd t.cmd_number h.session.scsitap_queue ≡ some t
    → length (h.cmnds t.sc).cmnd ≡ 16
    → (h.cmnds t.sc).cmd_len ≤ 16
    → t.cmd_number < 2 ^ 32
    → t.lun < 2 ^ 32
    → (h.cmnds t.sc).request_bufflen < 2 ^ 32
    → let c = h.cmnds t.sc in
      Ensures
        (λ (r, task, w').
          (r ≡ done)
          × (task ≡ described c t old)
          × (hba_at a w'.driver.hbas ≡ some (taken t.cmd_number h))
          × (w'.file.private_data ≡ some a))
        (get_scsi_task v m old w)
unfolding get_scsi_task take_task ctl_ioctl file_read read_at file_receive on_hba
get_scsi_task_takes v m old w a h t res size points there free attached found numbered len fits
      number lun total =
    let c = h.cmnds t.sc in
    let m' = header c t t.type m in
    let address = shost-hba_at a w.driver.hbas h there in
    let hs = put_hba h.session.shost h w.driver.hbas in
    let still : hba_at a hs ≡ some h =
      subst (λ x. hba_at a (put_hba x h w.driver.hbas) ≡ some h) (sym address)
        (hba_at-put_hba_self a w.driver.hbas h h address there) in
    let arrived : task_buffer_to_task m' old ≡ described c t old =
      subst (λ (o : Ret × Mem). task_buffer_to_task o.1 old ≡ described c t old)
        (task_to_user-header v.uaccess v.linux c t t.type m res size)
        (header_roundtrip v.uaccess v.linux c t t.type m old res size len fits number lun
          total).1 in
    let taking : receive_task (task_buffer_to_task m' old).cmd_number h
        ≡ returns (success, taken t.cmd_number h) =
      ap (λ (x : UserTask). receive_task x.cmd_number h) arrived
      ∙ receive_task_eq t.cmd_number h t number free attached numbered in
    rw
      (
        points,
        there,
        ctl_read-header v.uaccess v.linux v.interrupted w.file.f_pos h m t res size free attached
            found,
        still,
        on_hba,
        taking,
      )
      (refl, arrived, hba_at-put_hba_self a hs h (taken t.cmd_number h) address still, refl)

-- A session in which a target took the task: its number leads to the task, marked as received,
-- and every other number to the task that it led to.
abbrev pub IsTaken : Task → Hba → Hba → Type 0
IsTaken t h h' =
    (task_of_cmd t.cmd_number h'.session.scsitap_queue ≡ some (record t { flags = received }))
    × ((n : ℕ)
        → n ≢ t.cmd_number
        → task_of_cmd n h'.session.scsitap_queue ≡ task_of_cmd n h.session.scsitap_queue)
    × (length h'.session.scsitap_queue ≡ length h.session.scsitap_queue)
    × (h'.session.flags ≡ ready)
    × (h'.session.queue_locked ≡ false)
    × (h'.cmnds ≡ h.cmnds)
    × (h'.completed ≡ h.completed)
