-- ===== src/Driver/Control.antt =====
-- The file operations of the control device: `scsitap_ctl_ioctl`, `scsitap_ctl_open`,
-- `scsitap_ctl_release` and the entry of read and write, kernel/device.c. What the mid layer
-- answers to a request for a host is an argument. `module_put` and `printk` are left out.
pub mod Attachment
pub mod Histories
pub mod Calls
pub mod Reach
pub mod Registering
pub mod Scanning
pub mod Ledger
pub mod Sparing
pub mod Simulating
pub mod Delivering
pub mod Refining
use vscsi_hba.Base.{ℕ, ◌+◌, Bool, Option, none, some, ◌==◌, if◌then◌else◌, u8, u32, dec8}
use vscsi_hba.Linux.{Linux}
use vscsi_hba.Driver.State.{
  Hba, Connection, ready, not_ready, Outcome, returns, dangling, ◌>>=◌, Ret, success, eperm, efault,
}
use vscsi_hba.Driver.Sessions.{
  Driver, NewHost, lock_sessions, unlock_sessions, get_session, hba_at, put_hba, create_session,
  destroy_session,
}
use vscsi_hba.Driver.Uaccess.{Mem, Uaccess}
use vscsi_hba.Driver.Device.{ctl_read, ctl_write, receive_task}

-- `struct file`: the session's address, null before REGISTER_CLIENT, and the file position.
pub record File : Type 0 where
  pub private_data : Option ℕ
  pub f_pos : ℕ

pub data Ioctl : Type 0 where
  register_client receive set_task : ℕ → Ioctl
  unregister_client unknown : Ioctl

-- The numbers of include/vscsi.h; SCAN_HOST and FINISH_TASK have no case in the `switch`.
unfoldable pub ioctl_of : ℕ → ℕ → Ioctl
ioctl_of cmd arg =
    if cmd == 0xAB00
    then register_client arg
    else if cmd == 0xAB02
    then receive arg
    else if cmd == 0xAB05
    then set_task arg
    else if cmd == 0xAB04
    then unregister_client
    else unknown

unfoldable pub ctl_open : File
ctl_open = record { private_data = none; f_pos = 0 }

-- The new state of a session when a target registers.
abbrev pub attached : ℕ → Hba → Hba
attached pid h = record h {
  session = record (h.session) {
    device_open = u8 (h.session.device_open + 1);
    pid = u32 pid;
    flags = ready;
  };
}

-- The host that `scsitap_work` is to scan: one that was not ready, else what it was.
abbrev pub scan_of : Connection → ℕ → Option ℕ → Option ℕ
scan_of not_ready a w = some a
scan_of ready a w = w

-- The second half of REGISTER_CLIENT, with the lock held.
unfoldable pub attach : ℕ → File → Hba → Driver → Ret × File × Driver
unfolding put_hba
attach pid file h d =
    let a = h.session.shost in
    (
      success,
      record file { private_data = some a },
      unlock_sessions (record d {
        hbas = put_hba a (attached pid h) d.hbas;
        scan_work = scan_of h.session.flags a d.scan_work;
      }),
    )

unfoldable pub attach_new : ℕ → File → Option Hba × Driver → Ret × File × Driver
unfolding attach
attach_new pid file (none, d) = (eperm, file, unlock_sessions d)
attach_new pid file (some h, d) = attach pid file h d

unfoldable pub register_locked : NewHost → ℕ → ℕ → File → Option Hba → Driver → Ret × File × Driver
unfolding attach_new create_session
register_locked n minor pid file none d = attach_new pid file (create_session n minor d)
register_locked n minor pid file (some h) d = attach pid file h d

unfoldable pub register : NewHost → ℕ → ℕ → File → Driver → Outcome (Ret × File × Driver)
unfolding register_locked lock_sessions get_session
register n minor pid file d = do
  d ← lock_sessions d
  returns (register_locked n minor pid file (get_session minor d.hbas) d)

unfoldable pub unregister_locked : Linux → Option Hba → Driver → Outcome (Ret × Driver)
unfolding destroy_session
unregister_locked k none d = returns (eperm, unlock_sessions d)
unregister_locked k (some h) d = do
  (kept, d') ← destroy_session k h d
  returns (if kept then eperm else success, unlock_sessions d')

unfoldable pub unregister : Linux → ℕ → Driver → Outcome (Ret × Driver)
unfolding unregister_locked lock_sessions get_session
unregister k minor d = do d ← lock_sessions d; unregister_locked k (get_session minor d.hbas) d

-- A call on the session of an open file.
unfoldable pub on_hba :
    ℕ → Option Hba → (Hba → Outcome (Ret × Hba)) → Driver → Outcome (Ret × Driver)
unfolding put_hba
on_hba a none f d = dangling
on_hba a (some h) f d = f h >>= λ (r, h'). returns (r, record d { hbas = put_hba a h' d.hbas })

unfoldable pub file_receive : ℕ → Option ℕ → Driver → Outcome (Ret × Driver)
unfolding on_hba hba_at receive_task
file_receive n none d = returns (eperm, d)
file_receive n (some a) d = on_hba a (hba_at a d.hbas) (receive_task n) d

abbrev same_file : File → Ret × Driver → Ret × File × Driver
same_file file (r, d) = (r, file, d)

unfoldable pub ctl_ioctl :
    Linux → NewHost → ℕ → File → Ioctl → Driver → Outcome (Ret × File × Driver)
unfolding register unregister file_receive
ctl_ioctl k n minor file (register_client pid) d = register n minor pid file d
ctl_ioctl k n minor file (receive number) d =
    file_receive number file.private_data d >>= λ o. returns (same_file file o)
ctl_ioctl k n minor file (set_task number) d = returns (success, record file { f_pos = number }, d)
ctl_ioctl k n minor file unregister_client d =
    unregister k minor d >>= λ o. returns (same_file file o)
ctl_ioctl k n minor file unknown d = returns (eperm, file, d)

-- `write` on an open file.
unfoldable pub file_write : Uaccess → Linux → ℕ → Mem → Option ℕ → Driver → Outcome (Ret × Driver)
unfolding on_hba hba_at ctl_write
file_write u k count m none d = returns (efault, d)
file_write u k count m (some a) d = on_hba a (hba_at a d.hbas) (ctl_write u k count m) d

-- `read` on an open file; the memory is the reader's buffer.
unfoldable pub read_at :
    Uaccess → Linux → Bool → ℕ → File → Option Hba → Driver → Mem → Outcome (Ret × Mem × Driver)
unfolding put_hba ctl_read
read_at u k interrupted count file none d m = dangling
read_at u k interrupted count file (some h) d m =
    ctl_read u k interrupted count file.f_pos h m >>= λ (r, m', h').
    returns (r, m', record d { hbas = put_hba h.session.shost h' d.hbas })

unfoldable pub file_read :
    Uaccess → Linux → Bool → ℕ → File → Option ℕ → Driver → Mem → Outcome (Ret × Mem × Driver)
unfolding read_at hba_at
file_read u k interrupted count file none d m = returns (efault, m, d)
file_read u k interrupted count file (some a) d m =
    read_at u k interrupted count file (hba_at a d.hbas) d m

-- The last close makes the session not ready.
abbrev pub detached : Hba → Hba
detached h =
    let n = dec8 h.session.device_open in
    record h {
      session = record (h.session) {
        device_open = n;
        flags = if n == 0 then not_ready else h.session.flags;
      };
    }

unfoldable pub release_at : ℕ → Option Hba → Driver → Outcome Driver
unfolding put_hba
release_at a none d = dangling
release_at a (some h) d =
    returns (unlock_sessions (record d { hbas = put_hba a (detached h) d.hbas }))

unfoldable pub ctl_release : Option ℕ → Driver → Outcome Driver
unfolding release_at lock_sessions hba_at
ctl_release none d = returns d
ctl_release (some a) d = do d ← lock_sessions d; release_at a (hba_at a d.hbas) d
