-- ===== src/Driver/State.antt =====
-- The state that kernel/hba.c and kernel/device.c keep: include/vscsihba.h.
use vscsi_hba.Base.{ℕ, ◌≡◌, Bool, true, false, List, Option, ◌==◌, if◌then◌else◌}
use vscsi_hba.Linux.{TaskFlags}

-- `struct scsitap_task`. `addr` is the address of its cache slot, `sc` the SCSI command's.
pub record Task : Type 0 where
  pub addr : ℕ
  pub cmd_number : ℕ
  pub lun : ℕ
  pub flags : TaskFlags
  pub type : ℕ
  pub sc : ℕ
  pub session : ℕ

-- One entry of a scatter list: whether its page has an address, and the bytes at the offset.
pub record Segment : Type 0 where
  pub mapped : Bool
  pub bytes : List ℕ

-- `request_buffer`, which `use_sg` says how to read: flat when it is 0.
pub data RequestBuffer : Type 0 where
  flat : List ℕ → RequestBuffer
  scatter : List Segment → RequestBuffer

pub data Direction : Type 0 where
  to_device from_device no_data : Direction

-- The fields of `struct scsi_cmnd` that the driver reads or writes. `ptr` is `SCp.ptr`.
pub record ScsiCmnd : Type 0 where
  pub lun : ℕ
  pub cmd_len : ℕ
  pub cmnd : List ℕ
  pub direction : Direction
  pub request_bufflen : ℕ
  pub request_buffer : RequestBuffer
  pub result : ℕ
  pub resid : ℕ
  pub sense_buffer : List ℕ
  pub ptr : Option ℕ

pub data Connection : Type 0 where
  ready not_ready : Connection

-- `struct scsitap_session`. `queue_locked` says that `scsitap_queue_lock` is held.
pub record Session : Type 0 where
  pub shost : ℕ
  pub dev_id : ℕ
  pub pid : ℕ
  pub flags : Connection
  pub device_open : ℕ
  pub queue_locked : Bool
  pub cmd_numbers : ℕ
  pub next_cmdnumber : ℕ
  pub scsitap_queue : List Task

-- A session with the SCSI commands of its host, by address, and the commands for which
-- `scsi_done` was called, the latest first.
pub record Hba : Type 0 where
  pub session : Session
  pub cmnds : ℕ → ScsiCmnd
  pub completed : List ℕ

-- How a call into the driver ends: it returns, sleeps in `wait_event_interruptible`, spins for
-- ever on a lock that is held, or follows a pointer to a freed task.
pub data Outcome {ℓ} (A : Type ℓ) : Type ℓ where
  returns : A → Outcome A
  sleeps : Outcome A
  deadlock : Outcome A
  dangling : Outcome A

infixl 5 ◌>>=◌
abbrev pub ◌>>=◌ {ℓ κ} : {A : Type ℓ} {B : Type κ} → Outcome A → (A → Outcome B) → Outcome B
returns a >>= f = f a
sleeps >>= f = sleeps
deadlock >>= f = deadlock
dangling >>= f = dangling

-- The values that the entry points return.
pub data Ret : Type 0 where
  bytes : ℕ → Ret
  success host_busy : Ret
  eperm efault einval ebadf : Ret

abbrev pub with_lock : Bool → Hba → Hba
with_lock b h = record h { session = record (h.session) { queue_locked = b } }

unfoldable pub spin_lock : Hba → Outcome Hba
spin_lock h = if h.session.queue_locked then deadlock else returns (with_lock true h)

abbrev pub spin_unlock : Hba → Hba
spin_unlock = with_lock false

pub spin_lock_free :
    (h : Hba) → h.session.queue_locked ≡ false → spin_lock h ≡ returns (with_lock true h)
unfolding spin_lock
spin_lock_free h e = rw e

pub spin_lock_held : (h : Hba) → h.session.queue_locked ≡ true → spin_lock h ≡ deadlock
unfolding spin_lock
spin_lock_held h e = rw e

-- A write to one command.
abbrev pub update_cmnd : Hba → ℕ → (ScsiCmnd → ScsiCmnd) → Hba
update_cmnd h sc f = record h { cmnds = λ p. if p == sc then f (h.cmnds p) else h.cmnds p }

-- `SCp.ptr` written.
abbrev pub with_ptr : Option ℕ → ScsiCmnd → ScsiCmnd
with_ptr p c = record c { ptr = p }

-- The call returns, with a value and a state that have the property.
abbrev pub Ensures {ℓ} : {A : Type ℓ} → (A → Type 0) → Outcome A → Type 0
Ensures P (returns a) = P a
Ensures P sleeps = ⊥
Ensures P deadlock = ⊥
Ensures P dangling = ⊥

pub Ensures-map :
    {A : Type 0} (P Q : A → Type 0) (o : Outcome A)
    → ((a : A) → P a → Q a)
    → Ensures P o
    → Ensures Q o
Ensures-map P Q (returns a) f p = f a p
Ensures-map P Q sleeps f p = p
Ensures-map P Q deadlock f p = p
Ensures-map P Q dangling f p = p
