-- ===== src/Driver/Sessions.antt =====
-- The sessions of the driver: kernel/hba.c, lines 298 to 466. A session is allocated with its SCSI
-- host, so a pointer to one is the host's address.
pub mod Lookup
use vscsi_hba.Base.{
  ℕ, ◌+◌, Bool, true, false, List, [], ◌∷◌, ◌++◌, Option, none, some, ◌==◌, if◌then◌else◌, u32,
  dec32,
}
use vscsi_hba.Linux.{Linux}
use vscsi_hba.Driver.State.{
  ScsiCmnd, Hba, not_ready, Outcome, returns, deadlock, dangling, ◌>>=◌, spin_lock, spin_unlock,
}
use vscsi_hba.Driver.Tasks.{fail_all}

-- `struct scsitap_sessions` with `scsitap_work`. `removed` lists the hosts that were given back to
-- the mid layer, as they were then, the latest first.
pub record Driver : Type 0 where
  pub hbas : List Hba
  pub last_id : ℕ
  pub session_locked : Bool
  pub scan_work : Option ℕ
  pub removed : List Hba

unfoldable pub lock_sessions : Driver → Outcome Driver
lock_sessions d =
    if d.session_locked then deadlock else returns (record d { session_locked = true })

abbrev pub unlock_sessions : Driver → Driver
unlock_sessions d = record d { session_locked = false }

-- The first session with the minor number.
unfoldable pub get_session : ℕ → List Hba → Option Hba
get_session id [] = none
get_session id (h ∷ hs) = if h.session.dev_id == id then some h else get_session id hs

-- A session pointer followed.
unfoldable pub hba_at : ℕ → List Hba → Option Hba
hba_at a [] = none
hba_at a (h ∷ hs) = if h.session.shost == a then some h else hba_at a hs

-- The session at the address, written.
unfoldable pub put_hba : ℕ → Hba → List Hba → List Hba
put_hba a h' [] = []
put_hba a h' (h ∷ hs) = if h.session.shost == a then h' ∷ hs else h ∷ put_hba a h' hs

unfoldable pub remove_hba : ℕ → List Hba → List Hba
remove_hba a [] = []
remove_hba a (h ∷ hs) = if h.session.shost == a then hs else h ∷ remove_hba a hs

-- The session of a new host, whose SCSI commands are `cmnds`.
unfoldable pub new_hba : ℕ → ℕ → (ℕ → ScsiCmnd) → Hba
new_hba shost id cmnds = record {
  session = record {
    shost = shost;
    dev_id = id;
    pid = 0;
    flags = not_ready;
    device_open = 0;
    queue_locked = false;
    cmd_numbers = 0;
    next_cmdnumber = 1;
    scsitap_queue = [];
  };
  cmnds = cmnds;
  completed = [];
}

-- What the mid layer answers when a host is asked for: `scsi_host_alloc`'s pointer, whether
-- `scsi_add_host` fails, and the commands of the new host.
pub record NewHost : Type 0 where
  pub shost : Option ℕ
  pub add_fails : Bool
  pub cmnds : ℕ → ScsiCmnd

unfoldable pub create_session : NewHost → ℕ → Driver → Option Hba × Driver
unfolding new_hba
create_session n id d = elim n.shost [
  | none ↦ (none, d)
  | some a ↦ if n.add_fails then (none, d) else (
    some (new_hba a id n.cmnds),
    record d { hbas = d.hbas ++ (new_hba a id n.cmnds ∷ []); last_id = u32 (d.last_id + 1) },
  )
]

-- `session` is the one that its address leads to. The Boolean says whether the session was kept
-- because a control device is open.
unfoldable pub destroy_session : Linux → Hba → Driver → Outcome (Bool × Driver)
unfolding fail_all spin_lock remove_hba
destroy_session k session d =
    if session.session.device_open == 0
    then (do
      h ← spin_lock session
      let h' = spin_unlock (fail_all k h.session.scsitap_queue h)
      returns (
        false,
        record d {
          hbas = remove_hba h.session.shost d.hbas;
          last_id = dec32 d.last_id;
          removed = h' ∷ d.removed;
        },
      ))
    else returns (true, d)

-- What `scsitap_init` sets up, once the cache exists and the device has a major number.
unfoldable pub init : Driver
init = record { hbas = []; last_id = 0; session_locked = false; scan_work = none; removed = [] }

-- `scsitap_register_interface`, from what `register_chrdev` answers: `none` for a negative number.
unfoldable pub register_interface : Option ℕ → ℕ
register_interface none = 0
register_interface (some major) = major

-- How `scsitap_init` ends: 0 with the driver, -ENOMEM or -ENODEV.
pub data Loaded : Type 0 where
  loaded : Driver → Loaded
  enomem enodev : Loaded

-- Whether `kmem_cache_create` gave a cache, and `register_chrdev`'s answer.
unfoldable pub init_module : Bool → Option ℕ → Loaded
unfolding init register_interface
init_module cache chrdev =
    if cache then if register_interface chrdev == 0 then enodev else loaded init else enomem

-- The deferred scan of a host: its session is looked at when the work runs. The scan itself is the
-- mid layer's.
unfoldable pub scan_hba : Driver → Outcome Driver
unfolding hba_at
scan_hba d = elim d.scan_work [
  | none ↦ returns d
  | some a ↦ elim (hba_at a d.hbas) [
    | none ↦ dangling
    | some h ↦ returns (record d { scan_work = none })
  ]
]

-- The loop of `scsitap_cleanup`, over the sessions that existed when it began.
unfoldable pub destroy_all : Linux → List Hba → Driver → Outcome Driver
unfolding destroy_session
destroy_all k [] d = returns d
destroy_all k (h ∷ hs) d = destroy_session k h d >>= λ (_, d'). destroy_all k hs d'

unfoldable pub cleanup : Linux → Driver → Outcome Driver
unfolding destroy_all lock_sessions
cleanup k d = do d ← lock_sessions d; d ← destroy_all k d.hbas d; returns (unlock_sessions d)
