-- ===== src/Examples/Data.antt =====
-- A host with one queued command, the same host without a target, and a new one.
use vscsi_hba.Base.{
  ℕ, refl, false, [], ◌∷◌, Option, none, some, ◌==◌, if◌then◌else◌, replicate, arith,
}
use vscsi_hba.Linux.{Linux, received}
use vscsi_hba.Driver.State.{Task, flat, from_device, ScsiCmnd, Hba, Connection, ready}
use vscsi_hba.Driver.Tasks.{task_at}
use vscsi_hba.Api.{UserTask}
use vscsi_hba.Driver.Tasks.Invariant.{IsConsistent, has_addr}

abbrev pub linux : Linux
linux = record {
  not_ready = 2;
  did_no_connect = 1;
  sense_buffersize = 96;
  max_command_size = 16;
  flags_after_free = λ f. f;
}

-- READ(10) of four bytes.
abbrev pub command : Option ℕ → ScsiCmnd
command p = record {
  lun = 0;
  cmd_len = 10;
  cmnd = 0x28 ∷ 0 ∷ 0 ∷ 0 ∷ 0 ∷ 0 ∷ 0 ∷ 0 ∷ 1 ∷ 0 ∷ 0 ∷ 0 ∷ 0 ∷ 0 ∷ 0 ∷ 0 ∷ [];
  direction = from_device;
  request_bufflen = 4;
  request_buffer = flat (1 ∷ 2 ∷ 3 ∷ 4 ∷ []);
  result = 0;
  resid = 0;
  sense_buffer = replicate 14 0;
  ptr = p;
}

abbrev pub task : Task
task = record {
  addr = 100;
  cmd_number = 1;
  lun = 0;
  flags = received;
  type = b'C';
  sc = 1;
  session = 7;
}

abbrev pub ptrs : ℕ → Option ℕ
ptrs p = if p == 1 then some 100 else none

abbrev pub hba_with : Connection → Hba
hba_with c = record {
  session = record {
    shost = 7;
    dev_id = 0;
    pid = 42;
    flags = c;
    device_open = 1;
    queue_locked = false;
    cmd_numbers = 1;
    next_cmdnumber = 2;
    scsitap_queue = task ∷ [];
  };
  cmnds = λ p. command (ptrs p);
  completed = [];
}

abbrev pub hba : Hba
hba = hba_with ready

pub hba-IsConsistent : (c : Connection) → IsConsistent (hba_with c)
unfolding has_addr task_at
hba-IsConsistent c = record {
  counted = refl;
  linked = (refl, refl, tt);
  backed = λ sc a e. (task, ground arith, ground arith);
}

abbrev pub user_task : UserTask
user_task = record {
  cmd_number = 0;
  type = 0;
  direction = 0;
  lun = 0;
  cdblen = 0;
  cdb = replicate 16 0;
  request_bufflen = 0;
  request_buffer = λ _. 0;
  status = 0;
}
