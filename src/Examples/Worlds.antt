-- ===== src/Examples/Worlds.antt =====
-- A driver with one queued command and an attached target.
use vscsi_hba.Base.{◌≡◌, refl, false, [], ◌∷◌, none, some}
use vscsi_hba.Driver.State.{Hba}
use vscsi_hba.Driver.Sessions.{Driver, NewHost, hba_at, new_hba}
use vscsi_hba.Driver.Control.{File, attached}
use vscsi_hba.Linux.{submitted}
use vscsi_hba.Driver.State.{Task}
use vscsi_hba.Driver.Tasks.{task_of_cmd}
use vscsi_hba.Driver.Uaccess.{resident}
use vscsi_hba.Driver.Device.{first_submitted}
use vscsi_hba.Api
use vscsi_hba.Api.{UserTask, Env, done, get_scsi_task}
use vscsi_hba.Examples.Data.{linux, command, task, hba}

abbrev pub host : NewHost
host = record { shost = some 7; add_fails = false; cmnds = λ p. command none }

abbrev pub registered : File
registered = record { private_data = some 7; f_pos = 0 }

abbrev pub after : Driver
after = record {
  hbas = attached 42 (new_hba 7 0 host.cmnds) ∷ [];
  last_id = 1;
  session_locked = false;
  scan_work = some 7;
  removed = [];
}

-- A session whose one task no target has taken, and a target that is attached to it.
abbrev pub new_task : Task
new_task = record task { flags = submitted }

abbrev pub queued_hba : Hba
queued_hba = record hba { session = record (hba.session) { scsitap_queue = new_task ∷ [] } }

abbrev pub env : Env
env = record { uaccess = resident; linux = linux; new_host = host; minor = 0; interrupted = false }

abbrev pub attached_world : Api.World
attached_world = record { file = registered; driver = record after { hbas = queued_hba ∷ [] } }

pub there_7 : hba_at 7 attached_world.driver.hbas ≡ some queued_hba
unfolding hba_at
there_7 = refl

pub first_is_new : first_submitted queued_hba.session.scsitap_queue ≡ some new_task
unfolding first_submitted
first_is_new = refl

pub new_has_number : task_of_cmd 1 queued_hba.session.scsitap_queue ≡ some new_task
unfolding task_of_cmd
new_has_number = refl
