-- ===== src/Process/Start.antt =====
-- What `main` of user/main.c does before its loop.
pub mod Attached
use vscsi_hba.Base.{ℕ, Bool, true, false, List, if◌then◌else◌}
use vscsi_hba.Driver.State.{Outcome, returns, ◌>>=◌}
use vscsi_hba.Driver.Sessions.{Driver}
use vscsi_hba.Scsi.Engine.{Run, finished, crashes, exits, unfinished}
use vscsi_hba.Target.{LunData, Target}
use vscsi_hba.Target.Luns.{Files}
use vscsi_hba.Api.{Env, register_scsi_host}
use vscsi_hba.Process.Arguments.{Options}
use vscsi_hba.Process.Configure.{configure_scsi_target}
use vscsi_hba.Process.Service.{Server}

module _ {F : Type 0} (v : Env) (pid : ℕ) where
  -- Whether `open` of the device gave a file descriptor is the Boolean.
  unfoldable pub attach_target : Bool → Driver → Run (Options × Target F) → Outcome (Run (Server F))
  unfolding register_scsi_host
  attach_target opens d (finished (o, t)) =
      if opens
      then (register_scsi_host v.linux v.new_host v.minor pid d >>= λ (task, w).
          returns (finished (record { target = t; task = task; world = w })))
      else returns (exits 1)
  attach_target opens d crashes = returns crashes
  attach_target opens d (exits c) = returns (exits c)
  attach_target opens d unfinished = returns unfinished

  unfoldable pub start :
      Files F → (ℕ → LunData F) → Bool → List (List ℕ) → Driver → Outcome (Run (Server F))
  unfolding attach_target configure_scsi_target
  start files raw opens argv d = attach_target opens d (configure_scsi_target files raw argv)
