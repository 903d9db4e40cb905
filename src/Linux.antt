-- ===== src/Linux.antt =====
-- What kernel/hba.c and kernel/device.c take from the kernel's headers.
use vscsi_hba.Base.{ℕ}

-- The task states of include/vscsi.h.
pub data TaskFlags : Type 0 where
  empty submitted cmd_received data_received received finished aborted : TaskFlags

-- Constants whose values the kernel's headers fix, and one behaviour: `flags_after_free f` is what
-- a read of `task->flags` gives once the slot of a task with flags `f` went back to its cache.
pub record Linux : Type 0 where
  pub not_ready : ℕ
  pub did_no_connect : ℕ
  pub sense_buffersize : ℕ
  pub max_command_size : ℕ
  pub flags_after_free : TaskFlags → TaskFlags
