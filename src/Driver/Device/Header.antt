-- ===== src/Driver/Device/Header.antt =====
-- The header that `scsitap_task_to_user` of kernel/device.c leaves in a resident buffer.
use vscsi_hba.Base.{ℕ, ◌≡◌, le32}
use vscsi_hba.Linux.{Linux}
use vscsi_hba.Driver.State.{Task, ScsiCmnd, bytes}
use vscsi_hba.Driver.Uaccess.{Mem, Uaccess, IsResident, put, store}
use vscsi_hba.Driver.Device.{task_to_user, direction_byte}

-- The buffer after the fields in front of the command bytes.
abbrev pub front : ScsiCmnd → Task → ℕ → Mem → Mem
front c t type m =
    put
      (store (store (put (put m 0 type) 1 (direction_byte c.direction)) 2 (le32 t.cmd_number)) 6
        (le32 t.lun))
      10 c.cmd_len

abbrev pub header : ScsiCmnd → Task → ℕ → Mem → Mem
header c t type m = store (store (front c t type m) 11 c.cmnd) 27 (le32 c.request_bufflen)

pub task_to_user-header :
    (u : Uaccess) (k : Linux) (c : ScsiCmnd) (t : Task) (type : ℕ) (m : Mem)
    → IsResident u
    → k.max_command_size ≡ 16
    → task_to_user u k c t type m ≡ (bytes 31, header c t type m)
unfolding task_to_user
task_to_user-header u k c t type m res size = simp (res.puts, res.stores, size)
