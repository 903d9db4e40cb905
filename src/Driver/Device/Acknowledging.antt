-- ===== src/Driver/Device/Acknowledging.antt =====
-- A target's reply without data, `scsitap_ctl_write` of kernel/device.c with at most six bytes.
use vscsi_hba.Base.{ℕ, ◌≡◌, ◌≤◌, false, some, ltb, arith}
use vscsi_hba.Linux.{Linux}
use vscsi_hba.Driver.State.{Task, ScsiCmnd, Hba, Ensures}
use vscsi_hba.Driver.Tasks.{set_sensedata}
use vscsi_hba.Driver.Uaccess.{Mem, Uaccess}
use vscsi_hba.Driver.Device.{ctl_write, answer}
use vscsi_hba.Driver.Device.Completing.{IsReply, Completed, ctl_write-Completed}

answer_short :
    (u : Uaccess) (k : Linux) (count : ℕ) (m : Mem) (status : ℕ) (c : ScsiCmnd)
    → status ≡ 0
    → count ≤ 6
    → answer u k count m status c ≡ (some 0, set_sensedata k c)
unfolding answer
answer_short u k count m status c e short =
    let nothing : ltb 6 count ≡ false = ground arith in rw (e, nothing)

-- The command that is left: its sense buffer cleared, with result 0.
abbrev pub acknowledged : Linux → ScsiCmnd → ScsiCmnd
acknowledged k c = record (set_sensedata k c) { result = 0 }

-- A well-formed reply with status 0 and no data completes its task: the command's buffer is not
-- touched, its result is 0 and its sense buffer is cleared. The task leaves the queue, the command
-- is handed to `scsi_done` once, and no other command changes.
pub ctl_write_acknowledges :
    (u : Uaccess) (k : Linux) (count : ℕ) (m : Mem) (t : Task) (h : Hba)
    → IsReply u k m t h
    → m 5 ≡ 0
    → count ≤ 6
    → Ensures (Completed count t (acknowledged k (h.cmnds t.sc)) h) (ctl_write u k count m h)
ctl_write_acknowledges u k count m t h v ok_ short =
    ctl_write-Completed u k count 0 m t (set_sensedata k (h.cmnds t.sc)) h v
      (answer_short u k count m (m 5) (h.cmnds t.sc) ok_ short)
