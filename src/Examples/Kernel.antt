-- ===== src/Examples/Kernel.antt =====
-- The theorems on the driver, at concrete inputs.
use vscsi_hba.Base.{
  ℕ, ◌+◌, ◌^◌, ◌<◌, ◌++◌, ◌⊎◌, ◌≡◌, refl, false, [], ◌∷◌, none, some, get_or, replicate, All, arith,
}
use vscsi_hba.Driver.State.{Task, ScsiCmnd, Hba, ready, not_ready, bytes, success, eperm, Ensures}
use vscsi_hba.Driver.Tasks.{queuecommand, eh_abort, eh_host_reset, fail_all, task_of_cmd}
use vscsi_hba.Driver.Tasks.Invariant.{IsConsistent, has_addr}
use vscsi_hba.Driver.Tasks.Queueing.{queuecommand-IsConsistent}
use vscsi_hba.Driver.Tasks.Numbers.{Numbered, queuecommand-IsNumbered, queuecommand_bounds}
use vscsi_hba.Driver.Tasks.Aborting.{
  Aborted, eh_abort-Aborted, eh_host_reset_empties, fail_all_completes,
}
use vscsi_hba.Driver.Uaccess.{Mem, resident, resident-IsResident, load, store}
use vscsi_hba.Driver.Device.{ctl_read, ctl_write, receive_task, task_to_user}
use vscsi_hba.Driver.Device.Reading.{contents, ctl_read_data}
use vscsi_hba.Driver.Device.Writing.{ctl_write-IsConsistent}
use vscsi_hba.Driver.Device.Completing.{IsReply, Completed, ctl_write_delivers, ctl_write_fails}
use vscsi_hba.Driver.Device.Receiving.{
  IsWedged, Received, receive_task_wedges, receive_task-Received,
}
use vscsi_hba.Api.{task_buffer_to_task}
use vscsi_hba.Api.Header.{header_roundtrip}
use vscsi_hba.Examples.Data.{user_task, linux, command, task, hba, hba_with, hba-IsConsistent}

slot_free : (a : ℕ) → some 200 ≡ some a → has_addr a hba.session.scsitap_queue ≡ false
unfolding has_addr
slot_free a e = ground arith

queuecommand-IsConsistent_example :
    Ensures (λ o. IsConsistent o.1) (queuecommand linux (some 200) 2 hba)
queuecommand-IsConsistent_example =
    queuecommand-IsConsistent linux (some 200) 2 hba refl refl slot_free (hba-IsConsistent ready)

queuecommand-IsNumbered_example : Ensures (Numbered 200 2 hba) (queuecommand linux (some 200) 2 hba)
queuecommand-IsNumbered_example =
    queuecommand-IsNumbered linux 200 2 hba refl refl (omega arith) (omega arith, omega arith)

-- The counter is about to wrap.
abbrev last_hba : Hba
last_hba = record hba { session = record (hba.session) { next_cmdnumber = 4294967295 } }

queuecommand_bounds_example :
    Ensures
      (λ (_, h').
        (t : Task) × (h'.session.scsitap_queue ≡ hba.session.scsitap_queue ++ (t ∷ []))
        × (0 < t.cmd_number)
        × (t.cmd_number < 2 ^ 32)
        × (h'.session.next_cmdnumber < 2 ^ 32)
        × ((h'.session.next_cmdnumber ≡ t.cmd_number + 1)
            ⊎ ((h'.session.next_cmdnumber ≡ 0) × (t.cmd_number + 1 ≡ 2 ^ 32))))
      (queuecommand linux (some 200) 2 last_hba)
queuecommand_bounds_example = queuecommand_bounds linux 200 2 last_hba refl refl (omega arith)

eh_abort-Aborted_example : Ensures (Aborted 1 hba) (eh_abort linux 1 hba)
eh_abort-Aborted_example = eh_abort-Aborted linux 1 hba refl refl (hba-IsConsistent ready)

eh_host_reset_empties_example :
    Ensures
      (λ (r, h').
        (r ≡ success)
        × (h'.session.scsitap_queue ≡ [])
        × (h'.session.cmd_numbers ≡ 0)
        × ((p : ℕ) → (h'.cmnds p).ptr ≡ none)
        × (h'.completed ≡ [])
        × (h'.session.queue_locked ≡ false))
      (eh_host_reset linux hba)
eh_host_reset_empties_example = eh_host_reset_empties linux hba refl refl (hba-IsConsistent ready)

fail_all_completes_example :
    let h' = fail_all linux (task ∷ []) hba in
    IsConsistent h'
    × (h'.session.scsitap_queue ≡ [])
    × (h'.completed ≡ 1 ∷ [])
    × All (λ t. (h'.cmnds t.sc).result ≡ 65536) (task ∷ [])
fail_all_completes_example =
    fail_all_completes linux (task ∷ []) hba refl (refl, tt) (hba-IsConsistent ready)

receive_task_wedges_example :
    Ensures (λ (r, h'). (r ≡ eperm) × IsWedged h') (receive_task 1 (hba_with not_ready))
receive_task_wedges_example = receive_task_wedges 1 (hba_with not_ready) refl refl

numbered_1 : task_of_cmd 1 hba.session.scsitap_queue ≡ some task
unfolding task_of_cmd
numbered_1 = refl

receive_task-Received_example : Ensures (Received 1 task hba) (receive_task 1 hba)
receive_task-Received_example =
    receive_task-Received 1 task hba refl refl numbered_1 (hba-IsConsistent ready)

ctl_read_data_example :
    Ensures
      (λ (r, m', h'). (r ≡ bytes 31) × (load m' 31 4 ≡ 1 ∷ 2 ∷ 3 ∷ 4 ∷ []) × (h' ≡ hba))
      (ctl_read resident linux false 35 1 hba (λ _. 0))
ctl_read_data_example =
    ctl_read_data resident linux false 1 hba (λ _. 0) task resident-IsResident refl refl refl
      (λ e. ground (arith, e)) numbered_1 refl tt (omega arith) refl

-- The reply of type 'D' with status `status` and four bytes of data.
abbrev reply : ℕ → Mem
reply status = store (λ _. 0) 0 (b'D' ∷ 1 ∷ 0 ∷ 0 ∷ 0 ∷ status ∷ 5 ∷ 6 ∷ 7 ∷ 8 ∷ [])

reply-IsReply : (status : ℕ) → IsReply resident linux (reply status) task hba
reply-IsReply status = record {
  resident = resident-IsResident;
  type = refl;
  number = refl;
  queued = numbered_1;
  live = refl;
  free = refl;
  attached = refl;
}

ctl_write-IsConsistent_example :
    Ensures
      (λ o. IsConsistent o.1 × (o.1.session.queue_locked ≡ false))
      (ctl_write resident linux 10 (reply 0) hba)
ctl_write-IsConsistent_example =
    ctl_write-IsConsistent resident linux 10 (reply 0) hba refl (hba-IsConsistent ready)

ctl_write_delivers_example :
    (c : ScsiCmnd) × Ensures (Completed 10 task c hba) (ctl_write resident linux 10 (reply 0) hba)
    × (contents c.request_buffer ≡ 5 ∷ 6 ∷ 7 ∷ 8 ∷ [])
    × (c.result ≡ 0)
    × (c.sense_buffer ≡ replicate 96 0)
ctl_write_delivers_example =
    ctl_write_delivers resident linux 10 (reply 0) task hba (reply-IsReply 0) refl (omega arith) tt
      refl

ctl_write_fails_example :
    (c : ScsiCmnd) × Ensures (Completed 6 task c hba) (ctl_write resident linux 6 (reply 2) hba)
    × (c.result ≡ 2)
    × (c.request_buffer ≡ (hba.cmnds 1).request_buffer)
    × (get_or c.sense_buffer 0 0 ≡ 0x70)
    × (get_or c.sense_buffer 2 0 ≡ 0)
    × (get_or c.sense_buffer 12 0 ≡ 0)
ctl_write_fails_example =
    ctl_write_fails resident linux 6 (reply 2) task hba (reply-IsReply 2) (omega arith)
      (omega arith) (omega arith)

header_roundtrip_example :
    let (r, m') = task_to_user resident linux (command none) task b'C' (λ _. 0) in
    (r ≡ bytes 31)
    × (task_buffer_to_task m' user_task ≡ record user_task {
      type = b'C';
      direction = b'I';
      cmd_number = 1;
      lun = 0;
      cdblen = 10;
      cdb = 0x28 ∷ 0 ∷ 0 ∷ 0 ∷ 0 ∷ 0 ∷ 0 ∷ 0 ∷ 1 ∷ 0 ∷ 0 ∷ 0 ∷ 0 ∷ 0 ∷ 0 ∷ 0 ∷ [];
      request_bufflen = 4;
    })
header_roundtrip_example =
    header_roundtrip resident linux (command none) task b'C' (λ _. 0) user_task resident-IsResident
      refl refl (omega arith) (omega arith) (omega arith) (omega arith)
