-- ===== src/Driver/Tasks/Queueing.antt =====
-- What `scsitap_queuecommand` of kernel/hba.c does, on each of its branches.
use vscsi_hba.Base.{ℕ, ◌≡◌, refl, true, false, List, [], ◌∷◌, Option, none, some, arith}
use vscsi_hba.Linux.{Linux}
use vscsi_hba.Driver.State.{
  Task, ScsiCmnd, Hba, Connection, ready, not_ready, Ensures, spin_lock_free, with_lock,
  update_cmnd,
}
use vscsi_hba.Driver.Tasks.{queuecommand, queue_locked, start_cmnd, fail_no_connect}
use vscsi_hba.Driver.Tasks.Invariant.{
  IsConsistent, Linked, update, has_addr, update_cmnd-IsConsistent, enqueue-IsConsistent,
}

start_cmnd-Linked :
    (c : ℕ → ScsiCmnd) (sc : ℕ) (ts : List Task)
    → (c sc).ptr ≡ none
    → Linked c ts
    → Linked (update c sc start_cmnd) ts
start_cmnd-Linked c sc [] idle l = tt
start_cmnd-Linked c sc (t ∷ ts) idle l = ground (arith, l.0, start_cmnd-Linked c sc ts idle l.2)

start_cmnd-IsConsistent :
    (sc : ℕ) (h : Hba)
    → (h.cmnds sc).ptr ≡ none
    → IsConsistent h
    → IsConsistent (update_cmnd h sc start_cmnd)
start_cmnd-IsConsistent sc h idle v = record {
  counted = v.counted;
  linked = start_cmnd-Linked h.cmnds sc h.session.scsitap_queue idle v.linked;
  backed = λ p a e. v.backed p a (ground arith);
}

pub queue_locked-IsConsistent :
    (k : Linux) (slot : Option ℕ) (sc : ℕ) (c : Connection) (h : Hba)
    → (h.cmnds sc).ptr ≡ none
    → ((a : ℕ) → slot ≡ some a → has_addr a h.session.scsitap_queue ≡ false)
    → IsConsistent h
    → IsConsistent (queue_locked k slot sc c h).1
unfolding queue_locked
queue_locked-IsConsistent k slot sc not_ready h idle unused v =
    let w = update_cmnd-IsConsistent sc (fail_no_connect k) h (unfold fail_no_connect in refl) v in
    record { counted = w.counted; linked = w.linked; backed = w.backed }
queue_locked-IsConsistent k none sc ready h idle unused v =
    let w = start_cmnd-IsConsistent sc h idle v in
    record { counted = w.counted; linked = w.linked; backed = w.backed }
queue_locked-IsConsistent k (some a) sc ready h idle unused v =
    let w =
      enqueue-IsConsistent a sc (update_cmnd h sc start_cmnd) (ground arith) (unused a refl)
        (start_cmnd-IsConsistent sc h idle v) in
    record { counted = w.counted; linked = w.linked; backed = w.backed }

-- On a session whose lock is free, a command that is not queued yet, and a slot that no queued
-- task uses, leave the queue consistent if it was, whatever the connection and the cache answer.
-- The call returns.
pub queuecommand-IsConsistent :
    (k : Linux) (slot : Option ℕ) (sc : ℕ) (h : Hba)
    → h.session.queue_locked ≡ false
    → (h.cmnds sc).ptr ≡ none
    → ((a : ℕ) → slot ≡ some a → has_addr a h.session.scsitap_queue ≡ false)
    → IsConsistent h
    → Ensures (λ o. IsConsistent o.1) (queuecommand k slot sc h)
unfolding queuecommand
queuecommand-IsConsistent k slot sc h free idle unused v = rw (spin_lock_free h free) (
    queue_locked-IsConsistent k slot sc h.session.flags (with_lock true h) idle unused
      (record { counted = v.counted; linked = v.linked; backed = v.backed }))
