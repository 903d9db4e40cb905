-- ===== src/Examples/Calls.antt =====
-- The theorems on sequences of calls and on the deferred scan, at concrete inputs.
use vscsi_hba.Base.{
  Bool, true, ◌==◌, if◌then◌else◌, ℕ, ◌+◌, ◌≡◌, ◌≤◌, refl, false, [], ◌∷◌, none, some, arith,
}
use vscsi_hba.Linux.{aborted}
use vscsi_hba.Driver.State.{
  Ret, Hba, ready, returns, bytes, success, dangling, Ensures, spin_lock, with_lock,
}
use vscsi_hba.Driver.Tasks.{
  queuecommand, queue_locked, enqueue, alloc_task, eh_abort, abort_ptr, abort_at, task_at,
  complete_task, list_del,
}
use vscsi_hba.Driver.Tasks.Invariant.{IsConsistent, has_addr}
use vscsi_hba.Driver.Sessions.{Driver, hba_at, get_session, scan_hba, new_hba}
use vscsi_hba.Driver.Control.{unregister}
use vscsi_hba.Driver.Control.Calls.{queues, aborts, writes}
use vscsi_hba.Driver.Control.Ledger.{Evolves, entries}
use vscsi_hba.Driver.Control.Sparing.{IsSpared}
use vscsi_hba.Driver.Device.{ctl_write, write_locked}
use vscsi_hba.Driver.Uaccess.{Mem, resident}
use vscsi_hba.Driver.Control.Simulating.{ledger}
use vscsi_hba.Driver.Control.Refining.{Calls, no_call, then_call, Calls-Evolves, Calls-entries}
use vscsi_hba.Driver.Control.Scanning.{scan_hba_dangles}
use vscsi_hba.Driver.Sessions.Lookup.{Distinct}
use vscsi_hba.Examples.Data.{linux, task, hba, hba-IsConsistent}
use vscsi_hba.Examples.Worlds.{after, host}

-- Command 2 is queued behind command 1, which is then aborted.
abbrev two_queued : Hba
two_queued = (queue_locked linux (some 200) 2 ready hba).1

queues_2 : queuecommand linux (some 200) 2 hba ≡ returns (bytes 0, two_queued)
unfolding queuecommand spin_lock queue_locked enqueue alloc_task
queues_2 = refl

unused_200 : (a : ℕ) → some 200 ≡ some a → has_addr a hba.session.scsitap_queue ≡ false
unfolding has_addr
unused_200 a e = ground arith

abbrev one_left : Hba
one_left = with_lock false (complete_task linux (record task { flags = aborted }) two_queued)

aborts_1 : eh_abort linux 1 two_queued ≡ returns (success, one_left)
unfolding eh_abort spin_lock abort_ptr abort_at task_at queue_locked enqueue alloc_task
    complete_task list_del
aborts_1 = refl

queued : (d : Bool) → Calls linux d (2 ∷ []) hba two_queued
queued d =
    then_call [] hba hba two_queued (no_call hba)
      (queues (some 200) 2 hba (bytes 0) two_queued queues_2) (refl, unused_200)

with_abort : Calls linux true (2 ∷ []) hba one_left
with_abort =
    then_call (2 ∷ []) hba two_queued one_left (queued true)
      (aborts 1 two_queued success one_left aborts_1) refl

-- Instead, a target answers command 1 with status 0 and no data.
abbrev answer_1 : Mem
answer_1 i = if i == 0 then b'D' else if i == 1 then 1 else 0

abbrev answered : Ret × Hba
answered = write_locked resident linux 6 answer_1 ready (with_lock true two_queued)

writes_1 :
    ctl_write resident linux 6 answer_1 two_queued
    ≡ returns (answered.0, with_lock false answered.1)
unfolding ctl_write spin_lock queue_locked enqueue alloc_task
writes_1 = refl

with_answer : Calls linux false (2 ∷ []) hba (with_lock false answered.1)
with_answer =
    then_call (2 ∷ []) hba two_queued (with_lock false answered.1) (queued false)
      (writes resident 6 answer_1 two_queued answered.0 (with_lock false answered.1) writes_1) tt

Calls-Evolves_example :
    IsConsistent one_left
    × IsSpared linux true one_left
    × Evolves true (2 ∷ []) (ledger hba) (ledger one_left)
Calls-Evolves_example =
    Calls-Evolves linux true (2 ∷ []) hba one_left with_abort (λ e. absurd (cc))
      (hba-IsConsistent ready) (λ e. absurd (cc))

Calls-entries_example :
    let h = with_lock false answered.1 in
    (entries 1 (ledger h) ≤ 0 + entries 1 (ledger hba))
    × (false ≡ false → entries 1 (ledger h) ≡ 0 + entries 1 (ledger hba))
Calls-entries_example =
    Calls-entries linux false (2 ∷ []) hba (with_lock false answered.1) 1 with_answer
      (λ e. (refl, refl)) (hba-IsConsistent ready) (λ e. (refl, tt))

-- The driver after the only target has closed its file: the scan has not run yet.
abbrev idle : Driver
idle = record after { hbas = new_hba 7 0 host.cmnds ∷ [] }

idle_is_found : get_session 0 idle.hbas ≡ some (new_hba 7 0 host.cmnds)
unfolding get_session new_hba
idle_is_found = refl

idle-Distinct : Distinct idle.hbas
unfolding hba_at
idle-Distinct = (refl, tt)

scan_hba_dangles_example :
    (scan_hba idle ≡ returns (record idle { scan_work = none }))
    × Ensures (λ (r, d'). (r ≡ success) × (scan_hba d' ≡ dangling)) (unregister linux 0 idle)
unfolding new_hba
scan_hba_dangles_example =
    scan_hba_dangles linux 0 (new_hba 7 0 host.cmnds) idle idle-Distinct refl idle_is_found refl
      refl refl
