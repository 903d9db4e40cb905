-- ===== src/Driver/Control/Refining.antt =====
-- The calls on a session, of the mid layer and of a target, as moves on the abstract ledger.
use vscsi_hba.Base.{
  arith, Bool, u32, false, ℕ, ◌+◌, ◌≡◌, ◌≤◌, refl, true, false, List, [], ◌++◌, none, some,
}
use vscsi_hba.Linux.{Linux}
use vscsi_hba.Driver.State.{Hba, Outcome, returns, ◌>>=◌, Ret, spin_lock, with_lock}
use vscsi_hba.Driver.Tasks.{queuecommand, eh_abort, eh_host_reset}
use vscsi_hba.Driver.Tasks.Invariant.{IsConsistent, has_addr}
use vscsi_hba.Driver.Tasks.Queueing.{queue_locked-IsConsistent}
use vscsi_hba.Driver.Device.{ctl_write, receive_task}
use vscsi_hba.Driver.Device.Writing.{write_locked-IsConsistent}
use vscsi_hba.Driver.Control.Calls.{
  Call, queues, aborts, resets, takes, writes, Whenever, locked-Whenever, Whenever_returns,
}
use vscsi_hba.Driver.Control.Simulating.{
  ledger, taken_in, Good, none_in, repacked, queue_locked-Evolves, queue_locked-IsSpared,
  abort_ptr-Good, abort_all-Good,
}
use vscsi_hba.Driver.Control.Delivering.{write_locked-Evolves, receive_locked-Good}
use vscsi_hba.Driver.Control.Sparing.{IsSpared, IsFaithful}
use vscsi_hba.Driver.Control.Ledger.{
  Evolves, stays, Evolves-trans, occurrences, entries, Evolves-entries,
}

-- The mid layer queues a command only while the driver has none of it, and the cache gives a slot
-- that no queued task uses. Aborts and resets are only among calls that may drop commands.
abbrev pub Legal : (k : Linux) (d : Bool) (h h' : Hba) → Call k h h' → Type 0
Legal k d _ _ (queues slot sc h r h' e) =
    ((h.cmnds sc).ptr ≡ none)
    × ((a : ℕ) → slot ≡ some a → has_addr a h.session.scsitap_queue ≡ false)
Legal k d _ _ (aborts sc h r h' e) = d ≡ true
Legal k d _ _ (resets h r h' e) = d ≡ true
Legal k d _ _ _ = Unit

-- The commands that a call takes in.
abbrev pub input : (k : Linux) (h h' : Hba) → Call k h h' → List ℕ
input k _ _ (queues slot sc h r h' e) = taken_in sc r
input k _ _ _ = []

-- Calls that returned, one after the other, with the commands that they took in.
pub data Calls (k : Linux) (d : Bool) : List ℕ → Hba → Hba → Type 0 where
  no_call : (h : Hba) → Calls k d [] h h
  then_call :
      (ins : List ℕ) (h1 h2 h3 : Hba)
      → Calls k d ins h1 h2
      → (call : Call k h2 h3) → Legal k d h2 h3 call
      → Calls k d (ins ++ input k h2 h3 call) h1 h3

-- A call that returned, from its locked section.
locked-Good :
    (k : Linux) (d : Bool) (ins : Ret → List ℕ) (h : Hba) (f : Hba → Outcome (Ret × Hba)) (r : Ret)
    (h' : Hba)
    → Whenever (Good k d ins h) (f (with_lock true h))
    → (spin_lock h >>= f) ≡ returns (r, h')
    → Good k d ins h (r, h')
locked-Good k d ins h f r h' g e =
    Whenever_returns (Good k d ins h) (spin_lock h >>= f) (r, h')
      (locked-Whenever (Good k d ins h) h f g) e

Call-Good :
    (k : Linux) (d : Bool) (h h' : Hba) (call : Call k h h')
    → Legal k d h h' call
    → IsFaithful k d
    → IsConsistent h
    → IsSpared k d h
    → IsConsistent h' × IsSpared k d h' × Evolves d (input k h h' call) (ledger h) (ledger h')
unfolding queuecommand eh_abort eh_host_reset receive_task ctl_write
Call-Good k d _ _ (queues slot sc h r h' e) (idle, unused) kept v spared =
    let h1 = with_lock true h in
    locked-Good k d (taken_in sc) h _ r h'
      (
        queue_locked-IsConsistent k slot sc h.session.flags h1 idle unused (repacked true h v),
        queue_locked-IsSpared k d slot sc h.session.flags h1 kept spared,
        queue_locked-Evolves k d slot sc h.session.flags h1,
      )
      e
Call-Good k d _ _ (aborts sc h r h' e) drops_ kept v spared =
    locked-Good k d none_in h _ r h'
      (abort_ptr-Good k d sc (h.cmnds sc).ptr (with_lock true h) drops_ refl (repacked true h v)) e
Call-Good k d _ _ (resets h r h' e) drops_ kept v spared =
    let (w, more) =
      abort_all-Good k d h.session.scsitap_queue (with_lock true h) drops_ refl
        (repacked true h v) in
    locked-Good k d none_in h _ r h' (repacked false _ w, λ f. absurd (cc), more) e
Call-Good k d _ _ (takes n h r h' e) legal kept v spared =
    locked-Good k d none_in h _ r h'
      (receive_locked-Good k d (u32 n) h.session.flags (with_lock true h) kept (repacked true h v)
        spared)
      e
Call-Good k d _ _ (writes u count m h r h' e) legal kept v spared =
    let h1 = with_lock true h in
    let w = write_locked-IsConsistent u k count m h.session.flags h1 (repacked true h v) in
    let (still, moved) =
      write_locked-Evolves k d u count m h.session.flags h1 (repacked true h v) spared in
    locked-Good k d none_in h _ r h' (repacked false _ w, still, moved) e

-- The queue of tasks refines the ledger. From a consistent session, any sequence of calls that
-- returned, of the mid layer and of targets, where a command is queued only while it has no task
-- and in a slot that is not in use, leaves the session consistent, and what it did to the pending
-- and the completed commands is a sequence of moves of the ledger that takes the same commands
-- in. If there are no aborts and no resets among the calls, and neither the tasks at the start
-- nor those that are submitted or received read as aborted once they were freed, then no move
-- drops a command, and the same holds of the tasks that are left.
pub Calls-Evolves :
    (k : Linux) (d : Bool) (ins : List ℕ) (h h' : Hba)
    → Calls k d ins h h'
    → IsFaithful k d
    → IsConsistent h
    → IsSpared k d h
    → IsConsistent h' × IsSpared k d h' × Evolves d ins (ledger h) (ledger h')
Calls-Evolves k d _ _ _ (no_call h) kept v spared = (v, spared, stays (ledger h))
Calls-Evolves k d _ _ _ (then_call ins h1 h2 h3 before call legal) kept v spared =
    let (w, still, moved) = Calls-Evolves k d ins h1 h2 before kept v spared in
    let (w', still', more) = Call-Good k d h2 h3 call legal kept w still in
    (
      w',
      still',
      Evolves-trans d ins (input k h2 h3 call) (ledger h1) (ledger h2) (ledger h3) moved more,
    )

-- No command is invented: over such a sequence of calls, a command is pending or handed to
-- `scsi_done` at most as often as it was at the start and was taken in since. So on a session
-- that starts with nothing, no command is completed more often than it was queued. And no command
-- is lost but by aborts and resets: without them, under the same conditions, it is pending or
-- handed to `scsi_done` exactly as often.
pub Calls-entries :
    (k : Linux) (d : Bool) (ins : List ℕ) (h h' : Hba) (sc : ℕ)
    → Calls k d ins h h'
    → IsFaithful k d
    → IsConsistent h
    → IsSpared k d h
    → (entries sc (ledger h') ≤ occurrences sc ins + entries sc (ledger h))
      × (d ≡ false → entries sc (ledger h') ≡ occurrences sc ins + entries sc (ledger h))
Calls-entries k d ins h h' sc calls kept v spared =
    let (_, _, moved) = Calls-Evolves k d ins h h' calls kept v spared in
    let (up, down) = Evolves-entries d sc ins (ledger h) (ledger h') moved in
    (up, λ e. omega (arith, up, down e))
