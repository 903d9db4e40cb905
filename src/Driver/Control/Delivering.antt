-- ===== src/Driver/Control/Delivering.antt =====
-- The locked sections of a target's calls on a session, as moves on the abstract ledger.
use vscsi_hba.Base.{
  false, Bool, ℕ, ◌≡◌, refl, Bool, List, [], ◌∷◌, Option, none, some, ◌==◌, map, arith, Bool-cases,
  Option-cases, inl, inr,
}
use vscsi_hba.Linux.{Linux}
use vscsi_hba.Driver.State.{Task, ScsiCmnd, Hba, Connection, ready, not_ready, update_cmnd}
use vscsi_hba.Driver.Tasks.{complete_task, task_at, task_of_cmd, is_aborted}
use vscsi_hba.Driver.Tasks.Invariant.{IsConsistent}
use vscsi_hba.Driver.Device.Receiving.{receive_locked-Received}
use vscsi_hba.Driver.Uaccess.{Mem, Uaccess}
use vscsi_hba.Driver.Device.{
  write_locked, write_task, answer, finish_task, cmd_number_of, receive_locked, mark_received,
}
use vscsi_hba.Driver.Device.Writing.{task_at_of_cmd}
use vscsi_hba.Driver.Control.Sparing.{IsSpared, IsFaithful}
use vscsi_hba.Driver.Control.Simulating.{ledger, none_in, repacked, Good, complete_task-Evolves}
use vscsi_hba.Driver.Control.Sparing.{list_del-Pending, task_of_cmd-Pending, mark_received-Pending}
use vscsi_hba.Driver.Control.Ledger.{Evolves, stays}

abbrev commands : List Task → List ℕ
commands = map (λ t. t.sc)

commands-mark_received : (n : ℕ) (ts : List Task) → commands (mark_received n ts) ≡ commands ts
unfolding mark_received
commands-mark_received n [] = refl
commands-mark_received n (t ∷ ts) = ground (arith, commands-mark_received n ts)

module _ (k : Linux) (d : Bool) where
  finish_task-Evolves :
      (count : ℕ) (t : Task) (a : Option ℕ × ScsiCmnd) (h : Hba)
      → task_at t.addr h.session.scsitap_queue ≡ some t
      → (d ≡ false → is_aborted (k.flags_after_free t.flags) ≡ false)
      → IsSpared k d h
      → let h' = (finish_task k count t a h).1 in
        IsSpared k d h' × Evolves d [] (ledger h) (ledger h')
  unfolding finish_task complete_task
  finish_task-Evolves count t (none, c) h at live spared = (spared, stays (ledger h))
  finish_task-Evolves count t (some status, c) h at live spared = (
    λ e. list_del-Pending k t.addr h.session.scsitap_queue (spared e),
    complete_task-Evolves k d t t (update_cmnd h t.sc (λ _. record c { result = status })) at refl
        live,
  )

  write_task-Evolves :
      (u : Uaccess) (count n : ℕ) (m : Mem) (o : Option Task) (h : Hba)
      → task_of_cmd n h.session.scsitap_queue ≡ o
      → IsConsistent h
      → IsSpared k d h
      → let h' = (write_task u k count m o h).1 in
        IsSpared k d h' × Evolves d [] (ledger h) (ledger h')
  unfolding write_task
  write_task-Evolves u count n m none h e v spared = (spared, stays (ledger h))
  write_task-Evolves u count n m (some t) h e v spared =
      finish_task-Evolves count t (answer u k count m (u.get_user m 5) (h.cmnds t.sc)) h
        (task_at_of_cmd h.cmnds n h.session.scsitap_queue t e v.linked)
        (λ f. task_of_cmd-Pending k n h.session.scsitap_queue t e (spared f)) spared

  pub write_locked-Evolves :
      (u : Uaccess) (count : ℕ) (m : Mem) (c : Connection) (h : Hba)
      → IsConsistent h
      → IsSpared k d h
      → let h' = (write_locked u k count m c h).1 in
        IsSpared k d h' × Evolves d [] (ledger h) (ledger h')
  unfolding write_locked
  write_locked-Evolves u count m not_ready h v spared = (spared, stays (ledger h))
  write_locked-Evolves u count m ready h v spared =
      let (r, bs) = u.copy_from_user m 1 4 in
      let n = cmd_number_of bs in
      let w =
        write_task-Evolves u count n m (task_of_cmd n h.session.scsitap_queue) h refl v spared in
      elim (Bool-cases (u.get_user m 0 == b'D')) [
        | inl y ↦ elim (Bool-cases (r == 0)) [
          | inl z ↦ rw (y, z) w
          | inr z ↦ rw (y, z) (spared, stays (ledger h))
        ]
        | inr y ↦ rw y (spared, stays (ledger h))
      ]

  pub receive_locked-Good :
      (n : ℕ) (c : Connection) (h : Hba)
      → IsFaithful k d
      → IsConsistent h
      → IsSpared k d h
      → Good k d none_in h (receive_locked n c h)
  unfolding receive_locked
  receive_locked-Good n not_ready h kept v spared = (v, spared, stays (ledger h))
  receive_locked-Good n ready h kept v spared =
      let q = h.session.scsitap_queue in
      elim (Option-cases (task_of_cmd n q)) [
        | inl e ↦ rw (e, receive_locked) (repacked false h v, spared, stays (ledger h))
        | inr (t, e) ↦ (
          (receive_locked-Received n t h e v).1,
          rw (e, receive_locked) (λ f. mark_received-Pending k n q (kept f).1 (spared f)),
          rw (e, receive_locked, commands-mark_received n q) (stays (ledger h)),
        )
      ]
