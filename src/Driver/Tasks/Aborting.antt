-- ===== src/Driver/Tasks/Aborting.antt =====
-- The error handlers of kernel/hba.c, and the loop that fails what is queued when a host goes away.
use mathlib.Core.List.{reverse, reverse-cons, append_assoc}
use vscsi_hba.Base.{
  ℕ, ◌%◌, ◌*◌, ◌^◌, ◌≡◌, ◌≢◌, refl, ap, ◌∙◌, true, false, List, [], ◌∷◌, ◌++◌, map, Option, none,
  some, All, arith, Option-cases, inl, inr, length,
}
use vscsi_hba.Linux.{Linux, aborted}
use vscsi_hba.Driver.State.{
  Task, Hba, Ret, success, Ensures, spin_lock_free, with_lock, update_cmnd,
}
use vscsi_hba.Driver.Tasks.{
  eh_abort, abort_ptr, abort_at, eh_host_reset, abort_all, fail_all, fail_no_connect, complete_task,
  list_del, task_at, is_aborted,
}
use vscsi_hba.Driver.Tasks.Invariant.{
  IsConsistent, complete_task-IsConsistent, update_cmnd-IsConsistent, addr-task_at,
}

-- What an abort leaves: no task for the command, the other commands as they were, no completion.
abbrev pub Aborted : ℕ → Hba → Ret × Hba → Type 0
Aborted sc h (r, h') =
    (r ≡ success)
    × IsConsistent h'
    × ((h'.cmnds sc).ptr ≡ none)
    × ((p : ℕ) → p ≢ sc → h'.cmnds p ≡ h.cmnds p)
    × (h'.completed ≡ h.completed)
    × (h'.session.queue_locked ≡ false)

abort_at-Aborted :
    (k : Linux) (sc a : ℕ) (h : Hba) (t : Task)
    → k.flags_after_free aborted ≡ aborted
    → task_at a h.session.scsitap_queue ≡ some t
    → t.sc ≡ sc
    → IsConsistent h
    → Ensures (Aborted sc h) (abort_at k (some t) h)
unfolding abort_at
abort_at-Aborted k sc a h t kept e s v =
    let t' = record t { flags = aborted } in
    let at : task_at t.addr h.session.scsitap_queue ≡ some t =
      ap (λ x. task_at x h.session.scsitap_queue) (addr-task_at a h.session.scsitap_queue t e)
      ∙ e in
    let w = complete_task-IsConsistent k t' t h at refl v in
    (
      refl,
      record { counted = w.counted; linked = w.linked; backed = w.backed },
      unfold complete_task in ground arith,
      λ p n. unfold complete_task in ground arith,
      unfold complete_task in ground arith,
      refl,
    )

abort_ptr-Aborted :
    (k : Linux) (sc : ℕ) (p : Option ℕ) (h : Hba)
    → k.flags_after_free aborted ≡ aborted
    → (h.cmnds sc).ptr ≡ p
    → IsConsistent h
    → Ensures (Aborted sc h) (abort_ptr k p h)
unfolding abort_ptr
abort_ptr-Aborted k sc none h kept e v = (
  refl,
  record { counted = v.counted; linked = v.linked; backed = v.backed },
  e,
  λ p n. refl,
  refl,
  refl,
)
abort_ptr-Aborted k sc (some a) h kept e v =
    let (t, at, same) = v.backed sc a e in rw at (abort_at-Aborted k sc a h t kept at same v)

-- On a consistent session with a free lock, and if the flags of a freed task still read as
-- "aborted", an abort of any command returns success: the pointer it follows is never dangling,
-- the task leaves a queue that stays consistent, the command's pointer is cleared, and
-- `scsi_done` is called for no command.
pub eh_abort-Aborted :
    (k : Linux) (sc : ℕ) (h : Hba)
    → h.session.queue_locked ≡ false
    → k.flags_after_free aborted ≡ aborted
    → IsConsistent h
    → Ensures (Aborted sc h) (eh_abort k sc h)
unfolding eh_abort
eh_abort-Aborted k sc h free kept v = rw (spin_lock_free h free) (
    abort_ptr-Aborted k sc (h.cmnds sc).ptr (with_lock true h) kept refl
      (record { counted = v.counted; linked = v.linked; backed = v.backed }))

list_del_head : (a : ℕ) (t : Task) (ts : List Task) → a ≡ t.addr → list_del a (t ∷ ts) ≡ ts
unfolding list_del
list_del_head a t ts e = ground arith

pub task_at_head : (t : Task) (ts : List Task) → task_at t.addr (t ∷ ts) ≡ some t
unfolding task_at
task_at_head t ts = ground arith

pub queue-complete_task :
    (k : Linux) (t u : Task) (ts : List Task) (h : Hba)
    → h.session.scsitap_queue ≡ t ∷ ts
    → u.addr ≡ t.addr
    → (complete_task k u h).session.scsitap_queue ≡ ts
unfolding complete_task
queue-complete_task k t u ts h e s = rw e (list_del_head u.addr t ts s)

completed-complete_task :
    (k : Linux) (u : Task) (h : Hba)
    → is_aborted (k.flags_after_free u.flags) ≡ true
    → (complete_task k u h).completed ≡ h.completed
unfolding complete_task
completed-complete_task k u h e = rw e

abort_all_lem :
    (k : Linux) (ts : List Task) (h : Hba)
    → k.flags_after_free aborted ≡ aborted
    → h.session.scsitap_queue ≡ ts
    → IsConsistent h
    → let h' = abort_all k ts h in
      IsConsistent h' × (h'.session.scsitap_queue ≡ []) × (h'.completed ≡ h.completed)
unfolding abort_all
abort_all_lem k [] h kept e v = (v, e, refl)
abort_all_lem k (t ∷ ts) h kept e v =
    let u = record t { flags = aborted } in
    let at : task_at t.addr h.session.scsitap_queue ≡ some t = rw e (task_at_head t ts) in
    let (w, empty_, same) =
      abort_all_lem k ts (complete_task k u h) kept (queue-complete_task k t u ts h e refl)
        (complete_task-IsConsistent k u t h at refl v) in
    (w, empty_, same ∙ completed-complete_task k u h (rw kept))

no_pointer :
    (h : Hba) → h.session.scsitap_queue ≡ [] → IsConsistent h → (p : ℕ) → (h.cmnds p).ptr ≡ none
unfolding task_at
no_pointer h e v p = elim (Option-cases (h.cmnds p).ptr) [
  | inl n ↦ n
  | inr (a, q) ↦ let (t, at, _) = v.backed p a q in ground arith
]

-- On a consistent session with a free lock, and if the flags of a freed task still read as
-- "aborted", a host reset empties the queue: nothing is pending, no command points at a task,
-- none was completed, and the lock is free.
pub eh_host_reset_empties :
    (k : Linux) (h : Hba)
    → h.session.queue_locked ≡ false
    → k.flags_after_free aborted ≡ aborted
    → IsConsistent h
    → Ensures
        (λ (r, h').
          (r ≡ success)
          × (h'.session.scsitap_queue ≡ [])
          × (h'.session.cmd_numbers ≡ 0)
          × ((p : ℕ) → (h'.cmnds p).ptr ≡ none)
          × (h'.completed ≡ h.completed)
          × (h'.session.queue_locked ≡ false))
        (eh_host_reset k h)
unfolding eh_host_reset
eh_host_reset_empties k h free kept v =
    let q = h.session.scsitap_queue in
    let (w, empty_, same) =
      abort_all_lem k q (with_lock true h) kept refl
        (record { counted = v.counted; linked = v.linked; backed = v.backed }) in
    rw (spin_lock_free h free) (
      refl,
      empty_,
      w.counted ∙ ap (λ (l : List Task). length l % 2 ^ 32) empty_,
      no_pointer _ empty_ w,
      same,
      refl,
    )

-- A completion that is not read as an abort.
completed_one :
    (k : Linux) (u : Task) (h : Hba)
    → is_aborted (k.flags_after_free u.flags) ≡ false
    → (complete_task k u h).completed ≡ u.sc ∷ h.completed
unfolding complete_task
completed_one k u h e = rw e

abbrev pub Pending : Linux → List Task → Type 0
Pending k = All (λ t. is_aborted (k.flags_after_free t.flags) ≡ false)

abbrev step : Linux → Task → Hba → Hba
step k t h = complete_task k t (update_cmnd h t.sc (fail_no_connect k))

step-IsConsistent :
    (k : Linux) (t : Task) (ts : List Task) (h : Hba)
    → h.session.scsitap_queue ≡ t ∷ ts
    → IsConsistent h
    → IsConsistent (step k t h)
step-IsConsistent k t ts h e v =
    complete_task-IsConsistent k t t (update_cmnd h t.sc (fail_no_connect k))
      (rw e (task_at_head t ts)) refl
      (update_cmnd-IsConsistent t.sc (fail_no_connect k) h (unfold fail_no_connect in refl) v)

-- Once a command has failed, no later step changes its result.
step_keeps :
    (k : Linux) (t : Task) (h : Hba) (p : ℕ)
    → (h.cmnds p).result ≡ k.did_no_connect * 2 ^ 16
    → ((step k t h).cmnds p).result ≡ k.did_no_connect * 2 ^ 16
unfolding complete_task fail_no_connect
step_keeps k t h p e = ground arith

step_fails :
    (k : Linux) (t : Task) (h : Hba) → ((step k t h).cmnds t.sc).result ≡ k.did_no_connect * 2 ^ 16
unfolding complete_task fail_no_connect
step_fails k t h = ground arith

fail_all_keeps :
    (k : Linux) (ts : List Task) (h : Hba) (p : ℕ)
    → (h.cmnds p).result ≡ k.did_no_connect * 2 ^ 16
    → ((fail_all k ts h).cmnds p).result ≡ k.did_no_connect * 2 ^ 16
unfolding fail_all
fail_all_keeps k [] h p e = e
fail_all_keeps k (t ∷ ts) h p e = fail_all_keeps k ts (step k t h) p (step_keeps k t h p e)

fail_all_results :
    (k : Linux) (ts : List Task) (h : Hba)
    → All (λ t. ((fail_all k ts h).cmnds t.sc).result ≡ k.did_no_connect * 2 ^ 16) ts
unfolding fail_all
fail_all_results k [] h = tt
fail_all_results k (t ∷ ts) h =
    (fail_all_keeps k ts (step k t h) t.sc (step_fails k t h), fail_all_results k ts (step k t h))

-- The queued commands of a consistent session that goes away, none of which reads as aborted once
-- its task was freed: each is completed exactly once, in the queue's order, with "no connection"
-- for its result, and the queue is left empty and consistent.
pub fail_all_completes :
    (k : Linux) (ts : List Task) (h : Hba)
    → h.session.scsitap_queue ≡ ts
    → Pending k ts
    → IsConsistent h
    → let h' = fail_all k ts h in
      IsConsistent h'
      × (h'.session.scsitap_queue ≡ [])
      × (h'.completed ≡ reverse (map (λ t. t.sc) ts) ++ h.completed)
      × All (λ t. (h'.cmnds t.sc).result ≡ k.did_no_connect * 2 ^ 16) ts
unfolding fail_all
fail_all_completes k [] h e live v = (v, e, refl, tt)
fail_all_completes k (t ∷ ts) h e live v =
    let u = update_cmnd h t.sc (fail_no_connect k) in
    let (w, empty_, order, _) =
      fail_all_completes k ts (step k t h) (queue-complete_task k t t ts u e refl) live.1
        (step-IsConsistent k t ts h e v) in
    (
      w,
      empty_,
      order
          ∙ ap (λ l. reverse (map (λ (x : Task). x.sc) ts) ++ l) (completed_one k t u live.0)
          ∙ simp (reverse-cons, append_assoc),
      fail_all_results k (t ∷ ts) h,
    )
