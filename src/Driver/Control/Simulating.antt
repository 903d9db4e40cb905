-- ===== src/Driver/Control/Simulating.antt =====
-- The locked sections of the mid layer's calls on a session, as moves on the abstract ledger.
use mathlib.Core.Path.{subst}
use vscsi_hba.Base.{
  true, false, Bool, ℕ, ◌≡◌, refl, ap, ◌∙◌, Bool, false, List, [], ◌∷◌, ◌++◌, Option, none, some,
  ◌==◌, map, arith, Bool-cases, inl, inr,
}
use vscsi_hba.Linux.{Linux, aborted}
use vscsi_hba.Driver.State.{Task, Hba, Connection, ready, not_ready, Ret, bytes, with_lock}
use vscsi_hba.Driver.Tasks.{
  complete_task, queue_locked, enqueue, abort_ptr, abort_at, abort_all, task_at, list_del,
  is_aborted,
}
use vscsi_hba.Driver.Tasks.Invariant.{IsConsistent, addr-task_at, complete_task-IsConsistent}
use vscsi_hba.Driver.Tasks.Aborting.{task_at_head, queue-complete_task}
use vscsi_hba.Driver.Control.Calls.{Whenever}
use vscsi_hba.Driver.Control.Sparing.{IsSpared, IsFaithful, drop_allowed, append-Pending}
use vscsi_hba.Driver.Tasks.{alloc_task}
use vscsi_hba.Driver.Control.Ledger.{
  Ledger, Removes, here, there, Moves, accepts, refuses, completes, drops, Evolves, stays, moves,
  Evolves-trans,
}

abbrev commands : List Task → List ℕ
commands = map (λ t. t.sc)

-- What a session shows.
abbrev pub ledger : Hba → Ledger
ledger h = record { pending = commands h.session.scsitap_queue; completed = h.completed }

commands-list_del :
    (a : ℕ) (ts : List Task) (u : Task)
    → task_at a ts ≡ some u
    → Removes u.sc (commands ts) (commands (list_del a ts))
unfolding task_at list_del
commands-list_del a [] u e = cc
commands-list_del a (x ∷ ts) u e = elim (Bool-cases (x.addr == a)) [
  | inl hit ↦
      let same : x ≡ u = ground arith in
      rw hit
        (subst (λ y. Removes y.sc (x.sc ∷ commands ts) (commands ts)) same (here (commands ts)))
  | inr miss ↦ rw miss (there x.sc (commands ts) _ (commands-list_del a ts u (ground arith)))
]

commands-append :
    (ts : List Task) (t : Task) → commands (ts ++ (t ∷ [])) ≡ commands ts ++ (t.sc ∷ [])
commands-append [] t = refl
commands-append (x ∷ ts) t = ap (◌∷◌ x.sc) (commands-append ts t)

-- Whether a call takes a command in, by what it returns.
abbrev pub taken_in : ℕ → Ret → List ℕ
taken_in sc (bytes n) = sc ∷ []
taken_in sc _ = []

abbrev pub none_in : Ret → List ℕ
none_in r = []

pub repacked : (b : Bool) (h : Hba) → IsConsistent h → IsConsistent (with_lock b h)
repacked b h v = record { counted = v.counted; linked = v.linked; backed = v.backed }

module _ (k : Linux) (d : Bool) where
  one : (l l' : Ledger) → Moves d [] l l' → Evolves d [] l l'
  one l l' m = moves [] [] l l' l' m (stays l')

  -- A task that is completed leaves the pending commands; whether `scsi_done` is called depends on
  -- flags that are read after the task was freed.
  pub complete_task-Evolves :
      (t u : Task) (h : Hba)
      → task_at t.addr h.session.scsitap_queue ≡ some u
      → u.sc ≡ t.sc
      → (d ≡ false → is_aborted (k.flags_after_free t.flags) ≡ false)
      → Evolves d [] (ledger h) (ledger (complete_task k t h))
  unfolding complete_task
  complete_task-Evolves t u h e s spared =
      let q = h.session.scsitap_queue in
      let gone : Removes t.sc (commands q) (commands (list_del t.addr q)) =
        subst (λ n. Removes n (commands q) (commands (list_del t.addr q))) s
          (commands-list_del t.addr q u e) in
      let b = is_aborted (k.flags_after_free t.flags) in
      elim (Bool-cases b) [
        | inl dead ↦
            let allowed = drop_allowed d b spared dead in
            rw dead (one _ _ (drops t.sc (commands q) _ h.completed allowed gone))
        | inr live ↦ rw live (one _ _ (completes t.sc (commands q) _ h.completed gone))
      ]

  -- What a call leaves.
  abbrev pub Good : (Ret → List ℕ) → Hba → Ret × Hba → Type 0
  Good ins h (r, h') = IsConsistent h' × IsSpared k d h' × Evolves d (ins r) (ledger h) (ledger h')

  pub queue_locked-Evolves :
      (slot : Option ℕ) (sc : ℕ) (c : Connection) (h : Hba)
      → let (r, h') = queue_locked k slot sc c h in Evolves d (taken_in sc r) (ledger h) (ledger h')
  unfolding queue_locked enqueue
  queue_locked-Evolves slot sc not_ready h =
      moves (sc ∷ []) [] _ _ _ (refuses sc (commands h.session.scsitap_queue) h.completed) (stays _)
  queue_locked-Evolves none sc ready h = stays _
  queue_locked-Evolves (some a) sc ready h = rw (commands-append h.session.scsitap_queue _) (
      moves (sc ∷ []) [] _ _ _ (accepts sc (commands h.session.scsitap_queue) h.completed)
        (stays _))

  pub queue_locked-IsSpared :
      (slot : Option ℕ) (sc : ℕ) (c : Connection) (h : Hba)
      → IsFaithful k d
      → IsSpared k d h
      → IsSpared k d (queue_locked k slot sc c h).1
  unfolding queue_locked enqueue alloc_task
  queue_locked-IsSpared slot sc not_ready h kept spared = spared
  queue_locked-IsSpared none sc ready h kept spared = spared
  queue_locked-IsSpared (some a) sc ready h kept spared =
      λ e. append-Pending k h.session.scsitap_queue _ (spared e) (kept e).0

  -- Only where commands may be dropped.
  abort_at-Good :
      (t : Task) (h : Hba)
      → d ≡ true
      → task_at t.addr h.session.scsitap_queue ≡ some t
      → IsConsistent h
      → Whenever (Good none_in h) (abort_at k (some t) h)
  unfolding abort_at
  abort_at-Good t h drops_ at v =
      let u = record t { flags = aborted } in
      (
        repacked false _ (complete_task-IsConsistent k u t h at refl v),
        λ e. absurd (cc),
        complete_task-Evolves u t h at refl (λ e. absurd (cc)),
      )

  pub abort_ptr-Good :
      (sc : ℕ) (p : Option ℕ) (h : Hba)
      → d ≡ true
      → (h.cmnds sc).ptr ≡ p
      → IsConsistent h
      → Whenever (Good none_in h) (abort_ptr k p h)
  unfolding abort_ptr
  abort_ptr-Good sc none h drops_ e v = (repacked false h v, λ e. absurd (cc), stays (ledger h))
  abort_ptr-Good sc (some a) h drops_ e v =
      let q = h.session.scsitap_queue in
      let (t, at, same) = v.backed sc a e in
      let here_ : task_at t.addr q ≡ some t = ap (λ x. task_at x q) (addr-task_at a q t at) ∙ at in
      rw at (abort_at-Good t h drops_ here_ v)

  pub abort_all-Good :
      (ts : List Task) (h : Hba)
      → d ≡ true
      → h.session.scsitap_queue ≡ ts
      → IsConsistent h
      → IsConsistent (abort_all k ts h) × Evolves d [] (ledger h) (ledger (abort_all k ts h))
  unfolding abort_all
  abort_all-Good [] h drops_ e v = (v, stays (ledger h))
  abort_all-Good (t ∷ ts) h drops_ e v =
      let u = record t { flags = aborted } in
      let at : task_at t.addr h.session.scsitap_queue ≡ some t = rw e (task_at_head t ts) in
      let h' = complete_task k u h in
      let (w, more) =
        abort_all-Good ts h' drops_ (queue-complete_task k t u ts h e refl)
          (complete_task-IsConsistent k u t h at refl v) in
      (
        w,
        Evolves-trans d [] [] (ledger h) (ledger h') _
            (complete_task-Evolves u t h at refl (λ e. absurd (cc))) more,
      )
