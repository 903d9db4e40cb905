-- ===== src/Driver/Tasks/Invariant.antt =====
-- The representation invariant of a session's task queue, and that the steps on it keep it.
use vscsi_hba.Base.{
  ℕ, suc, ◌≡◌, ◌≢◌, refl, ◌∙◌, Bool, true, false, List, [], ◌∷◌, ◌++◌, none, some, ◌==◌,
  if◌then◌else◌, length, length-append, u32, arith, Bool-cases, inl, inr,
}
use vscsi_hba.Linux.{Linux}
use vscsi_hba.Driver.State.{Task, ScsiCmnd, Hba, update_cmnd, with_ptr}
use vscsi_hba.Driver.Tasks.{list_del, task_at, complete_task, enqueue}

-- Whether the address is that of a queued task.
unfoldable pub has_addr : ℕ → List Task → Bool
has_addr a [] = false
has_addr a (t ∷ ts) = if t.addr == a then true else has_addr a ts

-- The commands behind the tasks point back at them, and no two tasks share a slot.
abbrev pub Linked : (ℕ → ScsiCmnd) → List Task → Type 0
Linked c [] = Unit {0}
Linked c (t ∷ ts) = ((c t.sc).ptr ≡ some t.addr) × (has_addr t.addr ts ≡ false) × Linked c ts

-- A command's pointer is null or leads to the task of that command.
abbrev pub Backed : (ℕ → ScsiCmnd) → List Task → Type 0
Backed c ts = (sc a : ℕ) → (c sc).ptr ≡ some a → (t : Task) × (task_at a ts ≡ some t) × (t.sc ≡ sc)

-- `cmd_numbers` counts the queue, and commands and tasks point at each other.
pub record IsConsistent (h : Hba) : Type 0 where
  pub counted : h.session.cmd_numbers ≡ u32 (length h.session.scsitap_queue)
  pub linked : Linked h.cmnds h.session.scsitap_queue
  pub backed : Backed h.cmnds h.session.scsitap_queue

abbrev pub update : (ℕ → ScsiCmnd) → ℕ → (ScsiCmnd → ScsiCmnd) → ℕ → ScsiCmnd
update c sc f p = if p == sc then f (c p) else c p

pub addr-task_at : (a : ℕ) (ts : List Task) (t : Task) → task_at a ts ≡ some t → t.addr ≡ a
unfolding task_at
addr-task_at a [] t e = cc
addr-task_at a (x ∷ ts) t e = ground (arith, addr-task_at a ts t)

pub has_addr_of_task_at :
    (a : ℕ) (ts : List Task) (t : Task) → task_at a ts ≡ some t → has_addr a ts ≡ true
unfolding task_at has_addr
has_addr_of_task_at a [] t e = cc
has_addr_of_task_at a (x ∷ ts) t e = ground (arith, has_addr_of_task_at a ts t)

has_addr-list_del :
    (a b : ℕ) (ts : List Task) → has_addr a ts ≡ false → has_addr a (list_del b ts) ≡ false
unfolding has_addr list_del
has_addr-list_del a b [] e = refl
has_addr-list_del a b (x ∷ ts) e = ground (arith, has_addr-list_del a b ts)

pub task_at-list_del : (a b : ℕ) (ts : List Task) → a ≢ b → task_at a (list_del b ts) ≡ task_at a ts
unfolding task_at list_del
task_at-list_del a b [] n = refl
task_at-list_del a b (x ∷ ts) n = ground (arith, task_at-list_del a b ts)

length-list_del :
    (a : ℕ) (ts : List Task) → has_addr a ts ≡ true → suc (length (list_del a ts)) ≡ length ts
unfolding has_addr list_del
length-list_del a [] e = cc
length-list_del a (x ∷ ts) e = ground (arith, length-list_del a ts)

-- A change of a command that leaves its pointer alone.
pub Linked-update_same :
    (c : ℕ → ScsiCmnd) (sc : ℕ) (f : ScsiCmnd → ScsiCmnd) (ts : List Task)
    → (f (c sc)).ptr ≡ (c sc).ptr
    → Linked c ts
    → Linked (update c sc f) ts
Linked-update_same c sc f [] same l = tt
Linked-update_same c sc f (t ∷ ts) same l =
    ground (arith, same, Linked-update_same c sc f ts same l.2)

Backed-update_same :
    (c : ℕ → ScsiCmnd) (sc : ℕ) (f : ScsiCmnd → ScsiCmnd) (ts : List Task)
    → (f (c sc)).ptr ≡ (c sc).ptr
    → Backed c ts
    → Backed (update c sc f) ts
Backed-update_same c sc f ts same b p a e = b p a (ground (arith, same))

pub update_cmnd-IsConsistent :
    (sc : ℕ) (f : ScsiCmnd → ScsiCmnd) (h : Hba)
    → (f (h.cmnds sc)).ptr ≡ (h.cmnds sc).ptr
    → IsConsistent h
    → IsConsistent (update_cmnd h sc f)
update_cmnd-IsConsistent sc f h same v = record {
  counted = v.counted;
  linked = Linked-update_same h.cmnds sc f h.session.scsitap_queue same v.linked;
  backed = Backed-update_same h.cmnds sc f h.session.scsitap_queue same v.backed;
}

-- A pointer cleared that leads to none of the tasks.
Linked-clear :
    (c : ℕ → ScsiCmnd) (sc a : ℕ) (f : ScsiCmnd → ScsiCmnd) (ts : List Task)
    → has_addr a ts ≡ false
    → ((b : ℕ) → (c sc).ptr ≡ some b → a ≡ b)
    → Linked c ts
    → Linked (update c sc f) ts
unfolding has_addr
Linked-clear c sc a f [] n e l = tt
Linked-clear c sc a f (t ∷ ts) n e l =
    ground (arith, e t.addr, Linked-clear c sc a f ts (ground arith) e l.2)

pub ptr_of_task_at :
    (c : ℕ → ScsiCmnd) (a : ℕ) (ts : List Task) (t : Task)
    → task_at a ts ≡ some t
    → Linked c ts
    → (c t.sc).ptr ≡ some a
unfolding task_at
ptr_of_task_at c a [] t e l = cc
ptr_of_task_at c a (x ∷ ts) t e l = ground (arith, ptr_of_task_at c a ts t)

Linked-list_del :
    (c : ℕ → ScsiCmnd) (sc a : ℕ) (f : ScsiCmnd → ScsiCmnd) (ts : List Task) (t : Task)
    → task_at a ts ≡ some t
    → t.sc ≡ sc
    → Linked c ts
    → Linked (update c sc f) (list_del a ts)
unfolding task_at list_del
Linked-list_del c sc a f [] t e s l = cc
Linked-list_del c sc a f (x ∷ ts) t e s l = elim (Bool-cases (x.addr == a)) [
  | inl hit ↦
      rw hit (Linked-clear c sc a f ts (ground (arith, l.1)) (λ b p. ground (arith, l.0)) l.2)
  | inr miss ↦ rw miss (
      let rest : task_at a ts ≡ some t = ground arith in
      ground (
        arith,
        l.0,
        has_addr-list_del x.addr a ts l.1,
        ptr_of_task_at c a ts t rest l.2,
        Linked-list_del c sc a f ts t rest s l.2,
      ))
]

Backed-list_del :
    (c : ℕ → ScsiCmnd) (sc a : ℕ) (f : ScsiCmnd → ScsiCmnd) (ts : List Task) (t : Task)
    → ((x : ScsiCmnd) → (f x).ptr ≡ none)
    → task_at a ts ≡ some t
    → t.sc ≡ sc
    → Backed c ts
    → Backed (update c sc f) (list_del a ts)
Backed-list_del c sc a f ts t clears e s back p b h = elim (Bool-cases (p == sc)) [
  | inl hit ↦ ground (arith, clears (c p))
  | inr miss ↦
      let old : (c p).ptr ≡ some b = ground arith in
      let (u, at, same) = back p b old in
      let other : b ≢ a = λ q. ground arith in (u, task_at-list_del b a ts other ∙ at, same)
]

-- A task that is completed leaves the queue, and its command's pointer is cleared. The caller may
-- have set the task's flags before.
pub complete_task-IsConsistent :
    (k : Linux) (t u : Task) (h : Hba)
    → task_at t.addr h.session.scsitap_queue ≡ some u
    → u.sc ≡ t.sc
    → IsConsistent h
    → IsConsistent (complete_task k t h)
unfolding complete_task
complete_task-IsConsistent k t u h e s v = record {
  counted = omega (
    arith,
    length-list_del t.addr h.session.scsitap_queue
        (has_addr_of_task_at t.addr h.session.scsitap_queue u e),
    v.counted,
  );
  linked =
      Linked-list_del h.cmnds t.sc t.addr (with_ptr none) h.session.scsitap_queue u e s v.linked;
  backed =
      Backed-list_del h.cmnds t.sc t.addr (with_ptr none) h.session.scsitap_queue u (λ x. refl) e s
        v.backed;
}

has_addr-append :
    (a : ℕ) (ts : List Task) (t : Task)
    → has_addr a ts ≡ false
    → t.addr ≢ a
    → has_addr a (ts ++ (t ∷ [])) ≡ false
unfolding has_addr
has_addr-append a [] t e n = ground arith
has_addr-append a (x ∷ ts) t e n = ground (arith, has_addr-append a ts t)

task_at-append :
    (a : ℕ) (ts : List Task) (t u : Task)
    → task_at a ts ≡ some u
    → task_at a (ts ++ (t ∷ [])) ≡ some u
unfolding task_at
task_at-append a [] t u e = cc
task_at-append a (x ∷ ts) t u e = ground (arith, task_at-append a ts t u)

task_at-append_new :
    (ts : List Task) (t : Task)
    → has_addr t.addr ts ≡ false
    → task_at t.addr (ts ++ (t ∷ [])) ≡ some t
unfolding task_at has_addr
task_at-append_new [] t e = ground arith
task_at-append_new (x ∷ ts) t e = ground (arith, task_at-append_new ts t)

Linked-append :
    (c : ℕ → ScsiCmnd) (f : ScsiCmnd → ScsiCmnd) (ts : List Task) (t : Task)
    → ((x : ScsiCmnd) → (f x).ptr ≡ some t.addr)
    → (c t.sc).ptr ≡ none
    → has_addr t.addr ts ≡ false
    → Linked c ts
    → Linked (update c t.sc f) (ts ++ (t ∷ []))
unfolding has_addr
Linked-append c f [] t sets free n l = ground (arith, sets (c t.sc))
Linked-append c f (x ∷ ts) t sets free n l = ground (
  arith,
  l.0,
  has_addr-append x.addr ts t l.1,
  Linked-append c f ts t sets free (ground arith) l.2,
)

Backed-append :
    (c : ℕ → ScsiCmnd) (f : ScsiCmnd → ScsiCmnd) (ts : List Task) (t : Task)
    → ((x : ScsiCmnd) → (f x).ptr ≡ some t.addr)
    → has_addr t.addr ts ≡ false
    → Backed c ts
    → Backed (update c t.sc f) (ts ++ (t ∷ []))
Backed-append c f ts t sets n back p a h = elim (Bool-cases (p == t.sc)) [
  | inl hit ↦
      let e : t.addr ≡ a = ground (arith, sets (c p)) in
      (t, rw (← e) (task_at-append_new ts t n), ground arith)
  | inr miss ↦ let (u, at, same) = back p a (ground arith) in (u, task_at-append a ts t u at, same)
]

-- A command that has no task gets one, in a slot that no queued task uses.
pub enqueue-IsConsistent :
    (slot sc : ℕ) (h : Hba)
    → (h.cmnds sc).ptr ≡ none
    → has_addr slot h.session.scsitap_queue ≡ false
    → IsConsistent h
    → IsConsistent (enqueue slot sc h)
unfolding enqueue
enqueue-IsConsistent slot sc h free n v = record {
  counted = omega (arith, length-append {0} h.session.scsitap_queue (_ ∷ []), v.counted);
  linked =
      Linked-append h.cmnds (with_ptr (some slot)) h.session.scsitap_queue _ (λ x. refl) free n
        v.linked;
  backed =
      Backed-append h.cmnds (with_ptr (some slot)) h.session.scsitap_queue _ (λ x. refl) n v.backed;
}
