-- ===== src/Driver/Control/Registering.antt =====
-- What REGISTER_CLIENT of kernel/device.c does, on each of its branches.
use mathlib.Core.Path.{subst}
use vscsi_hba.Base.{
  ℕ, ◌+◌, ◌%◌, ◌^◌, ◌≡◌, ◌≢◌, refl, ◌∙◌, true, false, [], ◌∷◌, ◌++◌, Option, none, some,
  if◌then◌else◌, Bool-cases, Option-cases, inl, inr, u32,
}
use vscsi_hba.Driver.State.{Hba, Connection, ready, not_ready, Ret, success, eperm, Ensures}
use vscsi_hba.Driver.Sessions.{
  Driver, NewHost, get_session, hba_at, new_hba, create_session, lock_sessions,
}
use vscsi_hba.Driver.Sessions.Lookup.{
  Distinct, hba_at-put_hba_self, hba_at-put_hba_ne, hba_at-append_self, hba_at-append_ne,
  get_session-hba_at,
}
use vscsi_hba.Driver.Control.{
  File, scan_of, attached, attach, attach_new, register, register_locked,
}

-- The session that a file gets: that of the minor number, else one with the host that was made.
unfoldable pub session_for : NewHost → ℕ → Option Hba → Option Hba
unfolding new_hba
session_for n minor (some h) = some h
session_for n minor none = elim n.shost [
  | none ↦ none
  | some a ↦ if n.add_fails then none else some (new_hba a minor n.cmnds)
]

-- A session with one file more, and ready: the rest is as it was.
abbrev pub GainsFile : ℕ → Hba → Hba → Type 0
GainsFile pid h h' =
    (h'.session.flags ≡ ready)
    × (h'.session.device_open ≡ (h.session.device_open + 1) % 256)
    × (h'.session.pid ≡ pid % 2 ^ 32)
    × (h'.session.shost ≡ h.session.shost)
    × (h'.session.scsitap_queue ≡ h.session.scsitap_queue)
    × (h'.session.cmd_numbers ≡ h.session.cmd_numbers)
    × (h'.session.next_cmdnumber ≡ h.session.next_cmdnumber)
    × (h'.session.queue_locked ≡ h.session.queue_locked)
    × (h'.cmnds ≡ h.cmnds)
    × (h'.completed ≡ h.completed)

-- The host to scan before and after: a session that was not ready is handed to the scan.
abbrev pub Scans : Connection → ℕ → Option ℕ → Option ℕ → Type 0
Scans not_ready a before after = after ≡ some a
Scans ready a before after = after ≡ before

Scans-scan_of : (c : Connection) (a : ℕ) (w : Option ℕ) → Scans c a w (scan_of c a w)
Scans-scan_of not_ready a w = refl
Scans-scan_of ready a w = refl

-- Without a session the call fails and changes nothing. With one it succeeds: the file points at
-- it, it is ready, has one file more and the caller's process, and is to be scanned if it was not
-- ready before; the other sessions are as they were.
abbrev pub Registers : ℕ → File → Driver → Option Hba → Ret × File × Driver → Type 0
Registers pid f d none (r, f', d') =
    (r ≡ eperm) × (f' ≡ f) × (d'.hbas ≡ d.hbas) × (d'.scan_work ≡ d.scan_work)
Registers pid f d (some h) (r, f', d') =
    (r ≡ success)
    × (f'.private_data ≡ some h.session.shost)
    × ((h' : Hba) × (hba_at h.session.shost d'.hbas ≡ some h') × GainsFile pid h h')
    × ((b : ℕ) → b ≢ h.session.shost → hba_at b d'.hbas ≡ hba_at b d.hbas)
    × Scans h.session.flags h.session.shost d.scan_work d'.scan_work

attach-Registers :
    (pid : ℕ) (f : File) (d e : Driver) (h : Hba)
    → hba_at h.session.shost e.hbas ≡ some h
    → ((b : ℕ) → b ≢ h.session.shost → hba_at b e.hbas ≡ hba_at b d.hbas)
    → e.scan_work ≡ d.scan_work
    → Registers pid f d (some h) (attach pid f h e)
unfolding attach
attach-Registers pid f d e h at_ others scan = (
  refl,
  refl,
  (
    attached pid h,
    hba_at-put_hba_self h.session.shost e.hbas h (attached pid h) refl at_,
    (refl, refl, refl, refl, refl, refl, refl, refl, refl, refl),
  ),
  λ b ne. hba_at-put_hba_ne h.session.shost b e.hbas (attached pid h) refl ne ∙ others b ne,
  subst
      (λ w.
        Scans h.session.flags h.session.shost w
          (scan_of h.session.flags h.session.shost e.scan_work))
      scan (Scans-scan_of h.session.flags h.session.shost e.scan_work),
)

attach_new-Registers :
    (n : NewHost) (minor pid : ℕ) (f : File) (d : Driver)
    → ((a : ℕ) → n.shost ≡ some a → hba_at a d.hbas ≡ none)
    → Registers pid f d (session_for n minor none) (attach_new pid f (create_session n minor d))
unfolding attach_new create_session new_hba session_for
attach_new-Registers n minor pid f d fresh = elim (Option-cases n.shost) [
  | inl e ↦ rw e (refl, refl, refl, refl)
  | inr (a, e) ↦ elim (Bool-cases n.add_fails) [
    | inl fails ↦ rw (e, fails) (refl, refl, refl, refl)
    | inr fails ↦
        let h = new_hba a minor n.cmnds in
        rw (e, fails)
          (attach-Registers pid f d
            (record d { hbas = d.hbas ++ (h ∷ []); last_id = u32 (d.last_id + 1) }) h
            (hba_at-append_self d.hbas h (fresh a e)) (λ b ne. hba_at-append_ne b d.hbas h ne) refl)
  ]
]

-- With the session lock free, no two sessions at one address and a new host, if one is made, at
-- an address of its own, the call returns. If there is neither a session for the minor number nor
-- a host to be had, it returns -1 and changes no session. Otherwise the file points at that
-- session, which is ready, counts one file more (in eight bits), has the caller's process (in 32
-- bits) and keeps its queue, numbers, lock, commands and completions. It is handed to the scan if
-- it was not ready before, and else the host to be scanned is the one from before; all other
-- sessions are as they were.
pub register_lem :
    (n : NewHost) (minor pid : ℕ) (f : File) (d : Driver)
    → d.session_locked ≡ false
    → Distinct d.hbas
    → ((a : ℕ) → n.shost ≡ some a → hba_at a d.hbas ≡ none)
    → Ensures
        (Registers pid f d (session_for n minor (get_session minor d.hbas)))
        (register n minor pid f d)
unfolding register lock_sessions register_locked session_for
register_lem n minor pid f d free distinct fresh =
    let locked : Driver = record d { session_locked = true } in
    rw free (elim (Option-cases (get_session minor d.hbas)) [
      | inl e ↦ rw e (attach_new-Registers n minor pid f locked fresh)
      | inr (h, e) ↦ rw e (
          attach-Registers pid f locked locked h (get_session-hba_at minor d.hbas h distinct e)
            (λ b ne. refl) refl)
    ])
