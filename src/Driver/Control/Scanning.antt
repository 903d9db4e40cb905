-- ===== src/Driver/Control/Scanning.antt =====
-- The deferred scan of kernel/device.c, `scsitap_scan_hba`, and a host that is taken away.
use vscsi_hba.Base.{ℕ, ◌≡◌, refl, true, false, none, some, ◌==◌, arith}
use vscsi_hba.Linux.{Linux}
use vscsi_hba.Driver.State.{Hba, success, returns, dangling, Ensures, spin_lock_free}
use vscsi_hba.Driver.Sessions.{
  Driver, get_session, hba_at, scan_hba, destroy_session, lock_sessions,
}
use vscsi_hba.Driver.Sessions.Lookup.{Distinct, hba_at-remove_hba_self, get_session-hba_at}
use vscsi_hba.Driver.Control.{unregister, unregister_locked}

scan_hba_finds :
    (a : ℕ) (h : Hba) (d : Driver)
    → d.scan_work ≡ some a
    → hba_at a d.hbas ≡ some h
    → scan_hba d ≡ returns (record d { scan_work = none })
unfolding scan_hba
scan_hba_finds a h d work there = rw (work, scan_hba, there) refl

scan_hba_misses :
    (a : ℕ) (d : Driver) → d.scan_work ≡ some a → hba_at a d.hbas ≡ none → scan_hba d ≡ dangling
unfolding scan_hba
scan_hba_misses a d work gone = rw (work, scan_hba, gone) refl

-- The scan that a registration scheduled, for the session of a minor number with no control
-- device open: if the work runs now, it finds the session; if the session is taken away before it
-- runs, which succeeds, the work follows a pointer to a session that is gone.
pub scan_hba_dangles :
    (k : Linux) (minor : ℕ) (h : Hba) (d : Driver)
    → Distinct d.hbas
    → d.session_locked ≡ false
    → get_session minor d.hbas ≡ some h
    → h.session.device_open ≡ 0
    → h.session.queue_locked ≡ false
    → d.scan_work ≡ some h.session.shost
    → (scan_hba d ≡ returns (record d { scan_work = none }))
      × Ensures (λ (r, d'). (r ≡ success) × (scan_hba d' ≡ dangling)) (unregister k minor d)
unfolding unregister lock_sessions unregister_locked destroy_session
scan_hba_dangles k minor h d distinct free found closed idle work =
    let none_open : (h.session.device_open == 0) ≡ true = ground (arith, closed) in
    (
      scan_hba_finds h.session.shost h d work (get_session-hba_at minor d.hbas h distinct found),
      rw (free, found, none_open, spin_lock_free h idle)
          (
            refl,
            scan_hba_misses h.session.shost _ work
                (hba_at-remove_hba_self h.session.shost d.hbas distinct),
          ),
    )
