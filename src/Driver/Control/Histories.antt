-- ===== src/Driver/Control/Histories.antt =====
-- The life of a control device, kernel/device.c: files that are opened, registered and closed, and
-- hosts that are taken away.
use mathlib.Core.Path.{subst}
use vscsi_hba.Base.{
  ℕ, suc, ◌+◌, ◌≡◌, ◌≢◌, ◌<◌, refl, ap, ◌∙◌, true, false, List, [], ◌∷◌, ◌++◌, none, some, ◌==◌,
  length, length-append, arith, Bool-cases, Option-cases, inl, inr, u32,
}
use vscsi_hba.Linux.{Linux}
use vscsi_hba.Driver.State.{Hba, Ret, Ensures, spin_lock}
use vscsi_hba.Driver.Sessions.{
  Driver, NewHost, destroy_session, get_session, hba_at, put_hba, new_hba, create_session,
  lock_sessions,
}
use vscsi_hba.Driver.Sessions.Lookup.{shost-hba_at, hba_at-append_self, get_session-hba_at}
use vscsi_hba.Driver.Control.{
  File, unregister, unregister_locked, attach, attached, attach_new, register, register_locked,
  detached, ctl_release, release_at,
}
use vscsi_hba.Driver.Control.Attachment.{
  points, attachments, Tracks, Coherent, attachments_le, attachments-append, put_hba-Coherent,
  append-Coherent, remove_hba-Coherent,
}

-- The open files and the driver.
pub record World : Type 0 where
  pub files : List File
  pub driver : Driver

abbrev pub world : List File → Driver → World
world fs d = record { files = fs; driver = d }

-- `Device_Open` counts the files of a session, a session is ready exactly when it has one, no file
-- points at a session that is gone, and the session lock is free.
pub record IsCoherent (w : World) : Type 0 where
  pub coherent : Coherent (λ a. attachments a w.files) w.driver.hbas
  pub few : length w.files < 256
  pub free : w.driver.session_locked ≡ false

pub attachments_at :
    (a : ℕ) (xs ys : List File) (f : File)
    → attachments a (xs ++ (f ∷ ys))
      ≡ points a f.private_data + (attachments a xs + attachments a ys)
unfolding attachments
attachments_at a xs ys f = omega (arith, attachments-append a xs (f ∷ ys))

pub points-none : (a : ℕ) → points a none ≡ 0
unfolding points
points-none a = refl

pub points_self : (a : ℕ) → points a (some a) ≡ 1
unfolding points
points_self a = ground arith

points_ne : (a b : ℕ) → b ≢ a → points b (some a) ≡ 0
unfolding points
points_ne a b ne = ground (arith, ne)

-- A file that registers with a session.
attach-IsCoherent :
    (pid : ℕ) (xs ys : List File) (f : File) (h : Hba) (d : Driver)
    → f.private_data ≡ none
    → length (xs ++ (f ∷ ys)) < 256
    → hba_at h.session.shost d.hbas ≡ some h
    → Coherent (λ a. attachments a (xs ++ (f ∷ ys))) d.hbas
    → let (r, f', d') = attach pid f h d in IsCoherent (world (xs ++ (f' ∷ ys)) d')
unfolding attach
attach-IsCoherent pid xs ys f h d unattached few at_ v =
    let a = h.session.shost in
    let f' = record f { private_data = some a } in
    let empty = λ (b : ℕ). ap (points b) unattached ∙ points-none b in
    let short = length-append xs (f ∷ ys) in
    record {
      coherent =
          put_hba-Coherent (λ b. attachments b (xs ++ (f ∷ ys)))
            (λ b. attachments b (xs ++ (f' ∷ ys))) a h (attached pid h) d.hbas at_ refl
            (λ b ne. omega (
              arith,
              attachments_at b xs ys f,
              attachments_at b xs ys f',
              empty b,
              points_ne a b ne,
            ))
            (λ (open_, flag).
              let more : attachments a (xs ++ (f' ∷ ys)) ≡ suc (attachments a (xs ++ (f ∷ ys))) =
                omega (
                  arith,
                  attachments_at a xs ys f,
                  attachments_at a xs ys f',
                  empty a,
                  points_self a,
                ) in
              let bound : attachments a (xs ++ (f' ∷ ys)) < 256 =
                omega
                  (arith, attachments_le a (xs ++ (f' ∷ ys)), length-append xs (f' ∷ ys), short) in
              (ground arith, ground arith))
            v;
      few = omega (arith, length-append xs (f' ∷ ys), short);
      free = refl;
    }

-- What `register` leaves, with the file between the others.
abbrev Registered : List File → List File → Ret × File × Driver → Type 0
Registered xs ys (r, f', d') = IsCoherent (world (xs ++ (f' ∷ ys)) d')

attach_new-IsCoherent :
    (n : NewHost) (minor pid : ℕ) (xs ys : List File) (f : File) (d : Driver)
    → f.private_data ≡ none
    → ((a : ℕ) → n.shost ≡ some a → hba_at a d.hbas ≡ none)
    → length (xs ++ (f ∷ ys)) < 256
    → Coherent (λ a. attachments a (xs ++ (f ∷ ys))) d.hbas
    → Registered xs ys (attach_new pid f (create_session n minor d))
unfolding attach_new create_session new_hba
attach_new-IsCoherent n minor pid xs ys f d unattached fresh few v = elim (Option-cases n.shost) [
  | inl e ↦ rw e (record { coherent = v; few = few; free = refl })
  | inr (a, e) ↦ elim (Bool-cases n.add_fails) [
    | inl fails ↦ rw (e, fails) (record { coherent = v; few = few; free = refl })
    | inr fails ↦
        let h = new_hba a minor n.cmnds in
        let gone : hba_at h.session.shost d.hbas ≡ none = fresh a e in
        rw (e, fails)
          (attach-IsCoherent pid xs ys f h
            (record d { hbas = d.hbas ++ (h ∷ []); last_id = u32 (d.last_id + 1) }) unattached few
            (hba_at-append_self d.hbas h gone)
            (append-Coherent (λ b. attachments b (xs ++ (f ∷ ys))) h d.hbas gone refl refl v))
  ]
]

-- In a coherent world, a file that is not attached registers, with a new host, if one is made, at
-- an address that no session has: the call returns, and the world stays coherent.
pub register-IsCoherent :
    (n : NewHost) (minor pid : ℕ) (xs ys : List File) (f : File) (d : Driver)
    → f.private_data ≡ none
    → ((a : ℕ) → n.shost ≡ some a → hba_at a d.hbas ≡ none)
    → IsCoherent (world (xs ++ (f ∷ ys)) d)
    → Ensures (λ (r, f', d'). IsCoherent (world (xs ++ (f' ∷ ys)) d')) (register n minor pid f d)
unfolding register lock_sessions register_locked
register-IsCoherent n minor pid xs ys f d unattached fresh v =
    rw v.free (elim (Option-cases (get_session minor d.hbas)) [
      | inl e ↦ rw e (
          attach_new-IsCoherent n minor pid xs ys f (record d { session_locked = true }) unattached
            fresh v.few v.coherent)
      | inr (h, e) ↦ rw e (
          attach-IsCoherent pid xs ys f h (record d { session_locked = true }) unattached v.few
            (get_session-hba_at minor d.hbas h v.coherent.0 e) v.coherent)
    ])

-- In a coherent world, taking away the session of a minor number, whose queue lock is free,
-- returns and leaves the world coherent: no open file points at a session that went.
pub unregister-IsCoherent :
    (k : Linux) (minor : ℕ) (fs : List File) (d : Driver)
    → ((h : Hba) → get_session minor d.hbas ≡ some h → h.session.queue_locked ≡ false)
    → IsCoherent (world fs d)
    → Ensures (λ (r, d'). IsCoherent (world fs d')) (unregister k minor d)
unfolding unregister lock_sessions unregister_locked destroy_session spin_lock
unregister-IsCoherent k minor fs d idle v =
    rw v.free (elim (Option-cases (get_session minor d.hbas)) [
      | inl e ↦ rw e (record { coherent = v.coherent; few = v.few; free = refl })
      | inr (h, e) ↦ elim (Bool-cases (h.session.device_open == 0)) [
        | inl closed ↦
            rw (e, closed, idle h e)
              (record {
                coherent =
                    remove_hba-Coherent (λ a. attachments a fs) h.session.shost h d.hbas
                      (get_session-hba_at minor d.hbas h v.coherent.0 e) (ground (arith, closed))
                      v.coherent;
                few = v.few;
                free = refl;
              })
        | inr open_ ↦ rw (e, open_) (record { coherent = v.coherent; few = v.few; free = refl })
      ]
    ])

-- A file that is attached points at a session that is there.
pub attached_session :
    (a : ℕ) (count : ℕ → ℕ) (hs : List Hba)
    → 0 < count a
    → Coherent count hs
    → (h : Hba) × (hba_at a hs ≡ some h)
attached_session a count hs some_ v = elim (Option-cases (hba_at a hs)) [
  | inl e ↦ absurd (let none_ : count a ≡ 0 = subst (Tracks (count a)) e (v.1 a) in omega arith)
  | inr (h, e) ↦ (h, e)
]

abbrev Closed : List File → List File → Driver → Type 0
Closed xs ys d' = IsCoherent (world (xs ++ ys) d')

-- The session of a file that is closed.
detached-IsCoherent :
    (a : ℕ) (xs ys : List File) (f : File) (h : Hba) (d : Driver)
    → f.private_data ≡ some a
    → hba_at a d.hbas ≡ some h
    → length (xs ++ (f ∷ ys)) < 256
    → Coherent (λ b. attachments b (xs ++ (f ∷ ys))) d.hbas
    → Coherent (λ b. attachments b (xs ++ ys)) (put_hba a (detached h) d.hbas)
detached-IsCoherent a xs ys f h d points_at at_ few v =
    let one : (b : ℕ)
        → attachments b (xs ++ (f ∷ ys)) ≡ points b (some a) + attachments b (xs ++ ys) =
      λ b.
        omega
          (arith, attachments_at b xs ys f, attachments-append b xs ys, ap (points b) points_at) in
    put_hba-Coherent (λ b. attachments b (xs ++ (f ∷ ys))) (λ b. attachments b (xs ++ ys)) a h
      (detached h) d.hbas at_ (shost-hba_at a d.hbas h at_)
      (λ b ne. omega (arith, one b, points_ne a b ne))
      (λ (open_, flag).
        let fewer : attachments a (xs ++ (f ∷ ys)) ≡ suc (attachments a (xs ++ ys)) =
          omega (arith, one a, points_self a) in
        let bound : attachments a (xs ++ (f ∷ ys)) < 256 =
          omega (arith, attachments_le a (xs ++ (f ∷ ys))) in
        (ground arith, ground arith))
      v

length-remove :
    (xs ys : List File) (f : File) → length (xs ++ (f ∷ ys)) < 256 → length (xs ++ ys) < 256
length-remove xs ys f h = omega (arith, length-append xs (f ∷ ys), length-append xs ys)

-- Any open file of a coherent world can be closed: the call returns, its pointer is not dangling,
-- and the world without the file is coherent.
pub ctl_release-IsCoherent :
    (xs ys : List File) (f : File) (d : Driver)
    → IsCoherent (world (xs ++ (f ∷ ys)) d)
    → Ensures (λ d'. IsCoherent (world (xs ++ ys) d')) (ctl_release f.private_data d)
unfolding ctl_release lock_sessions release_at
ctl_release-IsCoherent xs ys f d v = elim (Option-cases f.private_data) [
  | inl e ↦ rw e (record {
    coherent = (
      v.coherent.0,
      λ b.
          subst (λ c. Tracks c (hba_at b d.hbas))
            (omega (
              arith,
              attachments_at b xs ys f,
              attachments-append b xs ys,
              ap (points b) e,
              points-none b,
            ))
            (v.coherent.1 b),
    );
    few = length-remove xs ys f v.few;
    free = v.free;
  })
  | inr (a, e) ↦
      let held : 0 < attachments a (xs ++ (f ∷ ys)) =
        omega (arith, attachments_at a xs ys f, ap (points a) e, points_self a) in
      let (h, at_) =
        attached_session a (λ b. attachments b (xs ++ (f ∷ ys))) d.hbas held v.coherent in
      rw (e, v.free, at_)
        (record {
          coherent = detached-IsCoherent a xs ys f h d e at_ v.few v.coherent;
          few = length-remove xs ys f v.few;
          free = refl;
        })
]
