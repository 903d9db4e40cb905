-- ===== src/Driver/Control/Reach.antt =====
-- The worlds that the driver gets into: a control device that is opened, registered and closed
-- while the mid layer and the targets call into its sessions.
use mathlib.Core.Path.{subst}
use vscsi_hba.Base.{
  ℕ, ◌+◌, ◌≡◌, ◌<◌, refl, ap, ◌∙◌, false, List, [], ◌∷◌, ◌++◌, none, some, length, arith,
}
use vscsi_hba.Linux.{Linux}
use vscsi_hba.Driver.State.{Hba, ready, Outcome, returns, Ret, Ensures}
use vscsi_hba.Driver.Sessions.{Driver, NewHost, get_session, hba_at, put_hba, init}
use vscsi_hba.Driver.Sessions.Lookup.{shost-hba_at}
use vscsi_hba.Driver.Control.{File, ctl_open, register, unregister, ctl_release}
use vscsi_hba.Driver.Control.Attachment.{points, attachments, Tracks, put_hba-Coherent}
use vscsi_hba.Driver.Control.Histories.{
  World, world, IsCoherent, attachments_at, points-none, points_self, attached_session,
  register-IsCoherent, unregister-IsCoherent, ctl_release-IsCoherent,
}
use vscsi_hba.Driver.Control.Calls.{Call, Call-SameFrame}

-- One step. At most 255 files are open at a time, a file registers once, a new host has an address
-- that no session has, and a host is taken away while its queue lock is free.
pub data Step (k : Linux) : World → World → Type 0 where
  opens :
      (fs : List File) (d : Driver)
      → length fs + 1 < 256
      → Step k (world fs d) (world (ctl_open ∷ fs) d)
  registers :
      (n : NewHost) (minor pid : ℕ) (xs ys : List File) (f f' : File) (d d' : Driver) (r : Ret)
      → f.private_data ≡ none
      → ((a : ℕ) → n.shost ≡ some a → hba_at a d.hbas ≡ none)
      → register n minor pid f d ≡ returns (r, f', d')
      → Step k (world (xs ++ (f ∷ ys)) d) (world (xs ++ (f' ∷ ys)) d')
  unregisters :
      (minor : ℕ) (fs : List File) (d d' : Driver) (r : Ret)
      → ((h : Hba) → get_session minor d.hbas ≡ some h → h.session.queue_locked ≡ false)
      → unregister k minor d ≡ returns (r, d')
      → Step k (world fs d) (world fs d')
  closes :
      (xs ys : List File) (f : File) (d d' : Driver)
      → ctl_release f.private_data d ≡ returns d'
      → Step k (world (xs ++ (f ∷ ys)) d) (world (xs ++ ys) d')
  calls :
      (fs : List File) (d : Driver) (a : ℕ) (h h' : Hba)
      → hba_at a d.hbas ≡ some h
      → Call k h h'
      → Step k (world fs d) (world fs (record d { hbas = put_hba a h' d.hbas }))

pub data Reaches (k : Linux) : World → World → Type 0 where
  start : (w : World) → Reaches k w w
  then_ : (w1 w2 w3 : World) → Reaches k w1 w2 → Step k w2 w3 → Reaches k w1 w3

Ensures_returns :
    {A : Type 0} (P : A → Type 0) (o : Outcome A) (a : A) → Ensures P o → o ≡ returns a → P a
Ensures_returns P o a w e = subst (Ensures P) e w

calls-IsCoherent :
    (k : Linux) (fs : List File) (d : Driver) (a : ℕ) (h h' : Hba)
    → hba_at a d.hbas ≡ some h
    → Call k h h'
    → IsCoherent (world fs d)
    → IsCoherent (world fs (record d { hbas = put_hba a h' d.hbas }))
calls-IsCoherent k fs d a h h' at_ call v =
    let (address, open_, flag) = Call-SameFrame k h h' call in
    let count = λ (b : ℕ). attachments b fs in
    record {
      coherent =
          put_hba-Coherent count count a h h' d.hbas at_ (address ∙ shost-hba_at a d.hbas h at_)
            (λ b ne. refl) (λ (o, f). (open_ ∙ o, flag ∙ f)) v.coherent;
      few = v.few;
      free = v.free;
    }

-- A step keeps the world coherent.
pub Step-IsCoherent : (k : Linux) (w w' : World) → Step k w w' → IsCoherent w → IsCoherent w'
unfolding attachments ctl_open
Step-IsCoherent k _ _ (opens fs d room) v = record {
  coherent = (
    v.coherent.0,
    λ a. subst (λ c. Tracks c (hba_at a d.hbas)) (omega (arith, points-none a)) (v.coherent.1 a),
  );
  few = omega arith;
  free = v.free;
}
Step-IsCoherent k _ _ (registers n minor pid xs ys f f' d d' r unattached fresh e) v =
    Ensures_returns (λ (r, f', d'). IsCoherent (world (xs ++ (f' ∷ ys)) d'))
      (register n minor pid f d) (r, f', d')
      (register-IsCoherent n minor pid xs ys f d unattached fresh v) e
Step-IsCoherent k _ _ (unregisters minor fs d d' r idle e) v =
    Ensures_returns (λ (r, d'). IsCoherent (world fs d')) (unregister k minor d) (r, d')
      (unregister-IsCoherent k minor fs d idle v) e
Step-IsCoherent k _ _ (closes xs ys f d d' e) v =
    Ensures_returns (λ d'. IsCoherent (world (xs ++ ys) d')) (ctl_release f.private_data d) d'
      (ctl_release-IsCoherent xs ys f d v) e
Step-IsCoherent k _ _ (calls fs d a h h' at_ call) v = calls-IsCoherent k fs d a h h' at_ call v

Reaches-IsCoherent_from : (k : Linux) (w w' : World) → Reaches k w w' → IsCoherent w → IsCoherent w'
Reaches-IsCoherent_from k _ _ (start w) v = v
Reaches-IsCoherent_from k _ _ (then_ w1 w2 w3 r s) v =
    Step-IsCoherent k w2 w3 s (Reaches-IsCoherent_from k w1 w2 r v)

init-IsCoherent : IsCoherent (world [] init)
unfolding init attachments hba_at
init-IsCoherent = record { coherent = (tt, λ a. refl); few = omega arith; free = refl }

-- In every world that the freshly loaded driver gets into by opening, registering and closing
-- files, taking hosts away and calls on its sessions, with each file registered once and at most
-- 255 files open, `Device_Open` of a session is the number of open files that are attached to it,
-- a session is ready exactly when that is not 0, and the session lock is free.
pub Reaches-IsCoherent : (k : Linux) (w : World) → Reaches k (world [] init) w → IsCoherent w
Reaches-IsCoherent k w r = Reaches-IsCoherent_from k (world [] init) w r init-IsCoherent

-- In every such world (each file registered once, at most 255 open), the session that an attached
-- file points at is there, so that no call on the file follows a dangling pointer, and it is
-- ready, so that no call is refused for want of a target.
pub Reaches-attached :
    (k : Linux) (xs ys : List File) (f : File) (d : Driver) (a : ℕ)
    → Reaches k (world [] init) (world (xs ++ (f ∷ ys)) d)
    → f.private_data ≡ some a
    → (h : Hba) × (hba_at a d.hbas ≡ some h) × (h.session.flags ≡ ready)
Reaches-attached k xs ys f d a r e =
    let v = Reaches-IsCoherent k (world (xs ++ (f ∷ ys)) d) r in
    let count = λ (b : ℕ). attachments b (xs ++ (f ∷ ys)) in
    let held : 0 < count a =
      omega (arith, attachments_at a xs ys f, ap (points a) e, points_self a) in
    let (h, at_) = attached_session a count d.hbas held v.coherent in
    let tracks : Tracks (count a) (some h) = subst (Tracks (count a)) at_ (v.coherent.1 a) in
    (h, at_, tracks.1 ∙ ground arith)
