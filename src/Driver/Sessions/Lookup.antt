-- ===== src/Driver/Sessions/Lookup.antt =====
-- The list of sessions as a map from the addresses of hosts: what its writes do to a lookup.
use vscsi_hba.Base.{
  ℕ, ◌≡◌, ◌≢◌, refl, ap, ◌∙◌, false, List, [], ◌∷◌, ◌++◌, none, some, ◌==◌, arith, Bool-cases, inl,
  inr,
}
use vscsi_hba.Driver.State.{Hba}
use vscsi_hba.Driver.Sessions.{get_session, hba_at, put_hba, remove_hba}

-- No two sessions have one address.
abbrev pub Distinct : List Hba → Type 0
Distinct [] = Unit {0}
Distinct (h ∷ hs) = (hba_at h.session.shost hs ≡ none) × Distinct hs

pub shost-hba_at : (a : ℕ) (hs : List Hba) (h : Hba) → hba_at a hs ≡ some h → h.session.shost ≡ a
unfolding hba_at
shost-hba_at a [] h e = cc
shost-hba_at a (x ∷ hs) h e = ground (arith, shost-hba_at a hs h)

pub hba_at-put_hba_self :
    (a : ℕ) (hs : List Hba) (h h' : Hba)
    → h'.session.shost ≡ a
    → hba_at a hs ≡ some h
    → hba_at a (put_hba a h' hs) ≡ some h'
unfolding hba_at put_hba
hba_at-put_hba_self a [] h h' same e = cc
hba_at-put_hba_self a (x ∷ hs) h h' same e = ground (arith, hba_at-put_hba_self a hs h h' same)

pub hba_at-put_hba_ne :
    (a b : ℕ) (hs : List Hba) (h' : Hba)
    → h'.session.shost ≡ a
    → b ≢ a
    → hba_at b (put_hba a h' hs) ≡ hba_at b hs
unfolding hba_at put_hba
hba_at-put_hba_ne a b [] h' same ne = refl
hba_at-put_hba_ne a b (x ∷ hs) h' same ne = ground (arith, hba_at-put_hba_ne a b hs h' same ne)

pub put_hba-Distinct :
    (a : ℕ) (hs : List Hba) (h' : Hba)
    → h'.session.shost ≡ a
    → Distinct hs
    → Distinct (put_hba a h' hs)
unfolding put_hba
put_hba-Distinct a [] h' same d = tt
put_hba-Distinct a (x ∷ hs) h' same (gone, d) = elim (Bool-cases (x.session.shost == a)) [
  | inl e ↦ rw e (ap (λ b. hba_at b hs) (ground (arith, e)) ∙ gone, d)
  | inr e ↦ rw e (
    hba_at-put_hba_ne a x.session.shost hs h' same (λ q. ground (arith, q, e)) ∙ gone,
    put_hba-Distinct a hs h' same d,
  )
]

pub hba_at-remove_hba_self :
    (a : ℕ) (hs : List Hba) → Distinct hs → hba_at a (remove_hba a hs) ≡ none
unfolding hba_at remove_hba
hba_at-remove_hba_self a [] d = refl
hba_at-remove_hba_self a (x ∷ hs) d = ground (arith, d, hba_at-remove_hba_self a hs d.1)

pub hba_at-remove_hba_ne :
    (a b : ℕ) (hs : List Hba) → b ≢ a → hba_at b (remove_hba a hs) ≡ hba_at b hs
unfolding hba_at remove_hba
hba_at-remove_hba_ne a b [] ne = refl
hba_at-remove_hba_ne a b (x ∷ hs) ne = ground (arith, hba_at-remove_hba_ne a b hs ne)

pub remove_hba-Distinct : (a : ℕ) (hs : List Hba) → Distinct hs → Distinct (remove_hba a hs)
unfolding remove_hba
remove_hba-Distinct a [] d = tt
remove_hba-Distinct a (x ∷ hs) (gone, d) = elim (Bool-cases (x.session.shost == a)) [
  | inl e ↦ rw e d
  | inr e ↦ rw e (
    hba_at-remove_hba_ne a x.session.shost hs (λ q. ground (arith, q, e)) ∙ gone,
    remove_hba-Distinct a hs d,
  )
]

-- A session added at the end, under an address that no other has.
pub hba_at-append_self :
    (hs : List Hba) (h : Hba)
    → hba_at h.session.shost hs ≡ none
    → hba_at h.session.shost (hs ++ (h ∷ [])) ≡ some h
unfolding hba_at
hba_at-append_self [] h e = ground arith
hba_at-append_self (x ∷ hs) h e = ground (arith, hba_at-append_self hs h)

pub hba_at-append_ne :
    (b : ℕ) (hs : List Hba) (h : Hba)
    → b ≢ h.session.shost
    → hba_at b (hs ++ (h ∷ [])) ≡ hba_at b hs
unfolding hba_at
hba_at-append_ne b [] h ne = ground (arith, ne)
hba_at-append_ne b (x ∷ hs) h ne = ground (arith, hba_at-append_ne b hs h ne)

pub append-Distinct :
    (hs : List Hba) (h : Hba)
    → hba_at h.session.shost hs ≡ none
    → Distinct hs
    → Distinct (hs ++ (h ∷ []))
unfolding hba_at
append-Distinct [] h e d = (refl, tt)
append-Distinct (x ∷ hs) h e (gone, d) =
    let apart : (x.session.shost == h.session.shost) ≡ false = ground (arith, e) in
    (
      hba_at-append_ne x.session.shost hs h (λ q. ground (arith, q, apart)) ∙ gone,
      append-Distinct hs h (ground (arith, e)) d,
    )

-- The session of a minor number is the one at its address.
pub get_session-hba_at :
    (m : ℕ) (hs : List Hba) (h : Hba)
    → Distinct hs
    → get_session m hs ≡ some h
    → hba_at h.session.shost hs ≡ some h
unfolding hba_at get_session
get_session-hba_at m [] h d e = cc
get_session-hba_at m (x ∷ hs) h (gone, d) e = ground (arith, gone, get_session-hba_at m hs h d)
