-- ===== src/Driver/Control/Attachment.antt =====
-- Which files are attached to which session: `Device_Open`, the connection flag and the files'
-- `private_data`, under the operations of kernel/device.c on the control device.
use mathlib.Core.Path.{subst}
use vscsi_hba.Base.{
  ℕ, ◌+◌, ◌≡◌, ◌≢◌, ◌≤◌, refl, sym, ◌∙◌, List, [], ◌∷◌, ◌++◌, Option, none, some, ◌==◌,
  if◌then◌else◌, length, arith, Bool-cases, inl, inr,
}
use vscsi_hba.Driver.State.{Hba, ready, not_ready}
use vscsi_hba.Driver.Sessions.{hba_at, put_hba, remove_hba}
use vscsi_hba.Driver.Sessions.Lookup.{
  Distinct, hba_at-put_hba_self, hba_at-put_hba_ne, put_hba-Distinct, hba_at-remove_hba_self,
  hba_at-remove_hba_ne, remove_hba-Distinct, hba_at-append_self, hba_at-append_ne, append-Distinct,
}
use vscsi_hba.Driver.Control.{File}

-- 1 if the pointer is to the session, and the number of files whose pointer is.
unfoldable pub points : ℕ → Option ℕ → ℕ
points a none = 0
points a (some b) = if b == a then 1 else 0

unfoldable pub attachments : ℕ → List File → ℕ
unfolding points
attachments a [] = 0
attachments a (f ∷ fs) = points a f.private_data + attachments a fs

-- What a number of attached files says of the session, or of there being none.
abbrev pub Tracks : ℕ → Option Hba → Type 0
Tracks n none = n ≡ 0
Tracks n (some h) =
    (h.session.device_open ≡ n) × (h.session.flags ≡ (if n == 0 then not_ready else ready))

abbrev pub Coherent : (ℕ → ℕ) → List Hba → Type 0
Coherent count hs = Distinct hs × ((a : ℕ) → Tracks (count a) (hba_at a hs))

pub points_le : (a : ℕ) (p : Option ℕ) → points a p ≤ 1
unfolding points
points_le a none = omega arith
points_le a (some b) = ground arith

pub attachments_le : (a : ℕ) (fs : List File) → attachments a fs ≤ length fs
unfolding attachments
attachments_le a [] = omega arith
attachments_le a (f ∷ fs) = omega (arith, attachments_le a fs, points_le a f.private_data)

pub attachments-append :
    (a : ℕ) (xs ys : List File) → attachments a (xs ++ ys) ≡ attachments a xs + attachments a ys
unfolding attachments
attachments-append a [] ys = omega arith
attachments-append a (x ∷ xs) ys = omega (arith, attachments-append a xs ys)

Tracks-of : (n m : ℕ) (o p : Option Hba) → m ≡ n → p ≡ o → Tracks n o → Tracks m p
Tracks-of n m o p e q t = subst (λ x. Tracks x p) (sym e) (subst (Tracks n) (sym q) t)

-- A session written at `a`, where only its own count changes.
pub put_hba-Coherent :
    (count count' : ℕ → ℕ) (a : ℕ) (h h' : Hba) (hs : List Hba)
    → hba_at a hs ≡ some h
    → h'.session.shost ≡ a
    → ((b : ℕ) → b ≢ a → count' b ≡ count b)
    → (Tracks (count a) (some h) → Tracks (count' a) (some h'))
    → Coherent count hs
    → Coherent count' (put_hba a h' hs)
put_hba-Coherent count count' a h h' hs at_ same others own (d, t) = (
  put_hba-Distinct a hs h' same d,
  λ b. elim (Bool-cases (b == a)) [
    | inl e ↦
        let q : b ≡ a = ground (arith, e) in
        subst (λ x. Tracks (count' x) (hba_at x (put_hba a h' hs))) (sym q)
          (Tracks-of (count' a) (count' a) (some h') _ refl (hba_at-put_hba_self a hs h h' same at_)
            (own (Tracks-of (count a) (count a) (hba_at a hs) (some h) refl (sym at_) (t a))))
    | inr e ↦
        let ne : b ≢ a = λ q. ground (arith, q, e) in
        Tracks-of (count b) (count' b) (hba_at b hs) _ (others b ne)
          (hba_at-put_hba_ne a b hs h' same ne) (t b)
  ],
)

-- A new session, to which no file is attached.
pub append-Coherent :
    (count : ℕ → ℕ) (h : Hba) (hs : List Hba)
    → hba_at h.session.shost hs ≡ none
    → h.session.device_open ≡ 0
    → h.session.flags ≡ not_ready
    → Coherent count hs
    → Coherent count (hs ++ (h ∷ []))
append-Coherent count h hs fresh zero_ idle (d, t) =
    let a = h.session.shost in
    let none_yet : count a ≡ 0 =
      Tracks-of (count a) (count a) (hba_at a hs) none refl (sym fresh) (t a) in
    (
      append-Distinct hs h fresh d,
      λ b. elim (Bool-cases (b == a)) [
        | inl e ↦
            let q : b ≡ a = ground (arith, e) in
            subst (λ x. Tracks (count x) (hba_at x (hs ++ (h ∷ [])))) (sym q)
              (Tracks-of (count a) (count a) (some h) _ refl (hba_at-append_self hs h fresh)
                (ground arith, ground arith))
        | inr e ↦
            let ne : b ≢ a = λ q. ground (arith, q, e) in
            Tracks-of (count b) (count b) (hba_at b hs) _ refl (hba_at-append_ne b hs h ne) (t b)
      ],
    )

-- A session that goes, to which no file is attached.
pub remove_hba-Coherent :
    (count : ℕ → ℕ) (a : ℕ) (h : Hba) (hs : List Hba)
    → hba_at a hs ≡ some h
    → h.session.device_open ≡ 0
    → Coherent count hs
    → Coherent count (remove_hba a hs)
remove_hba-Coherent count a h hs at_ closed (d, t) =
    let none_left : count a ≡ 0 =
      sym (Tracks-of (count a) (count a) (hba_at a hs) (some h) refl (sym at_) (t a)).0 ∙ closed in
    (
      remove_hba-Distinct a hs d,
      λ b. elim (Bool-cases (b == a)) [
        | inl e ↦
            let q : b ≡ a = ground (arith, e) in
            subst (λ x. Tracks (count x) (hba_at x (remove_hba a hs))) (sym q)
              (Tracks-of (count a) (count a) none _ refl (hba_at-remove_hba_self a hs d) none_left)
        | inr e ↦
            let ne : b ≢ a = λ q. ground (arith, q, e) in
            Tracks-of (count b) (count b) (hba_at b hs) _ refl (hba_at-remove_hba_ne a b hs ne)
              (t b)
      ],
    )
