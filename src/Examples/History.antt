-- ===== src/Examples/History.antt =====
-- The theorems on the control device, at a history: a file is opened and registers, which makes a
-- host.
use vscsi_hba.Base.{ℕ, ◌≡◌, refl, [], ◌∷◌, none, some, arith}
use vscsi_hba.Driver.State.{Hba, ready, returns, success, Ensures}
use vscsi_hba.Driver.Sessions.{
  get_session, hba_at, put_hba, new_hba, create_session, lock_sessions, init,
}
use vscsi_hba.Driver.Control.{ctl_open, attach, attach_new, register, register_locked}
use vscsi_hba.Driver.Control.Histories.{world, IsCoherent}
use vscsi_hba.Driver.Control.Registering.{Registers, session_for, register_lem}
use vscsi_hba.Driver.Control.Reach.{
  opens, registers, Reaches, start, then_, Reaches-IsCoherent, Reaches-attached,
}
use vscsi_hba.Examples.Worlds.{host, registered, after}
use vscsi_hba.Examples.Data.{linux}

no_host : (a : ℕ) → host.shost ≡ some a → hba_at a init.hbas ≡ none
unfolding init hba_at
no_host a e = refl

registers_host : register host 0 42 ctl_open init ≡ returns (success, registered, after)
unfolding register lock_sessions register_locked get_session attach_new create_session attach
    put_hba init ctl_open new_hba
registers_host = refl

open_is_unattached : ctl_open.private_data ≡ none
unfolding ctl_open
open_is_unattached = refl

history : Reaches linux (world [] init) (world (registered ∷ []) after)
history =
    then_ (world [] init) (world (ctl_open ∷ []) init) (world (registered ∷ []) after)
      (then_ (world [] init) (world [] init) (world (ctl_open ∷ []) init) (start (world [] init))
        (opens [] init (omega arith)))
      (registers host 0 42 [] [] ctl_open registered init after success open_is_unattached no_host
        registers_host)

Reaches-IsCoherent_example : IsCoherent (world (registered ∷ []) after)
Reaches-IsCoherent_example = Reaches-IsCoherent linux (world (registered ∷ []) after) history

Reaches-attached_example : (h : Hba) × (hba_at 7 after.hbas ≡ some h) × (h.session.flags ≡ ready)
Reaches-attached_example = Reaches-attached linux [] [] registered after 7 history refl

register_lem_example :
    Ensures
      (Registers 42 ctl_open init (some (new_hba 7 0 host.cmnds)))
      (register host 0 42 ctl_open init)
unfolding session_for get_session init new_hba
register_lem_example = register_lem host 0 42 ctl_open init refl tt no_host
