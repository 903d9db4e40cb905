-- ===== src/Process/Start/Attached.antt =====
-- A process that has started, user/main.c, is attached to a session and has its disks.
use mathlib.Core.Path.{subst}
use vscsi_hba.Base.{ℕ, ◌≡◌, ◌<◌, ap, ◌∙◌, true, false, List, [], none, some, length, get_or, All}
use vscsi_hba.Driver.State.{Hba, Ensures}
use vscsi_hba.Driver.Sessions.{Driver, get_session, hba_at}
use vscsi_hba.Driver.Sessions.Lookup.{Distinct}
use vscsi_hba.Driver.Control.{ctl_open, ctl_ioctl, register}
use vscsi_hba.Driver.Control.Registering.{GainsFile, session_for, Registers, register_lem}
use vscsi_hba.Scsi.Engine.{Run, finished, crashes, and_then}
use vscsi_hba.Scsi.Block.Transfer.{Finishes}
use vscsi_hba.Target.{LunData, Target}
use vscsi_hba.Target.Luns.{Files}
use vscsi_hba.Api.{Env, register_scsi_host}
use vscsi_hba.Api.Replying.{returned}
use vscsi_hba.Process.Arguments.{Options, parse_arguments}
use vscsi_hba.Process.Arguments.Order.{dev_first, parse_arguments_order}
use vscsi_hba.Process.Configure.{Split, no_names, configure_luns, configure_scsi_target}
use vscsi_hba.Process.Configure.Splitting.{fields, take_fields}
use vscsi_hba.Process.Configure.Numbering.{Opens, HasDisk, configure_luns-HasDisk}
use vscsi_hba.Process.Service.{Server}
use vscsi_hba.Process.Start.{start, attach_target}

-- The process is attached to a session that is ready, and its target has a disk for every name.
abbrev pub Started : {F : Type 0} → Files F → (ℕ → LunData F) → ℕ → Hba → Split → Server F → Type 0
Started files raw pid h st s =
    (s.world.file.private_data ≡ some h.session.shost)
    × ((h' : Hba) × (hba_at h.session.shost s.world.driver.hbas ≡ some h') × GainsFile pid h h')
    × ((k : ℕ)
        → k < length st.lunfiles
        → HasDisk files raw st.st_size k (get_or st.lunfiles k []) s.target)

configured :
    {F : Type 0} (files : Files F) (raw : ℕ → LunData F) (argv : List (List ℕ)) (names : List ℕ)
    (o : Options) (t : Target F)
    → parse_arguments argv ≡ finished o
    → o.filenames ≡ some names
    → configure_luns files raw names ≡ finished t
    → configure_scsi_target files raw argv ≡ finished (o, t)
unfolding configure_scsi_target
configured {F = F} files raw argv names o t parsed named made = rw parsed (
    ap
      (λ x. elim x as (λ _. Run (Options × Target F)) [
        | none ↦ crashes
        | some ns ↦ and_then (configure_luns files raw ns) (λ t'. finished (o, t'))
      ])
      named
    ∙ ap (λ r. and_then r (λ t'. finished (o, t'))) made)

attach_target-Started :
    {F : Type 0} (v : Env) (files : Files F) (raw : ℕ → LunData F) (pid : ℕ) (h : Hba) (st : Split)
    (d : Driver) (o : Options) (t : Target F)
    → d.session_locked ≡ false
    → Distinct d.hbas
    → ((a : ℕ) → v.new_host.shost ≡ some a → hba_at a d.hbas ≡ none)
    → session_for v.new_host v.minor (get_session v.minor d.hbas) ≡ some h
    → ((k : ℕ)
        → k < length st.lunfiles
        → HasDisk files raw st.st_size k (get_or st.lunfiles k []) t)
    → Ensures (Finishes (Started files raw pid h st)) (attach_target v pid true d (finished (o, t)))
unfolding attach_target register_scsi_host ctl_ioctl
attach_target-Started v files raw pid h st d o t free distinct fresh there disks =
    let n = v.new_host in
    let registers =
      subst (λ x. Ensures (Registers pid ctl_open d x) (register n v.minor pid ctl_open d)) there
        (register_lem n v.minor pid ctl_open d free distinct fresh) in
    let ((r, f, d'), e, (_, points, place, _, _)) =
      returned (Registers pid ctl_open d (some h)) (register n v.minor pid ctl_open d) registers in
    rw e (points, place, disks)

-- On a command line with `-dev` before `-files`, with names that are accepted and files that
-- open, and with a device that opens and a session for its minor number or a host to be had, the
-- process starts. Its file points at that session, which is ready, counts one file more in eight
-- bits, has the process's id in 32 bits, and is otherwise as it was: queue, numbers, lock,
-- commands and completions. Its target has, under the number of each name's place, a hard disk on
-- the file that opened under that name, with the block commands, cut to the whole megabytes of
-- the last file. The session lock is free, no two sessions have one address, and a new host has
-- an address of its own.
pub start-Started :
    {F : Type 0} (v : Env) (files : Files F) (raw : ℕ → LunData F) (pid n m p : ℕ)
    (dev names : List ℕ) (st : Split) (h : Hba) (d : Driver)
    → take_fields files.stat (fields names) no_names ≡ finished st
    → All (Opens files raw) st.lunfiles
    → d.session_locked ≡ false
    → Distinct d.hbas
    → ((a : ℕ) → v.new_host.shost ≡ some a → hba_at a d.hbas ≡ none)
    → session_for v.new_host v.minor (get_session v.minor d.hbas) ≡ some h
    → Ensures
        (Finishes (Started files raw pid h st))
        (start v pid files raw true (dev_first n m p dev names) d)
unfolding start
start-Started v files raw pid n m p dev names st h d accepted opens free distinct fresh there =
    let (o, parsed, _, named, _) = (parse_arguments_order n m p dev names).0 in
    let (t, made, disks) = configure_luns-HasDisk files raw names st accepted opens in
    rw (configured files raw (dev_first n m p dev names) names o t parsed named made)
      (attach_target-Started v files raw pid h st d o t free distinct fresh there disks)
