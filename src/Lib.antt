-- ===== src/Lib.antt =====
-- vscsi-hba: a virtual SCSI host bus adapter whose target runs in user space.
--
-- The program. A kernel module (kernel/hba.c, kernel/device.c, include/vscsihba.h) presents a SCSI
-- host to the kernel's mid layer. A command that the mid layer queues becomes a task of the host's
-- session. A target process opens the control device, attaches to the session by an ioctl, reads
-- the 31-byte header of a task, marks the task as received, and writes back the command's data or
-- its sense data, which completes the command. user/vscsiapi.c wraps these calls for the target,
-- user/scsi_target.c keeps the target's LUNs and dispatches a command to the LUN's table, and
-- user/scsi.c holds the commands, which work on the LUN's file.
--
-- The files.
--   Base        shared names, Boolean tests on native numbers, list and byte-order lemmas
--   Linux       constants of the kernel's headers, a parameter of all kernel code
--   Driver.State     the records of include/vscsihba.h, with the lock of a session as a Boolean
--   Driver.Tasks     kernel/hba.c: sense data, scsitap_complete_task (complete_task),
--     scsitap_queuecommand (queuecommand), scsitap_eh_abort, scsitap_eh_host_reset, the handlers
--     that do nothing (eh_timed_out, eh_device_reset), and the loop of scsitap_destroy_session
--     (fail_all). Child modules hold the proofs, by subject.
--   Driver.Sessions  scsitap_create_session, scsitap_destroy_session, scsitap_init (init_module),
--     scsitap_cleanup, and of kernel/device.c scsitap_register_interface and scsitap_scan_hba
--   Driver.Uaccess   user memory and the functions of asm/uaccess.h, a parameter
--   Driver.Device    kernel/device.c on one session: scsitap_task_to_user, scsitap_ctl_read,
--     scsitap_ctl_write, the scatter copies and the RECEIVE_TASK case of the ioctl
--   Driver.Control   scsitap_ctl_open, scsitap_ctl_ioctl, scsitap_ctl_release
--     Control.Histories and Control.Reach hold the worlds of open files and their steps,
--     Control.Ledger the abstract view of a session, Control.Simulating, Delivering and Refining its
--     relation to the calls, Control.Scanning the deferred scan.
--   Api         user/vscsiapi.c over the driver's file operations; its child modules follow a
--     task from the queue to the target and back.
--   Scsi        user/scsi.c: Engine (buffer, C library, result of a command), Primary (spc_
--     commands), Block (sbc_ commands), Mmc, Dvd and Configuration (mmc_ commands), Table
--     (scsi_sbc_commands, scsi_mmc_commands)
--   Target      user/scsi_target.c: targets, LUNs and run_scsi_command; Target.Luns: add_lun
--   Process     user/main.c: Arguments (the command line), Configure (the LUN files), Start (main
--     up to its loop), Service (one round of the loop). Service.Disk and Service.Storing put the
--     parts together, from a command of the mid layer to the bytes of a LUN's file.
--   Examples    the theorems at concrete inputs
--
-- How state is modelled. A session and the SCSI commands of its host are one record (Hba); an
-- operation takes the record and returns it with the call's value. A task is named by the address
-- of its cache slot, and a pointer that leads to no queued task is dangling: following it is an
-- outcome of its own. A spin lock that is taken while it is held is the outcome deadlock, so that
-- the calls are those of one processor, one after the other. What the kernel or the C library
-- answers (a cache slot, a host, a failed copy, the bytes of fread) is an argument. `complete_task`
-- reads the task's flags after the slot was freed, as the code does: what that read gives is the
-- parameter flags_after_free.
--
-- Numbers are natural numbers; the unsigned fields of the code wrap at their width. The result of
-- `lunsizeinmb*1024*1024`, an int, wraps at 32 bits; where it is negative, from 2048 MB to 4095 MB,
-- every transfer is refused. `long` is four or eight bytes.
--
-- Fuel. The transfer loops of the block commands run on fuel equal to the number of bytes to
-- transfer. Each round transfers at least one byte where the file behaves as the C library
-- documents, so this is enough. All other loops are recursion on a list, and the loop of
-- main, which has no end, is modelled by its rounds.
--
-- Not modelled: what is printed, module counts, the wait queue's wake-ups, interleavings of calls
-- while a lock is held, the tables of function pointers that the kernel reads (the host template and
-- the file operations), scsitap_unregister_interface, which is one call of the kernel, and the
-- scripts.
pub mod Base
pub mod Linux
pub mod Driver
pub mod Api
pub mod Scsi
pub mod Target
pub mod Process
pub mod Examples
