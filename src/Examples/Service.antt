-- ===== src/Examples/Service.antt =====
-- The theorems on the target process, at concrete inputs.
use vscsi_hba.Base.{some, ◌≡◌, refl, [], ◌∷◌, arith}
use vscsi_hba.Driver.State.{Ensures, Hba, to_device}
use vscsi_hba.Driver.Sessions.{hba_at}
use vscsi_hba.Driver.Uaccess.{resident-IsResident}
use vscsi_hba.Scsi.Engine.{finished, pokes}
use vscsi_hba.Scsi.Block.{read10, read_blocks, read_loop}
use vscsi_hba.Scsi.Block.Transfer.{Finishes}
use vscsi_hba.Scsi.Table.{scsi_sbc_commands, look_up, sbc_entries}
use vscsi_hba.Target.{LunData, Target, Reply, run_scsi_command, find_lun}
use vscsi_hba.Api.Taking.{described}
use vscsi_hba.Process.Service.{Server, window, cdb_of, serve}
use vscsi_hba.Process.Service.Progress.{IsWaiting, Answered, serve_lem}
use vscsi_hba.Process.Service.Writing.{Stored}
use vscsi_hba.Process.Service.Storing.{WritesDisk, IsWritten, serve-write10}
use vscsi_hba.Process.Service.Disk.{ReadsDisk, ReadFromDisk, serve-read10}
use vscsi_hba.Examples.Data.{linux, user_task}
use vscsi_hba.Examples.Image.{memory-IsFile, Image, memory, image, lun}
use vscsi_hba.Examples.Worlds.{
  new_task, queued_hba, after, env, attached_world, there_7, first_is_new, new_has_number,
}

-- A disk of four-byte blocks as LUN 0.
abbrev small_disk : LunData Image
small_disk = record {
  lun_data = record lun { block_size = 4; lun = 0 };
  lun_fh = image;
  cmds = scsi_sbc_commands;
}

abbrev small_target : Target Image
small_target = record { type = 0; targetname = []; pt_device = 0; luns = small_disk ∷ [] }

abbrev server : Server Image
server = record { target = small_target; task = user_task; world = attached_world }

abbrev answer : Reply Image
answer = record {
  status = 0;
  target = small_target;
  data_ = pokes 0 (0 ∷ 1 ∷ 2 ∷ 3 ∷ []) (window 6 user_task.request_buffer);
}

ran :
    run_scsi_command memory small_target 0
      (cdb_of (described (queued_hba.cmnds 1) new_task user_task))
      (window 6 user_task.request_buffer)
      4
    ≡ finished answer
unfolding run_scsi_command scsi_sbc_commands look_up sbc_entries read10 read_blocks read_loop pokes
ran = refl

waiting : IsWaiting linux b'I' new_task queued_hba
waiting = record {
  free = refl;
  attached = refl;
  first = first_is_new;
  numbered = new_has_number;
  cmnd_length = refl;
  cmd_len_fits = omega arith;
  number_fits = omega arith;
  lun_fits = omega arith;
  length_fits = omega arith;
  directed = refl;
  live = refl;
  mapped = tt;
  sized = refl;
  transfers = omega arith;
}

serve_lem_example :
    Ensures (Finishes (Answered 7 new_task queued_hba answer)) (serve env memory (λ _. 0) server)
serve_lem_example =
    serve_lem env memory (λ _. 0) server 7 queued_hba new_task answer resident-IsResident refl
      waiting refl there_7 ran refl

reads : ReadsDisk (λ f. f.size) (queued_hba.cmnds 1) small_disk
reads = record {
  long = omega arith;
  opcode = refl;
  table = refl;
  exact = refl;
  inside = omega arith;
  on_disk = refl;
}

finds_disk : find_lun 0 small_target.luns ≡ some small_disk
unfolding find_lun
finds_disk = refl

serve-read10_example :
    Ensures
      (Finishes (ReadFromDisk (λ f. f.bytes) 7 new_task queued_hba small_disk))
      (serve env memory (λ _. 0) server)
serve-read10_example =
    serve-read10 env memory (λ f. f.bytes) (λ f. f.size) (λ _. 0) server 7 queued_hba new_task
      small_disk memory-IsFile resident-IsResident refl waiting refl there_7 refl finds_disk reads

-- The same with a WRITE(10) of the block.
abbrev writing_hba : Hba
writing_hba = record queued_hba {
  cmnds = λ p. record (queued_hba.cmnds p) {
    direction = to_device;
    cmnd = 0x2a ∷ 0 ∷ 0 ∷ 0 ∷ 0 ∷ 0 ∷ 0 ∷ 0 ∷ 1 ∷ 0 ∷ 0 ∷ 0 ∷ 0 ∷ 0 ∷ 0 ∷ 0 ∷ [];
  };
}

abbrev writing_server : Server Image
writing_server = record server {
  world = record attached_world { driver = record after { hbas = writing_hba ∷ [] } };
}

writing_hba-IsWaiting : IsWaiting linux b'O' new_task writing_hba
writing_hba-IsWaiting = record {
  free = refl;
  attached = refl;
  first = first_is_new;
  numbered = new_has_number;
  cmnd_length = refl;
  cmd_len_fits = omega arith;
  number_fits = omega arith;
  lun_fits = omega arith;
  length_fits = omega arith;
  directed = refl;
  live = refl;
  mapped = tt;
  sized = refl;
  transfers = omega arith;
}

writes : WritesDisk (writing_hba.cmnds 1) small_disk
writes = record { long = omega arith; opcode = refl; table = refl; exact = refl; on_disk = refl }

there_writing : hba_at 7 writing_server.world.driver.hbas ≡ some writing_hba
unfolding hba_at
there_writing = refl

serve-write10_example :
    Ensures
      (Finishes (
        Stored linux 7 new_task writing_hba
          (IsWritten (λ f. f.bytes) 0 4 (1 ∷ 2 ∷ 3 ∷ 4 ∷ []) 0 small_disk small_target)))
      (serve env memory (λ _. 0) writing_server)
serve-write10_example =
    serve-write10 env memory (λ f. f.bytes) (λ f. f.size) (λ _. 0) writing_server 7 writing_hba
      new_task small_disk memory-IsFile resident-IsResident refl writing_hba-IsWaiting refl
      there_writing refl finds_disk writes
