-- ===== src/Driver/Device/Completing.antt =====
-- How a target's reply completes a task: the data, the status and the sense data that arrive.
use mathlib.Core.Path.{subst}
use mathlib.Core.List.{append-nil}
use vscsi_hba.Base.{
  ℕ, zero, suc, ◌+◌, ◌/◌, ◌≡◌, ◌≢◌, ◌≤◌, ◌<◌, refl, sym, ap, ◌∙◌, true, false, List, [], ◌∷◌, ◌++◌,
  none, some, ◌==◌, ltb, length, length-append, drop, drop-length, replicate, get_or, of_le32,
  arith, All,
}
use vscsi_hba.Linux.{Linux}
use vscsi_hba.Driver.State.{
  Task, Segment, RequestBuffer, flat, scatter, ScsiCmnd, Hba, ready, Ret, bytes, Ensures,
  spin_lock_free, with_lock, with_ptr,
}
use vscsi_hba.Driver.Tasks.{
  task_of_cmd, complete_task, set_sensedata, set_sensedata_illegal, is_aborted, list_del,
}
use vscsi_hba.Driver.Tasks.Sense.{illegal_sense}
use vscsi_hba.Driver.Uaccess.{Mem, Uaccess, IsResident, load}
use vscsi_hba.Driver.Device.{
  ctl_write, write_locked, write_task, finish_task, answer, data_from_user, copy_from_user_sg,
  cmd_number_of, overlay,
}
use vscsi_hba.Driver.Device.Reading.{contents, segment_bytes, IsMapped}

length-load : (m : Mem) (i n : ℕ) → length (load m i n) ≡ n
length-load m i zero = refl
length-load m i (suc n) = ap suc (length-load m (i + 1) n)

load-add : (m : Mem) (i j a n b : ℕ) → j ≡ i + a → n ≡ a + b → load m i n ≡ load m i a ++ load m j b
load-add m i j zero n b e s = ap (load m i) (omega (arith)) ∙ ap (λ x. load m x b) (omega arith)
load-add m i j (suc a) zero b e s = absurd (omega arith)
load-add m i j (suc a) (suc n) b e s =
    ap (◌∷◌ (m i)) (load-add m (i + 1) j a n b (omega arith) (omega arith))

overlay_whole :
    (m : Mem) (i : ℕ) (b : List ℕ) → overlay (load m i (length b)) b ≡ load m i (length b)
overlay_whole m i b =
    ap (λ n. load m i (length b) ++ drop n b) (length-load m i (length b))
    ∙ ap (◌++◌ (load m i (length b))) (drop-length b)
    ∙ append-nil (load m i (length b))

copy_from_user_sg_lem :
    (u : Uaccess) (m : Mem) (i : ℕ) (ss : List Segment)
    → IsResident u
    → All (λ s. s.mapped ≡ true) ss
    → let (r, ss') = copy_from_user_sg u m i ss in
      (r ≡ 0) × (segment_bytes ss' ≡ load m i (length (segment_bytes ss)))
unfolding copy_from_user_sg
copy_from_user_sg_lem u m i [] res all = (refl, refl)
copy_from_user_sg_lem u m i (s ∷ ss) res all =
    let a = length s.bytes in
    let (z, d) = copy_from_user_sg_lem u m (i + a) ss res all.1 in
    let total = length-append s.bytes (segment_bytes ss) in
    rw (all.0, res.loads, overlay_whole m i s.bytes)
      (
        z,
        ap (◌++◌ (load m i a)) d
            ∙ sym (load-add m i (i + a) a _ (length (segment_bytes ss)) refl total),
      )

-- A full transfer from user space, into a flat buffer or a scatter list.
data_from_user_lem :
    (u : Uaccess) (m : Mem) (n : ℕ) (b : RequestBuffer)
    → IsResident u
    → IsMapped b
    → n ≡ length (contents b)
    → let (r, b') = data_from_user u m n b in (r ≡ 0) × (contents b' ≡ load m 6 n)
unfolding data_from_user
data_from_user_lem u m n (flat b) res all e = rw (res.loads, e) (refl, overlay_whole m 6 b)
data_from_user_lem u m n (scatter ss) res all e =
    let (z, d) = copy_from_user_sg_lem u m 6 ss res all in (z, d ∙ ap (load m 6) (sym e))

-- How a completed task leaves the session: the reply is consumed, the task is out of the queue, its
-- command is `c` with no task, and was handed to `scsi_done` once; the others are as they were.
abbrev pub Completed : ℕ → Task → ScsiCmnd → Hba → Ret × Hba → Type 0
Completed count t c h (r, h') =
    (r ≡ bytes count)
    × (h'.session.scsitap_queue ≡ list_del t.addr h.session.scsitap_queue)
    × (h'.completed ≡ t.sc ∷ h.completed)
    × (h'.cmnds t.sc ≡ with_ptr none c)
    × ((p : ℕ) → p ≢ t.sc → h'.cmnds p ≡ h.cmnds p)

finish_task-Completed :
    (k : Linux) (count status : ℕ) (t : Task) (c : ScsiCmnd) (h : Hba)
    → is_aborted (k.flags_after_free t.flags) ≡ false
    → Completed count t (record c { result = status }) h (finish_task k count t (some status, c) h)
unfolding finish_task complete_task
finish_task-Completed k count status t c h live =
    (refl, refl, rw live, ground arith, λ p n. ground arith)

-- A well-formed reply: resident, of type 'D', to a queued task that is not being aborted.
pub record IsReply (u : Uaccess) (k : Linux) (m : Mem) (t : Task) (h : Hba) : Type 0 where
  pub resident : IsResident u
  pub type : m 0 ≡ b'D'
  pub number : of_le32 (m 1) (m 2) (m 3) (m 4) ≡ t.cmd_number
  pub queued : task_of_cmd t.cmd_number h.session.scsitap_queue ≡ some t
  pub live : is_aborted (k.flags_after_free t.flags) ≡ false
  pub free : h.session.queue_locked ≡ false
  pub attached : h.session.flags ≡ ready

write_locked_reply :
    (u : Uaccess) (k : Linux) (count : ℕ) (m : Mem) (t : Task) (h : Hba)
    → IsResident u
    → m 0 ≡ b'D'
    → of_le32 (m 1) (m 2) (m 3) (m 4) ≡ t.cmd_number
    → task_of_cmd t.cmd_number h.session.scsitap_queue ≡ some t
    → write_locked u k count m ready h
      ≡ finish_task k count t (answer u k count m (m 5) (h.cmnds t.sc)) h
unfolding write_locked write_task
write_locked_reply u k count m t h res type number queued =
    let q = h.session.scsitap_queue in
    let found : task_of_cmd (cmd_number_of (load m 1 4)) q ≡ some t =
      ap (λ n. task_of_cmd n q) number ∙ queued in
    rw (res.gets m 0, type, res.loads m 1 4)
      (ap (λ o. write_task u k count m o h) found
        ∙ ap (λ s. finish_task k count t (answer u k count m s (h.cmnds t.sc)) h) (res.gets m 5))

pub ctl_write-Completed :
    (u : Uaccess) (k : Linux) (count status : ℕ) (m : Mem) (t : Task) (c : ScsiCmnd) (h : Hba)
    → IsReply u k m t h
    → answer u k count m (m 5) (h.cmnds t.sc) ≡ (some status, c)
    → Ensures (Completed count t (record c { result = status }) h) (ctl_write u k count m h)
unfolding ctl_write
ctl_write-Completed u k count status m t c h v e = rw (spin_lock_free h v.free) (
    subst
      (λ x.
        Completed count t (record c { result = status }) h
          (
            (write_locked u k count m x (with_lock true h)).0,
            with_lock false (write_locked u k count m x (with_lock true h)).1,
          ))
      (sym v.attached)
      (rw (write_locked_reply u k count m t (with_lock true h) v.resident v.type v.number v.queued)
        (rw e (finish_task-Completed k count status t c (with_lock true h) v.live))))

answer_data :
    (u : Uaccess) (k : Linux) (count : ℕ) (m : Mem) (status : ℕ) (c : ScsiCmnd)
    → status ≡ 0
    → 6 < count
    → (data_from_user u m c.request_bufflen c.request_buffer).0 ≡ 0
    → answer u k count m status c ≡ (
      some 0,
      set_sensedata k
          (record c { request_buffer = (data_from_user u m c.request_bufflen c.request_buffer).1 }),
    )
unfolding answer
answer_data u k count m status c e more z =
    let longer : ltb 6 count ≡ true = ground arith in rw (e, longer, z)

answer_illegal :
    (u : Uaccess) (k : Linux) (count : ℕ) (m : Mem) (status : ℕ) (c : ScsiCmnd)
    → 0 < status
    → status < 128
    → answer u k count m status c ≡ (some status, set_sensedata_illegal k c)
unfolding answer
answer_illegal u k count m status c bad low =
    let nonzero : (status == 0) ≡ false = ground arith in
    let clear : (status / 128 == 0) ≡ true = ground arith in rw (nonzero, clear)

-- A well-formed reply with status 0 and data, to a command whose pages are mapped and whose
-- buffer is as long as its transfer, completes its task: the buffer, flat or scattered, holds the
-- bytes that the target sent behind the six bytes of the reply, the result is 0 and the sense
-- buffer is cleared. The task leaves the queue, the command is handed to `scsi_done` once, and no
-- other command changes.
pub ctl_write_delivers :
    (u : Uaccess) (k : Linux) (count : ℕ) (m : Mem) (t : Task) (h : Hba)
    → IsReply u k m t h
    → m 5 ≡ 0
    → 6 < count
    → IsMapped (h.cmnds t.sc).request_buffer
    → (h.cmnds t.sc).request_bufflen ≡ length (contents (h.cmnds t.sc).request_buffer)
    → (c : ScsiCmnd) × Ensures (Completed count t c h) (ctl_write u k count m h)
      × (contents c.request_buffer ≡ load m 6 (h.cmnds t.sc).request_bufflen)
      × (c.result ≡ 0)
      × (c.sense_buffer ≡ replicate k.sense_buffersize 0)
ctl_write_delivers u k count m t h v ok_ more all e =
    let c0 = h.cmnds t.sc in
    let r = data_from_user u m c0.request_bufflen c0.request_buffer in
    let (z, d) = data_from_user_lem u m c0.request_bufflen c0.request_buffer v.resident all e in
    let c1 = set_sensedata k (record c0 { request_buffer = r.1 }) in
    let a : answer u k count m (m 5) c0 ≡ (some 0, c1) =
      answer_data u k count m (m 5) c0 ok_ more z in
    (
      record c1 { result = 0 },
      ctl_write-Completed u k count 0 m t c1 h v a,
      unfold set_sensedata in d,
      refl,
      unfold set_sensedata in refl,
    )

-- A well-formed reply with a failing status below 128 carries no sense data: where sense buffers
-- have at least 14 bytes, the command gets the status as its result and, for sense data, the
-- response code 0x70 with key and code "no sense"; its transfer buffer is not touched, and its
-- task is completed once.
pub ctl_write_fails :
    (u : Uaccess) (k : Linux) (count : ℕ) (m : Mem) (t : Task) (h : Hba)
    → IsReply u k m t h
    → 0 < m 5
    → m 5 < 128
    → 14 ≤ k.sense_buffersize
    → (c : ScsiCmnd) × Ensures (Completed count t c h) (ctl_write u k count m h)
      × (c.result ≡ m 5)
      × (c.request_buffer ≡ (h.cmnds t.sc).request_buffer)
      × (get_or c.sense_buffer 0 0 ≡ 0x70)
      × (get_or c.sense_buffer 2 0 ≡ 0)
      × (get_or c.sense_buffer 12 0 ≡ 0)
ctl_write_fails u k count m t h v bad low long =
    let c0 = h.cmnds t.sc in
    let c1 = set_sensedata_illegal k c0 in
    let (s0, s2, s12, _) = illegal_sense k c0 long in
    let a : answer u k count m (m 5) c0 ≡ (some (m 5), c1) =
      answer_illegal u k count m (m 5) c0 bad low in
    (
      record c1 { result = m 5 },
      ctl_write-Completed u k count (m 5) m t c1 h v a,
      refl,
      unfold set_sensedata_illegal in refl,
      s0,
      s2,
      s12,
    )
