-- ===== src/Driver/Device/Reading.antt =====
-- What `scsitap_ctl_read` delivers.
use vscsi_hba.Base.{
  ℕ, ◌+◌, ◌≡◌, ◌<◌, refl, sym, ap, ◌∙◌, Bool, true, false, ◌&&◌, not, List, [], ◌∷◌, ◌++◌, some,
  ◌==◌, ltb, length, u32, take-length, arith, Bool-cases, inl, inr, All,
}
use vscsi_hba.Linux.{Linux, received}
use vscsi_hba.Driver.State.{
  Task, Segment, RequestBuffer, flat, scatter, ScsiCmnd, Hba, ready, bytes, Ensures, spin_lock_free,
  with_lock,
}
use vscsi_hba.Driver.Tasks.{task_of_cmd}
use vscsi_hba.Driver.Uaccess.{Mem, Uaccess, IsResident, store, load, put, load-store}
use vscsi_hba.Driver.Device.Header.{header, task_to_user-header}
use vscsi_hba.Driver.Device.{
  ctl_read, read_locked, read_data, data_to_user, copy_to_user_sg, then_data, is_empty,
}

-- A call that waits: nothing is queued, and no signal comes.
abbrev pub WouldSleep : Bool → Hba → Type 0
WouldSleep interrupted h = (is_empty h.session.scsitap_queue && not interrupted) ≡ true

same_session : (h : Hba) → h.session.queue_locked ≡ false → with_lock false (with_lock true h) ≡ h
same_session h free = ground arith

-- The bytes that a command transfers.
abbrev pub segment_bytes : List Segment → List ℕ
segment_bytes [] = []
segment_bytes (s ∷ ss) = s.bytes ++ segment_bytes ss

abbrev pub contents : RequestBuffer → List ℕ
contents (flat b) = b
contents (scatter ss) = segment_bytes ss

-- Every page of a scatter list has an address.
abbrev pub IsMapped : RequestBuffer → Type 0
IsMapped (flat b) = Unit {0}
IsMapped (scatter ss) = All (λ s. s.mapped ≡ true) ss

store-append :
    (m : Mem) (i j : ℕ) (xs ys : List ℕ)
    → j ≡ i + length xs
    → store m i (xs ++ ys) ≡ store (store m i xs) j ys
store-append m i j [] ys e = ap (λ x. store m x ys) (omega arith)
store-append m i j (x ∷ xs) ys e = store-append (put m i x) (i + 1) j xs ys (omega arith)

copy_to_user_sg_lem :
    (u : Uaccess) (m : Mem) (i : ℕ) (ss : List Segment)
    → IsResident u
    → All (λ s. s.mapped ≡ true) ss
    → copy_to_user_sg u m i ss ≡ (0, store m i (segment_bytes ss))
unfolding copy_to_user_sg
copy_to_user_sg_lem u m i [] res all = refl
copy_to_user_sg_lem u m i (s ∷ ss) res all =
    rw (all.0, res.stores)
      (copy_to_user_sg_lem u (store m i s.bytes) (i + length s.bytes) ss res all.1
        ∙ ap (λ x. (0, x)) (sym (store-append m i (i + length s.bytes) s.bytes _ refl)))

data_to_user_lem :
    (u : Uaccess) (c : ScsiCmnd) (b : RequestBuffer) (n : ℕ) (m : Mem)
    → IsResident u
    → IsMapped b
    → c.request_bufflen ≡ length (contents b)
    → data_to_user u c b n m ≡ (bytes n, store m n (contents b))
unfolding data_to_user
data_to_user_lem u c (flat b) n m res all e = rw (e, take-length b, res.stores)
data_to_user_lem u c (scatter ss) n m res all e = rw (copy_to_user_sg_lem u m n ss res all)

then_data_lem :
    (u : Uaccess) (c : ScsiCmnd) (n : ℕ) (m : Mem)
    → IsResident u
    → IsMapped c.request_buffer
    → c.request_bufflen ≡ length (contents c.request_buffer)
    → 0 < c.request_bufflen
    → then_data u c (bytes n, m) ≡ (bytes n, store m n (contents c.request_buffer))
then_data_lem u c n m res all e pos =
    ground (arith, data_to_user_lem u c c.request_buffer n m res all e)

read_locked_data :
    (u : Uaccess) (k : Linux) (fp n : ℕ) (h : Hba) (m : Mem) (t : Task)
    → IsResident u
    → k.max_command_size ≡ 16
    → task_of_cmd (u32 fp) h.session.scsitap_queue ≡ some t
    → t.flags ≡ received
    → IsMapped (h.cmnds t.sc).request_buffer
    → 0 < n
    → (h.cmnds t.sc).request_bufflen ≡ n
    → n ≡ length (contents (h.cmnds t.sc).request_buffer)
    → read_locked u k (31 + n) fp ready h m ≡ (
      bytes 31,
      store (header (h.cmnds t.sc) t b'D' m) 31 (contents (h.cmnds t.sc).request_buffer),
    )
unfolding read_locked read_data
read_locked_data u k fp n h m t res size found taken all pos same e =
    let c = h.cmnds t.sc in
    let not_header : (31 + n == 31) ≡ false = ground arith in
    let longer : ltb 31 (31 + n) ≡ true = ground arith in
    let exact : (31 + n == 31 + c.request_bufflen) ≡ true = ground arith in
    rw (not_header, longer, found, read_data, taken, exact)
      (rw (task_to_user-header u k c t b'D' m res size)
        (then_data_lem u c 31 (header c t b'D' m) res all (same ∙ e) (rw same pos)))

-- On a ready session with the lock free and a call that does not wait, with a resident buffer,
-- every page mapped, command blocks of 16 bytes and a request buffer that is not empty and as
-- long as the transfer, a read of the header and the data of the task that the low 32 bits of the
-- file position number, if it was received, delivers, behind the 31 bytes of the header, exactly
-- the bytes that the command transfers, from a flat buffer or from a scatter list; it returns 31
-- and changes nothing in the driver.
pub ctl_read_data :
    (u : Uaccess) (k : Linux) (interrupted : Bool) (fp : ℕ) (h : Hba) (m : Mem) (t : Task)
    → IsResident u
    → k.max_command_size ≡ 16
    → h.session.queue_locked ≡ false
    → h.session.flags ≡ ready
    → ¬ WouldSleep interrupted h
    → task_of_cmd (u32 fp) h.session.scsitap_queue ≡ some t
    → t.flags ≡ received
    → IsMapped (h.cmnds t.sc).request_buffer
    → 0 < (h.cmnds t.sc).request_bufflen
    → (h.cmnds t.sc).request_bufflen ≡ length (contents (h.cmnds t.sc).request_buffer)
    → Ensures
        (λ (r, m', h').
          (r ≡ bytes 31)
          × (load m' 31 (h.cmnds t.sc).request_bufflen ≡ contents (h.cmnds t.sc).request_buffer)
          × (h' ≡ h))
        (ctl_read u k interrupted (31 + (h.cmnds t.sc).request_bufflen) fp h m)
unfolding ctl_read
ctl_read_data u k interrupted fp h m t res size free attached awake found taken all pos e =
    let c = h.cmnds t.sc in
    let n = c.request_bufflen in
    let sent = contents c.request_buffer in
    let m1 = header c t b'D' m in
    elim (Bool-cases (is_empty h.session.scsitap_queue && not interrupted)) [
      | inl z ↦ absurd (awake z)
      | inr z ↦ rw z (
          rw (spin_lock_free h free) (
            rw attached (
              rw
                (read_locked_data u k fp n (with_lock true h) m t res size found taken all pos refl
                  e)
                (
                  refl,
                  ap (load (store m1 31 sent) 31) e ∙ load-store m1 31 31 sent refl,
                  ground arith,
                ))))
    ]
