-- ===== src/Api/Header.antt =====
-- The 31 bytes that describe a task, from `scsitap_task_to_user` of kernel/device.c to
-- `task_buffer_to_task` of user/vscsiapi.c.
use vscsi_hba.Base.{
  ℕ, zero, suc, ◌+◌, ◌^◌, ◌<◌, ◌≤◌, ◌≡◌, refl, sym, ap, ◌∙◌, ◌∷◌, ◌++◌, length, take, drop,
  of_le32-le32, arith, ◌%◌, ◌/◌,
}
use vscsi_hba.Linux.{Linux}
use vscsi_hba.Driver.State.{Task, ScsiCmnd, bytes}
use vscsi_hba.Driver.Uaccess.{Mem, Uaccess, IsResident, store, load, store_below, load-store}
use vscsi_hba.Driver.Device.{task_to_user, direction_byte}
use vscsi_hba.Driver.Device.Header.{front, header, task_to_user-header}
use vscsi_hba.Api.{UserTask, task_buffer_to_task, word_at}

take-load : (m : Mem) (i n l : ℕ) → n ≤ l → take n (load m i l) ≡ load m i n
take-load m i zero l h = refl
take-load m i (suc n) zero h = absurd (omega arith)
take-load m i (suc n) (suc l) h = ap (◌∷◌ (m i)) (take-load m (i + 1) n l (omega arith))

-- The bytes in front of the command bytes are not touched by what comes after them.
header_front :
    (c : ScsiCmnd) (t : Task) (type : ℕ) (m : Mem)
    → (store (front c t type m) 11 c.cmnd 0 ≡ type)
      × (store (front c t type m) 11 c.cmnd 1 ≡ direction_byte c.direction)
      × (store (front c t type m) 11 c.cmnd 10 ≡ c.cmd_len)
header_front c t type m = (
  store_below (front c t type m) 11 c.cmnd 0 (omega arith),
  store_below (front c t type m) 11 c.cmnd 1 (omega arith),
  store_below (front c t type m) 11 c.cmnd 10 (omega arith),
)

word-header :
    (c : ScsiCmnd) (t : Task) (type i n : ℕ) (m : Mem)
    → n < 2 ^ 32
    → (header c t type m i ≡ n % 256)
    → (header c t type m (i + 1) ≡ n / 2 ^ 8 % 256)
    → (header c t type m (i + 2) ≡ n / 2 ^ 16 % 256)
    → (header c t type m (i + 3) ≡ n / 2 ^ 24 % 256)
    → word_at (header c t type m) i ≡ n
word-header c t type i n m h p q r s = omega arith

header_cmd_number :
    (c : ScsiCmnd) (t : Task) (type : ℕ) (m : Mem)
    → t.cmd_number < 2 ^ 32
    → word_at (header c t type m) 2 ≡ t.cmd_number
header_cmd_number c t type m h =
    let f = front c t type m in
    word-header c t type 2 t.cmd_number m h (store_below f 11 c.cmnd 2 (omega arith))
      (store_below f 11 c.cmnd 3 (omega arith)) (store_below f 11 c.cmnd 4 (omega arith))
      (store_below f 11 c.cmnd 5 (omega arith))

header_lun :
    (c : ScsiCmnd) (t : Task) (type : ℕ) (m : Mem)
    → t.lun < 2 ^ 32
    → word_at (header c t type m) 6 ≡ t.lun
header_lun c t type m h =
    let f = front c t type m in
    word-header c t type 6 t.lun m h (store_below f 11 c.cmnd 6 (omega arith))
      (store_below f 11 c.cmnd 7 (omega arith)) (store_below f 11 c.cmnd 8 (omega arith))
      (store_below f 11 c.cmnd 9 (omega arith))

header_cdb :
    (c : ScsiCmnd) (t : Task) (type : ℕ) (m : Mem) (n : ℕ)
    → length c.cmnd ≡ 16
    → n ≤ 16
    → load (header c t type m) 11 n ≡ take n c.cmnd
header_cdb c t type m n len h =
    let s = store (front c t type m) 11 c.cmnd in
    let all : load s 11 16 ≡ c.cmnd =
      ap (load s 11) (sym len) ∙ load-store (front c t type m) 11 11 c.cmnd refl in
    sym (take-load (header c t type m) 11 n 16 h) ∙ ap (take n) all

-- What the target reads is what the driver wrote: with the reader's buffer resident and command
-- blocks of 16 bytes, a task whose numbers fit their fields arrives with its type, direction,
-- number, LUN, command bytes and transfer length, in a read of 31 bytes.
pub header_roundtrip :
    (u : Uaccess) (k : Linux) (c : ScsiCmnd) (t : Task) (type : ℕ) (m : Mem) (old : UserTask)
    → IsResident u
    → k.max_command_size ≡ 16
    → length c.cmnd ≡ 16
    → c.cmd_len ≤ 16
    → t.cmd_number < 2 ^ 32
    → t.lun < 2 ^ 32
    → c.request_bufflen < 2 ^ 32
    → let (r, m') = task_to_user u k c t type m in
      (r ≡ bytes 31)
      × (task_buffer_to_task m' old ≡ record old {
        type = type;
        direction = direction_byte c.direction;
        cmd_number = t.cmd_number;
        lun = t.lun;
        cdblen = c.cmd_len;
        cdb = take c.cmd_len c.cmnd ++ drop c.cmd_len old.cdb;
        request_bufflen = c.request_bufflen;
      })
unfolding task_buffer_to_task
header_roundtrip u k c t type m old res size len fits number lun total =
    let (p0, p1, p10) = header_front c t type m in
    rw (task_to_user-header u k c t type m res size) (
      refl,
      ground (
        arith,
        p0,
        p1,
        p10,
        header_cmd_number c t type m number,
        header_lun c t type m lun,
        header_cdb c t type m c.cmd_len len fits,
        of_le32-le32 c.request_bufflen total,
      ),
    )
