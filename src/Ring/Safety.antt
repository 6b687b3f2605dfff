-- ===== src/Ring/Safety.antt =====
-- What a command has to satisfy for `__fpga_enqueue` to hand it to the FPGA, and what the library
-- keeps of its polling times.
use hardware_drivers.Prelude.{
  ℕ, ◌%◌, ◌≤◌, ◌≡◌, ◌≢◌, refl, sym, ◌∙◌, arith, true, false, Option, none, some,
}
use hardware_drivers.Prelude.Int.{ℤ, pos, negsuc, ltb_ℤ}
use hardware_drivers.Device.{Desc, Que}
use hardware_drivers.Ring.Command.{
  DmacmdInfo, LibErrno, done, Polling, Translate, virt_addr_with_check, check_timeout,
  check_interval, set_dma_cmd,
}
use hardware_drivers.Ring.Transfer.{
  Checked, phys, bad, check_cmd, check_region, check_addr, enqueue_desc, enqueue_checked,
  enqueue_valid, enqueue_cmd, fill_desc,
}

-- The buffer of a command is one that the FPGA may use: at least 1024 bytes and a whole number of
-- cache lines, at an address whose memory is registered, starts at a physical boundary of 1024
-- bytes and is physically contiguous over the whole length.
pub record IsBuffer (t : Translate) (c : DmacmdInfo) (pa : ℕ) : Type 0 where
  pub long : 1024 ≤ c.data_len
  pub lines : c.data_len % 64 ≡ 0
  pub address : c.data_addr ≢ 0
  pub physical : (t.pa_from_va c.data_addr c.data_len).0 ≡ pa
  pub contiguous : (t.pa_from_va c.data_addr c.data_len).1 ≡ c.data_len
  pub boundary : (pa % 1024 ≡ 0) × (pa ≢ 0)

check_cmd-none :
    (c : DmacmdInfo)
    → check_cmd c ≡ none
    → (1024 ≤ c.data_len) × (c.data_len % 64 ≡ 0) × (c.data_addr ≢ 0)
unfolding check_cmd
check_cmd-none c h = ground arith

check_region-phys :
    (c : DmacmdInfo) (pa chklen a : ℕ)
    → check_region c pa chklen ≡ phys a
    → (pa ≡ a) × (chklen ≡ c.data_len) × (a % 1024 ≡ 0) × (a ≢ 0)
unfolding check_region
check_region-phys c pa chklen a h = ground arith

check_addr_region :
    (t : Translate) (c : DmacmdInfo)
    → 1024 ≤ c.data_len
    → c.data_addr ≢ 0
    → check_addr t virt_addr_with_check c
      ≡ check_region c
          (t.pa_from_va c.data_addr c.data_len).0
          (t.pa_from_va c.data_addr c.data_len).1
unfolding check_addr
check_addr_region t c h n = ground (arith, n)

module _ (t : Translate) (q : Que) (c : DmacmdInfo) where
  IsBuffer-of_checks :
      (a : ℕ) → check_cmd c ≡ none → check_addr t virt_addr_with_check c ≡ phys a → IsBuffer t c a
  IsBuffer-of_checks a h k =
      let (long, lines, address) = check_cmd-none c h in
      let (physical, contiguous, whole, nonzero) =
        check_region-phys c _ _ a (sym (check_addr_region t c long address) ∙ k) in
      record {
        long = long;
        lines = lines;
        address = address;
        physical = physical;
        contiguous = contiguous;
        boundary = (whole, nonzero);
      }

  -- The descriptor that an enqueue of the command writes.
  abbrev pub request : ℕ → Desc
  request pa = record {
    task_id = c.task_id;
    op = 1;
    status = (q.ring q.writehead).status;
    len = c.data_len;
    addr = pa;
  }

  written_desc :
      (pa : ℕ) (q2 : Que) (c2 : DmacmdInfo)
      → pa ≢ 0
      → enqueue_desc q c pa ≡ (done, q2, c2)
      → q2.ring q.writehead ≡ request pa
  unfolding enqueue_desc fill_desc
  written_desc pa q2 c2 n h = ground (arith, n)

  passed_checked :
      (k : Checked) (q2 : Que) (c2 : DmacmdInfo)
      → check_cmd c ≡ none
      → check_addr t virt_addr_with_check c ≡ k
      → enqueue_checked q c k ≡ (done, q2, c2)
      → (pa : ℕ) × IsBuffer t c pa × (q2.ring q.writehead ≡ request pa)
  unfolding enqueue_checked
  passed_checked (bad e) q2 c2 h k g = absurd (ground arith)
  passed_checked (phys pa) q2 c2 h k g =
      let b = IsBuffer-of_checks pa h k in (pa, b, written_desc pa q2 c2 b.boundary.1 g)

  passed_valid :
      (o : Option LibErrno) (q2 : Que) (c2 : DmacmdInfo)
      → check_cmd c ≡ o
      → enqueue_valid t virt_addr_with_check q c o ≡ (done, q2, c2)
      → (pa : ℕ) × IsBuffer t c pa × (q2.ring q.writehead ≡ request pa)
  unfolding enqueue_valid
  passed_valid (some e) q2 c2 h g = absurd (ground arith)
  passed_valid none q2 c2 h g = passed_checked _ q2 c2 h refl g

-- If `fpga_enqueue` hands a command to the FPGA, its buffer has at least 1024 bytes and whole cache
-- lines, is registered, starts at a physical boundary of 1024 bytes other than 0 and is contiguous
-- over its whole length; and the slot at the write head has the command ready with this physical
-- address and length.
pub enqueue_cmd_safe :
    (t : Translate) (q q2 : Que) (c c2 : DmacmdInfo)
    → enqueue_cmd t virt_addr_with_check q c ≡ (done, q2, c2)
    → (pa : ℕ) × IsBuffer t c pa × (q2.ring q.writehead ≡ request t q c pa)
unfolding enqueue_cmd
enqueue_cmd_safe t q q2 c c2 h = passed_valid t q c _ q2 c2 refl h

-- The polling times of a dequeue are usable: a timeout of 10 milliseconds at least, and an interval
-- that is positive, below a second and below the timeout.
pub record IsPolling (p : Polling) : Type 0 where
  pub timeout : ltb_ℤ p.dequeue_timeout (pos 10000) ≡ false
  pub positive : ltb_ℤ (pos 0) p.dequeue_interval ≡ true
  pub below_second : ltb_ℤ (pos 999999) p.dequeue_interval ≡ false
  pub below_timeout : ltb_ℤ p.dequeue_interval p.dequeue_timeout ≡ true

check_timeout_lem : (p : Polling) → ltb_ℤ (check_timeout p).dequeue_timeout (pos 10000) ≡ false
unfolding check_timeout
check_timeout_lem p = ground arith

default_below : (z : ℤ) → ltb_ℤ z (pos 10000) ≡ false → ltb_ℤ (pos 100) z ≡ true
default_below (pos n) h = ground arith
default_below (negsuc n) h = absurd (ground arith)

check_interval_lem :
    (p : Polling) → ltb_ℤ p.dequeue_timeout (pos 10000) ≡ false → IsPolling (check_interval p)
unfolding check_interval
check_interval_lem p h = record {
  timeout = ground arith;
  positive = ground arith;
  below_second = ground arith;
  below_timeout = ground (arith, default_below p.dequeue_timeout h);
}

-- After `set_dma_cmd` of a command, whatever the polling times were set to before, they are usable.
pub set_dma_cmd-IsPolling :
    (p : Polling) (c : DmacmdInfo) (task_id data_addr data_len : ℕ)
    → IsPolling (set_dma_cmd p (some c) task_id data_addr data_len).2
unfolding set_dma_cmd
set_dma_cmd-IsPolling p c task_id data_addr data_len =
    let h = check_interval_lem (check_timeout p) (check_timeout_lem p) in
    record {
      timeout = h.timeout;
      positive = h.positive;
      below_second = h.below_second;
      below_timeout = h.below_timeout;
    }
