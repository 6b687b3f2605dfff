-- ===== src/Files/Access.antt =====
-- Access through an open file, driver/xpcie_device_fops.c: the memory that `mmap` maps, and
-- `write`.
use hardware_drivers.Prelude.{
  ℕ, ◌+◌, ◌%◌, ◌/◌, ◌^◌, not, ◌||◌, ◌⊎◌, inl, inr, ltb, Option, none, some, ◌==◌, if◌then◌else◌,
  Bool,
}
use hardware_drivers.Bus.{reg_write32}
use hardware_drivers.Device.{
  Dev, Dir, host_to_dev, dev_to_host, Ret, ok, err, Errno, efault, ebusy, enodev, einval, Side, enq,
  deq, queue_at,
}
use hardware_drivers.Files.{Private}

-- The base and the size of the queue that `xpcie_cdev_mmap` maps.
abbrev pub map_side : Dir → Option Side
map_side host_to_dev = some enq
map_side dev_to_host = some deq
map_side other = none

abbrev pub map_queue : Dev → ℕ → Option Side → Ret × Option (ℕ × ℕ)
map_queue d chid none = (err efault, none)
map_queue d chid (some side) =
    let q = queue_at side d chid in (ok, some (q.que.base, q.qp_mem_size))

-- The checks of `xpcie_cdev_mmap` up to `remap_pfn_range`; the channel is one of the arrays.
unfoldable pub mmap_bound : Dev → Option ℕ → Option Dir → Ret × Option (ℕ × ℕ)
unfolding queue_at
mmap_bound d none kind = (err enodev, none)
mmap_bound d (some chid) none = (err efault, none)
mmap_bound d (some chid) (some dir) = map_queue d chid (map_side dir)

unfoldable pub mmap : Dev → Private → Ret × Option (ℕ × ℕ)
unfolding mmap_bound
mmap d f = mmap_bound d f.chid f.que_kind

-- `xpcie_cdev_write`: the number of bytes written, or an error. A write of 64 bits is two.
unfoldable pub write_file : Bool → Dev → Private → ℕ → ℕ → ℕ → (ℕ ⊎ Errno) × Dev
unfolding reg_write32
write_file from_user d f f_pos count word =
    if not f.is_avail_rw
    then (inr ebusy, d)
    else if not (f_pos % 4 == 0) || ltb 8 count
    then (inr einval, d)
    else if not from_user
    then (inr efault, d)
    else if count == 4
    then (inl count, record d { bus = reg_write32 d.bus f_pos (word % 2 ^ 32) })
    else if count == 8
    then (
      inl count,
      record d {
        bus =
            reg_write32 (reg_write32 d.bus (f_pos + 4) (word % 2 ^ 32)) f_pos
              (word / 2 ^ 32 % 2 ^ 32);
      },
    )
    else (inr einval, d)
