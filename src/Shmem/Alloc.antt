-- ===== src/Shmem/Alloc.antt =====
-- Allocation and release of shared memory, lib/libfpga/src/libshmem.c: `fpga_shmem_alloc`,
-- `fpga_shmem_aligned_alloc` and `fpga_shmem_free`. DPDK is not under the repository: what its
-- functions answer is a parameter, and the address that `rte_malloc` returned is an argument. The
-- loop takes fuel; `none` means that it goes on.
pub mod Ends
pub mod Hangs
use hardware_drivers.Prelude.{
  ℕ, zero, suc, ◌%◌, Bool, true, false, none, some, ◌==◌, if◌then◌else◌, ◌||◌, not,
}
use mathlib.Core.Option
use mathlib.Core.Option.{Option}
use hardware_drivers.Shmem.{
  Maps, register, register_update, register_check, unregister, mmap_v2p, mmap_p2v,
}

-- Whether `rte_mem_virt2memseg_list` and `rte_mem_virt2memseg` find an address, and
-- `rte_mem_virt2phy`.
pub record Dpdk : Type 0 where
  pub has_memseg_list : ℕ → Bool
  pub has_memseg : ℕ → Bool
  pub virt2phy : ℕ → ℕ

-- `true` for 0, `false` for -1; what `fpga_shmem_register` returns is not looked at.
unfoldable pub add_new_region : Dpdk → Maps → ℕ → ℕ → Bool × Maps
add_new_region d m va len =
    if d.has_memseg_list va
    then (if d.has_memseg va then (true, (register m va (d.virt2phy va) len).1) else (false, m))
    else (false, m)

unfoldable pub remap_region : Dpdk → Maps → ℕ → ℕ → Bool × Maps
remap_region d m va len =
    if register_check m va
    then (if d.has_memseg_list va
        then (if d.has_memseg va
            then (true, (register_update m va (d.virt2phy va) len).1)
            else (false, m))
        else (false, m))
    else (false, m)

-- The way out of the loop to `err_out`, or with the length that is left.
abbrev pub leave : Bool → ℕ → Option ℕ
leave true chklen = some chklen
leave false chklen = none

unfoldable pub alloc_loop : ℕ → Dpdk → Maps → ℕ → ℕ → Option (Option ℕ × Maps)
unfolding add_new_region remap_region
alloc_loop zero d m va chklen = none
alloc_loop (suc fuel) d m va chklen =
    let (pa, len) = mmap_v2p m va chklen in
    let (ok, m') = add_new_region d m va len in
    let again = alloc_loop fuel d m' va len in
    let (ok', m'') = remap_region d m va len in
    if pa == 0
    then (if ok then again else some (none, m'))
    else (if pa == d.virt2phy va then some (some len, m) else some (leave ok' len, m''))

-- The address is returned if the whole length lies in one region.
abbrev pub checked : ℕ → ℕ → Option ℕ × Maps → Option ℕ × Maps
checked va length (none, m) = (none, m)
checked va length (some chklen, m) = (if length == chklen then some va else none, m)

unfoldable pub alloc : ℕ → Dpdk → Maps → Option ℕ → ℕ → Option (Option ℕ × Maps)
unfolding alloc_loop
alloc fuel d m none length = some (none, m)
alloc fuel d m (some va) length = Option.map (checked va length) (alloc_loop fuel d m va length)

unfoldable pub aligned_alloc : ℕ → Dpdk → Maps → Option ℕ → ℕ → Option (Option ℕ × Maps)
unfolding alloc_loop
aligned_alloc fuel d m none length = some (none, m)
aligned_alloc fuel d m (some va) length =
    Option.map (checked va length) (alloc_loop fuel d m va length)

unfoldable pub free : Maps → ℕ → Maps
unfolding unregister
free m addr = unregister m addr

-- The two translations that the DMA functions use: `DMA_WORD_LINE_MASK` is 3.
unfoldable pub dma_pa_from_va : Maps → ℕ → ℕ → ℕ × ℕ
unfolding mmap_v2p
dma_pa_from_va m va len =
    if not (va % 4 == 0) || not (len % 4 == 0) then (0, len) else mmap_v2p m va len

unfoldable pub local_phy2virt : Maps → ℕ → ℕ
unfolding mmap_p2v
local_phy2virt m pa64 = mmap_p2v m pa64
