-- ===== src/Lib.antt =====
-- The OpenKasugai hardware drivers: the Linux kernel driver of the FPGA card (driver/) and the user
-- library that talks to it (lib/libfpga/).
--
-- The driver owns the command queues of the card's LLDMA channels. A process asks it for a queue,
-- maps the queue's memory and then exchanges commands with the FPGA through that memory alone: the
-- library writes a descriptor at the write head, the FPGA works it off and marks it done, the
-- library takes it at the read head. The buffers of the commands are in shared memory, whose
-- regions the library keeps in two maps. The driver also keeps the table that connects the function
-- chains of a lane to external connections, and the reference counts that keep a writer of the
-- device apart from its users.
--
-- The files and the code they are about:
--   Bus, Device: driver/libxpcie.h and driver/xpcie_device.h, register access and the state
--     `fpga_dev_info_t`.
--   Lldma: driver/lldma/libxpcie_lldma.c. Lldma/Queue has `xpcie_fpga_get_queue`, `put_queue`,
--     `put_queue_info`, `scan_queue` and `ref_queue`; Lldma/Channel `start_queue`, `stop_queue`,
--     `set_buf`, `queue_set_addr` and `queue_set_ctrl`; Lldma/Connect `dev_connect` and
--     `dev_disconnect`; Lldma/Alloc the memory of a queue; Lldma/Status and Lldma/Buffer the status
--     and buffer registers; Lldma/Regs the register map of driver/lldma/xpcie_regs_lldma.h.
--   Ring: lib/libfpga/src/libdma.c. Ring/Command has `set_dma_cmd`, `get_dma_cmd` and the polling
--     times; Ring/Transfer `__fpga_enqueue` with its three callers and `fpga_dequeue`; Ring/Workers
--     several processes in `__fpga_enqueue` at a time, access by access.
--   Ring/Shared: that queue over the maps of the shared memory.
--   Shmem: lib/libfpga/src/libshmem_mmap.cpp, the maps between virtual and physical addresses;
--     Shmem/Alloc `fpga_shmem_alloc`, `fpga_shmem_aligned_alloc` and `fpga_shmem_free` of
--     lib/libfpga/src/libshmem.c and the translations for DMA.
--   Chain: driver/chain/libxpcie_chain.c, the functions on the function chain table and on a lane;
--     Chain/Stats its counters, Chain/Ddr the offsets of its buffers, Chain/Faults the five groups of
--     faults that it reports.
--   Direct: driver/direct/libxpcie_direct.c, the lanes, counters and faults of the direct transfer
--     module.
--   Lanes: the search for the lanes of these two modules at start-up.
--   Files: an open file, driver/xpcie_device_fops.c and driver/lldma/xpcie_device_fops_lldma.c: what
--     the ioctl commands on queues and connections and the closing of a file do to the channel that
--     the file holds; Files/Owner: several files.
--   Manager: lib/libfpga/src/libshmem_manager.c, the huge pages that the managers of shared memory
--     take, and `fpga_shmem_manager_init`.
--   Chain/Ioctl, Direct/Ioctl: the ioctl commands of these modules, `xpcie_fpga_ioctl_chain` of
--     driver/chain/xpcie_device_fops_chain.c and `xpcie_fpga_ioctl_direct` of
--     driver/direct/xpcie_device_fops_direct.c.
--   Libchain: lib/libfpga/src/libchain.c over these commands: a process with its opened devices and
--     the cards behind them. Libchain.antt has the connection and disconnection of a chain,
--     Libchain/Queries the other functions, Libchain/Wait the four waits with
--     `__fpga_common_polling` of lib/libfpga/src/libfpgacommon.c.
--   Refcount: driver/libxpcie.c, `xpcie_fpga_control_refcount`.
--   Prelude: numbers, lists and bits that these share. Tests: the theorems at concrete inputs.
--
-- How the code is modelled. A C function is a function from the state to its result and the next
-- state; `Option` is nothing where the C code would access memory outside an array. The FPGA is
-- not part of the repository: `Bus` answers every read by a function of the whole history of
-- accesses, so that a register may change at any time, and what a theorem needs of the FPGA is
-- one of its hypotheses. The same holds of `kzalloc`, `virt_to_phys`, the copies from and to a
-- caller's memory, the functions of DPDK, `fork` and `waitpid`: what they answer is an argument.
-- A local variable that the code leaves unset is the argument `garbage`. A `std::map` is the
-- list of its entries. Numbers are unbounded with the wrap-around of the C types written out at
-- the registers, heads, translations and casts; `int` values are signed numbers. Mutexes and
-- spin locks make a call one step. A process is alone on its command queue, so that the
-- compare-and-set of a head succeeds, but in Ring/Workers, where any number of processes enqueue
-- and each access to the queue is a step; dequeues are one step there too. Three loops have
-- fuel. That of `fpga_dequeue` takes one unit for each look at the queue; the looks for a
-- timeout of n microseconds are n + 1, because each sleep takes a microsecond or more. That of
-- `fpga_shmem_alloc` takes one for each round: two are enough where there is room for the
-- region. That of `__fpga_common_polling` takes one for each look, which is more than enough if
-- it has more than the nanoseconds of the timeout, because each sleep takes one or more; its
-- clock is one that is not set back. The polling loops of the driver have the bounds of the
-- code.
--
-- Not modelled: the dispatch of ioctl commands to the modules, the reading of a file and the
-- register lock; the opening and closing of devices in the library; the CMS, global, conversion,
-- function and PTU modules; the child processes of the shared memory's managers, its limits and
-- its controller; the fault, statistics, function, power and logging libraries, and the tools.
pub mod Prelude
pub mod Bus
pub mod Device
pub mod Lldma
pub mod Ring
pub mod Shmem
pub mod Chain
pub mod Direct
pub mod Lanes
pub mod Files
pub mod Manager
pub mod Refcount
pub mod Libchain
pub mod Tests
