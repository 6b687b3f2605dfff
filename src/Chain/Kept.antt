-- ===== src/Chain/Kept.antt =====
-- Which ioctl commands of the chain module change the driver's state.
pub mod Faults
pub mod Reads
use hardware_drivers.Prelude.{
  ℕ, zero, suc, ◌+◌, ◌%◌, ◌^◌, ◌≡◌, refl, sym, ◌∙◌, ap, subst, arith, Bool, true, false, not, ◌&&◌,
  Option, none, some, List, [], ◌∷◌, if◌then◌else◌, Bool-cases, inl, inr, ◌==◌,
}
use hardware_drivers.Device.{
  kernel_lane_max, no_chain_found, efault, Dev, Ret, ok, err, chain_reg_read, chain_reg_write,
}
use hardware_drivers.Chain.{
  Kind, ingress, egress, other_kind, FpgaId, poll_resp, polling_max, update_resp, is_entry,
  is_empty, entry_at,
}
use hardware_drivers.Chain.Read.{
  find_lane, request_read, finish_read, read_requested, read_func_chain_table, read_addr,
  read_chain_soft_table, start_chain_module, stop_chain_module, get_chain_ctrl, get_chain_module_id,
}
use hardware_drivers.Chain.Stats.{
  read_if, get_latency_chain, get_latency_func, read_pair, read_bytes, get_chain_bytes, read_frames,
  get_chain_frames, get_chain_buff, get_chain_bp, clear_chain_bp, get_chain_busy, check_chain_err,
  ChainDdr, read_ddr, get_ddr_offset_frame, latency_regs, byte_regs, frame_reg, stat_sel_session,
  stat_sel_channel,
}
use hardware_drivers.Chain.Ddr.{extif0_words, extif1_words, write_words, set_ddr_offset_frame}
use hardware_drivers.Chain.Faults.Stalls.{get_chain_con_status}
use hardware_drivers.Chain.Ioctl.Stats.{
  StatCommand, run_stat, latency_chain, latency_func, chain_bytes, chain_frames, chain_buff,
  chain_bp, chain_bp_clr, egr_busy, chk_err, kept_or,
}
use hardware_drivers.Chain.Ioctl.Faults.{FaultCommand, run_fault}
use hardware_drivers.Chain.Ioctl.{
  Kernel, Command, update_table_ingr, update_table_egr, delete_table_ingr, delete_table_egr,
  read_table_ingr, read_table_egr, start_module, stop_module, set_ddr, get_ddr, get_module,
  get_module_id, get_connection, read_soft_table, stat, fault, reset_soft_table, other_command,
  Answer, stored, stored_if_ok, stored_ddr, stored_ids, stored_fault, ChainIds, run_chain,
  has_argument, ioctl_chain,
}
use hardware_drivers.Chain.Kept.Faults.{
  OnBus, OnBus-trans, chain_reg_read-OnBus, chain_reg_write-OnBus, read_or-OnBus, run_fault-OnBus,
}
use hardware_drivers.Chain.Kept.Reads.{
  run_stat-OnBus, read_requested-OnBus, set_ddr-OnBus, get_ddr-OnBus,
}

-- Where a call gives a result, its driver differs in the accesses only.
AllOnBus : Dev → Option Answer → Type 0
AllOnBus d none = Unit
AllOnBus d (some (r, d', c)) = OnBus d d'

stored-OnBus :
    (d : Dev) (writable : Bool) (d' : Dev) (c c' : Command)
    → OnBus d d'
    → AllOnBus d (some (stored writable d' c c'))
unfolding AllOnBus
stored-OnBus d true d' c c' p = p
stored-OnBus d false d' c c' p = p

-- The commands that write the software table.
abbrev pub writes_table : Command → Bool
writes_table (update_table_ingr id) = true
writes_table (update_table_egr id) = true
writes_table (delete_table_ingr id) = true
writes_table (delete_table_egr id) = true
writes_table reset_soft_table = true
writes_table c = false

read_table-OnBus :
    (d : Dev) (writable : Bool) (x : Ret × Dev × FpgaId) (after : FpgaId → Command)
    (before : Command)
    → OnBus d x.1
    → AllOnBus d (stored_if_ok writable (some x) after before)
unfolding AllOnBus
read_table-OnBus d true (ok, d', id) after before p = p
read_table-OnBus d false (ok, d', id) after before p = p
read_table-OnBus d writable (err e, d', id) after before p = p

read_ingress-OnBus :
    (d : Dev) (writable : Bool) (id : FpgaId)
    → AllOnBus d (
        stored_if_ok writable
          (read_func_chain_table d id ingress)
          read_table_ingr
          (read_table_ingr id))
unfolding read_func_chain_table
read_ingress-OnBus d writable id = elim (Bool-cases (find_lane d id kernel_lane_max 0 false)) [
  | inl e ↦ rw e (
      read_table-OnBus d writable (read_requested d id ingress) read_table_ingr (read_table_ingr id)
        (read_requested-OnBus d id ingress))
  | inr n ↦ rw n (
      read_table-OnBus d writable (err no_chain_found, d, id) read_table_ingr (read_table_ingr id)
        refl)
]

read_egress-OnBus :
    (d : Dev) (writable : Bool) (id : FpgaId)
    → AllOnBus d (
        stored_if_ok writable
          (read_func_chain_table d id egress)
          read_table_egr
          (read_table_egr id))
unfolding read_func_chain_table AllOnBus
read_egress-OnBus d writable id = elim (Bool-cases (is_entry id.lane id.fchid egress)) [
  | inr n ↦ rw n tt
  | inl y ↦ elim (Bool-cases (is_empty (entry_at d id.lane id.fchid egress))) [
    | inl e ↦
        rw (y, e)
          (read_table-OnBus d writable (err no_chain_found, d, id) read_table_egr
            (read_table_egr id) refl)
    | inr n ↦
        rw (y, n)
          (read_table-OnBus d writable (read_requested d id egress) read_table_egr
            (read_table_egr id) (read_requested-OnBus d id egress))
  ]
]

stored_ddr-OnBus :
    (d : Dev) (writable : Bool) (x : Option ChainDdr × Dev) (lane extif_id : ℕ) (before : Command)
    → OnBus d x.1
    → AllOnBus d (some (stored_ddr writable x lane extif_id before))
stored_ddr-OnBus d writable (none, d') lane extif_id before p = stored-OnBus d writable d' _ _ p
stored_ddr-OnBus d writable (some ddr, d') lane extif_id before p = stored-OnBus d writable d' _ _ p

stored_fault-OnBus :
    (d : Dev) (writable : Bool) (c : FaultCommand) (x : Option FaultCommand × Dev)
    → OnBus d x.1
    → AllOnBus d (some (stored_fault writable c x))
unfolding AllOnBus
stored_fault-OnBus d writable c (none, d') p = p
stored_fault-OnBus d writable c (some c', d') p = stored-OnBus d writable d' _ _ p

soft-OnBus :
    (d : Dev) (writable : Bool) (x : Option ((ℕ × ℕ) × (ℕ × ℕ))) (ids : ChainIds)
    → AllOnBus d (stored_ids writable d x ids)
unfolding AllOnBus
soft-OnBus d writable none ids = tt
soft-OnBus d true (some ((a, b), (e, f))) ids = refl
soft-OnBus d false (some ((a, b), (e, f))) ids = refl

con_status-OnBus :
    (d : Dev) (garbage lane extif_id cid : ℕ)
    → OnBus d (get_chain_con_status d garbage lane extif_id cid).1
unfolding get_chain_con_status
con_status-OnBus d garbage lane extif_id cid =
    OnBus-trans d (chain_reg_write-OnBus d stat_sel_session lane (cid % 2 ^ 9))
      (read_or-OnBus garbage _ _ lane)

run_chain-OnBus :
    (k : Kernel) (writable : Bool) (d : Dev) (c : Command)
    → writes_table c ≡ false
    → AllOnBus d (run_chain k writable d c)
unfolding run_chain start_chain_module stop_chain_module get_chain_ctrl get_chain_module_id
    chain_reg_read chain_reg_write AllOnBus
run_chain-OnBus k writable d (update_table_ingr id) p = absurd (ground arith)
run_chain-OnBus k writable d (update_table_egr id) p = absurd (ground arith)
run_chain-OnBus k writable d (delete_table_ingr id) p = absurd (ground arith)
run_chain-OnBus k writable d (delete_table_egr id) p = absurd (ground arith)
run_chain-OnBus k writable d reset_soft_table p = absurd (ground arith)
run_chain-OnBus k writable d (read_table_ingr id) p = read_ingress-OnBus d writable id
run_chain-OnBus k writable d (read_table_egr id) p = read_egress-OnBus d writable id
run_chain-OnBus k writable d (start_module lane) p = refl
run_chain-OnBus k writable d (stop_module lane) p = refl
run_chain-OnBus k writable d (set_ddr lane extif_id) p =
    stored-OnBus d writable _ _ _ (set_ddr-OnBus k.extifinv d extif_id lane)
run_chain-OnBus k writable d (get_ddr lane extif_id ddr) p =
    stored_ddr-OnBus d writable _ lane extif_id _ (get_ddr-OnBus d extif_id lane)
run_chain-OnBus k writable d (get_module lane value) p =
    stored-OnBus d writable (get_chain_ctrl d lane).1 _ _ refl
run_chain-OnBus k writable d (get_module_id lane value) p =
    stored-OnBus d writable (get_chain_module_id d lane).1 _ _ refl
run_chain-OnBus k writable d (get_connection lane extif_id cid value) p =
    stored-OnBus d writable _ _ _ (con_status-OnBus d k.garbage lane extif_id cid)
run_chain-OnBus k writable d (read_soft_table ids) p =
    soft-OnBus d writable (read_chain_soft_table d ids.lane ids.fchid) ids
run_chain-OnBus k writable d (stat c) p = stored-OnBus d writable _ _ _ (run_stat-OnBus d c)
run_chain-OnBus k writable d (fault c) p =
    stored_fault-OnBus d writable c _ (run_fault-OnBus d k.garbage c)
run_chain-OnBus k writable d other_command p = refl

all_on_bus :
    (d : Dev) {d' : Dev} {r : Ret} {c : Command} (o : Option Answer)
    → AllOnBus d o
    → o ≡ some (r, d', c)
    → OnBus d d'
unfolding AllOnBus
all_on_bus d o h e = subst (AllOnBus d) e h

all_ioctl :
    (k : Kernel) (readable writable : Bool) (d : Dev) (c : Command)
    → writes_table c ≡ false
    → AllOnBus d (ioctl_chain k readable writable d c)
unfolding ioctl_chain AllOnBus
all_ioctl k readable writable d c p = elim (Bool-cases (has_argument c && not readable)) [
  | inl h ↦ rw h refl
  | inr h ↦ rw h (run_chain-OnBus k writable d c p)
]

-- An ioctl command of the chain module other than an update or a deletion of an entry and the reset
-- of the software table, whether the copies from and to the user's memory succeed or not: if it
-- returns, all that it has changed in the driver's state are the accesses to the card.
pub ioctl_chain-OnBus :
    (k : Kernel) (readable writable : Bool) (d d' : Dev) (c c' : Command) (r : Ret)
    → writes_table c ≡ false
    → ioctl_chain k readable writable d c ≡ some (r, d', c')
    → OnBus d d'
ioctl_chain-OnBus k readable writable d d' c c' r p e =
    all_on_bus d (ioctl_chain k readable writable d c) (all_ioctl k readable writable d c p) e
