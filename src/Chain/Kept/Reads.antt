-- ===== src/Chain/Kept/Reads.antt =====
-- The functions behind the commands for statistics, reads of the table and the offsets in DDR
-- memory.
use hardware_drivers.Prelude.{
  ℕ, zero, suc, ◌+◌, refl, Bool, true, false, Option, none, some, List, [], ◌∷◌, Bool-cases, inl,
  inr, ◌==◌,
}
use hardware_drivers.Device.{Dev, chain_reg_read, chain_reg_write}
use hardware_drivers.Chain.{
  Kind, ingress, egress, other_kind, FpgaId, poll_resp, polling_max, update_resp,
}
use hardware_drivers.Chain.Read.{request_read, finish_read, read_requested, read_addr}
use hardware_drivers.Chain.Stats.{
  read_if, get_latency_chain, get_latency_func, read_pair, read_bytes, get_chain_bytes, read_frames,
  get_chain_frames, get_chain_buff, get_chain_bp, clear_chain_bp, get_chain_busy, check_chain_err,
  read_ddr, get_ddr_offset_frame, byte_regs, frame_reg, stat_sel_session,
}
use hardware_drivers.Chain.Ddr.{extif0_words, extif1_words, write_words, set_ddr_offset_frame}
use hardware_drivers.Chain.Ioctl.Stats.{
  StatCommand, run_stat, latency_chain, latency_func, chain_bytes, chain_frames, chain_buff,
  chain_bp, chain_bp_clr, egr_busy, chk_err, kept_or,
}
use hardware_drivers.Chain.Kept.Faults.{
  OnBus, OnBus-trans, chain_reg_read-OnBus, chain_reg_write-OnBus,
}

read_if-OnBus : (d : Dev) (reg : Option ℕ) (lane : ℕ) → OnBus d (read_if d reg lane).1
unfolding read_if
read_if-OnBus d none lane = refl
read_if-OnBus d (some offset) lane = chain_reg_read-OnBus d offset lane

read_bytes-OnBus :
    (d : Dev) (regs : Option (ℕ × ℕ × ℕ)) (lane cid_fchid : ℕ)
    → OnBus d (read_bytes d regs lane cid_fchid).1
unfolding read_bytes read_pair chain_reg_read chain_reg_write
read_bytes-OnBus d none lane cid_fchid = refl
read_bytes-OnBus d (some (sel, low, high)) lane cid_fchid = refl

read_frames-OnBus :
    (d : Dev) (reg : Option ℕ) (lane fchid : ℕ) → OnBus d (read_frames d reg lane fchid).1
unfolding read_frames chain_reg_read chain_reg_write read_if
read_frames-OnBus d none lane fchid = refl
read_frames-OnBus d (some reg) lane fchid = refl

latency-OnBus :
    (d : Dev) (lane : ℕ) (dir : Kind) (extif_id cid : ℕ)
    → OnBus d (get_latency_chain d lane dir extif_id cid).1
unfolding get_latency_chain
latency-OnBus d lane dir extif_id cid =
    OnBus-trans d (chain_reg_write-OnBus d stat_sel_session lane cid) (read_if-OnBus _ _ lane)

kept_or-OnBus : (d : Dev) (old : ℕ) (x : Option ℕ × Dev) → OnBus d x.1 → OnBus d (kept_or old x).1
kept_or-OnBus d old (none, e) p = p
kept_or-OnBus d old (some v, e) p = p

pub run_stat-OnBus : (d : Dev) (c : StatCommand) → OnBus d (run_stat d c).1
unfolding run_stat get_latency_func get_chain_bytes get_chain_frames get_chain_buff get_chain_bp
    clear_chain_bp get_chain_busy check_chain_err chain_reg_read chain_reg_write
run_stat-OnBus d (latency_chain lane dir extif_id cid old) =
    kept_or-OnBus d old _ (latency-OnBus d lane dir extif_id cid)
run_stat-OnBus d (latency_func lane fchid old) = refl
run_stat-OnBus d (chain_bytes lane reg_id cid_fchid old) =
    kept_or-OnBus d old _ (read_bytes-OnBus d (byte_regs reg_id) lane cid_fchid)
run_stat-OnBus d (chain_frames lane reg_id fchid old) =
    kept_or-OnBus d old _ (read_frames-OnBus d (frame_reg reg_id) lane fchid)
run_stat-OnBus d (chain_buff lane fchid old) = refl
run_stat-OnBus d (chain_bp lane fchid old) = refl
run_stat-OnBus d (chain_bp_clr lane fchid frame_num) = refl
run_stat-OnBus d (egr_busy lane fchid old) = refl
run_stat-OnBus d (chk_err lane old) = refl

request_read-OnBus : (d : Dev) (id : FpgaId) (kind : Kind) → OnBus d (request_read d id kind)
unfolding request_read chain_reg_write
request_read-OnBus d id ingress = refl
request_read-OnBus d id egress = refl
request_read-OnBus d id other_kind = refl

poll_resp-OnBus :
    (left : ℕ) (d : Dev) (kind : Kind) (lane : ℕ) → OnBus d (poll_resp left d kind lane).1
unfolding poll_resp
poll_resp-OnBus zero d kind lane = refl
poll_resp-OnBus (suc left) d kind lane =
    elim (Bool-cases ((chain_reg_read d (update_resp kind) lane).0 == 1)) [
      | inl e ↦ rw e (chain_reg_read-OnBus d (update_resp kind) lane)
      | inr e ↦ rw e (
          OnBus-trans d (chain_reg_read-OnBus d (update_resp kind) lane)
            (poll_resp-OnBus left (chain_reg_read d (update_resp kind) lane).1 kind lane))
    ]

finish_read-OnBus :
    (d : Dev) (x : Bool × Dev) (id : FpgaId) (kind : Kind)
    → OnBus d x.1
    → OnBus d (finish_read x id kind).1
unfolding finish_read
finish_read-OnBus d (false, e) id kind p = p
finish_read-OnBus d (true, e) id kind p =
    OnBus-trans d p (chain_reg_read-OnBus e (read_addr kind) id.lane)

pub read_requested-OnBus :
    (d : Dev) (id : FpgaId) (kind : Kind) → OnBus d (read_requested d id kind).1
unfolding read_requested
read_requested-OnBus d id kind =
    finish_read-OnBus d _ id kind
      (OnBus-trans d (request_read-OnBus d id kind) (poll_resp-OnBus polling_max _ kind id.lane))

write_words-OnBus :
    (d : Dev) (first lane : ℕ) (words : List (ℕ × ℕ)) → OnBus d (write_words d first lane words)
unfolding write_words
write_words-OnBus d first lane [] = refl
write_words-OnBus d first lane ((k, v) ∷ words) =
    OnBus-trans d (chain_reg_write-OnBus d (first + k) lane v)
      (write_words-OnBus (chain_reg_write d (first + k) lane v) first lane words)

pub set_ddr-OnBus :
    (inv : Bool) (d : Dev) (extif_id lane : ℕ) → OnBus d (set_ddr_offset_frame inv d extif_id lane)
unfolding set_ddr_offset_frame
set_ddr-OnBus inv d extif_id lane = elim (Bool-cases (extif_id == 0)) [
  | inl e ↦ rw e (write_words-OnBus d 0x100 lane (extif0_words inv lane))
  | inr n ↦ elim (Bool-cases (extif_id == 1)) [
    | inl e ↦ rw (n, e) (write_words-OnBus d 0x140 lane (extif1_words inv lane))
    | inr m ↦ rw (n, m) refl
  ]
]

pub get_ddr-OnBus : (d : Dev) (extif_id lane : ℕ) → OnBus d (get_ddr_offset_frame d extif_id lane).1
unfolding get_ddr_offset_frame read_ddr read_pair chain_reg_read
get_ddr-OnBus d extif_id lane = elim (Bool-cases (extif_id == 0)) [
  | inl e ↦ rw e refl
  | inr n ↦ elim (Bool-cases (extif_id == 1)) [ inl e ↦ rw (n, e) refl | inr m ↦ rw (n, m) refl ]
]
