-- ===== src/Tests/FaultRuns.antt =====
-- The theorems on faults and on the search for lanes at an FPGA whose registers keep what is
-- written.
use hardware_drivers.Prelude.{
  ℕ, ◌+◌, ◌*◌, ◌<◌, ◌≡◌, arith, some, true, refl, List, [], ◌∷◌, ◌==◌, ◌||◌, if◌then◌else◌,
}
use hardware_drivers.Prelude.Fields.{cut}
use hardware_drivers.Bus.{Access, load, store, u32}
use hardware_drivers.Device.{Dev, free}
use hardware_drivers.Chain.{ingress, egress}
use hardware_drivers.Chain.Stats.{get_ddr_offset_frame}
use hardware_drivers.Chain.Ddr.{set_ddr_offset_frame}
use hardware_drivers.Chain.Ddr.Memory.{IsMemory}
use hardware_drivers.Chain.Ddr.Kept.{nw_ddr, lldma_ddr, ddr_offset_frame_kept}
use hardware_drivers.Chain.Faults.{
  ChainErr, Bank, value, mask, force, ins, chain_err_values, mask_chain_err, get_mask_chain_err,
  force_chain_err, get_force_chain_err,
}
use hardware_drivers.Chain.Faults.Masks.{IsKept, IsSamePlace, chain_err_kept}
use hardware_drivers.Chain.Faults.Reports.{ChainErrProt, prot_reg}
use hardware_drivers.Chain.Faults.Stalls.{ChainErrStif}
use hardware_drivers.Direct.{ingr_rcv}
use hardware_drivers.Direct.Faults.{
  DirectErrProt, DirectErrStif, direct_prot_values, mask_direct_err_prot, get_mask_direct_err_prot,
  force_direct_err_prot, get_force_direct_err_prot, ins_direct_err_prot, get_ins_direct_err_prot,
  direct_stif_values, mask_direct_err_stif, get_mask_direct_err_stif, force_direct_err_stif,
  get_force_direct_err_stif,
}
use hardware_drivers.Direct.Kept.{direct_faults_kept}
use hardware_drivers.Lanes.{
  chain_place, direct_place, get_chain_module_info, get_direct_module_info,
}
use hardware_drivers.Lanes.Found.{Finds, module_info-IsFound}
use hardware_drivers.Tests.Samples.{board, queue_of}

-- The word that was stored at an offset last, or 0.
abbrev last_store : List Access → ℕ → ℕ
last_store [] offset = 0
last_store (load o ∷ log) offset = last_store log offset
last_store (store o v ∷ log) offset = if o == offset then v else last_store log offset

keeping : Dev
keeping = record (board (queue_of free []) 0) { bus = record { log = []; answer = last_store } }

keeping-IsMemory : (first : ℕ) → first < 0x1000 → IsMemory keeping first 1
unfolding keeping
keeping-IsMemory first h = record {
  stored = λ log k v p. ground arith;
  kept = λ log j k v p q n. ground arith;
  loaded = λ log j k p q. refl;
}

ddr_offset_frame_kept_example :
    ((get_ddr_offset_frame (set_ddr_offset_frame true keeping 0 1) 0 1).0 ≡ some (nw_ddr 1))
    × ((get_ddr_offset_frame (set_ddr_offset_frame true keeping 1 1) 1 1).0 ≡ some lldma_ddr)
ddr_offset_frame_kept_example =
    ddr_offset_frame_kept true keeping 1 (keeping-IsMemory 0x100 (omega arith))
      (keeping-IsMemory 0x140 (omega arith))

abbrev a_fault : ChainErr
a_fault = record {
  lane = 1;
  extif_id = 1;
  dir = egress;
  cid_fchid = 7;
  header_marker = 1;
  payload_len = 3;
  header_len = 0;
  header_chksum = 1;
  header_stat = 0x1FF;
  pointer_table_miss = 1;
  payload_table_miss = 0;
  con_table_miss = 0;
  pointer_table_invalid = 1;
  payload_table_invalid = 0;
  con_table_invalid = 0;
}

abbrev a_question : ChainErr
a_question = record a_fault { header_stat = 0; header_marker = 0 }

asked-IsSamePlace : IsSamePlace a_fault a_question
asked-IsSamePlace = record { lane = refl; extif_id = refl; dir = refl }

chain_err_kept_example :
    (chain_err_values (get_mask_chain_err (mask_chain_err keeping a_fault) 5 a_question).0
      ≡ 1 ∷ 1 ∷ 0 ∷ 1 ∷ 0xFF ∷ 1 ∷ 0 ∷ 1 ∷ 0 ∷ [])
    × (chain_err_values (get_force_chain_err (force_chain_err keeping a_fault) 5 a_question).0
        ≡ 1 ∷ 1 ∷ 0 ∷ 1 ∷ 0xFF ∷ 1 ∷ 0 ∷ 1 ∷ 0 ∷ [])
unfolding keeping cut
chain_err_kept_example =
    chain_err_kept keeping 5 a_fault a_question asked-IsSamePlace (λ v. refl) (λ v. refl)

abbrev a_protocol_fault : ChainErrProt
a_protocol_fault = record {
  lane = 1;
  dir = ingress;
  prot_ch = 1;
  prot_len = 0;
  prot_sof = 1;
  prot_eof = 0;
  prot_reqresp = 1;
  prot_datanum = 0;
  prot_req_outstanding = 1;
  prot_resp_outstanding = 0;
  prot_max_datanum = 1;
  prot_reqlen = 0;
  prot_reqresplen = 1;
}

banks : (bank : Bank) → IsKept keeping (prot_reg bank ingress) 1
unfolding keeping
banks value = λ v. refl
banks mask = λ v. refl
banks force = λ v. refl
banks ins = λ v. refl

abbrev shown_protocol : List ℕ
shown_protocol = 1 ∷ 0 ∷ 1 ∷ 0 ∷ 1 ∷ 0 ∷ 1 ∷ 0 ∷ 1 ∷ 0 ∷ 1 ∷ []

abbrev a_stall : ChainErrStif
a_stall = record {
  lane = 0;
  ingress_req = 1;
  ingress_resp = 0;
  ingress_data = 3;
  egress_req = 0;
  egress_resp = 1;
  egress_data = 0;
  extif_event = 2;
  extif_command = 5;
}

abbrev a_direct_fault : DirectErrProt
a_direct_fault = record {
  lane = 1;
  dir_type = ingr_rcv;
  prot_ch = 1;
  prot_len = 0;
  prot_sof = 1;
  prot_eof = 0;
  prot_reqresp = 1;
  prot_datanum = 0;
  prot_req_outstanding = 1;
  prot_resp_outstanding = 0;
  prot_max_datanum = 1;
  prot_reqlen = 0;
  prot_reqresplen = 1;
}

abbrev a_direct_stall : DirectErrStif
a_direct_stall = record {
  lane = 0;
  ingress_rcv_req = 1;
  ingress_rcv_resp = 0;
  ingress_rcv_data = 1;
  ingress_snd_req = 0;
  ingress_snd_resp = 1;
  ingress_snd_data = 0;
  egress_rcv_req = 1;
  egress_rcv_resp = 0;
  egress_rcv_data = 1;
  egress_snd_req = 0;
  egress_snd_resp = 1;
  egress_snd_data = 2;
}

abbrev shown_stall : List ℕ
shown_stall = 1 ∷ 0 ∷ 1 ∷ 0 ∷ 1 ∷ 0 ∷ 1 ∷ 0 ∷ 1 ∷ 0 ∷ 1 ∷ 0 ∷ []

direct_faults_kept_example :
    (direct_prot_values
        (get_mask_direct_err_prot (mask_direct_err_prot keeping a_direct_fault) a_direct_fault).0
      ≡ shown_protocol)
    × (direct_prot_values
          (get_force_direct_err_prot
            (force_direct_err_prot keeping a_direct_fault)
            a_direct_fault).0
        ≡ shown_protocol)
    × (direct_prot_values
          (get_ins_direct_err_prot (ins_direct_err_prot keeping a_direct_fault) a_direct_fault).0
        ≡ shown_protocol)
    × (direct_stif_values
          (get_mask_direct_err_stif (mask_direct_err_stif keeping a_direct_stall) a_direct_stall).0
        ≡ shown_stall)
    × (direct_stif_values
          (get_force_direct_err_stif
            (force_direct_err_stif keeping a_direct_stall)
            a_direct_stall).0
        ≡ shown_stall)
unfolding keeping cut
direct_faults_kept_example =
    direct_faults_kept keeping a_direct_fault a_direct_fault a_direct_stall a_direct_stall refl refl
      refl (λ v. refl) (λ v. refl) (λ v. refl) (λ v. refl) (λ v. refl)

-- Two lanes of the chain module and none of the direct transfer module.
abbrev ids_of : ℕ → ℕ
ids_of offset = if offset == 0x1010 || offset == 0x2010 then 0xF0C0 else 0

abbrev two_lanes : Dev
two_lanes = record (board (queue_of free []) 0) {
  bus = record { log = []; answer = λ log offset. ids_of offset };
}

module_info-IsFound_example :
    Finds chain_place
      (λ i. ids_of (u32 (0x1000 + i * 0x1000 + 0x10)))
      (get_chain_module_info two_lanes).0
      (get_chain_module_info two_lanes).1.chain
    × Finds direct_place
        (λ i. ids_of (u32 (0x5000 + i * 0x1000 + 0x10)))
        (get_direct_module_info two_lanes).0
        (get_direct_module_info two_lanes).1.direct
module_info-IsFound_example =
    module_info-IsFound two_lanes (λ i. ids_of (u32 (0x1000 + i * 0x1000 + 0x10)))
      (λ i. ids_of (u32 (0x5000 + i * 0x1000 + 0x10))) (λ log i p. refl) (λ log i p. refl)
