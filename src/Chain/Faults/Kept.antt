-- ===== src/Chain/Faults/Kept.antt =====
-- What masks, forced and inserted faults of the other groups read back as.
use hardware_drivers.Prelude.{ℕ, ◌*◌, ◌/◌, ◌%◌, ◌≡◌, refl, ap, ◌∙◌, arith, bit_or}
use hardware_drivers.Prelude.Bits.{bit_or_disjoint}
use hardware_drivers.Prelude.Fields.{unpack, cut, unpack-pack}
use hardware_drivers.Bus.{u32}
use hardware_drivers.Device.{Dev}
use hardware_drivers.Chain.Faults.{Bank, mask, force, ins, write_if, read_or}
use hardware_drivers.Chain.Faults.Reports.{
  ChainErrProt, prot_reg, prot_layout, prot_values, prot_word, prot_store, prot_read, prot_write,
  mask_chain_err_prot, get_mask_chain_err_prot, force_chain_err_prot, get_force_chain_err_prot,
  ins_chain_err_prot, get_ins_chain_err_prot,
}
use hardware_drivers.Chain.Faults.Stalls.{
  ChainErrStif, stif_reg, stif_layout, stif_values, stif_word, stif_store, stif_read, stif_write,
  mask_chain_err_stif, get_mask_chain_err_stif, force_chain_err_stif, get_force_chain_err_stif,
}
use hardware_drivers.Chain.Faults.Masks.{IsKept, read_or-write_if}

-- A write and a read of one register of the protocol faults.
prot_kept :
    (bank : Bank) (d : Dev) (garbage : ℕ) (r q : ChainErrProt)
    → q.lane ≡ r.lane
    → q.dir ≡ r.dir
    → IsKept d (prot_reg bank r.dir) r.lane
    → prot_values (prot_read bank (prot_write bank d r) garbage q).0
      ≡ cut prot_layout (prot_values r)
unfolding prot_word prot_store unpack
prot_kept bank d garbage r q l k h =
    let e : (read_or garbage (write_if d (prot_reg bank r.dir) r.lane (prot_word r))
          (prot_reg bank q.dir) q.lane).0
        ≡ u32 (prot_word r) =
      rw (l, k) (read_or-write_if d (prot_reg bank r.dir) r.lane (prot_word r) garbage h) in
    ap (unpack prot_layout) e ∙ unpack-pack prot_layout (prot_values r) (omega arith) refl

-- A mask, a forced and an inserted protocol fault, read back by a request for the same lane and
-- direction, show the eleven bits of the request that wrote them, if the registers keep what is
-- written.
pub prot_faults_kept :
    (d : Dev) (garbage : ℕ) (r q : ChainErrProt)
    → q.lane ≡ r.lane
    → q.dir ≡ r.dir
    → ((bank : Bank) → IsKept d (prot_reg bank r.dir) r.lane)
    → (prot_values (get_mask_chain_err_prot (mask_chain_err_prot d r) garbage q).0
        ≡ cut prot_layout (prot_values r))
      × (prot_values (get_force_chain_err_prot (force_chain_err_prot d r) garbage q).0
          ≡ cut prot_layout (prot_values r))
      × (prot_values (get_ins_chain_err_prot (ins_chain_err_prot d r) garbage q).0
          ≡ cut prot_layout (prot_values r))
unfolding mask_chain_err_prot get_mask_chain_err_prot force_chain_err_prot get_force_chain_err_prot
    ins_chain_err_prot get_ins_chain_err_prot
prot_faults_kept d garbage r q l k h = (
  prot_kept mask d garbage r q l k (h mask),
  prot_kept force d garbage r q l k (h force),
  prot_kept ins d garbage r q l k (h ins),
)

-- The two bits of a number that come back from two places of a word.
two_bits : (v : ℕ) → bit_or (v % 2) (v / 2 % 2 * 2) ≡ v % 4
two_bits v = bit_or_disjoint 1 (v % 2) (v / 2 % 2) (omega arith) ∙ omega arith

-- A request with the bits that the register shows of another one.
abbrev pub stif_shown : ChainErrStif → ChainErrStif → ChainErrStif
stif_shown r q = record q {
  ingress_req = r.ingress_req % 2;
  ingress_resp = r.ingress_resp % 2;
  ingress_data = r.ingress_data % 2;
  egress_req = r.egress_req % 2;
  egress_resp = r.egress_resp % 2;
  egress_data = r.egress_data % 2;
  extif_event = r.extif_event % 4;
  extif_command = r.extif_command % 4;
}

stif_store_word : (r q : ChainErrStif) → stif_store q (u32 (stif_word r)) ≡ stif_shown r q
unfolding stif_word stif_store unpack cut
stif_store_word r q = ground (
  arith,
  unpack-pack stif_layout (stif_values r) (omega arith) refl,
  two_bits r.extif_event,
  two_bits r.extif_command,
)

stif_kept :
    (bank : Bank) (d : Dev) (r q : ChainErrStif)
    → q.lane ≡ r.lane
    → IsKept d (stif_reg bank) r.lane
    → (stif_read bank (stif_write bank d r) q).0 ≡ stif_shown r q
stif_kept bank d r q l h =
    let e : (read_or 0 (write_if d (stif_reg bank) r.lane (stif_word r)) (stif_reg bank) q.lane).0
        ≡ u32 (stif_word r) =
      rw l (read_or-write_if d (stif_reg bank) r.lane (stif_word r) 0 h) in
    ap (stif_store q) e ∙ stif_store_word r q

-- A mask or a forced stall, read back by a request for the same lane, shows the six bits of the
-- directions and both bits of the events and of the commands, one for each external interface, if
-- the register keeps what is written.
pub stif_faults_kept :
    (d : Dev) (r q : ChainErrStif)
    → q.lane ≡ r.lane
    → IsKept d (stif_reg mask) r.lane
    → IsKept d (stif_reg force) r.lane
    → ((get_mask_chain_err_stif (mask_chain_err_stif d r) q).0 ≡ stif_shown r q)
      × ((get_force_chain_err_stif (force_chain_err_stif d r) q).0 ≡ stif_shown r q)
unfolding mask_chain_err_stif get_mask_chain_err_stif force_chain_err_stif get_force_chain_err_stif
stif_faults_kept d r q l h k = (stif_kept mask d r q l h, stif_kept force d r q l k)
