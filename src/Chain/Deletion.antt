-- ===== src/Chain/Deletion.antt =====
-- A deletion undoes an update.
use hardware_drivers.Prelude.{ℕ, ◌%◌, ◌^◌, ◌≡◌, refl, ◌∙◌, ap, arith, Bool, true, false, some}
use hardware_drivers.Prelude.Int.{pos}
use hardware_drivers.Device.{Dev, ExtifCid, ok, err, update_timeout}
use hardware_drivers.Chain.{
  Kind, ingress, egress, other_kind, kind_index, FpgaId, polling_max, is_entry, is_cid, entry_at,
  set_entry, poll_resp, request_update, finish_update, update_func_chain_table, request_delete,
  finish_delete, delete_func_chain_table, is_empty, no_chain, to_u32,
}
use hardware_drivers.Chain.Table.{
  Same, Same-trans, request_update-Same, request_delete-Same, poll_resp-Same, Responds,
  Responds-Same, poll_resp-Responds, set_entry_self, set_entry_other, IsOther,
}

abbrev pub entry_of : FpgaId → ExtifCid
entry_of id = record { extif_id = pos id.extif_id; cid = pos id.cid }

abbrev pub empty_entry : ExtifCid
empty_entry = record { extif_id = no_chain; cid = no_chain }

-- The state after a successful request, before the table is written.
abbrev pub polled : Dev → FpgaId → Kind → Bool × Dev
polled d id kind = poll_resp polling_max (request_update d id kind) kind id.lane

pub polled-Same : (d : Dev) (id : FpgaId) (kind : Kind) → Same d (polled d id kind).1
polled-Same d id kind =
    Same-trans (request_update-Same d id kind) (poll_resp-Same polling_max _ kind id.lane)

pub polled-Responds :
    (d : Dev) (id : FpgaId) (kind : Kind) → Responds d kind id.lane → (polled d id kind).0 ≡ true
polled-Responds d id kind r =
    poll_resp-Responds 99 (request_update d id kind) kind id.lane
      (Responds-Same kind id.lane (request_update-Same d id kind) r)

pub finish_update_late :
    (x : Bool × Dev) (id : FpgaId) (kind : Kind)
    → x.0 ≡ false
    → finish_update x id kind ≡ some (err update_timeout, x.1)
unfolding finish_update
finish_update_late (false, d) id kind f = refl
finish_update_late (true, d) id kind f = absurd (ground arith)

pub finish_update_ok :
    (x : Bool × Dev) (id : FpgaId) (kind : Kind)
    → x.0 ≡ true
    → is_entry id.lane id.fchid kind ≡ true
    → finish_update x id kind ≡ some (ok, set_entry x.1 id.lane id.fchid kind (entry_of id))
unfolding finish_update
finish_update_ok (true, d) id kind t near = rw near refl
finish_update_ok (false, d) id kind t near = absurd (ground arith)

pub update_valid :
    (d : Dev) (id : FpgaId) (kind : Kind)
    → is_entry id.lane id.fchid kind ≡ true
    → is_cid id ≡ true
    → update_func_chain_table d id kind ≡ finish_update (polled d id kind) id kind
unfolding update_func_chain_table
update_valid d id ingress near valid = rw valid refl
update_valid d id egress near valid = rw valid refl
update_valid d id other_kind near valid = absurd (ground arith)

pub finish_delete_ok :
    (x : Bool × Dev) (id : FpgaId) (kind : Kind)
    → x.0 ≡ true
    → finish_delete x id kind ≡ (
      ok,
      set_entry x.1 id.lane id.fchid kind empty_entry,
      record id {
        extif_id = to_u32 (entry_at x.1 id.lane id.fchid kind).extif_id;
        cid = to_u32 (entry_at x.1 id.lane id.fchid kind).cid % 2 ^ 16;
      },
    )
unfolding finish_delete
finish_delete_ok (true, d) id kind t = refl
finish_delete_ok (false, d) id kind t = absurd (ground arith)

pub finish_delete_late :
    (x : Bool × Dev) (id : FpgaId) (kind : Kind)
    → x.0 ≡ false
    → finish_delete x id kind ≡ (err update_timeout, x.1, id)
unfolding finish_delete
finish_delete_late (false, d) id kind f = refl
finish_delete_late (true, d) id kind f = absurd (ground arith)

cid_small : (id : FpgaId) → is_cid id ≡ true → id.cid % 2 ^ 16 ≡ id.cid
cid_small id v = ground arith

abbrev pub deletion : Dev → FpgaId → Kind → Bool × Dev
deletion d id kind = poll_resp polling_max (request_delete d id kind) kind id.lane

pub deletion-Same : (d : Dev) (id : FpgaId) (kind : Kind) → Same d (deletion d id kind).1
deletion-Same d id kind =
    Same-trans (request_delete-Same d id kind) (poll_resp-Same polling_max _ kind id.lane)

pub deletion-Responds :
    (d : Dev) (id : FpgaId) (kind : Kind) → Responds d kind id.lane → (deletion d id kind).0 ≡ true
deletion-Responds d id kind r =
    poll_resp-Responds 99 (request_delete d id kind) kind id.lane
      (Responds-Same kind id.lane (request_delete-Same d id kind) r)

-- A deletion of an entry that is there, which the FPGA answers.
pub delete_full :
    (d : Dev) (id : FpgaId) (kind : Kind) (e : ExtifCid)
    → is_entry id.lane id.fchid kind ≡ true
    → entry_at d id.lane id.fchid kind ≡ e
    → is_empty e ≡ false
    → (deletion d id kind).0 ≡ true
    → delete_func_chain_table d id kind
      ≡ some (
        ok,
        set_entry (deletion d id kind).1 id.lane id.fchid kind empty_entry,
        record id { extif_id = to_u32 e.extif_id; cid = to_u32 e.cid % 2 ^ 16 },
      )
unfolding delete_func_chain_table
delete_full d id kind e near at full hit =
    let there : entry_at (deletion d id kind).1 id.lane id.fchid kind ≡ e =
      ap (λ t. t id.lane id.fchid (kind_index kind)) (deletion-Same d id kind).table ∙ at in
    rw (near, at, full, finish_delete_ok (deletion d id kind) id kind hit, there) refl

set_entry-Responds :
    (d : Dev) (lane fchid : ℕ) (kind : Kind) (e : ExtifCid)
    → Responds d kind lane
    → Responds (set_entry d lane fchid kind e) kind lane
unfolding set_entry
set_entry-Responds d lane fchid kind e r log = r log

-- `xpcie_fpga_delete_func_chain_table` after `xpcie_fpga_update_func_chain_table`, for an entry
-- inside the table, identifiers in range and an FPGA that answers: both succeed, the deletion gives
-- back the identifiers of the update, the entry is empty after it and every other entry is as it
-- was before both.
pub delete_after_update :
    (d : Dev) (id : FpgaId) (kind : Kind)
    → is_entry id.lane id.fchid kind ≡ true
    → is_cid id ≡ true
    → Responds d kind id.lane
    → (d1 : Dev) × (d2 : Dev) × (update_func_chain_table d id kind ≡ some (ok, d1))
      × (delete_func_chain_table d1 id kind ≡ some (ok, d2, id))
      × (entry_at d2 id.lane id.fchid kind ≡ empty_entry)
      × ((l f k : ℕ)
          → IsOther id.lane id.fchid kind l f k
          → d2.fch_dev_table l f k ≡ d.fch_dev_table l f k)
delete_after_update d id kind near valid r =
    let p = (polled d id kind).1 in
    let d1 = set_entry p id.lane id.fchid kind (entry_of id) in
    let d2 = set_entry (deletion d1 id kind).1 id.lane id.fchid kind empty_entry in
    let hit = polled-Responds d id kind r in
    let r1 =
      set_entry-Responds p id.lane id.fchid kind (entry_of id)
        (Responds-Same kind id.lane (polled-Same d id kind) r) in
    (
      d1,
      d2,
      update_valid d id kind near valid ∙ finish_update_ok (polled d id kind) id kind hit near,
      delete_full d1 id kind (entry_of id) near
            (set_entry_self p id.lane id.fchid kind (entry_of id)) refl
            (deletion-Responds d1 id kind r1)
          ∙ rw (cid_small id valid) refl,
      set_entry_self _ id.lane id.fchid kind empty_entry,
      λ l f k o.
          set_entry_other _ id.lane id.fchid kind empty_entry l f k o
          ∙ ap (λ t. t l f k) (deletion-Same d1 id kind).table
          ∙ set_entry_other p id.lane id.fchid kind (entry_of id) l f k o
          ∙ ap (λ t. t l f k) (polled-Same d id kind).table,
    )
