-- ===== src/Chain/Writes.antt =====
-- What one request of the table does, whether the FPGA answers it or not: it writes one entry, or
-- the wait for the response runs out and the table stays.
use hardware_drivers.Prelude.{
  ℕ, ◌%◌, ◌^◌, ◌≡◌, refl, ◌∙◌, ap, true, false, ◌⊎◌, inl, inr, some, Bool-cases,
}
use hardware_drivers.Device.{Dev, ExtifCid, ok, err, update_timeout, no_chain_found}
use hardware_drivers.Chain.{
  Kind, FpgaId, is_entry, is_cid, is_empty, entry_at, set_entry, update_func_chain_table,
  delete_func_chain_table, to_u32,
}
use hardware_drivers.Chain.Table.{Same, Responds, IsOther, set_entry_self, set_entry_other}
use hardware_drivers.Chain.Deletion.{
  entry_of, empty_entry, polled, polled-Same, polled-Responds, finish_update_ok, finish_update_late,
  update_valid, deletion, deletion-Same, deletion-Responds, finish_delete_late, delete_full,
}

-- The second state is the first with one entry of its table written.
pub record Writes (d d' : Dev) (lane fchid : ℕ) (kind : Kind) (e : ExtifCid) : Type 0 where
  pub self : entry_at d' lane fchid kind ≡ e
  pub other :
      (l f k : ℕ) → IsOther lane fchid kind l f k → d'.fch_dev_table l f k ≡ d.fch_dev_table l f k
  pub chain : d'.chain ≡ d.chain
  pub answer : d'.bus.answer ≡ d.bus.answer

set_entry-Writes :
    {d d1 : Dev} (lane fchid : ℕ) (kind : Kind) (e : ExtifCid)
    → Same d d1
    → Writes d (set_entry d1 lane fchid kind e) lane fchid kind e
unfolding set_entry
set_entry-Writes {d1} lane fchid kind e s = record {
  self = set_entry_self d1 lane fchid kind e;
  other = λ l f k o. set_entry_other d1 lane fchid kind e l f k o ∙ ap (λ t. t l f k) s.table;
  chain = s.chain;
  answer = s.answer;
}

pub Responds-Writes :
    {d d' : Dev} {lane fchid : ℕ} {kind : Kind} {e : ExtifCid} (kind' : Kind) (lane' : ℕ)
    → Writes d d' lane fchid kind e
    → Responds d kind' lane'
    → Responds d' kind' lane'
Responds-Writes kind' lane' w r log = rw (w.answer, w.chain) (r log)

-- An update that the FPGA answers.
pub update_responding :
    (d : Dev) (id : FpgaId) (kind : Kind)
    → is_entry id.lane id.fchid kind ≡ true
    → is_cid id ≡ true
    → Responds d kind id.lane
    → (d' : Dev) × (update_func_chain_table d id kind ≡ some (ok, d'))
      × Writes d d' id.lane id.fchid kind (entry_of id)
update_responding d id kind near valid r = (
  _,
  update_valid d id kind near valid
      ∙ finish_update_ok (polled d id kind) id kind (polled-Responds d id kind r) near,
  set_entry-Writes id.lane id.fchid kind (entry_of id) (polled-Same d id kind),
)

-- An update that the driver does not refuse.
pub update_either :
    (d : Dev) (id : FpgaId) (kind : Kind)
    → is_entry id.lane id.fchid kind ≡ true
    → is_cid id ≡ true
    → (d' : Dev) × (((update_func_chain_table d id kind ≡ some (err update_timeout, d'))
          × Same d d')
        ⊎ ((update_func_chain_table d id kind ≡ some (ok, d'))
            × Writes d d' id.lane id.fchid kind (entry_of id)))
update_either d id kind near valid = elim (Bool-cases (polled d id kind).0) [
  | inl t ↦ (
    _,
    inr (
      update_valid d id kind near valid ∙ finish_update_ok (polled d id kind) id kind t near,
      set_entry-Writes id.lane id.fchid kind (entry_of id) (polled-Same d id kind),
    ),
  )
  | inr f ↦ (
    _,
    inl (
      update_valid d id kind near valid ∙ finish_update_late (polled d id kind) id kind f,
      polled-Same d id kind,
    ),
  )
]

-- The identifiers that a deletion gives back.
abbrev pub taken_id : FpgaId → ExtifCid → FpgaId
taken_id id e = record id { extif_id = to_u32 e.extif_id; cid = to_u32 e.cid % 2 ^ 16 }

-- A deletion that the FPGA answers.
pub delete_responding :
    (d : Dev) (id : FpgaId) (kind : Kind) (e : ExtifCid)
    → is_entry id.lane id.fchid kind ≡ true
    → entry_at d id.lane id.fchid kind ≡ e
    → is_empty e ≡ false
    → Responds d kind id.lane
    → (d' : Dev) × (delete_func_chain_table d id kind ≡ some (ok, d', taken_id id e))
      × Writes d d' id.lane id.fchid kind empty_entry
delete_responding d id kind e near at full r = (
  _,
  delete_full d id kind e near at full (deletion-Responds d id kind r),
  set_entry-Writes id.lane id.fchid kind empty_entry (deletion-Same d id kind),
)

-- A deletion of an entry that is not there.
pub delete_absent :
    (d : Dev) (id : FpgaId) (kind : Kind)
    → is_entry id.lane id.fchid kind ≡ true
    → is_empty (entry_at d id.lane id.fchid kind) ≡ true
    → delete_func_chain_table d id kind ≡ some (err no_chain_found, d, id)
unfolding delete_func_chain_table
delete_absent d id kind near e = rw (near, e) refl

delete_late :
    (d : Dev) (id : FpgaId) (kind : Kind)
    → is_entry id.lane id.fchid kind ≡ true
    → is_empty (entry_at d id.lane id.fchid kind) ≡ false
    → (deletion d id kind).0 ≡ false
    → delete_func_chain_table d id kind ≡ some (err update_timeout, (deletion d id kind).1, id)
unfolding delete_func_chain_table
delete_late d id kind near full f =
    rw (near, full, finish_delete_late (deletion d id kind) id kind f) refl

-- A deletion of an entry that is there.
pub delete_either :
    (d : Dev) (id : FpgaId) (kind : Kind)
    → is_entry id.lane id.fchid kind ≡ true
    → is_empty (entry_at d id.lane id.fchid kind) ≡ false
    → (d' : Dev) × (id' : FpgaId) × (((delete_func_chain_table d id kind
            ≡ some (err update_timeout, d', id'))
          × Same d d')
        ⊎ ((delete_func_chain_table d id kind ≡ some (ok, d', id'))
            × Writes d d' id.lane id.fchid kind empty_entry))
delete_either d id kind near full = elim (Bool-cases (deletion d id kind).0) [
  | inl t ↦ (
    _,
    _,
    inr (
      delete_full d id kind _ near refl full t,
      set_entry-Writes id.lane id.fchid kind empty_entry (deletion-Same d id kind),
    ),
  )
  | inr f ↦ (_, _, inl (delete_late d id kind near full f, deletion-Same d id kind))
]
