-- ===== src/Direct/Kept.antt =====
-- What masks, forced and inserted faults of the direct transfer module read back as.
use hardware_drivers.Prelude.{
  ℕ, ◌+◌, ◌*◌, ◌≡◌, refl, ap, ◌∙◌, Option, none, some, ◌∷◌, subst, arith,
}
use hardware_drivers.Prelude.Fields.{unpack, cut, unpack-pack}
use hardware_drivers.Bus.{store, u32}
use hardware_drivers.Device.{Dev, direct_reg_read, direct_reg_write}
use hardware_drivers.Chain.Faults.{mask, force, ins}
use hardware_drivers.Direct.{DirType}
use hardware_drivers.Direct.Faults.{
  DirectErrProt, direct_write_if, direct_prot_reg, direct_prot_layout, direct_prot_values,
  direct_prot_word, direct_prot_store, direct_prot_found, mask_direct_err_prot,
  get_mask_direct_err_prot, force_direct_err_prot, get_force_direct_err_prot, ins_direct_err_prot,
  get_ins_direct_err_prot, DirectErrStif, direct_stif_reg, direct_stif_layout, direct_stif_values,
  direct_stif_word, direct_stif_store, direct_stif_found, mask_direct_err_stif,
  get_mask_direct_err_stif, force_direct_err_stif, get_force_direct_err_stif,
}

-- The register exists, and answers with the word that was written to it last.
abbrev pub IsKept : Dev → Option ℕ → ℕ → Type 0
IsKept d none lane = ⊥
IsKept d (some offset) lane =
    (v : ℕ)
    → d.bus.answer (store (u32 (d.direct.base + d.direct.len * lane + offset)) v ∷ d.bus.log)
        (u32 (d.direct.base + d.direct.len * lane + offset))
      ≡ v

-- A write and a read of one register, for the fields that a request stores.
prot_stored :
    (d : Dev) (o : Option ℕ) (word : ℕ) (q : DirectErrProt)
    → IsKept d o q.lane
    → direct_prot_values (direct_prot_found (direct_write_if d o q.lane word) o q).0
      ≡ unpack direct_prot_layout (u32 word)
unfolding direct_prot_found direct_prot_store direct_write_if direct_reg_read direct_reg_write
    unpack
prot_stored d none word q h = absurd h
prot_stored d (some offset) word q h =
    ap (unpack direct_prot_layout) (ap u32 (h (u32 word)) ∙ omega arith)

stif_stored :
    (d : Dev) (o : Option ℕ) (word : ℕ) (q : DirectErrStif)
    → IsKept d o q.lane
    → direct_stif_values (direct_stif_found (direct_write_if d o q.lane word) o q).0
      ≡ unpack direct_stif_layout (u32 word)
unfolding direct_stif_found direct_stif_store direct_write_if direct_reg_read direct_reg_write
    unpack
stif_stored d none word q h = absurd h
stif_stored d (some offset) word q h =
    ap (unpack direct_stif_layout) (ap u32 (h (u32 word)) ∙ omega arith)

prot_kept :
    (d : Dev) (o : Option ℕ) (r q : DirectErrProt)
    → q.lane ≡ r.lane
    → IsKept d o r.lane
    → direct_prot_values (direct_prot_found (direct_write_if d o r.lane (direct_prot_word r)) o q).0
      ≡ cut direct_prot_layout (direct_prot_values r)
unfolding direct_prot_word
prot_kept d o r q l h =
    let k : IsKept d o q.lane = rw l h in
    let e : direct_prot_values
          (direct_prot_found (direct_write_if d o q.lane (direct_prot_word r)) o q).0
        ≡ cut direct_prot_layout (direct_prot_values r) =
      prot_stored d o (direct_prot_word r) q k
      ∙ unpack-pack direct_prot_layout (direct_prot_values r) (omega arith) refl in
    subst
      (λ n.
        direct_prot_values (direct_prot_found (direct_write_if d o n (direct_prot_word r)) o q).0
        ≡ cut direct_prot_layout (direct_prot_values r))
      l e

stif_kept :
    (d : Dev) (o : Option ℕ) (r q : DirectErrStif)
    → q.lane ≡ r.lane
    → IsKept d o r.lane
    → direct_stif_values (direct_stif_found (direct_write_if d o r.lane (direct_stif_word r)) o q).0
      ≡ cut direct_stif_layout (direct_stif_values r)
unfolding direct_stif_word
stif_kept d o r q l h =
    let k : IsKept d o q.lane = rw l h in
    let e : direct_stif_values
          (direct_stif_found (direct_write_if d o q.lane (direct_stif_word r)) o q).0
        ≡ cut direct_stif_layout (direct_stif_values r) =
      stif_stored d o (direct_stif_word r) q k
      ∙ unpack-pack direct_stif_layout (direct_stif_values r) (omega arith) refl in
    subst
      (λ n.
        direct_stif_values (direct_stif_found (direct_write_if d o n (direct_stif_word r)) o q).0
        ≡ cut direct_stif_layout (direct_stif_values r))
      l e

-- A request of the same kind reads the same register.
same_reg :
    (d : Dev) (reg : DirType → Option ℕ) (r q : DirectErrProt)
    → q.dir_type ≡ r.dir_type
    → direct_prot_values
        (direct_prot_found
          (direct_write_if d (reg r.dir_type) r.lane (direct_prot_word r))
          (reg r.dir_type)
          q).0
      ≡ cut direct_prot_layout (direct_prot_values r)
    → direct_prot_values
        (direct_prot_found
          (direct_write_if d (reg r.dir_type) r.lane (direct_prot_word r))
          (reg q.dir_type)
          q).0
      ≡ cut direct_prot_layout (direct_prot_values r)
same_reg d reg r q t e =
    ap
      (λ (k : DirType).
        direct_prot_values
          (direct_prot_found (direct_write_if d (reg r.dir_type) r.lane (direct_prot_word r))
            (reg k) q).0)
      t
    ∙ e

-- A mask, a forced and an inserted protocol fault of the direct transfer module, read back by a
-- request for the same lane and kind, show the eleven bits of the request that wrote them, and so
-- do the twelve bits of a mask and of a forced stall, if the three registers of the mask, the
-- forced and the inserted faults of the kind and the two of the stalls keep what is written.
pub direct_faults_kept :
    (d : Dev) (r q : DirectErrProt) (s p : DirectErrStif)
    → q.lane ≡ r.lane
    → q.dir_type ≡ r.dir_type
    → p.lane ≡ s.lane
    → IsKept d (direct_prot_reg mask r.dir_type) r.lane
    → IsKept d (direct_prot_reg force r.dir_type) r.lane
    → IsKept d (direct_prot_reg ins r.dir_type) r.lane
    → IsKept d (direct_stif_reg mask) s.lane
    → IsKept d (direct_stif_reg force) s.lane
    → (direct_prot_values (get_mask_direct_err_prot (mask_direct_err_prot d r) q).0
        ≡ cut direct_prot_layout (direct_prot_values r))
      × (direct_prot_values (get_force_direct_err_prot (force_direct_err_prot d r) q).0
          ≡ cut direct_prot_layout (direct_prot_values r))
      × (direct_prot_values (get_ins_direct_err_prot (ins_direct_err_prot d r) q).0
          ≡ cut direct_prot_layout (direct_prot_values r))
      × (direct_stif_values (get_mask_direct_err_stif (mask_direct_err_stif d s) p).0
          ≡ cut direct_stif_layout (direct_stif_values s))
      × (direct_stif_values (get_force_direct_err_stif (force_direct_err_stif d s) p).0
          ≡ cut direct_stif_layout (direct_stif_values s))
unfolding mask_direct_err_prot get_mask_direct_err_prot force_direct_err_prot
    get_force_direct_err_prot ins_direct_err_prot get_ins_direct_err_prot mask_direct_err_stif
    get_mask_direct_err_stif force_direct_err_stif get_force_direct_err_stif
direct_faults_kept d r q s p l t l' pm pf pi m f = (
  same_reg d (λ k. direct_prot_reg mask k) r q t
      (prot_kept d (direct_prot_reg mask r.dir_type) r q l pm),
  same_reg d (λ k. direct_prot_reg force k) r q t
      (prot_kept d (direct_prot_reg force r.dir_type) r q l pf),
  same_reg d (λ k. direct_prot_reg ins k) r q t
      (prot_kept d (direct_prot_reg ins r.dir_type) r q l pi),
  stif_kept d (direct_stif_reg mask) s p l' m,
  stif_kept d (direct_stif_reg force) s p l' f,
)
