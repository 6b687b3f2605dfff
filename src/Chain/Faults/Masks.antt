-- ===== src/Chain/Faults/Masks.antt =====
-- What a mask, a forced or an inserted fault reads back as, from registers that keep what was
-- written.
use hardware_drivers.Prelude.{
  ℕ, ◌+◌, ◌*◌, ◌≡◌, ◌≢◌, refl, ap, ◌∙◌, Option, none, some, List, ◌∷◌, arith,
}
use hardware_drivers.Prelude.Fields.{unpack, cut, unpack-pack}
use hardware_drivers.Bus.{store, u32}
use hardware_drivers.Device.{Dev}
use hardware_drivers.Chain.{Kind, ingress, egress, other_kind}
use hardware_drivers.Chain.Faults.{
  ChainErr, Bank, mask, force, ins, chain_err_reg, chain_err_layout, chain_err_values,
  chain_err_word, chain_err_store, write_if, read_or, mask_chain_err, get_mask_chain_err,
  force_chain_err, get_force_chain_err, ins_chain_err, get_ins_chain_err, ins_ingress_layout,
  ins_ingress_values, ins_egress_layout, ins_egress_values, ins_ingress_store, ins_egress_store,
  ins_ingress_word, ins_egress_word, ins_word, ins_store,
}

-- The register exists, and answers with the word that was written to it last.
abbrev pub IsKept : Dev → Option ℕ → ℕ → Type 0
IsKept d none lane = ⊥
IsKept d (some offset) lane =
    (v : ℕ)
    → d.bus.answer (store (u32 (d.chain.base + d.chain.len * lane + offset)) v ∷ d.bus.log)
        (u32 (d.chain.base + d.chain.len * lane + offset))
      ≡ v

pub read_or-write_if :
    (d : Dev) (o : Option ℕ) (lane word garbage : ℕ)
    → IsKept d o lane
    → (read_or garbage (write_if d o lane word) o lane).0 ≡ u32 word
unfolding read_or write_if
read_or-write_if d none lane word garbage h = absurd h
read_or-write_if d (some offset) lane word garbage h = ground (arith, h (u32 word))

chain_err_values-store :
    (r : ChainErr) (word : ℕ)
    → chain_err_values (chain_err_store r word) ≡ unpack chain_err_layout word
unfolding chain_err_store unpack
chain_err_values-store r word = refl

chain_err_word_lem :
    (r : ChainErr)
    → unpack chain_err_layout (u32 (chain_err_word r)) ≡ cut chain_err_layout (chain_err_values r)
unfolding chain_err_word
chain_err_word_lem r = unpack-pack chain_err_layout (chain_err_values r) (omega arith) refl

-- A request for the same register.
pub record IsSamePlace (r q : ChainErr) : Type 0 where
  pub lane : q.lane ≡ r.lane
  pub extif_id : q.extif_id ≡ r.extif_id
  pub dir : q.dir ≡ r.dir

-- The word that a request for the same register reads.
same_word :
    (bank : Bank) (d : Dev) (garbage word : ℕ) (r q : ChainErr)
    → IsSamePlace r q
    → IsKept d (chain_err_reg bank r.dir r.extif_id) r.lane
    → (read_or garbage
        (write_if d (chain_err_reg bank r.dir r.extif_id) r.lane word)
        (chain_err_reg bank q.dir q.extif_id)
        q.lane).0
      ≡ u32 word
same_word bank d garbage word r q s h =
    rw (s.lane, s.extif_id, s.dir)
      (read_or-write_if d (chain_err_reg bank r.dir r.extif_id) r.lane word garbage h)

-- A mask, and a forced fault, read back by a request for the same register, show the nine fields of
-- the request that wrote them, each cut to its width, if the register keeps what is written.
pub chain_err_kept :
    (d : Dev) (garbage : ℕ) (r q : ChainErr)
    → IsSamePlace r q
    → IsKept d (chain_err_reg mask r.dir r.extif_id) r.lane
    → IsKept d (chain_err_reg force r.dir r.extif_id) r.lane
    → (chain_err_values (get_mask_chain_err (mask_chain_err d r) garbage q).0
        ≡ cut chain_err_layout (chain_err_values r))
      × (chain_err_values (get_force_chain_err (force_chain_err d r) garbage q).0
          ≡ cut chain_err_layout (chain_err_values r))
unfolding get_mask_chain_err mask_chain_err get_force_chain_err force_chain_err
chain_err_kept d garbage r q s h k =
    let w = chain_err_word r in
    (
      chain_err_values-store q _
          ∙ ap (unpack chain_err_layout) (same_word mask d garbage w r q s h)
          ∙ chain_err_word_lem r,
      chain_err_values-store q _
          ∙ ap (unpack chain_err_layout) (same_word force d garbage w r q s k)
          ∙ chain_err_word_lem r,
    )

-- The same of an inserted fault, whose fields differ by direction.
abbrev pub inserted : Kind → ChainErr → List ℕ
inserted ingress r = ins_ingress_values r
inserted kind r = ins_egress_values r

abbrev pub inserted_layout : Kind → List (ℕ × ℕ)
inserted_layout ingress = ins_ingress_layout
inserted_layout kind = ins_egress_layout

ins_values_store :
    (k : Kind) (r : ChainErr) (word : ℕ)
    → k ≢ other_kind
    → inserted k (ins_store k r word) ≡ unpack (inserted_layout k) word
unfolding ins_ingress_store ins_egress_store unpack
ins_values_store ingress r word h = refl
ins_values_store egress r word h = refl
ins_values_store other_kind r word h = absurd (h refl)

ins_word_lem :
    (k : Kind) (r : ChainErr)
    → unpack (inserted_layout k) (u32 (ins_word k r)) ≡ cut (inserted_layout k) (inserted k r)
unfolding ins_ingress_word ins_egress_word
ins_word_lem ingress r = unpack-pack ins_ingress_layout (ins_ingress_values r) (omega arith) refl
ins_word_lem egress r = unpack-pack ins_egress_layout (ins_egress_values r) (omega arith) refl
ins_word_lem other_kind r = unpack-pack ins_egress_layout (ins_egress_values r) (omega arith) refl

-- A direction with a register is ingress or egress.
kept_kind :
    (d : Dev) (k : Kind) (e lane : ℕ) → IsKept d (chain_err_reg ins k e) lane → k ≢ other_kind
kept_kind d ingress e lane h = λ p. cc
kept_kind d egress e lane h = λ p. cc
kept_kind d other_kind e lane h = absurd h

-- An inserted fault, read back by a request for the same register, shows the fields that the
-- direction has, each cut to its width, if the register keeps what is written.
pub ins_chain_err_kept :
    (d : Dev) (garbage : ℕ) (r q : ChainErr)
    → IsSamePlace r q
    → IsKept d (chain_err_reg ins r.dir r.extif_id) r.lane
    → inserted r.dir (get_ins_chain_err (ins_chain_err d r) garbage q).0
      ≡ cut (inserted_layout r.dir) (inserted r.dir r)
unfolding get_ins_chain_err ins_chain_err
ins_chain_err_kept d garbage r q s h =
    let word =
      (read_or garbage (ins_chain_err d r) (chain_err_reg ins q.dir q.extif_id) q.lane).0 in
    ap (λ (k : Kind). inserted r.dir (ins_store k q word)) s.dir
    ∙ ins_values_store r.dir q word (kept_kind d r.dir r.extif_id r.lane h)
    ∙ ap (unpack (inserted_layout r.dir)) (same_word ins d garbage (ins_word r.dir r) r q s h)
    ∙ ins_word_lem r.dir r
