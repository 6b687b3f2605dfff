-- ===== src/Chain/Table.antt =====
-- What an update and a deletion do to the software table.
use hardware_drivers.Prelude.{
  ℕ, zero, suc, ◌+◌, ◌*◌, ◌≡◌, ◌≢◌, refl, sym, ◌∙◌, ap, subst, arith, Bool, true, false, ◌⊎◌, inl,
  inr, Option, some, List, Bool-cases, if◌then◌else◌, ◌==◌, ℕ_discrete, eq_refl,
}
use hardware_drivers.Prelude.Int.{pos}
use hardware_drivers.Bus.{Access, u32}
use hardware_drivers.Device.{Dev, ExtifCid, Ret, ok, err, einval, update_timeout, chain_reg_read}
use hardware_drivers.Chain.{
  Kind, ingress, egress, other_kind, kind_index, FpgaId, update_resp, polling_max, is_entry, is_cid,
  entry_at, set_entry, poll_resp, request_update, finish_update, update_func_chain_table,
  request_delete,
}

-- Two states with the same table, the same chain module and the same FPGA.
pub record Same (d d' : Dev) : Type 0 where
  pub table : d'.fch_dev_table ≡ d.fch_dev_table
  pub chain : d'.chain ≡ d.chain
  pub answer : d'.bus.answer ≡ d.bus.answer

pub Same-trans : {d e f : Dev} → Same d e → Same e f → Same d f
Same-trans a b = record {
  table = b.table ∙ a.table;
  chain = b.chain ∙ a.chain;
  answer = b.answer ∙ a.answer;
}

pub request_update-Same : (d : Dev) (id : FpgaId) (kind : Kind) → Same d (request_update d id kind)
unfolding request_update
request_update-Same d id ingress = record { table = refl; chain = refl; answer = refl }
request_update-Same d id egress = record { table = refl; chain = refl; answer = refl }
request_update-Same d id other_kind = record { table = refl; chain = refl; answer = refl }

pub request_delete-Same : (d : Dev) (id : FpgaId) (kind : Kind) → Same d (request_delete d id kind)
unfolding request_delete
request_delete-Same d id ingress = record { table = refl; chain = refl; answer = refl }
request_delete-Same d id egress = record { table = refl; chain = refl; answer = refl }
request_delete-Same d id other_kind = record { table = refl; chain = refl; answer = refl }

pub poll_resp-Same :
    (left : ℕ) (d : Dev) (kind : Kind) (lane : ℕ) → Same d (poll_resp left d kind lane).1
unfolding poll_resp
poll_resp-Same zero d kind lane = record { table = refl; chain = refl; answer = refl }
poll_resp-Same (suc left) d kind lane =
    elim (Bool-cases ((chain_reg_read d (update_resp kind) lane).0 == 1)) [
      | inl e ↦ rw e (record { table = refl; chain = refl; answer = refl })
      | inr e ↦ rw e (
          Same-trans (record { table = refl; chain = refl; answer = refl })
            (poll_resp-Same left (chain_reg_read d (update_resp kind) lane).1 kind lane))
    ]

-- The FPGA answers every request: its response register always shows 1.
abbrev pub Responds : Dev → Kind → ℕ → Type 0
Responds d kind lane =
    (log : List Access)
    → u32 (d.bus.answer log (u32 (d.chain.base + d.chain.len * lane + update_resp kind))) ≡ 1

pub Responds-Same :
    {d d' : Dev} (kind : Kind) (lane : ℕ) → Same d d' → Responds d kind lane → Responds d' kind lane
Responds-Same kind lane s r log = rw (s.answer, s.chain) (r log)

pub poll_resp-Responds :
    (left : ℕ) (d : Dev) (kind : Kind) (lane : ℕ)
    → Responds d kind lane
    → (poll_resp (suc left) d kind lane).0 ≡ true
unfolding poll_resp
poll_resp-Responds left d kind lane r = rw (r d.bus.log) refl

ne_false : (a b : ℕ) → b ≢ a → (a == b) ≡ false
ne_false a b n = ground (arith, n)

-- An entry of the table after the entry at another place, or at its own, is set.
abbrev pub IsOther : ℕ → ℕ → Kind → ℕ → ℕ → ℕ → Type 0
IsOther lane fchid kind l f k = (l ≢ lane) ⊎ ((f ≢ fchid) ⊎ (k ≢ kind_index kind))

pub set_entry_self :
    (d : Dev) (lane fchid : ℕ) (kind : Kind) (e : ExtifCid)
    → entry_at (set_entry d lane fchid kind e) lane fchid kind ≡ e
unfolding set_entry
set_entry_self d lane fchid kind e =
    rw (eq_refl lane, eq_refl fchid, eq_refl (kind_index kind)) refl

pub set_entry_other :
    (d : Dev) (lane fchid : ℕ) (kind : Kind) (e : ExtifCid) (l f k : ℕ)
    → IsOther lane fchid kind l f k
    → (set_entry d lane fchid kind e).fch_dev_table l f k ≡ d.fch_dev_table l f k
unfolding set_entry
set_entry_other d lane fchid kind e l f k o = elim (ℕ_discrete l lane) [
  | no n ↦ rw (ne_false lane l n) refl
  | yes p ↦ elim (ℕ_discrete f fchid) [
    | no n ↦ ground (arith, n, p)
    | yes q ↦ elim (ℕ_discrete k (kind_index kind)) [
      | no n ↦ ground (arith, n, p, q)
      | yes r ↦ absurd (ground (arith, o, p, q, r))
    ]
  ]
]

-- What an update that returns has done to the table.
pub data Updates (d : Dev) (id : FpgaId) (kind : Kind) : Ret → Dev → Type 0 where
  refused :
      (is_cid id ≡ false) ⊎ (kind ≡ other_kind)
      → {d' : Dev} → d' ≡ d
      → Updates d id kind (err einval) d'
  timed_out :
      {d' : Dev} → d'.fch_dev_table ≡ d.fch_dev_table → Updates d id kind (err update_timeout) d'
  stored :
      {d' : Dev}
      → is_cid id ≡ true
      → entry_at d' id.lane id.fchid kind ≡ record { extif_id = pos id.extif_id; cid = pos id.cid }
      → ((l f k : ℕ)
          → IsOther id.lane id.fchid kind l f k
          → d'.fch_dev_table l f k ≡ d.fch_dev_table l f k)
      → Updates d id kind ok d'

abbrev UpdateResult : Dev → FpgaId → Kind → Option (Ret × Dev) → Type 0
UpdateResult d id kind o = (r : Ret) × (d' : Dev) × (o ≡ some (r, d')) × Updates d id kind r d'

module _ (d : Dev) (id : FpgaId) (kind : Kind) (near : is_entry id.lane id.fchid kind ≡ true)
    (valid : is_cid id ≡ true) where
  finish_update-Updates :
      (x : Bool × Dev) → Same d x.1 → UpdateResult d id kind (finish_update x id kind)
  unfolding finish_update
  finish_update-Updates (false, e) s = (err update_timeout, e, refl, timed_out s.table)
  finish_update-Updates (true, e) s =
      let entry : ExtifCid = record { extif_id = pos id.extif_id; cid = pos id.cid } in
      rw near (
        ok,
        set_entry e id.lane id.fchid kind entry,
        refl,
        stored valid (set_entry_self e id.lane id.fchid kind entry) (λ l f k o.
            set_entry_other e id.lane id.fchid kind entry l f k o ∙ ap (λ t. t l f k) s.table),
      )

  polled_update-Updates :
      UpdateResult d id kind
        (finish_update (poll_resp polling_max (request_update d id kind) kind id.lane) id kind)
  polled_update-Updates =
      finish_update-Updates _
        (Same-trans (request_update-Same d id kind) (poll_resp-Same polling_max _ kind id.lane))

guarded_update :
    (d : Dev) (id : FpgaId) (kind : Kind)
    → is_entry id.lane id.fchid kind ≡ true
    → UpdateResult d id kind (
        if is_cid id
        then finish_update (poll_resp polling_max (request_update d id kind) kind id.lane) id kind
        else some (err einval, d))
guarded_update d id kind near = elim (Bool-cases (is_cid id)) [
  | inl e ↦
      subst
        (λ b. UpdateResult d id kind (
          if b
          then finish_update (poll_resp polling_max (request_update d id kind) kind id.lane) id kind
          else some (err einval, d)))
        (sym e) (polled_update-Updates d id kind near e)
  | inr e ↦
      subst
        (λ b. UpdateResult d id kind (
          if b
          then finish_update (poll_resp polling_max (request_update d id kind) kind id.lane) id kind
          else some (err einval, d)))
        (sym e) (err einval, d, refl, refused (inl e) refl)
]

-- `xpcie_fpga_update_func_chain_table`, for an entry inside the table: it returns; it refuses
-- identifiers out of range with -EINVAL and changes nothing; after a timeout the software table is
-- as it was; and if it succeeds, the entry has the identifiers of the request and every other entry
-- is as it was.
pub update_func_chain_table-Updates :
    (d : Dev) (id : FpgaId) (kind : Kind)
    → is_entry id.lane id.fchid kind ≡ true
    → (r : Ret) × (d' : Dev) × (update_func_chain_table d id kind ≡ some (r, d'))
      × Updates d id kind r d'
unfolding update_func_chain_table
update_func_chain_table-Updates d id ingress near = guarded_update d id ingress near
update_func_chain_table-Updates d id egress near = guarded_update d id egress near
update_func_chain_table-Updates d id other_kind near =
    (err einval, d, refl, refused (inr refl) refl)
