-- ===== src/Libchain/Links.antt =====
-- The two entries of a function chain, followed through a sequence of calls.
use hardware_drivers.Prelude.{ℕ, ◌≡◌, ◌≢◌, refl, ◌∙◌, ap, arith, ◌⊎◌, inl, inr, some}
use hardware_drivers.Device.{ExtifCid}
use hardware_drivers.Chain.{Kind, ingress, egress, entry_at}
use hardware_drivers.Chain.Table.{IsOther}
use hardware_drivers.Libchain.{FpgaDevice, Host, fpga_get_device, card}
use hardware_drivers.Libchain.Frame.{Frame, Frame-refl, Frame-trans, Held, Wrote}

-- From the first process to the second, the chain of a lane and a function channel has come to have
-- these entries; every other chain of the card, the other cards and the process are as they were.
pub record Linked (h h' : Host) (dev : FpgaDevice) (lane fchid : ℕ) (ig eg : ExtifCid)
    : Type 0 where
  pub frame : Frame h h' dev
  pub ingress_entry : entry_at (card h' dev) lane fchid ingress ≡ ig
  pub egress_entry : entry_at (card h' dev) lane fchid egress ≡ eg
  pub others :
      (l f k : ℕ)
      → (l ≢ lane) ⊎ (f ≢ fchid)
      → (card h' dev).fch_dev_table l f k ≡ (card h dev).fch_dev_table l f k

-- The entries that the chain has.
abbrev pub ingress_at : Host → FpgaDevice → ℕ → ℕ → ExtifCid
ingress_at h dev lane fchid = entry_at (card h dev) lane fchid ingress

abbrev pub egress_at : Host → FpgaDevice → ℕ → ℕ → ExtifCid
egress_at h dev lane fchid = entry_at (card h dev) lane fchid egress

pub Linked-refl :
    (h : Host) (dev : FpgaDevice) (lane fchid : ℕ)
    → Linked h h dev lane fchid (ingress_at h dev lane fchid) (egress_at h dev lane fchid)
Linked-refl h dev lane fchid = record {
  frame = Frame-refl h dev;
  ingress_entry = refl;
  egress_entry = refl;
  others = λ l f k o. refl;
}

away :
    {lane fchid l f : ℕ} (kind : Kind) (k : ℕ)
    → (l ≢ lane) ⊎ (f ≢ fchid)
    → IsOther lane fchid kind l f k
away kind k (inl n) = inl n
away kind k (inr n) = inr (inl n)

module _ {h h' h'' : Host} {dev : FpgaDevice} {lane fchid : ℕ} {ig eg : ExtifCid}
    (c : Linked h h' dev lane fchid ig eg) where
  pub Linked-Held : Held h' h'' dev → Linked h h'' dev lane fchid ig eg
  Linked-Held s = record {
    frame = Frame-trans c.frame s.frame;
    ingress_entry = ap (λ t. t lane fchid 0) s.table ∙ c.ingress_entry;
    egress_entry = ap (λ t. t lane fchid 1) s.table ∙ c.egress_entry;
    others = λ l f k o. ap (λ t. t l f k) s.table ∙ c.others l f k o;
  }

  pub Linked-ingress :
      {e : ExtifCid} → Wrote h' h'' dev lane fchid ingress e → Linked h h'' dev lane fchid e eg
  Linked-ingress w = record {
    frame = Frame-trans c.frame w.frame;
    ingress_entry = w.writes.self;
    egress_entry = w.writes.other lane fchid 1 (inr (inr (omega arith))) ∙ c.egress_entry;
    others = λ l f k o. w.writes.other l f k (away ingress k o) ∙ c.others l f k o;
  }

  pub Linked-egress :
      {e : ExtifCid} → Wrote h' h'' dev lane fchid egress e → Linked h h'' dev lane fchid ig e
  Linked-egress w = record {
    frame = Frame-trans c.frame w.frame;
    ingress_entry = w.writes.other lane fchid 0 (inr (inr (omega arith))) ∙ c.ingress_entry;
    egress_entry = w.writes.self;
    others = λ l f k o. w.writes.other l f k (away egress k o) ∙ c.others l f k o;
  }

-- The device stays open.
pub Linked-opened :
    {h h' : Host} {dev : FpgaDevice} {lane fchid : ℕ} {ig eg : ExtifCid} (dev_id : ℕ)
    → Linked h h' dev lane fchid ig eg
    → fpga_get_device h dev_id ≡ some dev
    → fpga_get_device h' dev_id ≡ some dev
Linked-opened dev_id c opened = rw c.frame.devices opened
