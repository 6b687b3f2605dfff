-- ===== src/Libchain/Frame.antt =====
-- What a call of lib/libfpga/src/libchain.c leaves alone, and the two ways in which it can end.
use hardware_drivers.Prelude.{ℕ, ◌≡◌, ◌≢◌, refl, ◌∙◌, ap, arith, ◌⊎◌, Option, some, update, eq_refl}
use hardware_drivers.Device.{Dev, ExtifCid}
use hardware_drivers.Chain.{Kind, ingress, egress}
use hardware_drivers.Chain.Table.{Same}
use hardware_drivers.Chain.Writes.{Writes}
use hardware_drivers.Libchain.{
  LibErr, LibRet, success, failed, FpgaDevice, Host, card, with_card, ChainDir, egress_dir,
  ingress_dir,
}

abbrev pub dir_kind : ChainDir → Kind
dir_kind egress_dir = egress
dir_kind ingress_dir = ingress

-- All that the process and the other cards have stays.
pub record Frame (h h' : Host) (dev : FpgaDevice) : Type 0 where
  pub kernel : h'.kernel ≡ h.kernel
  pub devices : h'.devices ≡ h.devices
  pub card_of : h'.card_of ≡ h.card_of
  pub others : (j : ℕ) → j ≢ h.card_of dev.fd → h'.cards j ≡ h.cards j

pub Frame-refl : (h : Host) (dev : FpgaDevice) → Frame h h dev
Frame-refl h dev = record { kernel = refl; devices = refl; card_of = refl; others = λ j n. refl }

pub Frame-trans :
    {h h' h'' : Host} {dev : FpgaDevice} → Frame h h' dev → Frame h' h'' dev → Frame h h'' dev
Frame-trans {dev} f g = record {
  kernel = g.kernel ∙ f.kernel;
  devices = g.devices ∙ f.devices;
  card_of = g.card_of ∙ f.card_of;
  others = λ j n. g.others j (λ e. n (e ∙ ap (λ c. c dev.fd) f.card_of)) ∙ f.others j n;
}

update_other : (f : ℕ → Dev) (i : ℕ) (d : Dev) (j : ℕ) → j ≢ i → update f i d j ≡ f j
update_other f i d j n = ground (arith, n)

with_card-Frame : (h : Host) (dev : FpgaDevice) (d : Dev) → Frame h (with_card h dev d) dev
unfolding with_card
with_card-Frame h dev d = record {
  kernel = refl;
  devices = refl;
  card_of = refl;
  others = λ j n. update_other h.cards (h.card_of dev.fd) d j n;
}

card-with_card : (h : Host) (dev : FpgaDevice) (d : Dev) → card (with_card h dev d) dev ≡ d
unfolding with_card
card-with_card h dev d = rw (eq_refl (h.card_of dev.fd)) refl

-- The table of the card stays, or one entry of it is written.
pub record Held (h h' : Host) (dev : FpgaDevice) : Type 0 where
  pub frame : Frame h h' dev
  pub table : (card h' dev).fch_dev_table ≡ (card h dev).fch_dev_table

pub record Wrote (h h' : Host) (dev : FpgaDevice) (lane fchid : ℕ) (kind : Kind) (e : ExtifCid)
    : Type 0 where
  pub frame : Frame h h' dev
  pub writes : Writes (card h dev) (card h' dev) lane fchid kind e

pub Held-refl : (h : Host) (dev : FpgaDevice) → Held h h dev
Held-refl h dev = record { frame = Frame-refl h dev; table = refl }

pub with_card-Held :
    (h : Host) (dev : FpgaDevice) (d : Dev) → Same (card h dev) d → Held h (with_card h dev d) dev
with_card-Held h dev d s = record {
  frame = with_card-Frame h dev d;
  table = rw (card-with_card h dev d) s.table;
}

pub with_card-Wrote :
    (h : Host) (dev : FpgaDevice) (d : Dev) {lane fchid : ℕ} {kind : Kind} {e : ExtifCid}
    → Writes (card h dev) d lane fchid kind e
    → Wrote h (with_card h dev d) dev lane fchid kind e
with_card-Wrote h dev d w = record {
  frame = with_card-Frame h dev d;
  writes = rw (card-with_card h dev d) w;
}

-- What the call for an entry comes to.
abbrev pub Tried : Host → FpgaDevice → ℕ → ℕ → Kind → ExtifCid → Option (LibRet × Host) → Type 0
Tried h dev lane fchid kind e o =
    (h' : Host) × (((x : LibErr) × (o ≡ some (failed x, h')) × Held h h' dev)
      ⊎ ((o ≡ some (success, h')) × Wrote h h' dev lane fchid kind e))
