-- ===== src/Libchain/Disconnects.antt =====
-- `fpga_chain_disconnect` of lib/libfpga/src/libchain.c: on its own, after `fpga_chain_connect`,
-- and on a chain that has no ingress.
use hardware_drivers.Prelude.{
  ℕ, ◌≤◌, ◌≡◌, refl, ap, true, false, inl, inr, Option, some, Bool-cases,
}
use hardware_drivers.Chain.{is_empty}
use hardware_drivers.Chain.Deletion.{empty_entry}
use hardware_drivers.Libchain.{
  LibErr, invalid_argument, func_chain_id_mismatch, LibRet, success, failed, FpgaDevice, Host,
  fpga_get_device, ingress_dir, egress_dir, is_place_arg, chain_disconnect, chain_disconnect_dir,
}
use hardware_drivers.Libchain.Delete.{
  disconnect_dir-Tried, disconnect_dir_refused, disconnect_dir_absent,
}
use hardware_drivers.Libchain.Links.{
  Linked, ingress_at, egress_at, Linked-refl, Linked-Held, Linked-ingress, Linked-egress,
  Linked-opened,
}

-- The ways in which a disconnection can end, with the entries that the chain then has.
pub data Disconnects (h : Host) (dev : FpgaDevice) (lane fchid : ℕ) : LibRet → Host → Type 0 where
  disconnected :
      {h' : Host}
      → Linked h h' dev lane fchid empty_entry empty_entry
      → Disconnects h dev lane fchid success h'
  unchanged :
      (e : LibErr) {h' : Host}
      → Linked h h' dev lane fchid (ingress_at h dev lane fchid) (egress_at h dev lane fchid)
      → Disconnects h dev lane fchid (failed e) h'
  half :
      (e : LibErr) {h' : Host}
      → Linked h h' dev lane fchid empty_entry (egress_at h dev lane fchid)
      → Disconnects h dev lane fchid (failed e) h'

abbrev DisconnectResult : Host → FpgaDevice → ℕ → ℕ → Option (LibRet × Host) → Type 0
DisconnectResult h dev lane fchid o =
    (r : LibRet) × (h' : Host) × (o ≡ some (r, h')) × Disconnects h dev lane fchid r h'

module _ (h : Host) (dev_id : ℕ) (dev : FpgaDevice) (lane fchid : ℕ)
    (opened : fpga_get_device h dev_id ≡ some dev) (few : dev.chain_num ≤ 4)
    (place : is_place_arg dev lane fchid ≡ true) where
  delete_egress :
      (h1 : Host)
      → Linked h h1 dev lane fchid empty_entry (egress_at h dev lane fchid)
      → DisconnectResult h dev lane fchid (chain_disconnect_dir h1 dev_id lane fchid egress_dir)
  delete_egress h1 c =
      let (h2, either) =
        disconnect_dir-Tried h1 dev_id dev lane fchid egress_dir (Linked-opened dev_id c opened) few
          place in
      elim either [
        | inl (x, p, s) ↦ (failed x, h2, p, half x (Linked-Held c s))
        | inr (p, w) ↦ (success, h2, p, disconnected (Linked-egress c w))
      ]

  delete_both : DisconnectResult h dev lane fchid (chain_disconnect h dev_id lane fchid)
  unfolding chain_disconnect
  delete_both =
      let (h1, either) =
        disconnect_dir-Tried h dev_id dev lane fchid ingress_dir opened few place in
      elim either [
        | inl (x, p, s) ↦
            rw p (failed x, h1, refl, unchanged x (Linked-Held (Linked-refl h dev lane fchid) s))
        | inr (p, w) ↦ rw p (delete_egress h1 (Linked-ingress (Linked-refl h dev lane fchid) w))
      ]

refused_place :
    (h : Host) (dev_id : ℕ) (dev : FpgaDevice) (lane fchid : ℕ)
    → fpga_get_device h dev_id ≡ some dev
    → is_place_arg dev lane fchid ≡ false
    → chain_disconnect h dev_id lane fchid ≡ some (failed invalid_argument, h)
unfolding chain_disconnect
refused_place h dev_id dev lane fchid opened n =
    rw (disconnect_dir_refused h dev_id dev lane fchid ingress_dir opened n) refl

-- `fpga_chain_disconnect` on an opened device with at most 4 lanes returns. If it succeeds, both
-- entries of the chain are empty. If it fails, the egress entry is as before, and the ingress entry
-- is as before or empty. In each case every other chain of the card, every other card and the
-- library's table of devices are as before.
pub chain_disconnect-Disconnects :
    (h : Host) (dev_id : ℕ) (dev : FpgaDevice) (lane fchid : ℕ)
    → fpga_get_device h dev_id ≡ some dev
    → dev.chain_num ≤ 4
    → (r : LibRet) × (h' : Host) × (chain_disconnect h dev_id lane fchid ≡ some (r, h'))
      × Disconnects h dev lane fchid r h'
chain_disconnect-Disconnects h dev_id dev lane fchid opened few =
    elim (Bool-cases (is_place_arg dev lane fchid)) [
      | inl place ↦ delete_both h dev_id dev lane fchid opened few place
      | inr n ↦ rw (refused_place h dev_id dev lane fchid opened n) (
        failed invalid_argument,
        h,
        refl,
        unchanged invalid_argument (Linked-refl h dev lane fchid),
      )
    ]

-- `fpga_chain_disconnect` on a chain whose ingress entry is empty, on an opened device with at most
-- 4 lanes: it returns -FUNC_CHAIN_ID_MISMATCH and the egress entry stays, whatever it is.
pub disconnect_needs_ingress :
    (h : Host) (dev_id : ℕ) (dev : FpgaDevice) (lane fchid : ℕ)
    → fpga_get_device h dev_id ≡ some dev
    → dev.chain_num ≤ 4
    → is_place_arg dev lane fchid ≡ true
    → is_empty (ingress_at h dev lane fchid) ≡ true
    → (h' : Host) × (chain_disconnect h dev_id lane fchid
        ≡ some (failed func_chain_id_mismatch, h'))
      × (egress_at h' dev lane fchid ≡ egress_at h dev lane fchid)
unfolding chain_disconnect
disconnect_needs_ingress h dev_id dev lane fchid opened few place e =
    let (h', p, s) = disconnect_dir_absent h dev_id dev lane fchid ingress_dir opened few place e in
    (h', rw p refl, ap (λ t. t lane fchid 1) s.table)
