-- ===== src/Libchain/Connects.antt =====
-- `fpga_chain_connect` of lib/libfpga/src/libchain.c, whatever the FPGA answers.
use hardware_drivers.Prelude.{
  ℕ, ◌≤◌, ◌≡◌, refl, ap, arith, true, false, ◌&&◌, inl, inr, Option, some, Bool-cases,
}
use hardware_drivers.Chain.Deletion.{empty_entry}
use hardware_drivers.Libchain.{
  LibErr, invalid_argument, LibRet, success, failed, FpgaDevice, Host, fpga_get_device, ingress_dir,
  egress_dir, is_cid_arg, is_connect_arg, is_place_arg, chain_connect_dir, chain_disconnect_dir,
  rollback, kept_error, ConnectArgs, ingress_of, egress_of, connect_checked, is_some, chain_connect,
}
use hardware_drivers.Libchain.Update.{connect_dir_refused, connect_dir-Tried, request_entry}
use hardware_drivers.Libchain.Delete.{disconnect_dir-Tried}
use hardware_drivers.Libchain.Links.{
  Linked, ingress_at, egress_at, Linked-refl, Linked-Held, Linked-ingress, Linked-egress,
  Linked-opened,
}

-- The ways in which a connection can end, with the entries that the chain then has.
pub data Connects (h : Host) (dev_id : ℕ) (dev : FpgaDevice) (a : ConnectArgs)
    : LibRet → Host → Type 0 where
  connected :
      {h' : Host}
      → is_connect_arg dev (ingress_of a) ≡ true
      → is_connect_arg dev (egress_of a) ≡ true
      → Linked h h' dev a.lane a.fchid (request_entry (ingress_of a)) (request_entry (egress_of a))
      → Connects h dev_id dev a success h'
  unchanged :
      (e : LibErr) {h' : Host}
      → Linked h h' dev a.lane a.fchid
          (ingress_at h dev a.lane a.fchid)
          (egress_at h dev a.lane a.fchid)
      → Connects h dev_id dev a (failed e) h'
  undone :
      (e : LibErr) {h' : Host}
      → Linked h h' dev a.lane a.fchid empty_entry (egress_at h dev a.lane a.fchid)
      → Connects h dev_id dev a (failed e) h'
  half :
      (e x : LibErr) {h2 h' : Host}
      → Linked h h2 dev a.lane a.fchid
          (request_entry (ingress_of a))
          (egress_at h dev a.lane a.fchid)
      → chain_disconnect_dir h2 dev_id a.lane a.fchid ingress_dir ≡ some (failed x, h')
      → Linked h h' dev a.lane a.fchid
          (request_entry (ingress_of a))
          (egress_at h dev a.lane a.fchid)
      → Connects h dev_id dev a (failed e) h'

abbrev pub ConnectResult : Host → ℕ → FpgaDevice → ConnectArgs → Option (LibRet × Host) → Type 0
ConnectResult h dev_id dev a o =
    (r : LibRet) × (h' : Host) × (o ≡ some (r, h')) × Connects h dev_id dev a r h'

pub place_of_connect :
    (dev : FpgaDevice) (a : ConnectArgs)
    → is_connect_arg dev (ingress_of a) ≡ true
    → is_place_arg dev a.lane a.fchid ≡ true
place_of_connect dev a g = ground arith

module _ (h : Host) (dev_id : ℕ) (dev : FpgaDevice) (a : ConnectArgs)
    (opened : fpga_get_device h dev_id ≡ some dev) (few : dev.chain_num ≤ 4) where
  -- The egress has failed: the ingress is deleted.
  undo_ingress :
      (e : LibErr) (h2 : Host)
      → is_connect_arg dev (ingress_of a) ≡ true
      → Linked h h2 dev a.lane a.fchid
          (request_entry (ingress_of a))
          (egress_at h dev a.lane a.fchid)
      → ConnectResult h dev_id dev a
          (kept_error e (chain_disconnect_dir h2 dev_id a.lane a.fchid ingress_dir))
  undo_ingress e h2 g c =
      let (h3, either) =
        disconnect_dir-Tried h2 dev_id dev a.lane a.fchid ingress_dir
          (Linked-opened dev_id c opened) few (place_of_connect dev a g) in
      elim either [
        | inl (x, p, s) ↦ (failed e, h3, ap (kept_error e) p, half e x c p (Linked-Held c s))
        | inr (p, w) ↦ (failed e, h3, ap (kept_error e) p, undone e (Linked-ingress c w))
      ]

  -- The ingress is written: the egress is tried.
  try_egress :
      (h1 : Host)
      → is_connect_arg dev (ingress_of a) ≡ true
      → Linked h h1 dev a.lane a.fchid
          (request_entry (ingress_of a))
          (egress_at h dev a.lane a.fchid)
      → ConnectResult h dev_id dev a (
          rollback
            (chain_connect_dir h1 dev_id (egress_of a) egress_dir)
            (λ h2. chain_disconnect_dir h2 dev_id a.lane a.fchid ingress_dir))
  try_egress h1 g c = elim (Bool-cases (is_connect_arg dev (egress_of a))) [
    | inl g' ↦
        let (h2, either) =
          connect_dir-Tried h1 dev_id dev (egress_of a) egress_dir (Linked-opened dev_id c opened)
            few g' in
        elim either [
          | inl (x, p, s) ↦ rw p (undo_ingress x h2 g (Linked-Held c s))
          | inr (p, w) ↦ rw p (success, h2, refl, connected g g' (Linked-egress c w))
        ]
    | inr n ↦
        rw
          (connect_dir_refused h1 dev_id dev (egress_of a) egress_dir
            (Linked-opened dev_id c opened) n)
          (undo_ingress invalid_argument h1 g c)
  ]

  checked-Connects : ConnectResult h dev_id dev a (connect_checked h dev_id a)
  unfolding connect_checked
  checked-Connects = elim (Bool-cases (is_connect_arg dev (ingress_of a))) [
    | inl g ↦
        let (h1, either) = connect_dir-Tried h dev_id dev (ingress_of a) ingress_dir opened few g in
        elim either [
          | inl (x, p, s) ↦
              rw p
                (failed x, h1, refl, unchanged x (Linked-Held (Linked-refl h dev a.lane a.fchid) s))
          | inr (p, w) ↦
              rw p (try_egress h1 g (Linked-ingress (Linked-refl h dev a.lane a.fchid) w))
        ]
    | inr n ↦ rw (connect_dir_refused h dev_id dev (ingress_of a) ingress_dir opened n) (
      failed invalid_argument,
      h,
      refl,
      unchanged invalid_argument (Linked-refl h dev a.lane a.fchid),
    )
  ]

pub checked :
    (h : Host) (dev_id : ℕ) (dev : FpgaDevice) (a : ConnectArgs)
    → fpga_get_device h dev_id ≡ some dev
    → is_cid_arg a.ingress_cid && is_cid_arg a.egress_cid ≡ true
    → chain_connect h dev_id a ≡ connect_checked h dev_id a
unfolding chain_connect
checked h dev_id dev a opened g = rw (ap is_some opened, g) refl

not_checked :
    (h : Host) (dev_id : ℕ) (dev : FpgaDevice) (a : ConnectArgs)
    → fpga_get_device h dev_id ≡ some dev
    → is_cid_arg a.ingress_cid && is_cid_arg a.egress_cid ≡ false
    → chain_connect h dev_id a ≡ some (failed invalid_argument, h)
unfolding chain_connect
not_checked h dev_id dev a opened n = rw (ap is_some opened, n) refl

-- `fpga_chain_connect` on an opened device with at most 4 lanes returns. If it succeeds, all its
-- arguments are in range and both entries of the chain are those of the arguments. If it fails, the
-- egress entry is as before, and the ingress entry is as before, or empty, or that of the
-- arguments; the last is so only where it had been written, the call that deletes it again was made
-- and failed, and the host is as that call left it. In each case every other chain of the card,
-- every other card and the library's table of devices are as before.
pub chain_connect-Connects :
    (h : Host) (dev_id : ℕ) (dev : FpgaDevice) (a : ConnectArgs)
    → fpga_get_device h dev_id ≡ some dev
    → dev.chain_num ≤ 4
    → (r : LibRet) × (h' : Host) × (chain_connect h dev_id a ≡ some (r, h'))
      × Connects h dev_id dev a r h'
chain_connect-Connects h dev_id dev a opened few =
    elim (Bool-cases (is_cid_arg a.ingress_cid && is_cid_arg a.egress_cid)) [
      | inl g ↦ rw (checked h dev_id dev a opened g) (checked-Connects h dev_id dev a opened few)
      | inr n ↦ rw (not_checked h dev_id dev a opened n) (
        failed invalid_argument,
        h,
        refl,
        unchanged invalid_argument (Linked-refl h dev a.lane a.fchid),
      )
    ]
