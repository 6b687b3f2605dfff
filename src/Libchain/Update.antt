-- ===== src/Libchain/Update.antt =====
-- One call of `__fpga_chain_connect`: it fails and the table stays, or it succeeds and has written
-- one entry of the card behind the device.
use hardware_drivers.Prelude.{
  ℕ, ◌%◌, ◌^◌, ◌≤◌, ◌≡◌, refl, subst, arith, true, false, ◌&&◌, ◌||◌, inl, inr, some, ◌==◌, leb,
}
use hardware_drivers.Prelude.Int.{pos}
use hardware_drivers.Device.{Dev, ExtifCid, Ret}
use hardware_drivers.Chain.{FpgaId, is_entry, is_cid, update_func_chain_table}
use hardware_drivers.Chain.Table.{Responds}
use hardware_drivers.Chain.Deletion.{entry_of}
use hardware_drivers.Chain.Writes.{Writes, update_responding, update_either}
use hardware_drivers.Chain.Ioctl.{ioctl_chain, run_chain}
use hardware_drivers.Libchain.{
  success, failed, FpgaDevice, Host, fpga_get_device, card, with_card, fpgautil_ioctl, ChainDir,
  egress_dir, ingress_dir, update_cmd, Request, set_id_info, is_connect_arg, connect_ret,
  connect_on, chain_connect_dir, table_update_timeout, invalid_argument,
}
use hardware_drivers.Libchain.Frame.{dir_kind, Wrote, with_card-Held, with_card-Wrote, Tried}

-- The commands, as the functions of the driver.
ioctl-update :
    (h : Host) (dev : FpgaDevice) (dir : ChainDir) (id : FpgaId) (r : Ret) (d : Dev)
    → update_func_chain_table (card h dev) id (dir_kind dir) ≡ some (r, d)
    → fpgautil_ioctl h dev (update_cmd dir id) ≡ some (r, with_card h dev d, update_cmd dir id)
unfolding fpgautil_ioctl ioctl_chain run_chain
ioctl-update h dev egress_dir id r d e = rw e refl
ioctl-update h dev ingress_dir id r d e = rw e refl

cid_request :
    (q : Request) (dev : FpgaDevice)
    → is_connect_arg dev q ≡ true
    → (q.cid % 2 ^ 16 ≡ q.cid) × (q.fchid % 2 ^ 16 ≡ q.fchid)
cid_request q dev a = (ground arith, ground arith)

-- The entry that a request makes.
abbrev pub request_entry : Request → ExtifCid
request_entry q = record { extif_id = pos q.extif_id; cid = pos q.cid }

near_entry :
    (q : Request) (dev : FpgaDevice) (dir : ChainDir)
    → dev.chain_num ≤ 4
    → is_connect_arg dev q ≡ true
    → is_entry q.lane q.fchid (dir_kind dir) ≡ true
near_entry q dev egress_dir few a = ground arith
near_entry q dev ingress_dir few a = ground arith

valid_cid :
    (q : Request) (dev : FpgaDevice)
    → is_connect_arg dev q ≡ true
    → leb q.cid 511 && (q.extif_id == 0 || q.extif_id == 1) ≡ true
valid_cid q dev a = ground arith

-- The call on an opened device, and its driver's function.
connect_dir_calls :
    (h : Host) (dev_id : ℕ) (dev : FpgaDevice) (q : Request) (dir : ChainDir) (r : Ret) (d : Dev)
    → fpga_get_device h dev_id ≡ some dev
    → is_connect_arg dev q ≡ true
    → update_func_chain_table (card h dev) (set_id_info q 1) (dir_kind dir) ≡ some (r, d)
    → chain_connect_dir h dev_id q dir ≡ some (connect_ret r, with_card h dev d)
unfolding connect_on
connect_dir_calls h dev_id dev q dir r d opened a e =
    rw (opened, a, ioctl-update h dev dir (set_id_info q 1) r d e) refl

pub connect_dir_refused :
    (h : Host) (dev_id : ℕ) (dev : FpgaDevice) (q : Request) (dir : ChainDir)
    → fpga_get_device h dev_id ≡ some dev
    → is_connect_arg dev q ≡ false
    → chain_connect_dir h dev_id q dir ≡ some (failed invalid_argument, h)
unfolding connect_on
connect_dir_refused h dev_id dev q dir opened a = rw (opened, a) refl

-- The request that the driver gets is inside its table and valid.
request_valid :
    (q : Request) (dev : FpgaDevice) (dir : ChainDir)
    → dev.chain_num ≤ 4
    → is_connect_arg dev q ≡ true
    → (is_entry (set_id_info q 1).lane (set_id_info q 1).fchid (dir_kind dir) ≡ true)
      × (is_cid (set_id_info q 1) ≡ true)
      × (entry_of (set_id_info q 1) ≡ request_entry q)
      × ((set_id_info q 1).fchid ≡ q.fchid)
unfolding set_id_info
request_valid q dev dir few a =
    let (c, f) = cid_request q dev a in
    rw (c, f) (near_entry q dev dir few a, valid_cid q dev a, refl, refl)

-- `__fpga_chain_connect` with valid arguments.
pub connect_dir-Tried :
    (h : Host) (dev_id : ℕ) (dev : FpgaDevice) (q : Request) (dir : ChainDir)
    → fpga_get_device h dev_id ≡ some dev
    → dev.chain_num ≤ 4
    → is_connect_arg dev q ≡ true
    → Tried h dev q.lane q.fchid (dir_kind dir) (request_entry q) (chain_connect_dir h dev_id q dir)
unfolding set_id_info
connect_dir-Tried h dev_id dev q dir opened few a =
    let (near, valid, entry, place) = request_valid q dev dir few a in
    let (d, either) = update_either (card h dev) (set_id_info q 1) (dir_kind dir) near valid in
    (
      with_card h dev d,
      elim either [
        | inl (e, s) ↦ inl (
          table_update_timeout,
          connect_dir_calls h dev_id dev q dir _ d opened a e,
          with_card-Held h dev d s,
        )
        | inr (e, w) ↦ inr (
          connect_dir_calls h dev_id dev q dir _ d opened a e,
          with_card-Wrote h dev d (
              subst (λ f. Writes (card h dev) d q.lane f (dir_kind dir) (request_entry q)) place
                (subst (λ x. Writes (card h dev) d q.lane (q.fchid % 2 ^ 16) (dir_kind dir) x) entry
                  w)),
        )
      ],
    )

-- The same with an FPGA that answers.
pub connect_dir_responding :
    (h : Host) (dev_id : ℕ) (dev : FpgaDevice) (q : Request) (dir : ChainDir)
    → fpga_get_device h dev_id ≡ some dev
    → dev.chain_num ≤ 4
    → is_connect_arg dev q ≡ true
    → Responds (card h dev) (dir_kind dir) q.lane
    → (h' : Host) × (chain_connect_dir h dev_id q dir ≡ some (success, h'))
      × Wrote h h' dev q.lane q.fchid (dir_kind dir) (request_entry q)
unfolding set_id_info
connect_dir_responding h dev_id dev q dir opened few a r =
    let (near, valid, entry, place) = request_valid q dev dir few a in
    let (d, e, w) = update_responding (card h dev) (set_id_info q 1) (dir_kind dir) near valid r in
    (
      with_card h dev d,
      connect_dir_calls h dev_id dev q dir _ d opened a e,
      with_card-Wrote h dev d (
          subst (λ f. Writes (card h dev) d q.lane f (dir_kind dir) (request_entry q)) place
            (subst (λ x. Writes (card h dev) d q.lane (q.fchid % 2 ^ 16) (dir_kind dir) x) entry
              w)),
    )
