-- ===== src/Libchain/Delete.antt =====
-- One call of `__fpga_chain_disconnect`: it fails and the table stays, or it succeeds and has
-- emptied one entry of the card behind the device.
use hardware_drivers.Prelude.{
  ℕ, ◌%◌, ◌^◌, ◌≤◌, ◌≡◌, refl, sym, subst, arith, true, false, inl, inr, some, Bool-cases,
}
use hardware_drivers.Device.{Errno, Dev, ok, err}
use hardware_drivers.Chain.{FpgaId, is_entry, is_empty, entry_at, delete_func_chain_table}
use hardware_drivers.Chain.Table.{Responds}
use hardware_drivers.Chain.Deletion.{empty_entry}
use hardware_drivers.Chain.Writes.{Writes, delete_responding, delete_absent, delete_either}
use hardware_drivers.Chain.Ioctl.{ioctl_chain, run_chain}
use hardware_drivers.Libchain.{
  func_chain_id_mismatch, success, failed, FpgaDevice, Host, fpga_get_device, card, with_card,
  fpgautil_ioctl, ChainDir, egress_dir, ingress_dir, delete_cmd, set_id_info, disconnect_ret,
  place_request, is_place_arg, disconnect_on, chain_disconnect_dir, table_update_timeout,
  invalid_argument,
}
use hardware_drivers.Libchain.Frame.{dir_kind, Held, Wrote, with_card-Held, with_card-Wrote, Tried}

ioctl-delete_ok :
    (h : Host) (dev : FpgaDevice) (dir : ChainDir) (id id' : FpgaId) (d : Dev)
    → delete_func_chain_table (card h dev) id (dir_kind dir) ≡ some (ok, d, id')
    → fpgautil_ioctl h dev (delete_cmd dir id) ≡ some (ok, with_card h dev d, delete_cmd dir id')
unfolding fpgautil_ioctl ioctl_chain run_chain
ioctl-delete_ok h dev egress_dir id id' d e = rw e refl
ioctl-delete_ok h dev ingress_dir id id' d e = rw e refl

ioctl-delete_err :
    (h : Host) (dev : FpgaDevice) (dir : ChainDir) (id id' : FpgaId) (x : Errno) (d : Dev)
    → delete_func_chain_table (card h dev) id (dir_kind dir) ≡ some (err x, d, id')
    → fpgautil_ioctl h dev (delete_cmd dir id) ≡ some (err x, with_card h dev d, delete_cmd dir id)
unfolding fpgautil_ioctl ioctl_chain run_chain
ioctl-delete_err h dev egress_dir id id' x d e = rw e refl
ioctl-delete_err h dev ingress_dir id id' x d e = rw e refl

near_place :
    (lane fchid : ℕ) (dev : FpgaDevice) (dir : ChainDir)
    → dev.chain_num ≤ 4
    → is_place_arg dev lane fchid ≡ true
    → (is_entry lane fchid (dir_kind dir) ≡ true) × (fchid % 2 ^ 16 ≡ fchid)
near_place lane fchid dev egress_dir few a = (ground arith, ground arith)
near_place lane fchid dev ingress_dir few a = (ground arith, ground arith)

-- `__fpga_chain_disconnect` on an opened device, and its driver's function.
disconnect_dir_ok :
    (h : Host) (dev_id : ℕ) (dev : FpgaDevice) (lane fchid : ℕ) (dir : ChainDir) (d : Dev)
    (id : FpgaId)
    → fpga_get_device h dev_id ≡ some dev
    → is_place_arg dev lane fchid ≡ true
    → delete_func_chain_table (card h dev) (set_id_info (place_request lane fchid) 0) (dir_kind dir)
      ≡ some (ok, d, id)
    → chain_disconnect_dir h dev_id lane fchid dir ≡ some (success, with_card h dev d)
unfolding disconnect_on
disconnect_dir_ok h dev_id dev lane fchid dir d id opened a e =
    rw (opened, a, ioctl-delete_ok h dev dir (set_id_info (place_request lane fchid) 0) id d e) refl

disconnect_dir_err :
    (h : Host) (dev_id : ℕ) (dev : FpgaDevice) (lane fchid : ℕ) (dir : ChainDir) (x : Errno)
    (d : Dev) (id : FpgaId)
    → fpga_get_device h dev_id ≡ some dev
    → is_place_arg dev lane fchid ≡ true
    → delete_func_chain_table (card h dev) (set_id_info (place_request lane fchid) 0) (dir_kind dir)
      ≡ some (err x, d, id)
    → chain_disconnect_dir h dev_id lane fchid dir
      ≡ some (disconnect_ret (err x), with_card h dev d)
unfolding disconnect_on
disconnect_dir_err h dev_id dev lane fchid dir x d id opened a e =
    rw (opened, a, ioctl-delete_err h dev dir (set_id_info (place_request lane fchid) 0) id x d e)
      refl

pub disconnect_dir_refused :
    (h : Host) (dev_id : ℕ) (dev : FpgaDevice) (lane fchid : ℕ) (dir : ChainDir)
    → fpga_get_device h dev_id ≡ some dev
    → is_place_arg dev lane fchid ≡ false
    → chain_disconnect_dir h dev_id lane fchid dir ≡ some (failed invalid_argument, h)
unfolding disconnect_on
disconnect_dir_refused h dev_id dev lane fchid dir opened a = rw (opened, a) refl

-- The request of the deletion names the place.
place_near :
    (dev : FpgaDevice) (lane fchid : ℕ) (dir : ChainDir)
    → dev.chain_num ≤ 4
    → is_place_arg dev lane fchid ≡ true
    → is_entry lane (set_id_info (place_request lane fchid) 0).fchid (dir_kind dir) ≡ true
unfolding set_id_info
place_near dev lane fchid dir few a =
    let (near, f) = near_place lane fchid dev dir few a in rw f near

place_fchid :
    (dev : FpgaDevice) (lane fchid : ℕ)
    → is_place_arg dev lane fchid ≡ true
    → (set_id_info (place_request lane fchid) 0).fchid ≡ fchid
unfolding set_id_info
place_fchid dev lane fchid a = ground arith

-- The entry is not there.
pub disconnect_dir_absent :
    (h : Host) (dev_id : ℕ) (dev : FpgaDevice) (lane fchid : ℕ) (dir : ChainDir)
    → fpga_get_device h dev_id ≡ some dev
    → dev.chain_num ≤ 4
    → is_place_arg dev lane fchid ≡ true
    → is_empty (entry_at (card h dev) lane fchid (dir_kind dir)) ≡ true
    → (h' : Host) × (chain_disconnect_dir h dev_id lane fchid dir
        ≡ some (failed func_chain_id_mismatch, h'))
      × Held h h' dev
unfolding set_id_info
disconnect_dir_absent h dev_id dev lane fchid dir opened few a e =
    let absent =
      delete_absent (card h dev) (set_id_info (place_request lane fchid) 0) (dir_kind dir)
        (place_near dev lane fchid dir few a)
        (subst (λ f. is_empty (entry_at (card h dev) lane f (dir_kind dir)) ≡ true)
          (sym (place_fchid dev lane fchid a)) e) in
    (
      with_card h dev (card h dev),
      disconnect_dir_err h dev_id dev lane fchid dir _ (card h dev) _ opened a absent,
      with_card-Held h dev (card h dev) (record { table = refl; chain = refl; answer = refl }),
    )

-- `__fpga_chain_disconnect` with valid arguments.
pub disconnect_dir-Tried :
    (h : Host) (dev_id : ℕ) (dev : FpgaDevice) (lane fchid : ℕ) (dir : ChainDir)
    → fpga_get_device h dev_id ≡ some dev
    → dev.chain_num ≤ 4
    → is_place_arg dev lane fchid ≡ true
    → Tried h dev lane fchid
        (dir_kind dir)
        empty_entry
        (chain_disconnect_dir h dev_id lane fchid dir)
unfolding set_id_info
disconnect_dir-Tried h dev_id dev lane fchid dir opened few a =
    elim (Bool-cases (is_empty (entry_at (card h dev) lane fchid (dir_kind dir)))) [
      | inl e ↦
          let (h', r, s) = disconnect_dir_absent h dev_id dev lane fchid dir opened few a e in
          (h', inl (func_chain_id_mismatch, r, s))
      | inr full ↦
          let (d, id, either) =
            delete_either (card h dev) (set_id_info (place_request lane fchid) 0) (dir_kind dir)
              (place_near dev lane fchid dir few a)
              (subst (λ f. is_empty (entry_at (card h dev) lane f (dir_kind dir)) ≡ false)
                (sym (place_fchid dev lane fchid a)) full) in
          (
            with_card h dev d,
            elim either [
              | inl (e, s) ↦ inl (
                table_update_timeout,
                disconnect_dir_err h dev_id dev lane fchid dir _ d id opened a e,
                with_card-Held h dev d s,
              )
              | inr (e, w) ↦ inr (
                disconnect_dir_ok h dev_id dev lane fchid dir d id opened a e,
                with_card-Wrote h dev d (
                    subst (λ f. Writes (card h dev) d lane f (dir_kind dir) empty_entry)
                      (place_fchid dev lane fchid a) w),
              )
            ],
          )
    ]

-- The same of an entry that is there, with an FPGA that answers.
pub disconnect_dir_responding :
    (h : Host) (dev_id : ℕ) (dev : FpgaDevice) (lane fchid : ℕ) (dir : ChainDir)
    → fpga_get_device h dev_id ≡ some dev
    → dev.chain_num ≤ 4
    → is_place_arg dev lane fchid ≡ true
    → is_empty (entry_at (card h dev) lane fchid (dir_kind dir)) ≡ false
    → Responds (card h dev) (dir_kind dir) lane
    → (h' : Host) × (chain_disconnect_dir h dev_id lane fchid dir ≡ some (success, h'))
      × Wrote h h' dev lane fchid (dir_kind dir) empty_entry
unfolding set_id_info
disconnect_dir_responding h dev_id dev lane fchid dir opened few a full r =
    let (d, e, w) =
      delete_responding (card h dev) (set_id_info (place_request lane fchid) 0) (dir_kind dir) _
        (place_near dev lane fchid dir few a) refl
        (subst (λ f. is_empty (entry_at (card h dev) lane f (dir_kind dir)) ≡ false)
          (sym (place_fchid dev lane fchid a)) full)
        r in
    (
      with_card h dev d,
      disconnect_dir_ok h dev_id dev lane fchid dir d _ opened a e,
      with_card-Wrote h dev d (
          subst (λ f. Writes (card h dev) d lane f (dir_kind dir) empty_entry)
            (place_fchid dev lane fchid a) w),
    )
