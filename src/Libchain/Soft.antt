-- ===== src/Libchain/Soft.antt =====
-- What `fpga_chain_read_soft_table` of lib/libfpga/src/libchain.c shows, and what it shows of a
-- chain that `fpga_chain_connect` has connected.
use hardware_drivers.Prelude.{ℕ, ◌≤◌, ◌≡◌, refl, ◌∙◌, subst, arith, true, ◌&&◌, Option, some, ltb}
use hardware_drivers.Device.{ok}
use hardware_drivers.Chain.{ingress, is_entry, to_u32}
use hardware_drivers.Chain.Read.{read_chain_soft_table}
use hardware_drivers.Chain.Ioctl.{ioctl_chain, run_chain, read_soft_table, ChainIds}
use hardware_drivers.Libchain.{
  LibRet, success, FpgaDevice, Host, fpga_get_device, card, with_card, fpgautil_ioctl, is_fchid_arg,
  is_place_arg, ConnectArgs, chain_connect,
}
use hardware_drivers.Libchain.Frame.{Held, with_card-Held}
use hardware_drivers.Libchain.Links.{ingress_at, egress_at, Linked-opened}
use hardware_drivers.Libchain.Connects.{
  Connects, connected, chain_connect-Connects, place_of_connect,
}
use hardware_drivers.Libchain.Queries.{
  Wanted, is_wanted, SoftEntry, asked_ids, soft_out, chain_read_soft_table,
}

-- All four addresses are given.
abbrev pub all_wanted : Wanted
all_wanted = record {
  ingress_extif_id = true;
  ingress_cid = true;
  egress_extif_id = true;
  egress_cid = true;
}

-- The identifiers of a chain in the driver's table.
abbrev pub table_ids : Host → FpgaDevice → ℕ → ℕ → ChainIds
table_ids h dev lane fchid = record {
  lane = lane;
  fchid = fchid;
  ingress_extif_id = to_u32 (ingress_at h dev lane fchid).extif_id;
  ingress_cid = to_u32 (ingress_at h dev lane fchid).cid;
  egress_extif_id = to_u32 (egress_at h dev lane fchid).extif_id;
  egress_cid = to_u32 (egress_at h dev lane fchid).cid;
}

ioctl-soft :
    (h : Host) (dev : FpgaDevice) (lane fchid : ℕ)
    → is_entry lane fchid ingress ≡ true
    → fpgautil_ioctl h dev (read_soft_table (asked_ids lane fchid))
      ≡ some (ok, with_card h dev (card h dev), read_soft_table (table_ids h dev lane fchid))
unfolding fpgautil_ioctl ioctl_chain run_chain read_chain_soft_table
ioctl-soft h dev lane fchid near = rw near refl

place_entry :
    (dev : FpgaDevice) (lane fchid : ℕ)
    → dev.chain_num ≤ 4
    → is_place_arg dev lane fchid ≡ true
    → is_entry lane fchid ingress ≡ true
place_entry dev lane fchid few p = ground arith

place_test :
    (dev : FpgaDevice) (lane fchid : ℕ) (w : Wanted)
    → is_place_arg dev lane fchid ≡ true
    → is_wanted w ≡ true
    → ltb lane dev.chain_num && is_fchid_arg fchid && is_wanted w ≡ true
place_test dev lane fchid w p q = rw q (ground arith)

-- `fpga_chain_read_soft_table` for a chain in range on an opened device with at most 4 lanes.
pub read_soft :
    (h : Host) (dev_id : ℕ) (dev : FpgaDevice) (lane fchid : ℕ) (w : Wanted)
    → fpga_get_device h dev_id ≡ some dev
    → dev.chain_num ≤ 4
    → is_place_arg dev lane fchid ≡ true
    → is_wanted w ≡ true
    → chain_read_soft_table h w dev_id lane fchid
      ≡ some (
        success,
        with_card h dev (card h dev),
        soft_out w (read_soft_table (table_ids h dev lane fchid)),
      )
unfolding chain_read_soft_table
read_soft h dev_id dev lane fchid w opened few p q =
    rw
      (
        opened,
        place_test dev lane fchid w p q,
        ioctl-soft h dev lane fchid (place_entry dev lane fchid few p),
      )
      refl

pub same_card : (h : Host) (dev : FpgaDevice) → Held h (with_card h dev (card h dev)) dev
same_card h dev =
    with_card-Held h dev (card h dev) (record { table = refl; chain = refl; answer = refl })

-- The identifiers of a connection's arguments.
abbrev pub connected_ids : ConnectArgs → SoftEntry
connected_ids a = record {
  ingress_extif_id = some a.ingress_extif_id;
  ingress_cid = some a.ingress_cid;
  egress_extif_id = some a.egress_extif_id;
  egress_cid = some a.egress_cid;
}

-- A connection that succeeded: its arguments were in range and the table has both entries.
connect_inversion :
    {h h1 h2 : Host} {dev_id : ℕ} {dev : FpgaDevice} {a : ConnectArgs} {r : LibRet}
    {o : Option (LibRet × Host)}
    → o ≡ some (r, h2)
    → Connects h dev_id dev a r h2
    → o ≡ some (success, h1)
    → Connects h dev_id dev a success h1
connect_inversion {h} {dev_id} {dev} {a} e c s =
    subst (λ (x : LibRet × Host). Connects h dev_id dev a x.0 x.1) (ground arith) c

soft_of_connected :
    (h h1 : Host) (dev_id : ℕ) (dev : FpgaDevice) (a : ConnectArgs)
    → fpga_get_device h dev_id ≡ some dev
    → dev.chain_num ≤ 4
    → Connects h dev_id dev a success h1
    → (h2 : Host) × Held h1 h2 dev
      × (chain_read_soft_table h1 all_wanted dev_id a.lane a.fchid
          ≡ some (success, h2, some (connected_ids a)))
soft_of_connected h h1 dev_id dev a opened few (connected ig eg c) = (
  with_card h1 dev (card h1 dev),
  same_card h1 dev,
  read_soft h1 dev_id dev a.lane a.fchid all_wanted (Linked-opened dev_id c opened) few
        (place_of_connect dev a ig) refl
      ∙ rw (c.ingress_entry, c.egress_entry) refl,
)

-- When `fpga_chain_connect` on an opened device with at most 4 lanes has returned 0,
-- `fpga_chain_read_soft_table` with all four addresses returns 0, stores the identifiers that the
-- chain was connected with, and leaves the table as it is.
pub soft_table_after_connect :
    (h h1 : Host) (dev_id : ℕ) (dev : FpgaDevice) (a : ConnectArgs)
    → fpga_get_device h dev_id ≡ some dev
    → dev.chain_num ≤ 4
    → chain_connect h dev_id a ≡ some (success, h1)
    → (h2 : Host) × Held h1 h2 dev
      × (chain_read_soft_table h1 all_wanted dev_id a.lane a.fchid
          ≡ some (success, h2, some (connected_ids a)))
soft_table_after_connect h h1 dev_id dev a opened few e =
    let (r, h', p, c) = chain_connect-Connects h dev_id dev a opened few in
    soft_of_connected h h1 dev_id dev a opened few (connect_inversion p c e)
