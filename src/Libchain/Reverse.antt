-- ===== src/Libchain/Reverse.antt =====
-- A disconnection undoes a connection, lib/libfpga/src/libchain.c over an FPGA that answers.
use hardware_drivers.Prelude.{ℕ, ◌≤◌, ◌≡◌, refl, ◌∙◌, ap, arith, true, false, ◌&&◌, some}
use hardware_drivers.Device.{ExtifCid}
use hardware_drivers.Chain.{Kind, ingress, egress, is_empty}
use hardware_drivers.Chain.Table.{Responds}
use hardware_drivers.Chain.Writes.{Responds-Writes}
use hardware_drivers.Chain.Deletion.{empty_entry}
use hardware_drivers.Libchain.{
  success, FpgaDevice, Host, fpga_get_device, card, ingress_dir, egress_dir, is_cid_arg,
  is_connect_arg, Request, ConnectArgs, ingress_of, egress_of, connect_checked, chain_connect,
  chain_disconnect,
}
use hardware_drivers.Libchain.Frame.{Wrote}
use hardware_drivers.Libchain.Update.{request_entry, connect_dir_responding}
use hardware_drivers.Libchain.Delete.{disconnect_dir_responding}
use hardware_drivers.Libchain.Links.{
  Linked, Linked-refl, Linked-ingress, Linked-egress, Linked-opened,
}
use hardware_drivers.Libchain.Connects.{checked, place_of_connect}

-- The FPGA answers the requests for both kinds.
pub record Answers (h : Host) (dev : FpgaDevice) (lane : ℕ) : Type 0 where
  pub ingress_answers : Responds (card h dev) ingress lane
  pub egress_answers : Responds (card h dev) egress lane

Answers-Wrote :
    {h h' : Host} {dev : FpgaDevice} {l fchid : ℕ} {kind : Kind} {e : ExtifCid} (lane : ℕ)
    → Wrote h h' dev l fchid kind e
    → Answers h dev lane
    → Answers h' dev lane
Answers-Wrote lane w r = record {
  ingress_answers = Responds-Writes ingress lane w.writes r.ingress_answers;
  egress_answers = Responds-Writes egress lane w.writes r.egress_answers;
}

request_full : (q : Request) → is_empty (request_entry q) ≡ false
request_full q = refl

cids :
    (dev : FpgaDevice) (a : ConnectArgs)
    → is_connect_arg dev (ingress_of a) ≡ true
    → is_connect_arg dev (egress_of a) ≡ true
    → is_cid_arg a.ingress_cid && is_cid_arg a.egress_cid ≡ true
cids dev a ig eg = ground arith

module _ (dev_id : ℕ) (dev : FpgaDevice) (a : ConnectArgs) (few : dev.chain_num ≤ 4)
    (ig : is_connect_arg dev (ingress_of a) ≡ true)
    (eg : is_connect_arg dev (egress_of a) ≡ true) where
  connect_answered :
      (h : Host)
      → fpga_get_device h dev_id ≡ some dev
      → Answers h dev a.lane
      → (h' : Host) × (chain_connect h dev_id a ≡ some (success, h'))
        × Linked h h' dev a.lane a.fchid
            (request_entry (ingress_of a))
            (request_entry (egress_of a))
        × Answers h' dev a.lane
  unfolding connect_checked
  connect_answered h opened r =
      let (h1, p1, w1) =
        connect_dir_responding h dev_id dev (ingress_of a) ingress_dir opened few ig
          r.ingress_answers in
      let c1 = Linked-ingress (Linked-refl h dev a.lane a.fchid) w1 in
      let r1 = Answers-Wrote a.lane w1 r in
      let (h2, p2, w2) =
        connect_dir_responding h1 dev_id dev (egress_of a) egress_dir
          (Linked-opened dev_id c1 opened) few eg r1.egress_answers in
      (
        h2,
        checked h dev_id dev a opened (cids dev a ig eg) ∙ rw (p1, p2) refl,
        Linked-egress c1 w2,
        Answers-Wrote a.lane w2 r1,
      )

  disconnect_answered :
      (h h1 : Host)
      → fpga_get_device h dev_id ≡ some dev
      → Linked h h1 dev a.lane a.fchid (request_entry (ingress_of a)) (request_entry (egress_of a))
      → Answers h1 dev a.lane
      → (h' : Host) × (chain_disconnect h1 dev_id a.lane a.fchid ≡ some (success, h'))
        × Linked h h' dev a.lane a.fchid empty_entry empty_entry
  unfolding chain_disconnect
  disconnect_answered h h1 opened c r =
      let (h2, p2, w2) =
        disconnect_dir_responding h1 dev_id dev a.lane a.fchid ingress_dir
          (Linked-opened dev_id c opened) few (place_of_connect dev a ig)
          (ap is_empty c.ingress_entry) r.ingress_answers in
      let c2 = Linked-ingress c w2 in
      let r2 = Answers-Wrote a.lane w2 r in
      let (h3, p3, w3) =
        disconnect_dir_responding h2 dev_id dev a.lane a.fchid egress_dir
          (Linked-opened dev_id c2 opened) few (place_of_connect dev a ig)
          (ap is_empty c2.egress_entry) r2.egress_answers in
      (h3, rw (p2, p3) refl, Linked-egress c2 w3)

-- `fpga_chain_disconnect` after `fpga_chain_connect`, on an opened device with at most 4 lanes,
-- with arguments in range and an FPGA that answers: both succeed; between them both entries of the
-- chain are those of the arguments, after them both are empty, and every other chain of the card,
-- every other card and the library's table of devices are at both times as before the connection.
pub disconnect_after_connect :
    (h : Host) (dev_id : ℕ) (dev : FpgaDevice) (a : ConnectArgs)
    → fpga_get_device h dev_id ≡ some dev
    → dev.chain_num ≤ 4
    → is_connect_arg dev (ingress_of a) ≡ true
    → is_connect_arg dev (egress_of a) ≡ true
    → Answers h dev a.lane
    → (h1 : Host) × (h2 : Host) × (chain_connect h dev_id a ≡ some (success, h1))
      × Linked h h1 dev a.lane a.fchid (request_entry (ingress_of a)) (request_entry (egress_of a))
      × (chain_disconnect h1 dev_id a.lane a.fchid ≡ some (success, h2))
      × Linked h h2 dev a.lane a.fchid empty_entry empty_entry
disconnect_after_connect h dev_id dev a opened few ig eg r =
    let (h1, p, c, r1) = connect_answered dev_id dev a few ig eg h opened r in
    let (h2, q, c2) = disconnect_answered dev_id dev a few ig eg h h1 opened c r1 in
    (h1, h2, p, c, q, c2)
