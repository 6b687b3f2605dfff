-- ===== src/Libchain/Wait/Ends.antt =====
-- A wait for a chain ends, and what it then says.
use hardware_drivers.Prelude.{
  ℕ, zero, suc, ◌≤◌, ◌<◌, ◌≡◌, refl, ◌∙◌, ap, arith, Bool, true, false, Option, some, ltb, ◌&&◌,
  not, ◌==◌,
}
use hardware_drivers.Device.{ExtifCid}
use hardware_drivers.Chain.{to_u32}
use hardware_drivers.Chain.Ioctl.{read_soft_table}
use hardware_drivers.Libchain.{
  success, FpgaDevice, Host, fpga_get_device, card, with_card, is_place_arg, is_fchid_arg,
}
use hardware_drivers.Libchain.Links.{ingress_at, egress_at}
use hardware_drivers.Libchain.Queries.{soft_out}
use hardware_drivers.Libchain.Soft.{all_wanted, table_ids, read_soft}
use hardware_drivers.Libchain.Wait.{
  Poll, again, Outside, Timeval, time_ns, side_met, verdict, entry_or_unset, wait_connection_clb,
  waited, chain_wait,
}
use hardware_drivers.Libchain.Wait.Loop.{slept_for, at_look, Polled, polling_ends}

-- A look leaves the host with the same card.
abbrev pub after_look : FpgaDevice → Host → Host
after_look dev h = with_card h dev (card h dev)

-- The entry of a side of a chain, and whether it shows a connection or, with `est` false, none:
-- neither or both of the identifiers are -1 as 32 bits.
abbrev side_at : Host → FpgaDevice → (lane fchid : ℕ) → (ing : Bool) → ExtifCid
side_at h dev lane fchid true = ingress_at h dev lane fchid
side_at h dev lane fchid false = egress_at h dev lane fchid

abbrev shows : (est : Bool) → (extif_id cid : ℕ) → Bool
shows true extif_id cid = not (extif_id == 4294967295) && not (cid == 4294967295)
shows false extif_id cid = extif_id == 4294967295 && cid == 4294967295

abbrev pub seen : Host → FpgaDevice → (lane fchid : ℕ) → (ing est : Bool) → Bool
seen h dev lane fchid ing est =
    let e = side_at h dev lane fchid ing in shows est (to_u32 e.extif_id) (to_u32 e.cid)

seen_lem :
    (h : Host) (dev : FpgaDevice) (lane fchid : ℕ) (ing est : Bool)
    → side_met ing est
        (entry_or_unset (soft_out all_wanted (read_soft_table (table_ids h dev lane fchid))))
      ≡ seen h dev lane fchid ing est
seen_lem h dev lane fchid true true = refl
seen_lem h dev lane fchid true false = refl
seen_lem h dev lane fchid false true = refl
seen_lem h dev lane fchid false false = refl

waited-verdict : (b : Bool) (h : Host) → waited (some (verdict b, h)) ≡ some (success, h, some b)
waited-verdict true h = refl
waited-verdict false h = refl

verdict_again : (b : Bool) → verdict b ≡ again → b ≡ false
verdict_again true e = cc
verdict_again false e = refl

module _ (ing est : Bool) (dev_id : ℕ) (dev : FpgaDevice) (lane fchid : ℕ) (few : dev.chain_num ≤ 4)
    (place : is_place_arg dev lane fchid ≡ true) where
  clb_looks :
      (h : Host)
      → fpga_get_device h dev_id ≡ some dev
      → (wait_connection_clb dev_id lane fchid ing est h
          ≡ some (verdict (seen h dev lane fchid ing est), after_look dev h))
        × (fpga_get_device (after_look dev h) dev_id ≡ some dev)
  unfolding wait_connection_clb with_card
  clb_looks h opened = (
    rw (read_soft h dev_id dev lane fchid all_wanted opened few place refl)
        (ap (λ b. some (verdict b, after_look dev h)) (seen_lem h dev lane fchid ing est)),
    opened,
  )

  wait_test : ltb lane dev.chain_num && is_fchid_arg fchid ≡ true
  wait_test = ground arith

  module _ (o : Outside) (to : ℕ) where
    -- What the end of a polling means to the caller.
    waited_ends :
        (h : Host) (out : Option (Poll × Host))
        → Polled o
            (λ g. verdict (seen g dev lane fchid ing est))
            (after_look dev)
            to
            (λ g. fpga_get_device g dev_id ≡ some dev)
            0
            0
            h
            out
        → (n : ℕ) × (waited out
            ≡ some (
              success,
              after_look dev (at_look o (after_look dev) 0 h n),
              some (seen (at_look o (after_look dev) 0 h n) dev lane fchid ing est),
            ))
          × (seen (at_look o (after_look dev) 0 h n) dev lane fchid ing est ≡ false
              → to ≤ slept_for o 0 n)
          × ((k : ℕ)
              → k < n
              → (seen (at_look o (after_look dev) 0 h k) dev lane fchid ing est ≡ false)
                × (slept_for o 0 k < to))
    waited_ends h out r = (
      r.rounds,
      ap waited r.result
          ∙ waited-verdict (seen (at_look o (after_look dev) 0 h r.rounds) dev lane fchid ing est)
              (after_look dev (at_look o (after_look dev) 0 h r.rounds)),
      λ e. omega (arith, r.late (ap verdict e)),
      λ k q. let (b, c) = r.early k q in (verdict_again _ b, omega (arith, c)),
    )

-- A wait for a connection or a disconnection of the ingress or the egress of a chain in range, on
-- an opened device with at most 4 lanes that the other processes leave open, where each sleep takes
-- at least a nanosecond: more rounds than the timeout has nanoseconds are enough fuel, and the
-- function returns 0 after a look at the table, with whether the table showed at that look what was
-- waited for. At each look before it the table did not show it and the sleeps so far had taken less
-- than the timeout; and if it does not show it at the last look either, the sleeps took at least
-- the timeout.
pub chain_wait-Ends :
    (ing est : Bool) (fuel : ℕ) (o : Outside) (h : Host) (timeout : Option Timeval) (dev_id : ℕ)
    (dev : FpgaDevice) (lane fchid : ℕ)
    → fpga_get_device h dev_id ≡ some dev
    → dev.chain_num ≤ 4
    → is_place_arg dev lane fchid ≡ true
    → ((k : ℕ) (g : Host)
        → fpga_get_device g dev_id ≡ some dev
        → fpga_get_device (o.others k g) dev_id ≡ some dev)
    → ((k : ℕ) → 0 < o.slept k)
    → time_ns timeout < fuel
    → (n : ℕ) × (chain_wait ing est fuel o h true timeout dev_id lane fchid
        ≡ some (
          success,
          after_look dev (at_look o (after_look dev) 0 h n),
          some (seen (at_look o (after_look dev) 0 h n) dev lane fchid ing est),
        ))
      × (seen (at_look o (after_look dev) 0 h n) dev lane fchid ing est ≡ false
          → time_ns timeout ≤ slept_for o 0 n)
      × ((k : ℕ)
          → k < n
          → (seen (at_look o (after_look dev) 0 h k) dev lane fchid ing est ≡ false)
            × (slept_for o 0 k < time_ns timeout))
unfolding chain_wait
chain_wait-Ends ing est zero o h timeout dev_id dev lane fchid opened few place kept sleeps enough =
    absurd (omega arith)
chain_wait-Ends ing est (suc n) o h timeout dev_id dev lane fchid opened few place kept sleeps
      enough =
    rw (opened, wait_test ing est dev_id dev lane fchid few place)
      (waited_ends ing est dev_id dev lane fchid few place o (time_ns timeout) h _ (
        polling_ends o (wait_connection_clb dev_id lane fchid ing est)
          (λ g. verdict (seen g dev lane fchid ing est)) (after_look dev) (time_ns timeout)
          (λ g. fpga_get_device g dev_id ≡ some dev)
          (clb_looks ing est dev_id dev lane fchid few place) kept sleeps n 0 0 h opened
          (omega (arith, enough))))
