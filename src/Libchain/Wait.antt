-- ===== src/Libchain/Wait.antt =====
-- `__fpga_common_polling` of lib/libfpga/src/libfpgacommon.c, and the functions of
-- lib/libfpga/src/libchain.c that wait with it until a chain is connected or disconnected. A struct
-- timespec is its number of nanoseconds, which both updates of `elapsed_time` add up; the rounds go
-- on for `fuel`.
pub mod Loop
pub mod Ends
use hardware_drivers.Prelude.{
  ℕ, zero, suc, ◌+◌, ◌-◌, ◌*◌, ◌^◌, Bool, true, false, not, ◌&&◌, Option, none, some, ltb, ◌==◌,
  if◌then◌else◌,
}
use hardware_drivers.Libchain.{
  LibErr, invalid_argument, LibRet, success, failed, Host, fpga_get_device, is_fchid_arg,
}
use hardware_drivers.Libchain.Queries.{Result, SoftEntry, guarded, chain_read_soft_table}
use hardware_drivers.Libchain.Soft.{all_wanted}

-- What a callback returns: 0, a positive number, or the negation of an error.
pub data Poll : Type 0 where
  met again : Poll
  stopped : LibErr → Poll

-- What happens outside of the function: how long the clock says that the sleep after a round took,
-- by a clock that is not set back, and what the other processes and the hardware do meanwhile.
pub record Outside : Type 0 where
  pub slept : ℕ → ℕ
  pub others : ℕ → Host → Host

-- `struct timeval`, whose address may be NULL, in nanoseconds: `__convert_time_val2spec`.
pub record Timeval : Type 0 where
  pub tv_sec : ℕ
  pub tv_usec : ℕ

abbrev pub time_ns : Option Timeval → ℕ
time_ns none = 0
time_ns (some t) = t.tv_sec * 1000000000 + t.tv_usec * 1000

-- The end of a round; `remain` is whether time is left.
abbrev pub next_round :
    Option (Poll × Host) → Bool → (Host → Option (Poll × Host)) → Option (Poll × Host)
next_round none remain next = none
next_round (some (again, h)) true next = next h
next_round (some (p, h)) remain next = some (p, h)

-- The loop at a round, with the time that has elapsed.
unfoldable pub common_polling :
    (fuel : ℕ)
    → Outside
    → (clb : Host → Option (Poll × Host)) → (round elapsed to : ℕ) → Host
    → Option (Poll × Host)
common_polling zero o clb round elapsed to h = none
common_polling (suc fuel) o clb round elapsed to h =
    next_round (clb h) (ltb elapsed to)
      (λ h'. common_polling fuel o clb (suc round) (elapsed + o.slept round) to (o.others round h'))

-- -1 as `uint32_t`, which the variables hold before the table is read.
abbrev pub minus_one : ℕ
minus_one = 2 ^ 32 - 1

abbrev pub value_of : Option ℕ → ℕ
value_of none = minus_one
value_of (some n) = n

abbrev pub is_met : (is_established : Bool) → (extif_id cid : ℕ) → Bool
is_met true extif_id cid = not (extif_id == minus_one) && not (cid == minus_one)
is_met false extif_id cid = extif_id == minus_one && cid == minus_one

abbrev pub verdict : Bool → Poll
verdict true = met
verdict false = again

-- The identifiers of the side that is waited for.
abbrev pub side_met : (is_ingress is_established : Bool) → SoftEntry → Bool
side_met true est s = is_met est (value_of s.ingress_extif_id) (value_of s.ingress_cid)
side_met false est s = is_met est (value_of s.egress_extif_id) (value_of s.egress_cid)

-- What the variables hold when nothing was stored.
abbrev pub unset_entry : SoftEntry
unset_entry = record {
  ingress_extif_id = none;
  ingress_cid = none;
  egress_extif_id = none;
  egress_cid = none;
}

abbrev pub entry_or_unset : Option SoftEntry → SoftEntry
entry_or_unset none = unset_entry
entry_or_unset (some s) = s

abbrev pub looked : (is_ingress is_established : Bool) → Result SoftEntry → Option (Poll × Host)
looked ing est none = none
looked ing est (some (failed e, h, o)) = some (stopped e, h)
looked ing est (some (success, h, o)) = some (verdict (side_met ing est (entry_or_unset o)), h)

-- `__fpga_chain_wait_connection_clb`
unfoldable pub wait_connection_clb :
    (dev_id lane fchid : ℕ) → (is_ingress is_established : Bool) → Host → Option (Poll × Host)
wait_connection_clb dev_id lane fchid ing est h =
    looked ing est (chain_read_soft_table h all_wanted dev_id lane fchid)

-- The end of the four functions: `is_success`, where the polling has not failed.
abbrev pub waited : Option (Poll × Host) → Result Bool
waited none = none
waited (some (stopped e, h)) = some (failed e, h, none)
waited (some (met, h)) = some (success, h, some true)
waited (some (again, h)) = some (success, h, some false)

-- The four functions, told apart by the two Booleans that they put into the argument of the
-- callback.
unfoldable pub chain_wait :
    (is_ingress is_established : Bool)
    → (fuel : ℕ) → Outside
    → Host
    → (is_success : Bool) → (timeout : Option Timeval) → (dev_id lane fchid : ℕ) → Result Bool
chain_wait ing est fuel o h is_success timeout dev_id lane fchid =
    guarded h (fpga_get_device h dev_id)
      (λ dev. is_success && ltb lane dev.chain_num && is_fchid_arg fchid)
      (λ dev. waited (
        common_polling fuel o (wait_connection_clb dev_id lane fchid ing est) 0 0 (time_ns timeout)
          h))
