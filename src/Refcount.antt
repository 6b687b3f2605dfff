-- ===== src/Refcount.antt =====
-- The reference counts of a device, driver/libxpcie.c: `xpcie_fpga_control_refcount` and its
-- helpers, as the build of driver/ configures them, where the global module alone has counters.
-- The spin lock around it makes a call one step.
pub mod Lock
use hardware_drivers.Prelude.{
  ℕ, zero, suc, ◌+◌, Bool, true, false, not, Option, none, some, List, [], ◌∷◌, map, ltb,
  if◌then◌else◌, ◌==◌, update,
}
use hardware_drivers.Prelude.Int.{ℤ, pos, negsuc, eqb_ℤ, ltb_ℤ, add32}
use hardware_drivers.Device.{
  Dev, ModuleInfo, Ret, ok, err, enodev, efault, ebusy, einval, refcount_writing, refcount_using,
}

-- `xpcie_refcount_cmd_t`; `other_cmd` is XPCIE_DEV_REFCOUNT_MAX and every number without a name.
pub data Cmd : Type 0 where
  inc dec write clear get rst other_cmd : Cmd

-- `xpcie_region_t`
pub data Region : Type 0 where
  all other_region : Region

unfoldable pub add_refcount_list : List ℤ → ℤ → List ℤ
add_refcount_list [] refcount_add = []
add_refcount_list (x ∷ xs) refcount_add = add32 x refcount_add ∷ add_refcount_list xs refcount_add

unfoldable pub set_refcount_list : List ℤ → ℤ → List ℤ
set_refcount_list [] refcount_set = []
set_refcount_list (x ∷ xs) refcount_set = refcount_set ∷ set_refcount_list xs refcount_set

-- The loop of `__get_refcount_list` with the sum so far.
unfoldable pub get_refcount_list : List ℤ → ℤ → ℤ
get_refcount_list [] sum = sum
get_refcount_list (x ∷ xs) sum = get_refcount_list xs (add32 sum x)

unfoldable pub is_refcount_any : List ℤ → ℤ → (ℤ → ℤ → Bool) → Bool
is_refcount_any [] refcount_cmp clb = false
is_refcount_any (x ∷ xs) refcount_cmp clb =
    let rest = is_refcount_any xs refcount_cmp clb in if clb x refcount_cmp then true else rest

abbrev pub clb_is_same : ℤ → ℤ → Bool
clb_is_same refcount refcount_cmp = eqb_ℤ refcount refcount_cmp

abbrev pub clb_is_differ : ℤ → ℤ → Bool
clb_is_differ refcount refcount_cmp = not (eqb_ℤ refcount refcount_cmp)

abbrev pub clb_is_less : ℤ → ℤ → Bool
clb_is_less refcount refcount_cmp = ltb_ℤ refcount refcount_cmp

abbrev pub is_refcount_any_same : List ℤ → ℤ → Bool
is_refcount_any_same xs v = is_refcount_any xs v clb_is_same

abbrev pub is_refcount_any_less : List ℤ → ℤ → Bool
is_refcount_any_less xs v = is_refcount_any xs v clb_is_less

abbrev pub is_refcount_any_differ : List ℤ → ℤ → Bool
is_refcount_any_differ xs v = is_refcount_any xs v clb_is_differ

-- The result, the counters, and what is stored through `refcount_get`.
abbrev pub Outcome : Type 0
Outcome = Ret × List ℤ × Option ℤ

-- Nothing: the read of a NULL `refcount_get`.
unfoldable pub store_get : Bool → List ℤ → Option Outcome
store_get true xs = some (ok, xs, some (get_refcount_list xs (pos 0)))
store_get false xs = none

unfoldable pub control_list : List ℤ → Cmd → Bool → Option Outcome
control_list xs inc has_get = some (
    if is_refcount_any_same xs (negsuc 0)
    then (err refcount_writing, xs, none)
    else if is_refcount_any_less xs (pos 0)
    then (err efault, xs, none)
    else (ok, add_refcount_list xs (pos 1), none))
control_list xs dec has_get = some (
    if is_refcount_any_same xs (negsuc 0)
    then (err refcount_writing, xs, none)
    else if is_refcount_any_less xs (pos 0)
    then (err efault, xs, none)
    else if is_refcount_any_same xs (pos 0)
    then (err ebusy, xs, none)
    else (ok, add_refcount_list xs (negsuc 0), none))
control_list xs write has_get = some (
    if is_refcount_any_same xs (negsuc 0)
    then (err refcount_writing, xs, none)
    else if is_refcount_any_less xs (pos 0)
    then (err efault, xs, none)
    else if is_refcount_any_differ xs (pos 0)
    then (err refcount_using, xs, none)
    else (ok, set_refcount_list xs (negsuc 0), none))
control_list xs clear has_get = some (
    if is_refcount_any_differ xs (negsuc 0)
    then (err refcount_using, xs, none)
    else (ok, set_refcount_list xs (pos 0), none))
control_list xs rst has_get = some (ok, set_refcount_list xs (pos 0), none)
control_list xs get has_get = store_get has_get xs
control_list xs other_cmd has_get = some (err einval, xs, none)

-- `__control_refcount_status`: an empty list is refused first.
unfoldable pub control_refcount_status : List ℤ → Cmd → Bool → Option Outcome
control_refcount_status [] cmd has_get = some (err enodev, [], none)
control_refcount_status (x ∷ xs) cmd has_get = control_list (x ∷ xs) cmd has_get

-- The counters from lane `lane` on, `left` of them, and their array with new values.
unfoldable pub counters : (ℕ → ℤ) → ℕ → ℕ → List ℤ
counters refcount zero lane = []
counters refcount (suc left) lane = refcount lane ∷ counters refcount left (lane + 1)

unfoldable pub put_counters : (ℕ → ℤ) → ℕ → List ℤ → ℕ → ℤ
put_counters refcount lane [] = refcount
put_counters refcount lane (x ∷ xs) = put_counters (update refcount lane x) (lane + 1) xs

-- The counters of the device, given those that a command leaves.
unfoldable pub put_dev : Dev → Option Outcome → Option (Ret × Dev × Option ℤ)
put_dev d none = none
put_dev d (some (r, xs, out)) = some (
  r,
  record d { global = record d.global { refcount = put_counters d.global.refcount 0 xs } },
  out,
)

unfoldable pub control_refcount_dev : Dev → Cmd → Bool → Option (Ret × Dev × Option ℤ)
control_refcount_dev d cmd has_get =
    put_dev d (control_refcount_status (counters d.global.refcount d.global.num 0) cmd has_get)

unfoldable pub control_refcount : Dev → Cmd → Region → Bool → Option (Ret × Dev × Option ℤ)
control_refcount d cmd all has_get = control_refcount_dev d cmd has_get
control_refcount d cmd other_region has_get = some (err einval, d, none)
