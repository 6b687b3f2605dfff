-- ===== src/Manager.antt =====
-- The huge pages that the managers of shared memory take, lib/libfpga/src/libshmem_manager.c: the
-- table `manager_infos`, its health check and `fpga_shmem_manager_init` in the parent process. The
-- limit of the table is one within the array (SHMEM_MAX_HUGEPAGES entries). What `waitpid` answers
-- in each health check, and whether directories, processes and files can be made, are arguments.
pub mod Shrinks
pub mod Room
pub mod Grants
pub mod Fits
use hardware_drivers.Prelude.{
  ℕ, zero, suc, ◌+◌, ◌-◌, ◌%◌, ◌^◌, Bool, true, false, ◌||◌, ◌&&◌, not, Option, none, some, List,
  [], ◌∷◌, length, ltb, leb, ◌==◌, if◌then◌else◌, bytes_eq, update,
}

-- `fpga_shmem_manager_info_t`; a process id of 0 is that of no process.
pub record ManagerInfo : Type 0 where
  pub hp_limit : ℕ
  pub pid : ℕ
  pub is_initialized : ℕ
  pub socket_limit : ℕ → ℕ
  pub file_prefix : List ℕ

-- `__fpga_shmem_reset_manager_info`
abbrev pub no_manager : ManagerInfo
no_manager = record {
  hp_limit = 0;
  pid = 0;
  is_initialized = 0;
  socket_limit = λ s. 0;
  file_prefix = [];
}

-- `manager_infos`, the limits of pages that are not of this file, and how many health checks there
-- were.
pub record Managers : Type 0 where
  pub infos : ℕ → ManagerInfo
  pub available_limit : ℕ
  pub socket_num : ℕ
  pub socket_limit : ℕ → ℕ
  pub checks : ℕ

-- A child that runs, that has exited, or that was ended in another way.
pub data Child : Type 0 where
  running exited killed : Child

abbrev pub check_child : Child → ManagerInfo → ManagerInfo
check_child running i = i
check_child exited i = no_manager
check_child killed i = i

abbrev pub check_info : (ℕ → Child) → ManagerInfo → ManagerInfo
check_info waitpid i = if i.pid == 0 then i else check_child (waitpid i.pid) i

-- `wait` has what `waitpid` answers in the n-th check.
unfoldable pub check_health : (ℕ → ℕ → Child) → Managers → Managers
check_health wait m = record m {
  infos =
      λ i. if ltb i m.available_limit then check_info (wait m.checks) (m.infos i) else m.infos i;
  checks = suc m.checks;
}

-- The loop for the smallest free index, for `left` entries from `i` on.
unfoldable pub free_from : ℕ → ℕ → Managers → Option ℕ
free_from zero i m = none
free_from (suc left) i m =
    let rest = free_from left (i + 1) m in
    if length (m.infos i).file_prefix == 0 then some i else rest

unfoldable pub get_index : (ℕ → ℕ → Child) → Managers → Option ℕ × Managers
unfolding check_health free_from
get_index wait m = let m' = check_health wait m in (free_from m'.available_limit 0 m', m')

-- The sum of `f` below `n`.
unfoldable pub total : ℕ → (ℕ → ℕ) → ℕ
total zero f = 0
total (suc n) f = total n f + f n

unfoldable pub get_socket_sum : (ℕ → ℕ → Child) → Managers → ℕ → ℕ × Managers
unfolding check_health total
get_socket_sum wait m index =
    let m' = check_health wait m in
    (total m'.available_limit (λ i. (m'.infos i).socket_limit index), m')

-- The loop of `__fpga_shmem_check_memory`, for `left` sockets from `i` on. The difference is an
-- `int` that the comparison converts to 32 bits without a sign.
unfoldable pub check_sockets : (ℕ → ℕ → Child) → ℕ → ℕ → Managers → (ℕ → ℕ) → Bool × Managers
unfolding get_socket_sum
check_sockets wait zero i m limits = (true, m)
check_sockets wait (suc left) i m limits =
    let (sum, m') = get_socket_sum wait m i in
    let available = (m'.socket_limit i + 2 ^ 32 - sum % 2 ^ 32) % 2 ^ 32 in
    let rest = check_sockets wait left (i + 1) m' limits in
    if ltb available (limits i) then (false, m') else rest

abbrev pub check_memory : (ℕ → ℕ → Child) → Managers → Option (ℕ → ℕ) → Bool × Managers
check_memory wait m none = (true, check_health wait m)
check_memory wait m (some limits) = check_sockets wait m.socket_num 0 (check_health wait m) limits

-- Whether an entry has the prefix, for `left` entries from `i` on.
unfoldable pub has_prefix : ℕ → ℕ → Managers → List ℕ → Bool
has_prefix zero i m prefix = false
has_prefix (suc left) i m prefix =
    let rest = has_prefix left (i + 1) m prefix in
    if length (m.infos i).file_prefix == 0
    then rest
    else if bytes_eq prefix (m.infos i).file_prefix
    then true
    else rest

abbrev pub hugepage_prefix_max : ℕ
hugepage_prefix_max = 64

abbrev pub prefix_ok : Managers → Option (List ℕ) → Bool
prefix_ok m none = false
prefix_ok m (some prefix) =
    not (ltb hugepage_prefix_max (length prefix)) && not (has_prefix m.available_limit 0 m prefix)

unfoldable pub check_file_prefix : (ℕ → ℕ → Child) → Managers → Option (List ℕ) → Bool × Managers
unfolding check_health has_prefix
check_file_prefix wait m prefix = let m' = check_health wait m in (prefix_ok m' prefix, m')

abbrev pub with_limits : ℕ → Option (ℕ → ℕ) → ManagerInfo → ManagerInfo
with_limits sockets none i = record i { hp_limit = 0 }
with_limits sockets (some limits) i = record i {
  hp_limit = total sockets limits;
  socket_limit = λ s. if ltb s sockets then limits s else i.socket_limit s;
}

-- `none` where the prefix and its end do not fit into the entry.
unfoldable pub set_manager_info :
    (ℕ → ℕ → Child) → Managers → ℕ → List ℕ → ℕ → Option (ℕ → ℕ) → Option Managers
unfolding check_health total
set_manager_info wait m index prefix pid limits =
    let m' = check_health wait m in
    let info = record (m'.infos index) { file_prefix = prefix; pid = pid } in
    if ltb (length prefix) hugepage_prefix_max
    then some (record m' { infos = update m'.infos index (with_limits m'.socket_num limits info) })
    else none

pub data ManagerRet : Type 0 where
  done invalid_argument not_registered_signal failure_mkdir failure_fork full_element
        failure_initialize :
      ManagerRet

-- The report of the child in the file, if it came in time.
abbrev pub with_report : Option ℕ → ManagerInfo → ManagerInfo
with_report none i = i
with_report (some n) i = record i { is_initialized = n }

unfoldable pub parent_process :
    (ℕ → ℕ → Child)
    → Managers
    → ℕ
    → List ℕ
    → Option (ℕ → ℕ)
    → Option ℕ
    → Option (ManagerRet × Managers)
unfolding get_index set_manager_info
parent_process wait m pid prefix limits report =
    let (index, m1) = get_index wait m in
    elim index [
      | none ↦ some (full_element, m1)
      | some i ↦
          let info = with_report report (m1.infos i) in
          let m2 = record m1 { infos = update m1.infos i info } in
          if info.is_initialized == 1
          then elim (set_manager_info wait m2 i prefix pid limits) [
            | none ↦ none
            | some m3 ↦ some (done, m3)
          ]
          else some (
            failure_initialize,
            record m1 { infos = update m1.infos i (record info { is_initialized = 0 }) },
          )
    ]

-- What happens outside: the directory is made or there already, and the process id of the child.
abbrev pub forked :
    (ℕ → ℕ → Child)
    → Managers
    → Bool
    → Bool
    → Option ℕ
    → Option (List ℕ)
    → Option (ℕ → ℕ)
    → Option ℕ
    → Option (ManagerRet × Managers)
forked wait m signal_set made child none limits report = some (invalid_argument, m)
forked wait m false made child (some prefix) limits report = some (not_registered_signal, m)
forked wait m true false child (some prefix) limits report = some (failure_mkdir, m)
forked wait m true true none (some prefix) limits report = some (failure_fork, m)
forked wait m true true (some pid) (some prefix) limits report =
    parent_process wait m pid prefix limits report

unfoldable pub manager_init :
    (ℕ → ℕ → Child)
    → Managers
    → Bool
    → Bool
    → Option ℕ
    → Option (List ℕ)
    → Option (ℕ → ℕ)
    → Option ℕ
    → Option (ManagerRet × Managers)
unfolding check_file_prefix check_sockets parent_process check_health
manager_init wait m signal_set made child prefix limits report =
    let (named, m1) = check_file_prefix wait m prefix in
    let (room, m2) = check_memory wait m1 limits in
    let rest = forked wait m2 signal_set made child prefix limits report in
    if not named
    then some (invalid_argument, m1)
    else if not room
    then some (invalid_argument, m2)
    else rest
