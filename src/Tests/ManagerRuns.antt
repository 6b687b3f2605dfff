-- ===== src/Tests/ManagerRuns.antt =====
-- The theorem on the managers of huge pages at a table without managers.
use hardware_drivers.Prelude.{ℕ, ◌≡◌, ◌≢◌, ◌⊎◌, Option, refl, arith, true, some, none, [], ◌∷◌}
use hardware_drivers.Manager.{
  Child, running, Managers, no_manager, ManagerRet, done, manager_init, check_file_prefix,
  check_health, has_prefix, check_sockets, get_socket_sum, total, parent_process, get_index,
  free_from, set_manager_info,
}
use hardware_drivers.Manager.Shrinks.{Fits, Shrinks}
use hardware_drivers.Manager.Grants.{Granted}
use hardware_drivers.Manager.Fits.{manager_init-Fits}

-- One socket of four pages, in a table of two entries.
abbrev empty_table : Managers
empty_table = record {
  infos = λ i. no_manager;
  available_limit = 2;
  socket_num = 1;
  socket_limit = λ s. 4;
  checks = 0;
}

empty_table-Fits : Fits empty_table
unfolding total
empty_table-Fits = record {
  room = λ s h. omega arith;
  vacant = λ i z s. refl;
  small = λ s h. omega arith;
}

abbrev all_run : ℕ → ℕ → Child
all_run n pid = running

-- A child takes three pages.
manager_init-Fits_example :
    (r : ManagerRet) × (m' : Managers) × (manager_init all_run empty_table true true
        (some 77)
        (some (65 ∷ []))
        (some (λ s. 3))
        (some 1)
      ≡ some (r, m'))
    × Fits m'
    × (((r ≡ done) × Granted all_run empty_table m' (65 ∷ []) (λ s. 3))
        ⊎ ((r ≢ done) × Shrinks all_run empty_table m'))
manager_init-Fits_example =
    manager_init-Fits all_run empty_table true true (some 77) (65 ∷ []) (λ s. 3) (some 1)
      empty_table-Fits (omega arith) (omega arith)

abbrev result_of : Option (ManagerRet × Managers) → Option ManagerRet
result_of none = none
result_of (some (r, m)) = some r

-- It is granted: the child reports in time.
launched :
    result_of (
      manager_init all_run empty_table true true
        (some 77)
        (some (65 ∷ []))
        (some (λ s. 3))
        (some 1))
    ≡ some done
unfolding manager_init check_file_prefix check_health has_prefix check_sockets get_socket_sum total
    parent_process get_index free_from set_manager_info
launched = refl
