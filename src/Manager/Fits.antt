-- ===== src/Manager/Fits.antt =====
-- No socket gives away more huge pages than it has.
use hardware_drivers.Prelude.{
  ℕ, ◌<◌, ◌≡◌, ◌≢◌, ◌⊎◌, refl, Bool, true, false, Bool-cases, Option, Option-cases, none, some,
  List, inl, inr, length, ◌==◌, update, arith,
}
use hardware_drivers.Manager.{
  Managers, Child, check_health, free_from, get_index, check_memory, check_file_prefix,
  hugepage_prefix_max, ManagerRet, done, invalid_argument, not_registered_signal, failure_mkdir,
  failure_fork, full_element, failure_initialize, with_report, parent_process, forked, manager_init,
  prefix_ok,
}
use hardware_drivers.Manager.Shrinks.{
  Fits, Shrinks, Shrinks-trans, check_health-Shrinks, Shrinks-Fits,
}
use hardware_drivers.Manager.Room.{HasRoom, Shrinks-HasRoom, check_memory-HasRoom}
use hardware_drivers.Manager.Grants.{
  Granted, Ends, free_from-free, with_report-Aged, with_report-pages, update-Shrinks,
  set_manager_info-Ends,
}

parent_process-Ends :
    (wait : ℕ → ℕ → Child) (m0 m : Managers) (pid : ℕ) (prefix : List ℕ) (limits : ℕ → ℕ)
    (report : Option ℕ)
    → Shrinks wait m0 m
    → HasRoom m limits
    → 0 < length prefix
    → length prefix < hugepage_prefix_max
    → Ends wait m0 prefix limits (parent_process wait m pid prefix (some limits) report)
unfolding parent_process get_index
parent_process-Ends wait m0 m pid prefix limits report sh h some_name short =
    let m1 = check_health wait m in
    let sh1 = Shrinks-trans sh (check_health-Shrinks wait m) in
    let h1 = Shrinks-HasRoom (check_health-Shrinks wait m) h in
    elim (Option-cases (free_from m1.available_limit 0 m1)) [
      | inl x ↦ (full_element, m1, rw (x, parent_process) refl, h1.fits, inr (λ e. cc, sh1))
      | inr (i, x) ↦
          let (unused, low) = free_from-free m1.available_limit 0 i m1 x in
          let info = with_report report (m1.infos i) in
          let pages = with_report-pages report (m1.infos i) in
          let same = with_report-Aged wait report (m1.infos i) in
          let m2 = record m1 { infos = update m1.infos i info } in
          let failed_info = record info { is_initialized = 0 } in
          let failed = record m1 { infos = update m1.infos i failed_info } in
          elim (Bool-cases (info.is_initialized == 1)) [
            | inr b ↦
                let away = update-Shrinks wait m1 i failed_info same pages in
                (
                  failure_initialize,
                  failed,
                  rw (x, b, parent_process) refl,
                  Shrinks-Fits away h1.fits,
                  inr (λ e. cc, Shrinks-trans sh1 away),
                )
            | inl b ↦
                let away = update-Shrinks wait m1 i info same pages in
                let (m3, p, fits, granted) =
                  set_manager_info-Ends wait m0 m2 i prefix pid limits (m1.infos i)
                    (Shrinks-trans sh1 away) (Shrinks-HasRoom away h1) some_name short
                    (omega (arith, low, sh1.limit)) (sh1.aged i) unused in
                (done, m3, rw (x, b, p, parent_process) refl, fits, inl (refl, granted))
          ]
    ]

forked-Ends :
    (wait : ℕ → ℕ → Child) (m0 m : Managers) (signal_set made : Bool) (child : Option ℕ)
    (prefix : List ℕ) (limits : ℕ → ℕ) (report : Option ℕ)
    → Shrinks wait m0 m
    → HasRoom m limits
    → 0 < length prefix
    → length prefix < hugepage_prefix_max
    → Ends wait m0 prefix limits
        (forked wait m signal_set made child (some prefix) (some limits) report)
forked-Ends wait m0 m false made child prefix limits report sh h n l =
    (not_registered_signal, m, refl, h.fits, inr (λ e. cc, sh))
forked-Ends wait m0 m true false child prefix limits report sh h n l =
    (failure_mkdir, m, refl, h.fits, inr (λ e. cc, sh))
forked-Ends wait m0 m true true none prefix limits report sh h n l =
    (failure_fork, m, refl, h.fits, inr (λ e. cc, sh))
forked-Ends wait m0 m true true (some pid) prefix limits report sh h n l =
    parent_process-Ends wait m0 m pid prefix limits report sh h n l

-- A call of `fpga_shmem_manager_init` with limits and a prefix of 1 to 63 bytes, for any answers of
-- the system, where the managers have no more huge pages of a socket than it has, none of them in
-- an entry that counts as free, and each socket has fewer than 2 ^ 31 pages: the call ends and this
-- holds afterwards. If it returns 0, a free entry has become that of the new manager with its
-- prefix and all its pages, and otherwise none has; every other entry keeps its prefix and its
-- pages, or is empty because its child has exited.
pub manager_init-Fits :
    (wait : ℕ → ℕ → Child) (m : Managers) (signal_set made : Bool) (child : Option ℕ)
    (prefix : List ℕ) (limits : ℕ → ℕ) (report : Option ℕ)
    → Fits m
    → 0 < length prefix
    → length prefix < hugepage_prefix_max
    → (r : ManagerRet) × (m' : Managers) × (manager_init wait m signal_set made child
          (some prefix)
          (some limits)
          report
        ≡ some (r, m'))
      × Fits m'
      × (((r ≡ done) × Granted wait m m' prefix limits) ⊎ ((r ≢ done) × Shrinks wait m m'))
unfolding manager_init check_file_prefix
manager_init-Fits wait m signal_set made child prefix limits report f n l =
    let m1 = check_health wait m in
    let sh1 = check_health-Shrinks wait m in
    let f1 = Shrinks-Fits sh1 f in
    let (x, room) = check_memory-HasRoom wait m1 limits f1 in
    let m2 = (check_memory wait m1 (some limits)).1 in
    let sh2 = Shrinks-trans sh1 x in
    elim (Bool-cases (prefix_ok m1 (some prefix))) [
      | inr a ↦ (invalid_argument, m1, rw a refl, f1, inr (λ e. cc, sh1))
      | inl a ↦ elim (Bool-cases (check_memory wait m1 (some limits)).0) [
        | inr b ↦ (invalid_argument, m2, rw (a, b) refl, Shrinks-Fits x f1, inr (λ e. cc, sh2))
        | inl b ↦
            rw (a, b)
              (forked-Ends wait m m2 signal_set made child prefix limits report sh2 (room b) n l)
      ]
    ]
