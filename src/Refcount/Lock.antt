-- ===== src/Refcount/Lock.antt =====
-- The reference counts are one lock, held by any number of readers or by one writer.
use hardware_drivers.Prelude.{
  ℕ, zero, suc, ◌+◌, ◌-◌, ◌^◌, ◌<◌, ◌≤◌, ◌≡◌, refl, ◌∙◌, ap, ap₂, arith, Bool, true, false, Option,
  none, some, List, [], ◌∷◌, ltb, ◌==◌, update, ℕ_discrete,
}
use hardware_drivers.Prelude.Int.{ℤ, pos, negsuc, add32}
use hardware_drivers.Device.{Dev, Ret, ok, err, ebusy, einval, refcount_writing, refcount_using}
use hardware_drivers.Refcount.{
  Cmd, inc, dec, write, clear, get, rst, other_cmd, all, add_refcount_list, set_refcount_list,
  get_refcount_list, store_get, clb_is_same, clb_is_differ, clb_is_less, is_refcount_any,
  control_list, control_refcount_status, counters, put_counters, put_dev, control_refcount_dev,
  control_refcount,
}

-- The abstract state, and the counter of every lane in it.
pub data Holder : Type 0 where
  readers : ℕ → Holder
  writer : Holder

abbrev pub counter : Holder → ℤ
counter (readers n) = pos n
counter writer = negsuc 0

-- What a command does to the lock.
abbrev pub lock_step : Holder → Cmd → Ret × Holder
lock_step (readers n) inc = (ok, readers (n + 1))
lock_step (readers zero) dec = (err ebusy, readers 0)
lock_step (readers (suc n)) dec = (ok, readers n)
lock_step (readers zero) write = (ok, writer)
lock_step (readers (suc n)) write = (err refcount_using, readers (suc n))
lock_step (readers n) clear = (err refcount_using, readers n)
lock_step writer inc = (err refcount_writing, writer)
lock_step writer dec = (err refcount_writing, writer)
lock_step writer write = (err refcount_writing, writer)
lock_step writer clear = (ok, readers 0)
lock_step s rst = (ok, readers 0)
lock_step s get = (ok, s)
lock_step s other_cmd = (err einval, s)

-- `n` equal counters.
abbrev pub copies : ℕ → ℤ → List ℤ
copies zero x = []
copies (suc n) x = x ∷ copies n x

any-copies :
    (n : ℕ) (x v : ℤ) (clb : ℤ → ℤ → Bool) → is_refcount_any (copies (suc n) x) v clb ≡ clb x v
unfolding is_refcount_any
any-copies zero x v clb = ground arith
any-copies (suc n) x v clb = ground (arith, any-copies n x v clb)

add-copies : (n : ℕ) (x v : ℤ) → add_refcount_list (copies n x) v ≡ copies n (add32 x v)
unfolding add_refcount_list
add-copies zero x v = refl
add-copies (suc n) x v = ap (λ xs. add32 x v ∷ xs) (add-copies n x v)

set-copies : (n : ℕ) (x v : ℤ) → set_refcount_list (copies n x) v ≡ copies n v
unfolding set_refcount_list
set-copies zero x v = refl
set-copies (suc n) x v = ap (λ xs. v ∷ xs) (set-copies n x v)

not_less : (k : ℕ) → ltb k 0 ≡ false
not_less k = ground arith

not_zero : (k : ℕ) → (suc k == 0) ≡ false
not_zero k = ground arith

add32_inc : (n : ℕ) → n < 2 ^ 31 - 1 → add32 (pos n) (pos 1) ≡ pos (n + 1)
add32_inc n h = ground arith

add32_dec : (n : ℕ) → suc n < 2 ^ 31 → add32 (pos (suc n)) (negsuc 0) ≡ pos n
add32_dec n h = ground arith

-- No counter of the state overflows at the next command.
abbrev pub IsSmall : Holder → Type 0
IsSmall (readers n) = n < 2 ^ 31 - 1
IsSmall writer = Unit

-- `__control_refcount_status` on equal counters gives the result of the lock and leaves the
-- counters of its next state.
pub control_refcount_status-lock_step :
    (n : ℕ) (s : Holder) (cmd : Cmd)
    → IsSmall s
    → (out : Option ℤ) × (control_refcount_status (copies (suc n) (counter s)) cmd true
        ≡ some ((lock_step s cmd).0, copies (suc n) (counter (lock_step s cmd).1), out))
unfolding control_refcount_status control_list store_get
control_refcount_status-lock_step n (readers k) inc h = (
  none,
  rw
      (
        any-copies n (pos k) (negsuc 0) clb_is_same,
        any-copies n (pos k) (pos 0) clb_is_less,
        not_less k,
        add-copies (suc n) (pos k) (pos 1),
        add32_inc k h,
      )
      refl,
)
control_refcount_status-lock_step n (readers zero) dec h = (
  none,
  rw
      (
        any-copies n (pos 0) (negsuc 0) clb_is_same,
        any-copies n (pos 0) (pos 0) clb_is_less,
        any-copies n (pos 0) (pos 0) clb_is_same,
      )
      refl,
)
control_refcount_status-lock_step n (readers (suc k)) dec h = (
  none,
  rw
      (
        any-copies n (pos (suc k)) (negsuc 0) clb_is_same,
        any-copies n (pos (suc k)) (pos 0) clb_is_less,
        not_less (suc k),
        any-copies n (pos (suc k)) (pos 0) clb_is_same,
        not_zero k,
        add-copies (suc n) (pos (suc k)) (negsuc 0),
        add32_dec k (omega (arith, h)),
      )
      refl,
)
control_refcount_status-lock_step n (readers zero) write h = (
  none,
  rw
      (
        any-copies n (pos 0) (negsuc 0) clb_is_same,
        any-copies n (pos 0) (pos 0) clb_is_less,
        any-copies n (pos 0) (pos 0) clb_is_differ,
        set-copies (suc n) (pos 0) (negsuc 0),
      )
      refl,
)
control_refcount_status-lock_step n (readers (suc k)) write h = (
  none,
  rw
      (
        any-copies n (pos (suc k)) (negsuc 0) clb_is_same,
        any-copies n (pos (suc k)) (pos 0) clb_is_less,
        not_less (suc k),
        any-copies n (pos (suc k)) (pos 0) clb_is_differ,
        not_zero k,
      )
      refl,
)
control_refcount_status-lock_step n (readers k) clear h =
    (none, rw (any-copies n (pos k) (negsuc 0) clb_is_differ) refl)
control_refcount_status-lock_step n writer inc h =
    (none, rw (any-copies n (negsuc 0) (negsuc 0) clb_is_same) refl)
control_refcount_status-lock_step n writer dec h =
    (none, rw (any-copies n (negsuc 0) (negsuc 0) clb_is_same) refl)
control_refcount_status-lock_step n writer write h =
    (none, rw (any-copies n (negsuc 0) (negsuc 0) clb_is_same) refl)
control_refcount_status-lock_step n writer clear h = (
  none,
  rw (any-copies n (negsuc 0) (negsuc 0) clb_is_differ, set-copies (suc n) (negsuc 0) (pos 0)) refl,
)
control_refcount_status-lock_step n s rst h =
    (none, rw (set-copies (suc n) (counter s) (pos 0)) refl)
control_refcount_status-lock_step n s get h =
    (some (get_refcount_list (copies (suc n) (counter s)) (pos 0)), refl)
control_refcount_status-lock_step n s other_cmd h = (none, refl)

-- Every lane of the global module has the counter of the state.
abbrev pub IsHeld : Dev → Holder → Type 0
IsHeld d s = (lane : ℕ) → lane < d.global.num → d.global.refcount lane ≡ counter s

counters-copies :
    (refcount : ℕ → ℤ) (left lane : ℕ) (x : ℤ)
    → ((j : ℕ) → lane ≤ j → j < lane + left → refcount j ≡ x)
    → counters refcount left lane ≡ copies left x
unfolding counters
counters-copies refcount zero lane x h = refl
counters-copies refcount (suc left) lane x h =
    ap₂ (λ y ys. y ∷ ys) (h lane (omega arith) (omega arith))
      (counters-copies refcount left (lane + 1) x (λ j a b. h j (omega arith) (omega arith)))

put_counters_below :
    (refcount : ℕ → ℤ) (n lane : ℕ) (x : ℤ) (j : ℕ)
    → j < lane
    → put_counters refcount lane (copies n x) j ≡ refcount j
unfolding put_counters
put_counters_below refcount zero lane x j h = refl
put_counters_below refcount (suc n) lane x j h =
    put_counters_below (update refcount lane x) n (lane + 1) x j (omega arith) ∙ ground arith

put_counters-copies :
    (refcount : ℕ → ℤ) (n lane : ℕ) (x : ℤ) (j : ℕ)
    → lane ≤ j
    → j < lane + n
    → put_counters refcount lane (copies n x) j ≡ x
unfolding put_counters
put_counters-copies refcount zero lane x j a b = absurd (omega arith)
put_counters-copies refcount (suc n) lane x j a b = elim (ℕ_discrete j lane) [
  | yes e ↦
      put_counters_below (update refcount lane x) n (lane + 1) x j (omega arith) ∙ ground arith
  | no e ↦
      put_counters-copies (update refcount lane x) n (lane + 1) x j (omega (arith, e)) (omega arith)
]

held_list :
    (d : Dev) (s : Holder)
    → IsHeld d s
    → counters d.global.refcount d.global.num 0 ≡ copies d.global.num (counter s)
held_list d s h =
    counters-copies d.global.refcount d.global.num 0 (counter s) (λ j a b. h j (omega arith))

control_dev :
    (d : Dev) (s : Holder) (cmd : Cmd) (n : ℕ)
    → d.global.num ≡ suc n
    → IsHeld d s
    → IsSmall s
    → (d' : Dev) × (out : Option ℤ) × (control_refcount_dev d cmd true
        ≡ some ((lock_step s cmd).0, d', out))
      × IsHeld d' (lock_step s cmd).1
unfolding control_refcount_dev put_dev
control_dev d s cmd n e h small =
    let (out, g) = control_refcount_status-lock_step n s cmd small in
    let next = (lock_step s cmd).1 in
    (
      record d {
        global = record d.global {
          refcount = put_counters d.global.refcount 0 (copies (suc n) (counter next));
        };
      },
      out,
      ap (λ xs. put_dev d (control_refcount_status xs cmd true))
            (held_list d s h ∙ ap (λ m. copies m (counter s)) e)
          ∙ ap (put_dev d) g,
      λ lane b.
          put_counters-copies d.global.refcount (suc n) 0 (counter next) lane (omega arith)
            (omega (arith, e)),
    )

-- `xpcie_fpga_control_refcount` refines a lock with readers and one writer. If every lane of the
-- global module, of which there is at least one, has the counter of a state of the lock, below the
-- largest `int`, then every command on the whole device returns the lock's result and leaves every
-- lane with the counter of the lock's next state: a reader is refused while there is a writer, a
-- writer while there is anyone, and only what is held is given back.
pub control_refcount-lock_step :
    (d : Dev) (s : Holder) (cmd : Cmd)
    → 0 < d.global.num
    → IsHeld d s
    → IsSmall s
    → (d' : Dev) × (out : Option ℤ) × (control_refcount d cmd all true
        ≡ some ((lock_step s cmd).0, d', out))
      × IsHeld d' (lock_step s cmd).1
unfolding control_refcount
control_refcount-lock_step d s cmd p h small =
    control_dev d s cmd (d.global.num - 1) (omega arith) h small
