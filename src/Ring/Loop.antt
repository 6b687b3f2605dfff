-- ===== src/Ring/Loop.antt =====
-- The loop of `fpga_dequeue`: it ends, and what it does to the queue until then.
use hardware_drivers.Prelude.{
  ℕ, zero, suc, ◌+◌, ◌≡◌, refl, sym, ◌∙◌, ap, arith, true, false, List, [], ◌∷◌, inl, inr, Option,
  none, some, subst, Bool-cases, Option-cases, ℕ_discrete,
}
use hardware_drivers.Prelude.Int.{ℤ, pos, negsuc, ltb_ℤ}
use hardware_drivers.Device.{Desc, Que}
use hardware_drivers.Ring.Command.{
  DmacmdInfo, LibRet, done, fail, dequeue_timeout, Translate, cmd_done,
}
use hardware_drivers.Ring.Transfer.{Outside, take_desc, store_result, dequeue_loop}
use hardware_drivers.Ring.Fifo.{Holds, take_desc-none, take_desc-Holds}
use hardware_drivers.Ring.Completion.{Completes, Completes-Holds, ids}

-- Each sleep takes a microsecond at least, so that look `n` measures `n` microseconds at least.
abbrev pub IsClock : Outside → Type 0
IsClock w = (n : ℕ) → ltb_ℤ (w.usec n) (pos n) ≡ false

timed_out :
    (z timeout : ℤ) (n : ℕ)
    → ltb_ℤ z (pos n) ≡ false
    → ltb_ℤ (pos n) timeout ≡ false
    → ltb_ℤ z timeout ≡ false
timed_out (pos a) (pos b) n h k = ground arith
timed_out (pos a) (negsuc b) n h k = refl
timed_out (negsuc a) timeout n h k = absurd (ground arith)

-- The looks that are enough for a timeout: one for each microsecond, and one more.
abbrev pub looks : ℤ → ℕ
looks (pos n) = suc n
looks (negsuc n) = 1

-- What one look of the loop does.
data Look (t : Translate) (w : Outside) (timeout : ℤ) (fuel n : ℕ) (q : Que) (c : DmacmdInfo)
    (o : Option (LibRet × Que × DmacmdInfo)) : Type 0 where
  took :
      (q2 : Que) (c2 : DmacmdInfo)
      → take_desc t (w.fpga n q) c ≡ some (q2, c2)
      → o ≡ some (done, q2, c2)
      → Look t w timeout fuel n q c o
  gave_up :
      take_desc t (w.fpga n q) c ≡ none
      → o ≡ some (fail dequeue_timeout, w.fpga n q, c)
      → Look t w timeout fuel n q c o
  waited :
      ltb_ℤ (w.usec n) timeout ≡ true
      → o ≡ dequeue_loop t w timeout fuel (n + 1) (w.fpga n q) c
      → Look t w timeout fuel n q c o

module _ (t : Translate) (w : Outside) (timeout : ℤ) where
  dequeue_loop-Look :
      (fuel n : ℕ) (q : Que) (c : DmacmdInfo)
      → Look t w timeout fuel n q c (dequeue_loop t w timeout (suc fuel) n q c)
  unfolding dequeue_loop
  dequeue_loop-Look fuel n q c = elim (Option-cases (take_desc t (w.fpga n q) c)) [
    | inr ((q2, c2), e) ↦ took q2 c2 e (ground (arith, e))
    | inl e ↦ elim (Bool-cases (ltb_ℤ (w.usec n) timeout)) [
      | inl b ↦ waited b (ground (arith, e, b))
      | inr b ↦ gave_up e (ground (arith, e, b))
    ]
  ]

  ends_of_Look :
      (fuel n : ℕ) (q : Que) (c : DmacmdInfo) {o : Option (LibRet × Que × DmacmdInfo)}
      → Look t w timeout fuel n q c o
      → (ltb_ℤ (w.usec n) timeout ≡ true
          → (r : LibRet × Que × DmacmdInfo) × (dequeue_loop t w timeout fuel (n + 1) (w.fpga n q) c
              ≡ some r))
      → (r : LibRet × Que × DmacmdInfo) × (o ≡ some r)
  ends_of_Look fuel n q c (took q2 c2 e h) rest = (_, h)
  ends_of_Look fuel n q c (gave_up e h) rest = (_, h)
  ends_of_Look fuel n q c (waited b h) rest = let (r, g) = rest b in (r, h ∙ g)

  module _ (clock : IsClock w) where
    ends_from :
        (fuel n : ℕ) (q : Que) (c : DmacmdInfo)
        → ltb_ℤ (pos (n + fuel)) timeout ≡ false
        → (r : LibRet × Que × DmacmdInfo) × (dequeue_loop t w timeout (suc fuel) n q c ≡ some r)
    ends_from zero n q c h = ends_of_Look zero n q c (dequeue_loop-Look zero n q c) (λ b. absurd (
        ground (
          arith,
          timed_out (w.usec n) timeout n (clock n)
              (subst (λ x. ltb_ℤ (pos x) timeout ≡ false) (omega arith) h),
        )))
    ends_from (suc fuel) n q c h =
        ends_of_Look (suc fuel) n q c (dequeue_loop-Look (suc fuel) n q c) (λ b.
          ends_from fuel (n + 1) (w.fpga n q) c
            (subst (λ x. ltb_ℤ (pos x) timeout ≡ false) (omega arith) h))

enough :
    (timeout : ℤ)
    → (fuel : ℕ) × ((looks timeout ≡ suc fuel) × (ltb_ℤ (pos (0 + fuel)) timeout ≡ false))
enough (pos n) = (n, (refl, ground arith))
enough (negsuc n) = (0, (refl, refl))

-- `fpga_dequeue` returns: however the FPGA and the clock behave, as long as each sleep takes a
-- microsecond or more, one look for each microsecond of the timeout and one more is enough.
pub dequeue_loop_ends :
    (t : Translate) (w : Outside) (timeout : ℤ) (q : Que) (c : DmacmdInfo)
    → IsClock w
    → (r : LibRet × Que × DmacmdInfo) × (dequeue_loop t w timeout (looks timeout) 0 q c ≡ some r)
dequeue_loop_ends t w timeout q c clock =
    let (fuel, (e, h)) = enough timeout in rw e (ends_from t w timeout clock fuel 0 q c h)

-- How a dequeue that returns leaves a queue that held the task ids `queued`.
pub data Dequeued (queued : List ℕ) (r : LibRet) (q : Que) (c : DmacmdInfo) : Type 0 where
  took_first :
      (rest : List Desc)
      → Holds q rest
      → queued ≡ c.result_task_id ∷ ids rest
      → r ≡ done
      → Dequeued queued r q c
  timed :
      (cmds : List Desc)
      → Holds q cmds
      → queued ≡ ids cmds
      → r ≡ fail dequeue_timeout
      → Dequeued queued r q c

take_desc-Dequeued :
    (t : Translate) (q : Que) (cmds : List Desc) (c : DmacmdInfo) (q2 : Que) (c2 : DmacmdInfo)
    → Holds q cmds
    → take_desc t q c ≡ some (q2, c2)
    → Dequeued (ids cmds) done q2 c2
unfolding store_result
take_desc-Dequeued t q [] c q2 c2 h e =
    absurd (ground (arith, take_desc-none q [] h t c (λ z. omega arith)))
take_desc-Dequeued t q (x ∷ cmds) c q2 c2 h e = elim (ℕ_discrete x.op cmd_done) [
  | no n ↦ absurd (ground (arith, take_desc-none q (x ∷ cmds) h t c n))
  | yes o ↦
      let (q3, g, rest) = take_desc-Holds q x cmds h t c o in
      took_first cmds (subst (λ y. Holds y cmds) (ground arith) rest)
        (ap (λ i. i ∷ ids cmds) (ground arith)) refl
]

dequeue_loop-zero :
    (t : Translate) (w : Outside) (timeout : ℤ) (n : ℕ) (q : Que) (c : DmacmdInfo)
    → dequeue_loop t w timeout zero n q c ≡ none
unfolding dequeue_loop
dequeue_loop-zero t w timeout n q c = refl

Dequeued-of_took :
    (queued : List ℕ) {r : LibRet} {q2 q3 : Que} {c2 c3 : DmacmdInfo}
    → Dequeued queued done q3 c3
    → ◌≡◌ {A = Option (LibRet × Que × DmacmdInfo)} (some (done, q3, c3)) (some (r, q2, c2))
    → Dequeued queued r q2 c2
Dequeued-of_took queued {r} {q2} {q3} {c2} {c3} a e =
    subst (λ x. Dequeued queued x q2 c2) (ground arith)
      (subst (λ x. Dequeued queued done x c2) (ground arith)
        (subst (λ x. Dequeued queued done q3 x) (ground arith) a))

module _ (t : Translate) (w : Outside) (timeout : ℤ)
    (fpga : (n : ℕ) (q : Que) → Completes q (w.fpga n q)) where
  -- A dequeue takes the oldest command, in the order of the queue, or times out and takes none.
  pub dequeue_loop-Dequeued :
      (fuel n : ℕ) (q : Que) (cmds : List Desc) (c : DmacmdInfo) (r : LibRet) (q2 : Que)
      (c2 : DmacmdInfo)
      → Holds q cmds
      → dequeue_loop t w timeout fuel n q c ≡ some (r, q2, c2)
      → Dequeued (ids cmds) r q2 c2
  dequeue_loop-Dequeued zero n q cmds c r q2 c2 h e =
      absurd (ground (arith, dequeue_loop-zero t w timeout n q c))
  dequeue_loop-Dequeued (suc fuel) n q cmds c r q2 c2 h e =
      let (cmds1, h1, same) = Completes-Holds q (w.fpga n q) cmds h (fpga n q) in
      elim (dequeue_loop-Look t w timeout fuel n q c) [
        | took q3 c3 k g ↦
            subst (λ x. Dequeued x r q2 c2) same
              (Dequeued-of_took (ids cmds1) (take_desc-Dequeued t _ cmds1 c q3 c3 h1 k) (sym g ∙ e))
        | gave_up k g ↦
            timed cmds1 (subst (λ x. Holds x cmds1) (ground arith) h1) (sym same) (ground arith)
        | waited b g ↦
            subst (λ x. Dequeued x r q2 c2) same
              (dequeue_loop-Dequeued fuel (n + 1) (w.fpga n q) cmds1 c r q2 c2 h1 (sym g ∙ e))
      ]
