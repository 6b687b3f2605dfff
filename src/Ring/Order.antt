-- ===== src/Ring/Order.antt =====
-- The order of the commands over any sequence of calls.
use hardware_drivers.Prelude.{
  ℕ, ◌<◌, ◌≤◌, ◌≡◌, ◌≢◌, refl, sym, ◌∙◌, ap, subst, arith, List, [], ◌∷◌, ◌++◌, ◌⊎◌, inl, inr,
  Option, none, some, length, append-nil, append_assoc,
}
use hardware_drivers.Prelude.Int.{ℤ}
use hardware_drivers.Device.{Desc, Que, zero_desc}
use hardware_drivers.Ring.Command.{
  DmacmdInfo, LibRet, done, fail, LibErrno, enqueue_quefull, Translate, AddrCheck,
}
use hardware_drivers.Ring.Transfer.{
  Outside, Checked, phys, bad, check_cmd, check_addr, enqueue_checked, enqueue_valid, enqueue_desc,
  enqueue_cmd, fill_desc, dequeue_loop,
}
use hardware_drivers.Ring.Fifo.{Holds, enqueue_desc_full, enqueue_desc-Holds}
use hardware_drivers.Ring.Completion.{Completes, Completes-Holds, ids}
use hardware_drivers.Ring.Loop.{Dequeued, took_first, timed, dequeue_loop-Dequeued}

abbrev Enqueued : Type 0
Enqueued = LibRet × Que × DmacmdInfo

enqueue_checked-cases :
    (q : Que) (c : DmacmdInfo) (k : Checked)
    → ((e : LibErrno) × ◌≡◌ {A = Enqueued} (enqueue_checked q c k) (fail e, q, c))
      ⊎ ((pa : ℕ) × (enqueue_checked q c k ≡ enqueue_desc q c pa))
unfolding enqueue_checked
enqueue_checked-cases q c (bad e) = inl (e, refl)
enqueue_checked-cases q c (phys pa) = inr (pa, refl)

enqueue_valid-cases :
    (t : Translate) (flag : AddrCheck) (q : Que) (c : DmacmdInfo) (k : Option LibErrno)
    → ((e : LibErrno) × ◌≡◌ {A = Enqueued} (enqueue_valid t flag q c k) (fail e, q, c))
      ⊎ ((pa : ℕ) × (enqueue_valid t flag q c k ≡ enqueue_desc q c pa))
unfolding enqueue_valid
enqueue_valid-cases t flag q c (some e) = inl (e, refl)
enqueue_valid-cases t flag q c none = enqueue_checked-cases q c (check_addr t flag c)

-- What an enqueue that returned did to a queue that held `cmds`.
data Accepts (cmds : List Desc) (q : Que) (c : DmacmdInfo) (q2 : Que) : LibRet → Type 0 where
  joined : (x : Desc) → x.task_id ≡ c.task_id → Holds q2 (cmds ++ x ∷ []) → Accepts cmds q c q2 done
  refused : (e : LibErrno) → q2 ≡ q → Accepts cmds q c q2 (fail e)

room_or_full : (n m : ℕ) → n ≤ m → (n < m) ⊎ (n ≡ m)
room_or_full n m h = grind arith

module _ (q : Que) (cmds : List Desc) (h : Holds q cmds) where
  enqueue_desc-Accepts :
      (c : DmacmdInfo) (pa : ℕ)
      → c.task_id ≢ 0
      → Accepts cmds q c (enqueue_desc q c pa).1 (enqueue_desc q c pa).0
  unfolding fill_desc
  enqueue_desc-Accepts c pa n = elim (room_or_full (length cmds) q.size h.fits) [
    | inr l ↦ rw (enqueue_desc_full q cmds h c pa l) (refused enqueue_quefull refl)
    | inl l ↦
        let (q', e, g) = enqueue_desc-Holds q cmds h c pa n l in
        rw e (joined (fill_desc c pa zero_desc) refl g)
  ]

  enqueue_cmd-Accepts :
      (t : Translate) (flag : AddrCheck) (c : DmacmdInfo)
      → c.task_id ≢ 0
      → Accepts cmds q c (enqueue_cmd t flag q c).1 (enqueue_cmd t flag q c).0
  unfolding enqueue_cmd
  enqueue_cmd-Accepts t flag c n = elim (enqueue_valid-cases t flag q c (check_cmd c)) [
    | inl (e, g) ↦ rw g (refused e refl)
    | inr (pa, g) ↦ rw g (enqueue_desc-Accepts c pa n)
  ]

  Accepts-of :
      (t : Translate) (flag : AddrCheck) (c : DmacmdInfo)
      → c.task_id ≢ 0
      → {r : LibRet} {q2 : Que} {c2 : DmacmdInfo}
      → ◌≡◌ {A = Enqueued} (enqueue_cmd t flag q c) (r, q2, c2)
      → Accepts cmds q c q2 r
  Accepts-of t flag c n e =
      subst (λ (x : Enqueued). Accepts cmds q c x.1 x.0) e (enqueue_cmd-Accepts t flag c n)

-- A sequence of calls and of steps of the FPGA, with the task ids that entered the queue and those
-- that left it.
pub data Run (t : Translate) (q : Que) : List ℕ → List ℕ → Que → Type 0 where
  start : Run t q [] [] q
  enqueues :
      {ins outs : List ℕ} {q1 q2 : Que} (flag : AddrCheck) (c c2 : DmacmdInfo)
      → Run t q ins outs q1
      → c.task_id ≢ 0
      → enqueue_cmd t flag q1 c ≡ (done, q2, c2)
      → Run t q (ins ++ c.task_id ∷ []) outs q2
  rejects :
      {ins outs : List ℕ} {q1 q2 : Que} (flag : AddrCheck) (c c2 : DmacmdInfo) (e : LibErrno)
      → Run t q ins outs q1
      → c.task_id ≢ 0
      → enqueue_cmd t flag q1 c ≡ (fail e, q2, c2)
      → Run t q ins outs q2
  completes :
      {ins outs : List ℕ} {q1 q2 : Que}
      → Run t q ins outs q1
      → Completes q1 q2
      → Run t q ins outs q2
  dequeues :
      {ins outs : List ℕ} {q1 q2 : Que} (w : Outside) (timeout : ℤ) (fuel n : ℕ) (c c2 : DmacmdInfo)
      → Run t q ins outs q1
      → ((n : ℕ) (q : Que) → Completes q (w.fpga n q))
      → dequeue_loop t w timeout fuel n q1 c ≡ some (done, q2, c2)
      → Run t q ins (outs ++ c2.result_task_id ∷ []) q2
  expires :
      {ins outs : List ℕ} {q1 q2 : Que} (w : Outside) (timeout : ℤ) (fuel n : ℕ) (c c2 : DmacmdInfo)
      (e : LibErrno)
      → Run t q ins outs q1
      → ((n : ℕ) (q : Que) → Completes q (w.fpga n q))
      → dequeue_loop t w timeout fuel n q1 c ≡ some (fail e, q2, c2)
      → Run t q ins outs q2

-- The queue holds commands whose task ids are what was in it and came in, less what went out.
abbrev pub Keeps : List ℕ → List ℕ → List ℕ → Que → Type 0
Keeps first ins outs q = (cmds : List Desc) × Holds q cmds × (first ++ ins ≡ outs ++ ids cmds)

ids-snoc : (xs : List Desc) (x : Desc) → ids (xs ++ x ∷ []) ≡ ids xs ++ x.task_id ∷ []
ids-snoc [] x = refl
ids-snoc (y ∷ ys) x = ap (λ rest. y.task_id ∷ rest) (ids-snoc ys x)

-- A command that joins, and one that leaves.
keeps_in :
    (first ins outs : List ℕ) (cmds : List Desc) (x : Desc) (i : ℕ)
    → first ++ ins ≡ outs ++ ids cmds
    → x.task_id ≡ i
    → first ++ (ins ++ i ∷ []) ≡ outs ++ ids (cmds ++ x ∷ [])
keeps_in first ins outs cmds x i e s =
    sym (append_assoc first ins (i ∷ []))
    ∙ ap (λ ys. ys ++ i ∷ []) e
    ∙ append_assoc outs (ids cmds) (i ∷ [])
    ∙ ap (λ ys. outs ++ ys) (ap (λ j. ids cmds ++ j ∷ []) (sym s) ∙ sym (ids-snoc cmds x))

keeps_out :
    (first ins outs queued rest : List ℕ) (i : ℕ)
    → first ++ ins ≡ outs ++ queued
    → queued ≡ i ∷ rest
    → first ++ ins ≡ (outs ++ i ∷ []) ++ rest
keeps_out first ins outs queued rest i e s =
    e ∙ ap (λ ys. outs ++ ys) s ∙ sym (append_assoc outs (i ∷ []) rest)

module _ (first ins outs : List ℕ) where
  Keeps-joined :
      (cmds : List Desc) (q1 q2 : Que) (c : DmacmdInfo) (r : LibRet)
      → first ++ ins ≡ outs ++ ids cmds
      → Accepts cmds q1 c q2 r
      → r ≡ done
      → Keeps first (ins ++ c.task_id ∷ []) outs q2
  Keeps-joined cmds q1 q2 c r e (joined x s h) k =
      (cmds ++ x ∷ [], h, keeps_in first ins outs cmds x _ e s)
  Keeps-joined cmds q1 q2 c r e (refused f s) k = absurd (ground arith)

  Keeps-refused :
      (cmds : List Desc) (q1 q2 : Que) (c : DmacmdInfo) (r : LibRet) {f : LibErrno}
      → Keeps first ins outs q1
      → Accepts cmds q1 c q2 r
      → r ≡ fail f
      → Keeps first ins outs q2
  Keeps-refused cmds q1 q2 c r keep (joined x s h) k = absurd (ground arith)
  Keeps-refused cmds q1 q2 c r keep (refused f s) k = subst (Keeps first ins outs) (sym s) keep

  Keeps-took :
      (cmds : List Desc) (q2 : Que) (c2 : DmacmdInfo) (r : LibRet)
      → first ++ ins ≡ outs ++ ids cmds
      → Dequeued (ids cmds) r q2 c2
      → r ≡ done
      → Keeps first ins (outs ++ c2.result_task_id ∷ []) q2
  Keeps-took cmds q2 c2 r e (took_first rest h s k) z =
      (rest, h, keeps_out first ins outs (ids cmds) (ids rest) c2.result_task_id e s)
  Keeps-took cmds q2 c2 r e (timed left h s k) z = absurd (ground arith)

  Keeps-timed :
      (cmds : List Desc) (q2 : Que) (c2 : DmacmdInfo) (r : LibRet) {f : LibErrno}
      → first ++ ins ≡ outs ++ ids cmds
      → Dequeued (ids cmds) r q2 c2
      → r ≡ fail f
      → Keeps first ins outs q2
  Keeps-timed cmds q2 c2 r e (took_first rest h s k) z = absurd (ground arith)
  Keeps-timed cmds q2 c2 r e (timed left h s k) z = (left, h, e ∙ ap (λ ys. outs ++ ys) s)

-- Over any sequence of enqueues of commands with a task id, refused enqueues, dequeues, timed out
-- dequeues and steps of the FPGA, in any order: the task ids leave the queue in the order in which
-- they came in, and none is lost or comes out twice. What was in the queue, followed by what came
-- in, is what went out followed by what is in the queue.
pub Run-Keeps :
    (t : Translate) (q q' : Que) (cmds : List Desc) (ins outs : List ℕ)
    → Holds q cmds
    → Run t q ins outs q'
    → (cmds' : List Desc) × Holds q' cmds' × (ids cmds ++ ins ≡ outs ++ ids cmds')
Run-Keeps t q q' cmds ins outs h start = (cmds, h, append-nil (ids cmds))
Run-Keeps t q q' cmds ins outs h (enqueues {ins = ins1} {q1 = q1} flag c c2 run n e) =
    let (cmds1, h1, k) = Run-Keeps t q q1 cmds ins1 outs h run in
    Keeps-joined (ids cmds) ins1 outs cmds1 q1 q' c _ k (Accepts-of q1 cmds1 h1 t flag c n e) refl
Run-Keeps t q q' cmds ins outs h (rejects {q1 = q1} flag c c2 f run n e) =
    let (cmds1, h1, k) = Run-Keeps t q q1 cmds ins outs h run in
    Keeps-refused (ids cmds) ins outs cmds1 q1 q' c _ (cmds1, h1, k)
      (Accepts-of q1 cmds1 h1 t flag c n e) refl
Run-Keeps t q q' cmds ins outs h (completes {q1 = q1} run f) =
    let (cmds1, h1, k) = Run-Keeps t q q1 cmds ins outs h run in
    let (cmds2, h2, s) = Completes-Holds q1 q' cmds1 h1 f in
    (cmds2, h2, k ∙ ap (λ ys. outs ++ ys) (sym s))
Run-Keeps t q q' cmds ins outs h (dequeues {outs = outs1} {q1 = q1} w timeout fuel n c c2 run f e) =
    let (cmds1, h1, k) = Run-Keeps t q q1 cmds ins outs1 h run in
    Keeps-took (ids cmds) ins outs1 cmds1 q' c2 _ k
      (dequeue_loop-Dequeued t w timeout f fuel n q1 cmds1 c done q' c2 h1 e) refl
Run-Keeps t q q' cmds ins outs h (expires {q1 = q1} w timeout fuel n c c2 f run g e) =
    let (cmds1, h1, k) = Run-Keeps t q q1 cmds ins outs h run in
    Keeps-timed (ids cmds) ins outs cmds1 q' c2 _ k
      (dequeue_loop-Dequeued t w timeout g fuel n q1 cmds1 c (fail f) q' c2 h1 e) refl
