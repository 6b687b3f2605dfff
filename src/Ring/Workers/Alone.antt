-- ===== src/Ring/Workers/Alone.antt =====
-- The accesses of a process that is alone on the queue: they are `__fpga_enqueue` as one step, and
-- add one command to a ring that has room.
use hardware_drivers.Prelude.{
  ℕ, suc, ◌<◌, ◌≡◌, ◌≢◌, ◌⊎◌, refl, sym, subst, ◌∙◌, ap, arith, Bool, true, false, inl, inr,
  Bool-cases, ◌==◌, fun_ext, update, eq_refl, if◌then◌else◌, some, List, [], ◌∷◌, ◌++◌, length,
  dec_lt,
}
use hardware_drivers.Device.{Desc, Que, zero_desc}
use hardware_drivers.Ring.Command.{cmd_ready, DmacmdInfo, LibRet, done, fail, enqueue_quefull}
use hardware_drivers.Ring.Transfer.{next_head, fill_desc, enqueue_desc}
use hardware_drivers.Ring.Fifo.{Holds, enqueue_desc-Holds, enqueue_desc_full}
use hardware_drivers.Ring.Workers.{
  Worker, begin, finished, full, access, alone, with_address, with_desc, looked, checked, claimed,
  Effect, plain, moves, reads,
}

-- What the caller of a finished process gets.
abbrev pub outcome : DmacmdInfo → Que × Worker → LibRet × Que × DmacmdInfo
outcome c (q, finished k) = (done, q, record c { desc_addr = some k })
outcome c (q, x) = (fail enqueue_quefull, q, c)

one_of_three :
    (b : Bool) (x y z o : Desc)
    → (if b then z else if b then y else if b then x else o) ≡ (if b then z else o)
one_of_three true x y z o = refl
one_of_three false x y z o = refl

update_three :
    (f : ℕ → Desc) (k : ℕ) (x y z : Desc) → update (update (update f k x) k y) k z ≡ update f k z
update_three f k x y z = fun_ext (λ j. one_of_three (k == j) x y z (f j))

alone_then :
    (n : ℕ) (c : DmacmdInfo) (dst_pa64 : ℕ) (q : Que) (x : Worker) {q' : Que} {x' : Worker}
    {f : Effect}
    → access c dst_pa64 q x ≡ (q', x', f)
    → alone (suc n) c dst_pa64 q x ≡ alone n c dst_pa64 q' x'
unfolding alone
alone_then n c dst_pa64 q x e = rw e refl

begins :
    (c : DmacmdInfo) (dst_pa64 : ℕ) (q : Que)
    → access c dst_pa64 q begin ≡ (q, looked q.writehead, reads)
unfolding access
begins c dst_pa64 q = refl

looked_free :
    (c : DmacmdInfo) (dst_pa64 : ℕ) (q : Que) (k : ℕ)
    → ((q.ring k).task_id == 0) ≡ true
    → access c dst_pa64 q (looked k) ≡ (q, checked k, plain)
unfolding access
looked_free c dst_pa64 q k e = rw e refl

checked_here :
    (c : DmacmdInfo) (dst_pa64 : ℕ) (q : Que)
    → access c dst_pa64 q (checked q.writehead)
      ≡ (record q { writehead = next_head q.size q.writehead }, claimed q.writehead, moves)
unfolding access
checked_here c dst_pa64 q = rw (eq_refl q.writehead) refl

-- The three writes to the descriptor leave what one write of all fields leaves.
three_writes :
    (c : DmacmdInfo) (dst_pa64 : ℕ) (q : Que) (k : ℕ)
    → alone 3 c dst_pa64 q (claimed k)
      ≡ (with_desc q k (fill_desc c dst_pa64 (q.ring k)), finished k)
unfolding alone access fill_desc
three_writes c dst_pa64 q k =
    let x = with_address c dst_pa64 (q.ring k) in
    let y : Desc = record x { task_id = c.task_id } in
    let z : Desc = record y { op = cmd_ready } in
    rw (eq_refl k) (ap (λ r. (record q { ring = r }, finished k)) (update_three q.ring k x y z))

alone_free :
    (c : DmacmdInfo) (dst_pa64 : ℕ) (q : Que)
    → ((q.ring q.writehead).task_id == 0) ≡ true
    → alone 6 c dst_pa64 q begin ≡ (
      with_desc
          (record q { writehead = next_head q.size q.writehead })
          q.writehead
          (fill_desc c dst_pa64 (q.ring q.writehead)),
      finished q.writehead,
    )
alone_free c dst_pa64 q e =
    alone_then 5 c dst_pa64 q begin (begins c dst_pa64 q)
    ∙ alone_then 4 c dst_pa64 q (looked q.writehead) (looked_free c dst_pa64 q q.writehead e)
    ∙ alone_then 3 c dst_pa64 q (checked q.writehead) (checked_here c dst_pa64 q)
    ∙ three_writes c dst_pa64 (record q { writehead = next_head q.size q.writehead }) q.writehead

alone_full :
    (c : DmacmdInfo) (dst_pa64 : ℕ) (q : Que)
    → ((q.ring q.writehead).task_id == 0) ≡ false
    → alone 6 c dst_pa64 q begin ≡ (q, full)
unfolding alone access
alone_full c dst_pa64 q e = rw e refl

-- Six accesses of a process that begins, with no access of another process in between, are the
-- rest of `__fpga_enqueue` as one step: the same result, queue and command.
alone-enqueue_desc :
    (c : DmacmdInfo) (dst_pa64 : ℕ) (q : Que)
    → outcome c (alone 6 c dst_pa64 q begin) ≡ enqueue_desc q c dst_pa64
unfolding enqueue_desc
alone-enqueue_desc c dst_pa64 q = elim (Bool-cases ((q.ring q.writehead).task_id == 0)) [
  | inl e ↦ rw (alone_free c dst_pa64 q e, e) refl
  | inr n ↦ rw (alone_full c dst_pa64 q n, n) refl
]

-- The descriptor of a command.
abbrev pub written : DmacmdInfo → ℕ → Desc
written c dst_pa64 = record {
  task_id = c.task_id;
  op = 1;
  status = 0;
  len = if dst_pa64 == 0 then 0 else c.data_len;
  addr = dst_pa64;
}

written_lem : (c : DmacmdInfo) (dst_pa64 : ℕ) → fill_desc c dst_pa64 zero_desc ≡ written c dst_pa64
unfolding fill_desc
written_lem c dst_pa64 = refl

finished_of :
    (c : DmacmdInfo) (x : Que × Worker) (k : ℕ) (q : Que) (c' : DmacmdInfo)
    → outcome c x ≡ (done, q, c')
    → c' ≡ record c { desc_addr = some k }
    → (x.0 ≡ q) × (x.1 ≡ finished k)
finished_of c (r, finished j) k q c' e f = (ground arith, ground arith)
finished_of c (r, x) k q c' e f = absurd (ground arith)

-- Six accesses of a process with a command with a task id, while no other process makes any, on a
-- ring that holds a list of commands: if there is room, the process ends at the descriptor of the
-- write head and the ring holds the list with the command at its end; if it is full, the process
-- gives up and the ring is as it was.
pub alone-Holds :
    (c : DmacmdInfo) (dst_pa64 : ℕ) (q : Que) (cmds : List Desc)
    → Holds q cmds
    → c.task_id ≢ 0
    → ((length cmds < q.size)
        × ((alone 6 c dst_pa64 q begin).1 ≡ finished q.writehead)
        × Holds (alone 6 c dst_pa64 q begin).0 (cmds ++ written c dst_pa64 ∷ []))
      ⊎ ((length cmds ≡ q.size) × (alone 6 c dst_pa64 q begin ≡ (q, full)))
alone-Holds c dst_pa64 q cmds h n = elim (dec_lt (length cmds) q.size) [
  | yes l ↦
      let (q', p, joined) = enqueue_desc-Holds q cmds h c dst_pa64 n l in
      let (same, end) =
        finished_of c (alone 6 c dst_pa64 q begin) q.writehead q' _
          (alone-enqueue_desc c dst_pa64 q ∙ p) refl in
      inl (
        l,
        end,
        subst (λ x. Holds (alone 6 c dst_pa64 q begin).0 (cmds ++ x ∷ [])) (written_lem c dst_pa64)
            (subst (λ x. Holds x (cmds ++ fill_desc c dst_pa64 zero_desc ∷ [])) (sym same) joined),
      )
  | no m ↦
      let l : length cmds ≡ q.size = omega (arith, h.fits, m) in
      let p = enqueue_desc_full q cmds h c dst_pa64 l in
      elim (Bool-cases ((q.ring q.writehead).task_id == 0)) [
        | inr f ↦ inr (l, alone_full c dst_pa64 q f)
        | inl e ↦ absurd (
            ground (
              arith,
              ap (outcome c) (alone_free c dst_pa64 q e),
              alone-enqueue_desc c dst_pa64 q,
              p,
            ))
      ]
]
