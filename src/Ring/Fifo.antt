-- ===== src/Ring/Fifo.antt =====
-- The command queue is a bounded first-in first-out queue: what its ring holds as a list, oldest
-- command first, and each operation on that list.
use hardware_drivers.Prelude.{
  ℕ, zero, suc, ◌^◌, ◌<◌, ◌≤◌, ◌≡◌, ◌≢◌, refl, sym, ◌∙◌, ap, arith, if◌then◌else◌, ◌==◌, List, [],
  ◌∷◌, ◌++◌, length, All, ◌⊎◌, inl, none, some, update, ℕ_discrete, length-append,
}
use hardware_drivers.Device.{Desc, Que, zero_desc}
use hardware_drivers.Ring.Command.{
  DmacmdInfo, done, fail, enqueue_quefull, Translate, cmd_ready, cmd_done,
}
use hardware_drivers.Ring.Transfer.{next_head, enqueue_desc, fill_desc, take_desc, store_result}
use hardware_drivers.Ring.Slots.{
  place, place_ne, place_zero, next_head_lt, next_head-place, place-next_head,
}

-- The descriptor of the entry `k` of a list, zeros past its end.
abbrev pub entry : List Desc → ℕ → Desc
entry [] k = zero_desc
entry (x ∷ xs) zero = x
entry (x ∷ xs) (suc k) = entry xs k

-- A command that the queue holds: it has a task id, and the FPGA has it to do or has done it.
abbrev pub IsLive : Desc → Type 0
IsLive d = (d.task_id ≢ 0) × ((d.op ≡ cmd_ready) ⊎ (d.op ≡ cmd_done))

-- The ring `q` holds the commands `cmds`: they stand in the slots from the read head on, the write
-- head comes after them, and the other slots are zeros.
pub record Holds (q : Que) (cmds : List Desc) : Type 0 where
  pub sized : q.size < 2 ^ 16
  pub head : q.readhead < q.size
  pub fits : length cmds ≤ q.size
  pub tail : q.writehead ≡ place q.size q.readhead (length cmds)
  pub slots : (k : ℕ) → k < q.size → q.ring (place q.size q.readhead k) ≡ entry cmds k
  pub live : All IsLive cmds

IsLive-snoc : (xs : List Desc) (x : Desc) → All IsLive xs → IsLive x → All IsLive (xs ++ x ∷ [])
IsLive-snoc [] x a p = (p, tt)
IsLive-snoc (y ∷ ys) x (b, a) p = (b, IsLive-snoc ys x a p)

pub IsLive-entry : (xs : List Desc) → All IsLive xs → (k : ℕ) → k < length xs → IsLive (entry xs k)
IsLive-entry [] a k h = absurd (omega arith)
IsLive-entry (x ∷ xs) (p, a) zero h = p
IsLive-entry (x ∷ xs) (p, a) (suc k) h = IsLive-entry xs a k (omega arith)

pub entry_past : (xs : List Desc) (k : ℕ) → length xs ≤ k → entry xs k ≡ zero_desc
entry_past [] k h = refl
entry_past (x ∷ xs) zero h = absurd (omega arith)
entry_past (x ∷ xs) (suc k) h = entry_past xs k (omega arith)

entry-snoc :
    (xs : List Desc) (x : Desc) (k : ℕ)
    → entry (xs ++ x ∷ []) k ≡ (if k == length xs then x else entry xs k)
entry-snoc [] x zero = refl
entry-snoc [] x (suc k) = ground arith
entry-snoc (y ∷ ys) x zero = ground arith
entry-snoc (y ∷ ys) x (suc k) = ground (arith, entry-snoc ys x k)

module _ (q : Que) (cmds : List Desc) (h : Holds q cmds) where
  pub at_head : q.ring q.readhead ≡ entry cmds 0
  at_head =
      ap q.ring (sym (place_zero q.size q.readhead h.head)) ∙ h.slots 0 (omega (arith, h.head))

  -- The slot at the write head.
  at_tail_free : length cmds < q.size → q.ring q.writehead ≡ zero_desc
  at_tail_free l = ap q.ring h.tail ∙ h.slots (length cmds) l ∙ entry_past cmds _ (omega arith)

  tail_of_full : length cmds ≡ q.size → q.writehead ≡ q.readhead
  tail_of_full l = ground (arith, h.tail, h.head)

  at_tail_used : length cmds ≡ q.size → (q.ring q.writehead).task_id ≢ 0
  at_tail_used l =
      rw (ap q.ring (tail_of_full l) ∙ at_head)
        (IsLive-entry cmds h.live 0 (omega (arith, h.head))).0

  -- A full queue refuses a command and stays as it is.
  pub enqueue_desc_full :
      (c : DmacmdInfo) (pa : ℕ)
      → length cmds ≡ q.size
      → enqueue_desc q c pa ≡ (fail enqueue_quefull, q, c)
  unfolding enqueue_desc
  enqueue_desc_full c pa l = ground (arith, at_tail_used l)

  -- The ring after a command is written at the write head.
  slots_of_enqueue :
      (x : Desc) (k : ℕ)
      → length cmds < q.size
      → k < q.size
      → update q.ring q.writehead x (place q.size q.readhead k) ≡ entry (cmds ++ x ∷ []) k
  slots_of_enqueue x k l b = elim (ℕ_discrete k (length cmds)) [
    | yes e ↦ ground (arith, h.tail, entry-snoc cmds x k)
    | no n ↦ ground (
      arith,
      h.tail,
      entry-snoc cmds x k,
      h.slots k b,
      place_ne q.size q.readhead k (length cmds) h.head b l n,
    )
  ]

  tail_of_enqueue :
      (x : Desc)
      → length cmds < q.size
      → next_head q.size q.writehead ≡ place q.size q.readhead (length (cmds ++ x ∷ []))
  tail_of_enqueue x l = ground (
    arith,
    h.tail,
    length-append cmds (x ∷ []),
    next_head-place q.size q.readhead (length cmds) h.head l h.sized,
  )

  -- A command with a task id that finds room joins the end of the queue.
  pub enqueue_desc-Holds :
      (c : DmacmdInfo) (pa : ℕ)
      → c.task_id ≢ 0
      → length cmds < q.size
      → (q' : Que) × (enqueue_desc q c pa ≡ (done, q', record c { desc_addr = some q.writehead }))
        × Holds q' (cmds ++ fill_desc c pa zero_desc ∷ [])
  unfolding enqueue_desc fill_desc
  enqueue_desc-Holds c pa n l =
      let x = fill_desc c pa zero_desc in
      (
        record q { writehead = next_head q.size q.writehead; ring = update q.ring q.writehead x },
        rw (at_tail_free l) refl,
        record {
          sized = h.sized;
          head = h.head;
          fits = omega (arith, length-append cmds (x ∷ []));
          tail = tail_of_enqueue x l;
          slots = λ k b. slots_of_enqueue x k l b;
          live = IsLive-snoc cmds x h.live (n, inl refl);
        },
      )

  -- A queue whose oldest command is not done, or that has none, gives nothing.
  pub take_desc-none :
      (t : Translate) (c : DmacmdInfo) → (entry cmds 0).op ≢ cmd_done → take_desc t q c ≡ none
  unfolding take_desc
  take_desc-none t c n = rw at_head (ground (arith, n))

-- A queue with an oldest command.
module _ (q : Que) (x : Desc) (cmds : List Desc) (h : Holds q (x ∷ cmds)) where
  slots_of_take :
      (k : ℕ)
      → k < q.size
      → update q.ring q.readhead zero_desc (place q.size (next_head q.size q.readhead) k)
        ≡ entry cmds k
  slots_of_take k b = elim (ℕ_discrete (suc k) q.size) [
    | yes e ↦ ground (
      arith,
      place-next_head q.size q.readhead k h.head (omega arith) h.sized,
      entry_past cmds k (omega (arith, h.fits)),
    )
    | no n ↦ ground (
      arith,
      place-next_head q.size q.readhead k h.head (omega arith) h.sized,
      h.slots (suc k) (omega arith),
      h.head,
    )
  ]

  -- A look at a queue whose oldest command is done takes it: the caller gets its result, and the
  -- queue holds the others.
  pub take_desc-Holds :
      (t : Translate) (c : DmacmdInfo)
      → x.op ≡ cmd_done
      → (q' : Que) × (take_desc t q c ≡ some (q', store_result t x c)) × Holds q' cmds
  unfolding take_desc
  take_desc-Holds t c e = (
    record q { readhead = next_head q.size q.readhead; ring = update q.ring q.readhead zero_desc },
    rw (at_head q (x ∷ cmds) h, e) refl,
    record {
      sized = h.sized;
      head = next_head_lt q.size q.readhead h.head h.sized;
      fits = omega (arith, h.fits);
      tail = h.tail ∙ sym (place-next_head q.size q.readhead (length cmds) h.head h.fits h.sized);
      slots = slots_of_take;
      live = h.live.1;
    },
  )
