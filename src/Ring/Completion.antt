-- ===== src/Ring/Completion.antt =====
-- The FPGA's part of the command queue. It is not under the repository: of it, only what
-- lib/libfpga/include/libdmacommon.h documents is used, that it turns CMD_READY into CMD_DONE.
use hardware_drivers.Prelude.{
  ℕ, zero, suc, ◌<◌, ◌≤◌, ◌≡◌, refl, sym, ◌∙◌, ap, ap₂, subst, arith, List, [], ◌∷◌, map, length,
  All, ◌⊎◌, inl, inr,
}
use hardware_drivers.Device.{Desc, Que, zero_desc}
use hardware_drivers.Ring.Command.{cmd_ready, cmd_done}
use hardware_drivers.Ring.Slots.{place}
use hardware_drivers.Ring.Fifo.{entry, IsLive, Holds, entry_past, IsLive-entry}

-- A descriptor that was ready is done; its status, length and address may be new.
abbrev pub IsFinished : Desc → Desc → Type 0
IsFinished x y = (x.op ≡ cmd_ready) × (y.op ≡ cmd_done) × (y.task_id ≡ x.task_id)

-- The FPGA finishes any number of ready descriptors and touches nothing else.
pub record Completes (q q' : Que) : Type 0 where
  pub same_size : q'.size ≡ q.size
  pub same_readhead : q'.readhead ≡ q.readhead
  pub same_writehead : q'.writehead ≡ q.writehead
  pub slot : (k : ℕ) → (q'.ring k ≡ q.ring k) ⊎ IsFinished (q.ring k) (q'.ring k)

-- The task ids of the commands, oldest first.
abbrev pub ids : List Desc → List ℕ
ids cmds = map (λ (d : Desc). d.task_id) cmds

-- The list of the first `n` values of a function.
abbrev seen : (ℕ → Desc) → ℕ → List Desc
seen f zero = []
seen f (suc n) = f 0 ∷ seen (λ k. f (suc k)) n

length-seen : (f : ℕ → Desc) (n : ℕ) → length (seen f n) ≡ n
length-seen f zero = refl
length-seen f (suc n) = omega (arith, length-seen (λ k. f (suc k)) n)

entry-seen : (f : ℕ → Desc) (n k : ℕ) → k < n → entry (seen f n) k ≡ f k
entry-seen f zero k h = absurd (omega arith)
entry-seen f (suc n) zero h = refl
entry-seen f (suc n) (suc k) h = entry-seen (λ k. f (suc k)) n k (omega arith)

IsLive-seen : (f : ℕ → Desc) (n : ℕ) → ((k : ℕ) → k < n → IsLive (f k)) → All IsLive (seen f n)
IsLive-seen f zero h = tt
IsLive-seen f (suc n) h =
    (h 0 (omega arith), IsLive-seen (λ k. f (suc k)) n (λ k b. h (suc k) (omega arith)))

ids-seen :
    (f : ℕ → Desc) (cmds : List Desc)
    → ((k : ℕ) → k < length cmds → (f k).task_id ≡ (entry cmds k).task_id)
    → ids (seen f (length cmds)) ≡ ids cmds
ids-seen f [] h = refl
ids-seen f (x ∷ xs) h =
    ap₂ (λ y ys. y ∷ ys) (h 0 (omega arith))
      (ids-seen (λ k. f (suc k)) xs (λ k b. h (suc k) (omega arith)))

lt_or_ge : (k n : ℕ) → (k < n) ⊎ (n ≤ k)
lt_or_ge k n = grind arith

-- One slot of the ring after the FPGA.
finished-IsLive : (x y : Desc) → (y ≡ x) ⊎ IsFinished x y → IsLive x → IsLive y
finished-IsLive x y (inl e) l = subst IsLive (sym e) l
finished-IsLive x y (inr (r, o, t)) (n, _) = (λ z. n (sym t ∙ z), inr o)

finished_id : (x y : Desc) → (y ≡ x) ⊎ IsFinished x y → y.task_id ≡ x.task_id
finished_id x y (inl e) = ap (λ d. d.task_id) e
finished_id x y (inr (r, o, t)) = t

finished_zero : (x y : Desc) → (y ≡ x) ⊎ IsFinished x y → x ≡ zero_desc → y ≡ zero_desc
finished_zero x y (inl e) z = e ∙ z
finished_zero x y (inr (r, o, t)) z = absurd (omega (arith, sym (ap (λ d. d.op) z) ∙ r))

module _ (q q' : Que) (cmds : List Desc) (h : Holds q cmds) (f : Completes q q') where
  abbrev at : ℕ → Desc
  at k = q'.ring (place q.size q.readhead k)

  at-IsFinished : (k : ℕ) → k < q.size → (at k ≡ entry cmds k) ⊎ IsFinished (entry cmds k) (at k)
  at-IsFinished k b =
      subst (λ x. (at k ≡ x) ⊎ IsFinished x (at k)) (h.slots k b)
        (f.slot (place q.size q.readhead k))

  at_slots : (k : ℕ) → k < q.size → at k ≡ entry (seen at (length cmds)) k
  at_slots k b = elim (lt_or_ge k (length cmds)) [
    | inl l ↦ sym (entry-seen at (length cmds) k l)
    | inr g ↦
        finished_zero (entry cmds k) (at k) (at-IsFinished k b) (entry_past cmds k g)
        ∙ sym (entry_past (seen at (length cmds)) k (omega (arith, length-seen at (length cmds))))
  ]

  -- After the FPGA the queue holds as many commands, with the same task ids in the same order.
  pub Completes-Holds : (cmds' : List Desc) × Holds q' cmds' × (ids cmds' ≡ ids cmds)
  Completes-Holds = (
    seen at (length cmds),
    record {
      sized = omega (arith, f.same_size, h.sized);
      head = omega (arith, f.same_size, f.same_readhead, h.head);
      fits = omega (arith, f.same_size, length-seen at (length cmds), h.fits);
      tail =
          rw (f.same_size, f.same_readhead, f.same_writehead, length-seen at (length cmds)) h.tail;
      slots = rw (f.same_size, f.same_readhead) at_slots;
      live = IsLive-seen at (length cmds) (λ k b.
          finished-IsLive (entry cmds k) (at k) (at-IsFinished k (omega (arith, h.fits)))
            (IsLive-entry cmds h.live k b));
    },
    ids-seen at cmds
        (λ k b. finished_id (entry cmds k) (at k) (at-IsFinished k (omega (arith, h.fits)))),
  )
