-- ===== src/Ring/Workers/Apart.antt =====
-- The processes on a queue stay apart, whatever the order of their accesses is.
use hardware_drivers.Prelude.{
  ℕ, ◌^◌, ◌<◌, ◌≡◌, ◌≢◌, refl, sym, ◌∙◌, ap, subst, true, false, inl, inr, Option, none, some,
  Bool-cases, ◌==◌, update,
}
use hardware_drivers.Device.{Que, zero_desc}
use hardware_drivers.Ring.Command.{DmacmdInfo, Translate, cmd_done}
use hardware_drivers.Ring.Transfer.{next_head, take_desc, store_result}
use hardware_drivers.Ring.Workers.{
  begin, checked, World, work, call, finish, Step, works, calls, finishes, dequeues, slot_of, held,
  Timely, Run, stop, step,
}
use hardware_drivers.Ring.Workers.Sound.{unnamed, IsSound, held-slot_of, unnamed-held, ages_apart}
use hardware_drivers.Ring.Workers.Follow.{Alike, Alike-refl, Alike-with_desc, Fits-Alike, follow}
use hardware_drivers.Ring.Workers.Heads.{age_zero}
use hardware_drivers.Ring.Workers.Accesses.{access-IsSound, none-some, ends}

-- A change of the queue that leaves its head, size and task ids.
Alike-IsSound : (w : World) (q : Que) → IsSound w → Alike w.que q → IsSound (record w { que = q })
Alike-IsSound w q s a = record {
  size = rw a.size s.size;
  head = rw (a.size, a.head) s.head;
  each = λ j. Fits-Alike a (s.each j);
  apart = s.apart;
}

-- A dequeue empties one descriptor and moves the other head.
abbrev taken : Que → Que
taken q = record q {
  readhead = next_head q.size q.readhead;
  ring = update q.ring q.readhead zero_desc;
}

take_some :
    (t : Translate) (q : Que) (c : DmacmdInfo)
    → ((q.ring q.readhead).op == cmd_done) ≡ true
    → take_desc t q c ≡ some (taken q, store_result t (q.ring q.readhead) c)
unfolding take_desc
take_some t q c d = rw d refl

take_none :
    (t : Translate) (q : Que) (c : DmacmdInfo)
    → ((q.ring q.readhead).op == cmd_done) ≡ false
    → take_desc t q c ≡ none
unfolding take_desc
take_none t q c d = rw d refl

que_of : Que → Option (Que × DmacmdInfo) → Que
que_of q none = q
que_of q (some (r, c)) = r

taken-Alike :
    (t : Translate) (q : Que) (c : DmacmdInfo) {q' : Que} {c' : DmacmdInfo}
    → take_desc t q c ≡ some (q', c')
    → Alike q q'
unfolding que_of
taken-Alike t q c e = elim (Bool-cases ((q.ring q.readhead).op == cmd_done)) [
  | inl d ↦ subst (Alike q) (ap (que_of q) (sym (take_some t q c d) ∙ e)) (record {
    size = refl;
    head = refl;
    task = (Alike-with_desc q q.readhead zero_desc (λ z. refl)).task;
  })
  | inr n ↦ subst (Alike q) (ap (que_of q) (sym (take_none t q c n) ∙ e)) (Alike-refl q)
]

called : (w : World) (i : ℕ) (c : DmacmdInfo) (p : ℕ) → IsSound w → IsSound (call w i c p)
called w i c p s =
    let s' = follow w s i begin w.que (Alike-refl w.que) (ends w.que (w.worker i) begin refl) in
    record { size = s'.size; head = s'.head; each = s'.each; apart = s'.apart }

pub Step-IsSound : {w v : World} → IsSound w → Timely w → Step w v → IsSound v
unfolding work
Step-IsSound {w} s t (works i) =
    access-IsSound w i s t (w.command i) (w.dst_pa64 i) (w.worker i) refl
Step-IsSound {w} s t (calls i c p out n) = called w i c p s
Step-IsSound {w} s t (finishes k r) =
    Alike-IsSound w (finish w.que k) s (Alike-with_desc w.que k _ (λ z. z))
Step-IsSound {w} s t (dequeues tr c e) = Alike-IsSound w _ s (taken-Alike tr w.que c e)

-- The processes before their first access.
pub record IsFresh (w : World) : Type 0 where
  pub size : w.que.size < 2 ^ 16
  pub head : w.que.writehead < w.que.size
  pub out : (i : ℕ) → slot_of (w.worker i) ≡ none

fresh-IsSound : {w : World} → IsFresh w → IsSound w
fresh-IsSound {w} f = record {
  size = f.size;
  head = f.head;
  each = λ i.
      let no : (k : ℕ) → slot_of (w.worker i) ≡ some k → ⊥ =
        λ k p. absurd (none-some (sym (f.out i) ∙ p)) in
      record {
        within = λ k p. absurd (no k p);
        behind = λ k p. absurd (no k p);
        old = λ k p. absurd (no k (held-slot_of (w.worker i) k p));
        blank = λ k p. absurd (no k (held-slot_of (w.worker i) k (unnamed-held (w.worker i) k p)));
        clear = λ k p z. absurd (no k (ap slot_of p));
      };
  apart = λ i j k l n p q. absurd (none-some (sym (f.out i) ∙ held-slot_of (w.worker i) k p));
}

Run-IsSound : {w v : World} → IsFresh w → Run w v → IsSound v × Timely v
Run-IsSound f stop = (fresh-IsSound f, λ i k p. absurd (none-some (sym (f.out i) ∙ p)))
Run-IsSound f (step r s t) =
    let (sound, timely) = Run-IsSound f r in (Step-IsSound sound timely s, t)

-- What the code relies on when it writes a descriptor: no other process writes it, it is free until
-- its task id is written, and the head is only moved past a descriptor that is free.
pub record Exclusive (w : World) : Type 0 where
  pub alone : (i j k : ℕ) → i ≢ j → held (w.worker i) ≡ some k → held (w.worker j) ≢ some k
  pub free : (i k : ℕ) → unnamed (w.worker i) ≡ some k → (w.que.ring k).task_id ≡ 0
  pub next_free :
      (i : ℕ) → w.worker i ≡ checked w.que.writehead → (w.que.ring w.que.writehead).task_id ≡ 0

-- Any number of processes in `__fpga_enqueue` on one command queue of less than 65536 descriptors,
-- from a state where none has read the head, in any order of their accesses, of completions by the
-- FPGA and of dequeues, as long as the head does not go once around the ring while a process is in
-- the middle of its call: no two processes ever write the same descriptor, each descriptor is free
-- until its process has written the task id, and the head is only moved past a free descriptor.
pub Run-Exclusive : (w v : World) → IsFresh w → Run w v → Exclusive v
Run-Exclusive w v f r =
    let (s, t) = Run-IsSound f r in
    record {
      alone = λ i j k n p q.
          ages_apart s t i j k k (held-slot_of (v.worker i) k p) (held-slot_of (v.worker j) k q)
            (s.apart i j k k n p q) refl;
      free = λ i k p. (s.each i).blank k p;
      next_free = λ i e. (s.each i).clear v.que.writehead e (zero_of i e);
    }
  where
    zero_of : (i : ℕ) → v.worker i ≡ checked v.que.writehead → v.age i ≡ 0
    zero_of i e =
        let (s, t) = Run-IsSound f r in
        age_zero v.que.size v.que.writehead (v.age i) s.head (t i v.que.writehead (ap slot_of e))
          ((s.each i).behind v.que.writehead (ap slot_of e))
