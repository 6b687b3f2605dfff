-- ===== src/Ring/Workers/Heads.antt =====
-- A process reads the head of the queue, or moves it.
use hardware_drivers.Prelude.{
  ℕ, ◌+◌, ◌^◌, ◌<◌, ◌≡◌, ◌≢◌, refl, sym, ◌∙◌, ap, subst, arith, some, update,
}
use hardware_drivers.Ring.Transfer.{next_head}
use hardware_drivers.Ring.Slots.{place, place_zero, next_head_lt}
use hardware_drivers.Ring.Workers.{looked, checked, claimed, World, slot_of, held, Timely}
use hardware_drivers.Ring.Workers.Sound.{IsSound, update_self, update_else, each-update, Fits}
use hardware_drivers.Ring.Workers.Follow.{same_some, apart_after}

-- One move of the head is one more for a descriptor that it has passed.
head_moved :
    (n r k a : ℕ) → k < n → a < n → n < 2 ^ 16 → r ≡ place n k a → next_head n r ≡ place n k (a + 1)
unfolding next_head
head_moved n r k a p q m e = rw e (ground (arith, p, q, m))

pub age_zero : (n r a : ℕ) → r < n → a < n → r ≡ place n r a → a ≡ 0
age_zero n r a p q e = ground (arith, e)

-- The head is read: nothing has been moved since.
pub read_head :
    (w : World) (i : ℕ)
    → IsSound w
    → IsSound
        (record w { worker = update w.worker i (looked w.que.writehead); age = update w.age i 0 })
read_head w i s = record {
  size = s.size;
  head = s.head;
  each =
      each-update (Fits w.que) w.worker w.age i (looked w.que.writehead) 0
        (record {
          within = λ k p. subst (λ m. m < w.que.size) (same_some p) s.head;
          behind = λ k p.
              same_some p
              ∙ sym (place_zero w.que.size k (subst (λ m. m < w.que.size) (same_some p) s.head));
          old = λ k p. cc;
          blank = λ k p. cc;
          clear = λ k p z. cc;
        })
        (λ j n. s.each j);
  apart =
      apart_after w s i (looked w.que.writehead) (update w.age i 0) (λ j k l n p p'. cc)
        (λ j l ij il n. rw (update_else w.age i j 0 ij, update_else w.age i l 0 il) n);
}

-- The head is moved: what was read of it before is older by one move.
pub move_head :
    (w : World) (i : ℕ)
    → IsSound w
    → Timely w
    → w.worker i ≡ checked w.que.writehead
    → IsSound (record w {
      que = record w.que { writehead = next_head w.que.size w.que.writehead };
      worker = update w.worker i (claimed w.que.writehead);
      age = update (λ j. w.age j + 1) i 1;
    })
move_head w i s t e = record {
  size = s.size;
  head = next_head_lt w.que.size w.que.writehead s.head s.size;
  each =
      each-update (Fits _) w.worker (λ j. w.age j + 1) i (claimed w.que.writehead) 1
        (record {
          within = λ k p. subst (λ m. m < w.que.size) (same_some p) s.head;
          behind = λ k p.
              head_moved w.que.size w.que.writehead k 0
                (subst (λ m. m < w.que.size) (same_some p) s.head) (omega (arith, s.head)) s.size
                (same_some p
                  ∙ sym
                      (place_zero w.que.size k (subst (λ m. m < w.que.size) (same_some p) s.head)));
          old = λ k p. omega arith;
          blank = λ k p.
              subst (λ m. (w.que.ring m).task_id ≡ 0) (same_some p)
                ((s.each i).clear w.que.writehead e now);
          clear = λ k p z. cc;
        })
        (λ j n. older j);
  apart =
      apart_after w s i (claimed w.que.writehead) (update (λ j. w.age j + 1) i 1)
        (λ j k l n p p' q. absurd (newest j l n p' q))
        (λ j l ij il n q. n (again_apart j l ij il q));
}
  where
    here : slot_of (w.worker i) ≡ some w.que.writehead
    here = ap slot_of e

    now : w.age i ≡ 0
    now =
        age_zero w.que.size w.que.writehead (w.age i) s.head (t i w.que.writehead here)
          ((s.each i).behind w.que.writehead here)

    aged_at : (j : ℕ) → i ≢ j → update (λ j. w.age j + 1) i 1 j ≡ w.age j + 1
    aged_at j n = update_else (λ j. w.age j + 1) i j 1 n

    newest :
        (j l : ℕ)
        → i ≢ j
        → held (w.worker j) ≡ some l
        → update (λ j. w.age j + 1) i 1 i ≡ update (λ j. w.age j + 1) i 1 j
        → ⊥
    newest j l n p q =
        let one : 1 ≡ w.age j + 1 =
          sym (update_self (λ j. w.age j + 1) i i 1 refl) ∙ q ∙ aged_at j n in
        omega (arith, one, (s.each j).old l p)

    again_apart :
        (j l : ℕ)
        → i ≢ j
        → i ≢ l
        → update (λ j. w.age j + 1) i 1 j ≡ update (λ j. w.age j + 1) i 1 l
        → w.age j ≡ w.age l
    again_apart j l ij il q =
        let e : w.age j + 1 ≡ w.age l + 1 = sym (aged_at j ij) ∙ q ∙ aged_at l il in
        omega (arith, e)

    older :
        (j : ℕ)
        → Fits
            (record w.que { writehead = next_head w.que.size w.que.writehead })
            (w.worker j)
            (w.age j + 1)
    older j = record {
      within = (s.each j).within;
      behind = λ k p.
          head_moved w.que.size w.que.writehead k (w.age j) ((s.each j).within k p) (t j k p) s.size
            ((s.each j).behind k p);
      old = λ k p. omega arith;
      blank = (s.each j).blank;
      clear = λ k p z. absurd (omega arith);
    }
