-- ===== src/Ring/Workers/Accesses.antt =====
-- Every access of a process keeps the processes on the queue sound.
use hardware_drivers.Prelude.{
  ℕ, ◌≡◌, ◌≢◌, refl, sym, ◌∙◌, ap, subst, arith, true, inl, inr, none, some, Bool-cases, ◌==◌,
  update,
}
use hardware_drivers.Device.{Que}
use hardware_drivers.Ring.Command.{DmacmdInfo, cmd_ready}
use hardware_drivers.Ring.Workers.{
  Worker, begin, looked, checked, claimed, addressed, named, finished, full, with_desc,
  with_address, access, World, after_access, slot_of, held, Timely,
}
use hardware_drivers.Ring.Workers.Sound.{
  unnamed, Fits, IsSound, update_else, held-slot_of, unnamed-held, ages_apart,
}
use hardware_drivers.Ring.Workers.Follow.{
  Alike, Alike-refl, Alike-with_desc, Follows, kept_ages, follow, same_some,
}
use hardware_drivers.Ring.Workers.Heads.{read_head, move_head}

-- The task id is written to a descriptor that no other process has.
module _ (w : World) (i k task_id : ℕ) (s : IsSound w) (t : Timely w)
    (e : w.worker i ≡ addressed k) where
  mine : held (w.worker i) ≡ some k
  mine = ap held e

  abbrev named_que : Que
  named_que = with_desc w.que k (record (w.que.ring k) { task_id = task_id })

  other_task : (l : ℕ) → k ≢ l → (w.que.ring l).task_id ≡ 0 → (named_que.ring l).task_id ≡ 0
  other_task l n z =
      rw (update_else w.que.ring k l (record (w.que.ring k) { task_id = task_id }) n) z

  not_blank : (j l : ℕ) → i ≢ j → unnamed (w.worker j) ≡ some l → k ≢ l
  not_blank j l n p =
      let h = unnamed-held (w.worker j) l p in
      ages_apart s t i j k l (held-slot_of (w.worker i) k mine) (held-slot_of (w.worker j) l h)
        (s.apart i j k l n mine h)

  not_clear : (j l : ℕ) → w.worker j ≡ checked l → w.age j ≡ 0 → k ≢ l
  not_clear j l p z =
      ages_apart s t i j k l (held-slot_of (w.worker i) k mine) (ap slot_of p)
        (λ q. omega (arith, q, z, (s.each i).old k mine))

  other-Fits : (j : ℕ) → i ≢ j → Fits named_que (w.worker j) (w.age j)
  other-Fits j n =
      let f = s.each j in
      record {
        within = f.within;
        behind = f.behind;
        old = f.old;
        blank = λ l p. other_task l (not_blank j l n p) (f.blank l p);
        clear = λ l p z. other_task l (not_clear j l p z) (f.clear l p z);
      }

  own-Fits : Fits named_que (named k) (w.age i)
  own-Fits =
      let f = s.each i in
      record {
        within = λ l p. f.within l (ap slot_of e ∙ p);
        behind = λ l p. f.behind l (ap slot_of e ∙ p);
        old = λ l p. f.old l (ap held e ∙ p);
        blank = λ l p. cc;
        clear = λ l p z. cc;
      }

  name_desc : IsSound (record w { que = named_que; worker = update w.worker i (named k) })
  name_desc =
      kept_ages w s i (named k) named_que refl refl (λ l p. ap held e ∙ p) own-Fits other-Fits

-- A process that goes on from one place to another that is no more.
follows :
    (w : World) (i : ℕ) {x : Worker} (x' : Worker) (q' : Que)
    → IsSound w
    → w.worker i ≡ x
    → Alike w.que q'
    → Follows w.que x x'
    → IsSound (record w { que = q'; worker = update w.worker i x' })
follows w i x' q' s e a f = follow w s i x' q' a (subst (λ y. Follows w.que y x') (sym e) f)

pub none-some : {k : ℕ} → none ≡ some k → ⊥
none-some e = cc

-- Nothing is read, written or held in the next place.
pub ends : (q : Que) (x x' : Worker) → slot_of x' ≡ none → Follows q x x'
ends q x x' e = record {
  slot = λ k p. absurd (no k p);
  holds = λ k p. absurd (no k (held-slot_of x' k p));
  names = λ k p. absurd (no k (held-slot_of x' k (unnamed-held x' k p)));
  free = λ k p. absurd (no k (ap slot_of p));
}
  where
    no : (k : ℕ) → slot_of x' ≡ some k → ⊥
    no k p = cc

sees : (q : Que) (k : ℕ) → (q.ring k).task_id ≡ 0 → Follows q (looked k) (checked k)
sees q k z = record {
  slot = λ l p. p;
  holds = λ l p. cc;
  names = λ l p. cc;
  free = λ l p. inr (subst (λ m. (q.ring m).task_id ≡ 0) (same_some (ap slot_of p)) z);
}

addresses : (q : Que) (k : ℕ) → Follows q (claimed k) (addressed k)
addresses q k = record { slot = λ l p. p; holds = λ l p. p; names = λ l p. p; free = λ l p. cc }

zero_task : (n : ℕ) → (n == 0) ≡ true → n ≡ 0
zero_task n h = ground (arith, h)

same_head : (a b : ℕ) → (a == b) ≡ true → a ≡ b
same_head a b h = ground (arith, h)

module _ (w : World) (i : ℕ) (s : IsSound w) (t : Timely w) (c : DmacmdInfo) (dst_pa64 : ℕ) where
  look-IsSound :
      (k : ℕ)
      → w.worker i ≡ looked k
      → IsSound (after_access w i (access c dst_pa64 w.que (looked k)))
  unfolding access
  look-IsSound k e = elim (Bool-cases ((w.que.ring k).task_id == 0)) [
    | inl z ↦ rw z (
        follows w i (checked k) w.que s e (Alike-refl w.que)
          (sees w.que k (zero_task (w.que.ring k).task_id z)))
    | inr n ↦ rw n (follows w i full w.que s e (Alike-refl w.que) (ends w.que (looked k) full refl))
  ]

  move-IsSound :
      (k : ℕ)
      → w.worker i ≡ checked k
      → IsSound (after_access w i (access c dst_pa64 w.que (checked k)))
  unfolding access
  move-IsSound k e = elim (Bool-cases (w.que.writehead == k)) [
    | inl h ↦
        let now = same_head w.que.writehead k h in
        rw (h, sym now) (move_head w i s t (e ∙ ap checked (sym now)))
    | inr n ↦
        rw n (follows w i begin w.que s e (Alike-refl w.que) (ends w.que (checked k) begin refl))
  ]

  pub access-IsSound :
      (x : Worker) → w.worker i ≡ x → IsSound (after_access w i (access c dst_pa64 w.que x))
  unfolding access
  access-IsSound begin e = read_head w i s
  access-IsSound (looked k) e = look-IsSound k e
  access-IsSound (checked k) e = move-IsSound k e
  access-IsSound (claimed k) e =
      follows w i (addressed k) (with_desc w.que k (with_address c dst_pa64 (w.que.ring k))) s e
        (Alike-with_desc w.que k _ (λ z. z)) (addresses w.que k)
  access-IsSound (addressed k) e = name_desc w i k c.task_id s t e
  access-IsSound (named k) e =
      follows w i (finished k) (with_desc w.que k (record (w.que.ring k) { op = cmd_ready })) s e
        (Alike-with_desc w.que k _ (λ z. z)) (ends w.que (named k) (finished k) refl)
  access-IsSound (finished k) e =
      follows w i (finished k) w.que s e (Alike-refl w.que)
        (ends w.que (finished k) (finished k) refl)
  access-IsSound full e = follows w i full w.que s e (Alike-refl w.que) (ends w.que full full refl)
