-- ===== src/Ring/Workers/Follow.antt =====
-- A process goes on without reading or moving the head, and the others stay where they are.
use hardware_drivers.Prelude.{
  ℕ, ◌≡◌, ◌≢◌, refl, sym, ◌∙◌, ap, subst, ◌⊎◌, inl, inr, none, some, ℕ_discrete, update,
}
use hardware_drivers.Device.{Desc, Que}
use hardware_drivers.Ring.Workers.{Worker, checked, with_desc, World, slot_of, held}
use hardware_drivers.Ring.Workers.Sound.{
  unnamed, IsSound, update_self, update_else, each-update, Fits,
}

-- A queue with the same head, size and task ids, but for task ids that have become 0.
pub record Alike (q q' : Que) : Type 0 where
  pub size : q'.size ≡ q.size
  pub head : q'.writehead ≡ q.writehead
  pub task : (k : ℕ) → (q.ring k).task_id ≡ 0 → (q'.ring k).task_id ≡ 0

pub Alike-refl : (q : Que) → Alike q q
Alike-refl q = record { size = refl; head = refl; task = λ k z. z }

-- A write to one descriptor that keeps its task id, or makes it 0.
pub Alike-with_desc :
    (q : Que) (k : ℕ) (d : Desc)
    → ((q.ring k).task_id ≡ 0 → d.task_id ≡ 0)
    → Alike q (with_desc q k d)
Alike-with_desc q k d t = record {
  size = refl;
  head = refl;
  task = λ l z. elim (ℕ_discrete k l) [
    | yes e ↦ rw (update_self q.ring k l d e) (t (subst (λ m. (q.ring m).task_id ≡ 0) (sym e) z))
    | no n ↦ rw (update_else q.ring k l d n) z
  ];
}

pub Fits-Alike : {q q' : Que} {x : Worker} {a : ℕ} → Alike q q' → Fits q x a → Fits q' x a
Fits-Alike l f = record {
  within = λ k p. rw l.size (f.within k p);
  behind = λ k p. rw (l.size, l.head) (f.behind k p);
  old = f.old;
  blank = λ k p. l.task k (f.blank k p);
  clear = λ k p z. l.task k (f.clear k p z);
}

-- A worker that goes on without moving the head and without more in its hands.
pub record Follows (q : Que) (x x' : Worker) : Type 0 where
  pub slot : (k : ℕ) → slot_of x' ≡ some k → slot_of x ≡ some k
  pub holds : (k : ℕ) → held x' ≡ some k → held x ≡ some k
  pub names : (k : ℕ) → unnamed x' ≡ some k → unnamed x ≡ some k
  pub free : (k : ℕ) → x' ≡ checked k → (x ≡ checked k) ⊎ ((q.ring k).task_id ≡ 0)

Fits-Follows : {q : Que} {x x' : Worker} {a : ℕ} → Follows q x x' → Fits q x a → Fits q x' a
Fits-Follows w f = record {
  within = λ k p. f.within k (w.slot k p);
  behind = λ k p. f.behind k (w.slot k p);
  old = λ k p. f.old k (w.holds k p);
  blank = λ k p. f.blank k (w.names k p);
  clear = λ k p z. elim (w.free k p) [ inl c ↦ f.clear k c z | inr e ↦ e ];
}

pub same_some : {k l : ℕ} → some k ≡ some l → k ≡ l
same_some {k} e = ap (λ o. elim o [ none ↦ k | some n ↦ n ]) e

update_age : (age : ℕ → ℕ) (i j : ℕ) → update age i (age i) j ≡ age j
update_age age i j = elim (ℕ_discrete i j) [
  | yes e ↦ update_self age i j (age i) e ∙ ap age e
  | no n ↦ update_else age i j (age i) n
]

module _ (w : World) (s : IsSound w) (i : ℕ) (x' : Worker) where
  -- The processes stay apart if this one does from the others.
  pub apart_after :
      (a : ℕ → ℕ)
      → ((j k l : ℕ) → i ≢ j → held x' ≡ some k → held (w.worker j) ≡ some l → a i ≢ a j)
      → ((j l : ℕ) → i ≢ j → i ≢ l → w.age j ≢ w.age l → a j ≢ a l)
      → (j l k m : ℕ) → j ≢ l
      → held (update w.worker i x' j) ≡ some k
      → held (update w.worker i x' l) ≡ some m
      → a j ≢ a l
  apart_after a new others j l k m n p p' = elim (ℕ_discrete i j) [
    | yes e ↦ λ q.
        let il : i ≢ l = λ f. n (sym e ∙ f) in
        new l k m il (mine j k e p) (theirs l m il p') (ap a e ∙ q)
    | no ij ↦ elim (ℕ_discrete i l) [
      | yes e ↦ λ q. new j m k ij (mine l m e p') (theirs j k ij p) (ap a e ∙ sym q)
      | no il ↦ others j l ij il (s.apart j l k m n (theirs j k ij p) (theirs l m il p'))
    ]
  ]
    where
      mine : (j k : ℕ) → i ≡ j → held (update w.worker i x' j) ≡ some k → held x' ≡ some k
      mine j k e p = ap held (sym (update_self w.worker i j x' e)) ∙ p

      theirs :
          (j k : ℕ) → i ≢ j → held (update w.worker i x' j) ≡ some k → held (w.worker j) ≡ some k
      theirs j k n p = ap held (sym (update_else w.worker i j x' n)) ∙ p

  -- A step of the process that does not move or read the head.
  pub kept_ages :
      (q' : Que)
      → q'.size ≡ w.que.size
      → q'.writehead ≡ w.que.writehead
      → ((k : ℕ) → held x' ≡ some k → held (w.worker i) ≡ some k)
      → Fits q' x' (w.age i)
      → ((j : ℕ) → i ≢ j → Fits q' (w.worker j) (w.age j))
      → IsSound (record w { que = q'; worker = update w.worker i x' })
  kept_ages q' size head holds mine theirs = record {
    size = rw size s.size;
    head = rw (size, head) s.head;
    each = λ j.
        subst (Fits q' (update w.worker i x' j)) (update_age w.age i j)
          (each-update (Fits q') w.worker w.age i x' (w.age i) mine theirs j);
    apart = apart_after w.age (λ j k l n p p'. s.apart i j k l n (holds k p) p') (λ j l ij il n. n);
  }

  pub follow :
      (q' : Que)
      → Alike w.que q'
      → Follows w.que (w.worker i) x'
      → IsSound (record w { que = q'; worker = update w.worker i x' })
  follow q' a f =
      kept_ages q' a.size a.head f.holds (Fits-Alike a (Fits-Follows f (s.each i)))
        (λ j n. Fits-Alike a (s.each j))
