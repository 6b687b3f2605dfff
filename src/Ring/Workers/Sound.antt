-- ===== src/Ring/Workers/Sound.antt =====
-- What holds of the processes on a queue while none of them is late.
use hardware_drivers.Prelude.{
  ℕ, ◌^◌, ◌<◌, ◌≡◌, ◌≢◌, sym, ◌∙◌, ap, arith, Option, none, some, ℕ_discrete, update,
}
use hardware_drivers.Device.{Que}
use hardware_drivers.Ring.Slots.{place, place_ne}
use hardware_drivers.Ring.Workers.{
  Worker, begin, looked, checked, claimed, addressed, named, finished, full, World, slot_of, held,
  Timely,
}

-- The descriptor that a process has moved the head past and has not yet given a task id.
abbrev pub unnamed : Worker → Option ℕ
unnamed (claimed k) = some k
unnamed (addressed k) = some k
unnamed x = none

-- What holds of one process, `age` moves of the head after it has read it: its descriptor lies as
-- far behind the head; if it has moved the head itself, it is not of age 0; it is free until its
-- task id is written; and one that was free when the head was there still is while the head is.
pub record Fits (q : Que) (x : Worker) (age : ℕ) : Type 0 where
  pub within : (k : ℕ) → slot_of x ≡ some k → k < q.size
  pub behind : (k : ℕ) → slot_of x ≡ some k → q.writehead ≡ place q.size k age
  pub old : (k : ℕ) → held x ≡ some k → 0 < age
  pub blank : (k : ℕ) → unnamed x ≡ some k → (q.ring k).task_id ≡ 0
  pub clear : (k : ℕ) → x ≡ checked k → age ≡ 0 → (q.ring k).task_id ≡ 0

-- It holds of each process, and those that write descriptors have read the head at different times.
pub record IsSound (w : World) : Type 0 where
  pub size : w.que.size < 2 ^ 16
  pub head : w.que.writehead < w.que.size
  pub each : (i : ℕ) → Fits w.que (w.worker i) (w.age i)
  pub apart :
      (i j k l : ℕ)
      → i ≢ j
      → held (w.worker i) ≡ some k
      → held (w.worker j) ≡ some l
      → w.age i ≢ w.age j

-- An array at the index that was written, and at another.
pub update_self {ℓ} : {A : Type ℓ} (f : ℕ → A) (i j : ℕ) (v : A) → i ≡ j → update f i v j ≡ v
update_self f i j v e = ground (arith, e)

pub update_else {ℓ} : {A : Type ℓ} (f : ℕ → A) (i j : ℕ) (v : A) → i ≢ j → update f i v j ≡ f j
update_else f i j v n = ground (arith, n)

pub each-update :
    (P : Worker → ℕ → Type 0) (f : ℕ → Worker) (a : ℕ → ℕ) (i : ℕ) (x : Worker) (b : ℕ)
    → P x b
    → ((j : ℕ) → i ≢ j → P (f j) (a j))
    → (j : ℕ) → P (update f i x j) (update a i b j)
each-update P f a i x b new others j = elim (ℕ_discrete i j) [
  | yes e ↦ rw (update_self f i j x e, update_self a i j b e) new
  | no n ↦ rw (update_else f i j x n, update_else a i j b n) (others j n)
]

pub held-slot_of : (x : Worker) (k : ℕ) → held x ≡ some k → slot_of x ≡ some k
held-slot_of begin k e = cc
held-slot_of (looked l) k e = cc
held-slot_of (checked l) k e = cc
held-slot_of (claimed l) k e = e
held-slot_of (addressed l) k e = e
held-slot_of (named l) k e = e
held-slot_of (finished l) k e = cc
held-slot_of full k e = cc

pub unnamed-held : (x : Worker) (k : ℕ) → unnamed x ≡ some k → held x ≡ some k
unnamed-held begin k e = cc
unnamed-held (looked l) k e = cc
unnamed-held (checked l) k e = cc
unnamed-held (claimed l) k e = e
unnamed-held (addressed l) k e = e
unnamed-held (named l) k e = cc
unnamed-held (finished l) k e = cc
unnamed-held full k e = cc

-- Two processes whose reads of the head were of different ages have different descriptors.
pub ages_apart :
    {w : World}
    → IsSound w
    → Timely w
    → (i j k l : ℕ) → slot_of (w.worker i) ≡ some k
    → slot_of (w.worker j) ≡ some l
    → w.age i ≢ w.age j
    → k ≢ l
ages_apart {w} s t i j k l p q n e =
    place_ne w.que.size k (w.age i) (w.age j) ((s.each i).within k p) (t i k p) (t j l q) n (
      sym ((s.each i).behind k p)
      ∙ (s.each j).behind l q
      ∙ ap (λ m. place w.que.size m (w.age j)) (sym e))
