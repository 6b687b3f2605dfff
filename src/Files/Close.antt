-- ===== src/Files/Close.antt =====
-- Closing a file that has allocated a queue.
use hardware_drivers.Prelude.{
  ℕ, ◌<◌, ◌≡◌, refl, ◌∙◌, subst, true, some, inl, inr, Option-cases, [], arith,
}
use hardware_drivers.Device.{
  Dev, Dir, host_to_dev, dev_to_host, nw_to_dev, dev_to_nw, d2d_rx, d2d_tx, d2d_d_rx, d2d_d_tx,
  other_dir, ok, err, free, Side, queue_at, max_queue_pair,
}
use hardware_drivers.Lldma.Channel.{stop_queue}
use hardware_drivers.Lldma.Queue.{IoctlQueue, get_side, put_side, get_queue}
use hardware_drivers.Lldma.Queue.Exclusive.{
  IsOther, Takes, get_queue-Takes, get_queue_busy, get_queue_guards, free_or_used,
}
use hardware_drivers.Lldma.Queue.Release.{
  Releases, Releases-after, put_queue_info-Releases, stop_queue-queue_at, count-stop_queue,
}
use hardware_drivers.Files.{Private, owning, alloc_got, alloc_queue, release_bound, release}

-- What a call that got a queue found and did.
pub record Got (d d' : Dev) (io io' : IoctlQueue) : Type 0 where
  pub side : Side
  pub kind : get_side io.dir ≡ some side
  pub near : io.chid < max_queue_pair
  pub was_free : (queue_at side d io.chid).status ≡ free
  pub takes : Takes d d' side io.chid io.connector_id
  pub same_chid : io'.chid ≡ io.chid
  pub same_dir : io'.dir ≡ io.dir

pub get_queue-Got :
    (v : ℕ → ℕ) (d : Dev) (io : IoctlQueue) (d' : Dev) (io' : IoctlQueue)
    → get_queue v d io ≡ some (ok, d', io')
    → Got d d' io io'
get_queue-Got v d io d' io' h = elim (get_queue_guards v d io) [
  | inl (n, e) ↦ absurd (ground (arith, e))
  | inr (inl e) ↦ absurd (ground (arith, e))
  | inr (inr (side, e, near, short)) ↦ elim (free_or_used (queue_at side d io.chid).status) [
    | inr u ↦ absurd (ground (arith, get_queue_busy v d io side e near short u))
    | inl f ↦
        let (d2, p, t) = get_queue-Takes v d io side e near short f in
        record {
          side = side;
          kind = e;
          near = near;
          was_free = f;
          takes = subst (λ x. Takes d x side io.chid io.connector_id) (ground arith) t;
          same_chid = ground arith;
          same_dir = ground arith;
        }
  ]
]

-- A direction whose queues can be got goes back to the same array.
pub put_side_of_get :
    (dir : Dir) (side : Side) → get_side dir ≡ some side → put_side dir ≡ some side
put_side_of_get host_to_dev side h = h
put_side_of_get dev_to_host side h = h
put_side_of_get nw_to_dev side h = h
put_side_of_get dev_to_nw side h = h
put_side_of_get d2d_rx side h = absurd (ground arith)
put_side_of_get d2d_tx side h = absurd (ground arith)
put_side_of_get d2d_d_rx side h = absurd (ground arith)
put_side_of_get d2d_d_tx side h = absurd (ground arith)
put_side_of_get other_dir side h = absurd (ground arith)

-- Closing a file that owns a queue gives it back, whether its channel drains or not.
pub release-Releases :
    (d : Dev) (f : Private) (chid : ℕ) (dir : Dir) (side : Side)
    → f.is_get_queue ≡ true
    → f.chid ≡ some chid
    → f.que_kind ≡ some dir
    → put_side dir ≡ some side
    → chid < max_queue_pair
    → (d' : Dev) × (release d f ≡ some d') × Releases d d' side chid
unfolding release release_bound
release-Releases d f chid dir side g c k e near =
    let (d', p, r) = put_queue_info-Releases (stop_queue d chid dir).1 chid dir side e near in
    (
      d',
      rw (g, c, k) (ground (arith, p)),
      Releases-after d _ d' side chid (stop_queue-queue_at d chid dir) (count-stop_queue d chid dir)
          r,
    )

alloc_queue-Got :
    (v : ℕ → ℕ) (d : Dev) (f : Private) (io : IoctlQueue) (d1 : Dev) (f1 : Private)
    (io1 : IoctlQueue)
    → alloc_queue v true true d f io ≡ some (ok, d1, f1, io1)
    → Got d d1 io io1 × (f1 ≡ owning f io1.chid io1.dir)
unfolding alloc_queue alloc_got
alloc_queue-Got v d f io d1 f1 io1 h = elim (Option-cases (get_queue v d io)) [
  | inl e ↦ absurd (ground arith)
  | inr ((err r, d2, io2), e) ↦ absurd (ground arith)
  | inr ((ok, d2, io2), e) ↦ (get_queue-Got v d io d1 io1 (ground arith), ground arith)
]

-- The queue that a file has allocated is free again and without a name once the file is closed,
-- whether its channel drains or not, and every other queue is as it was before the allocation.
pub alloc_then_release :
    (v : ℕ → ℕ) (d : Dev) (f : Private) (io : IoctlQueue) (d1 : Dev) (f1 : Private)
    (io1 : IoctlQueue)
    → alloc_queue v true true d f io ≡ some (ok, d1, f1, io1)
    → (side : Side) × (d2 : Dev) × (release d1 f1 ≡ some d2)
      × ((queue_at side d2 io.chid).status ≡ free)
      × ((queue_at side d2 io.chid).connector_id ≡ [])
      × ((s : Side) (c : ℕ) → IsOther side io.chid s c → queue_at s d2 c ≡ queue_at s d c)
alloc_then_release v d f io d1 f1 io1 h =
    let (g, e) = alloc_queue-Got v d f io d1 f1 io1 h in
    let (d2, p, r) =
      release-Releases d1 f1 io.chid io.dir g.side (rw e refl) (rw (e, g.same_chid) refl)
        (rw (e, g.same_dir) refl) (put_side_of_get io.dir g.side g.kind) g.near in
    (
      g.side,
      d2,
      p,
      r.given.status,
      r.given.connector,
      λ s c o. r.others s c o ∙ g.takes.others s c o,
    )
