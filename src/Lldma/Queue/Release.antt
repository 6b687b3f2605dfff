-- ===== src/Lldma/Queue/Release.antt =====
-- Giving a command queue back: `xpcie_fpga_put_queue_info` and `xpcie_fpga_put_queue`.
use hardware_drivers.Prelude.{
  ℕ, ◌<◌, ◌≡◌, refl, ap, ◌∙◌, subst, none, [], some, ◌⊎◌, inl, inr, ltb, ltb→lt, Bool-cases,
  Option-cases, arith,
}
use hardware_drivers.Device.{
  Dev, Dir, QueueInfo, Side, enq, deq, free, queue_at, set_queue, ok, err, Errno, einval,
  max_queue_pair,
}
use hardware_drivers.Lldma.Channel.{stop_queue}
use hardware_drivers.Lldma.Channel.Frame.{stop_queue_frame, queue_at-off_bus}
use hardware_drivers.Lldma.Queue.{
  IoctlQueue, put_side, put_queue_info, put_queue, put_stopped, released,
}
use hardware_drivers.Lldma.Queue.Exclusive.{IsOther}

-- What giving back makes of a queue.
pub record Freed (q q' : QueueInfo) : Type 0 where
  pub status : q'.status ≡ free
  pub connector : q'.connector_id ≡ []
  pub memory : (q'.qp_mem_addr ≡ q.qp_mem_addr) × (q'.qp_mem_size ≡ q.qp_mem_size)
  pub ring : q'.que ≡ q.que

Freed-of_eq : (q q' q0 : QueueInfo) → q' ≡ released q → q ≡ q0 → Freed q0 q'
Freed-of_eq q q' q0 e f = record {
  status = ground arith;
  connector = ground arith;
  memory = ground arith;
  ring = ground arith;
}

-- What a call that gives back the queue `chid` of `side` leaves.
pub record Releases (d d' : Dev) (side : Side) (chid : ℕ) : Type 0 where
  pub given : Freed (queue_at side d chid) (queue_at side d' chid)
  pub others : (s : Side) (c : ℕ) → IsOther side chid s c → queue_at s d' c ≡ queue_at s d c
  pub channels : d'.available_dma_channel_num ≡ d.available_dma_channel_num

pub queue_at-set_self :
    (side : Side) (d : Dev) (chid : ℕ) (q : QueueInfo)
    → queue_at side (set_queue side d chid q) chid ≡ q
unfolding queue_at set_queue
queue_at-set_self enq d chid q = ground arith
queue_at-set_self deq d chid q = ground arith

pub queue_at-set_other :
    (side s : Side) (d : Dev) (chid c : ℕ) (q : QueueInfo)
    → IsOther side chid s c
    → queue_at s (set_queue side d chid q) c ≡ queue_at s d c
unfolding queue_at set_queue
queue_at-set_other enq enq d chid c q o = ground arith
queue_at-set_other enq deq d chid c q o = refl
queue_at-set_other deq enq d chid c q o = refl
queue_at-set_other deq deq d chid c q o = ground arith

pub count-set_queue :
    (side : Side) (d : Dev) (chid : ℕ) (q : QueueInfo)
    → (set_queue side d chid q).available_dma_channel_num ≡ d.available_dma_channel_num
unfolding set_queue
count-set_queue enq d chid q = refl
count-set_queue deq d chid q = refl

-- Stopping a channel changes no queue.
pub stop_queue-queue_at :
    (d : Dev) (chid : ℕ) (dir : Dir) (s : Side) (c : ℕ)
    → queue_at s (stop_queue d chid dir).1 c ≡ queue_at s d c
stop_queue-queue_at d chid dir s c =
    queue_at-off_bus s (stop_queue d chid dir).1 d c d.bus (stop_queue_frame d chid dir d.bus)

pub count-stop_queue :
    (d : Dev) (chid : ℕ) (dir : Dir)
    → (stop_queue d chid dir).1.available_dma_channel_num ≡ d.available_dma_channel_num
count-stop_queue d chid dir =
    ap (λ x. x.available_dma_channel_num) (stop_queue_frame d chid dir d.bus)

-- Within the array, giving a queue back always succeeds: it is free and has no connector id, and
-- no other queue changes.
pub put_queue_info-Releases :
    (d : Dev) (chid : ℕ) (dir : Dir) (side : Side)
    → put_side dir ≡ some side
    → chid < max_queue_pair
    → (d' : Dev) × (put_queue_info d chid dir ≡ some (ok, d')) × Releases d d' side chid
unfolding put_queue_info
put_queue_info-Releases d chid dir side e c = (
  set_queue side d chid (released (queue_at side d chid)),
  ground arith,
  record {
    given =
        Freed-of_eq (queue_at side d chid) _ _
          (queue_at-set_self side d chid (released (queue_at side d chid))) refl;
    others = λ s c' o. queue_at-set_other side s d chid c' _ o;
    channels = count-set_queue side d chid _;
  },
)

pub put_queue_info_refused :
    (d : Dev) (chid : ℕ) (dir : Dir)
    → put_side dir ≡ none
    → put_queue_info d chid dir ≡ some (err einval, d)
unfolding put_queue_info
put_queue_info_refused d chid dir e = ground arith

-- What decides a call: an unknown direction, an access outside an array, or neither.
pub put_queue_info_guards :
    (d : Dev) (chid : ℕ) (dir : Dir)
    → (put_queue_info d chid dir ≡ some (err einval, d))
      ⊎ ((put_queue_info d chid dir ≡ none)
          ⊎ ((side : Side) × (put_side dir ≡ some side) × (chid < max_queue_pair)))
unfolding put_queue_info
put_queue_info_guards d chid dir = elim (Option-cases (put_side dir)) [
  | inl e ↦ inl (ground arith)
  | inr (side, e) ↦ elim (Bool-cases (ltb chid max_queue_pair)) [
    | inr far ↦ inr (inl (ground arith))
    | inl near ↦ inr (inr (side, e, ltb→lt _ _ near))
  ]
]

pub Releases-after :
    (d e d' : Dev) (side : Side) (chid : ℕ)
    → ((s : Side) (c : ℕ) → queue_at s e c ≡ queue_at s d c)
    → e.available_dma_channel_num ≡ d.available_dma_channel_num
    → Releases e d' side chid
    → Releases d d' side chid
Releases-after d e d' side chid same n r = record {
  given = subst (λ q. Freed q (queue_at side d' chid)) (same side chid) r.given;
  others = λ s c o. r.others s c o ∙ same s c;
  channels = r.channels ∙ n;
}

-- Putting a queue within the array gives it back if its channel drains: its status is FREE and its
-- connector id is empty, its memory and its ring stay, and so do every other queue and the count of
-- the channels. Otherwise the call fails
-- with the error of the stop, and no queue changes: this one stays with its owner.
pub put_queue-Releases :
    (d : Dev) (io : IoctlQueue) (side : Side)
    → put_side io.dir ≡ some side
    → io.chid < max_queue_pair
    → ((stop_queue d io.chid io.dir).0 ≡ ok
        → (d' : Dev) × (put_queue d io ≡ some (ok, d')) × Releases d d' side io.chid)
      × ((e : Errno)
          → (stop_queue d io.chid io.dir).0 ≡ err e
          → (put_queue d io ≡ some (err e, (stop_queue d io.chid io.dir).1))
            × ((s : Side) (c : ℕ) → queue_at s (stop_queue d io.chid io.dir).1 c ≡ queue_at s d c))
unfolding put_queue put_stopped
put_queue-Releases d io side e c =
    let (d', p, r) =
      put_queue_info-Releases (stop_queue d io.chid io.dir).1 io.chid io.dir side e c in
    (
      λ drained. (
        d',
        ground (arith, p, drained),
        Releases-after d _ d' side io.chid (stop_queue-queue_at d io.chid io.dir)
            (count-stop_queue d io.chid io.dir) r,
      ),
      λ errno timeout. (ground arith, stop_queue-queue_at d io.chid io.dir),
    )
