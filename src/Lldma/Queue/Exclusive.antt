-- ===== src/Lldma/Queue/Exclusive.antt =====
-- Who owns a command queue: what getting and putting one changes.
use hardware_drivers.Prelude.{
  ℕ, ◌<◌, ◌≡◌, ◌≢◌, refl, ◌∙◌, ap, none, some, List, ◌⊎◌, inl, inr, ltb, length, arith, ltb→lt,
  Bool-cases, Option-cases,
}
use hardware_drivers.Device.{
  Dev, Dir, host_to_dev, dev_to_host, nw_to_dev, dev_to_nw, QueueInfo, QueueStatus, free, used,
  zero_desc, Side, enq, deq, queue_at, set_queue, ok, err, Errno, einval, ebusy, max_queue_pair,
  connector_id_name_max,
}
use hardware_drivers.Lldma.Channel.{start_side, start_queue}
use hardware_drivers.Lldma.Channel.Frame.{
  off_heads, start_queue_heads, start_queue_other, start_queue_across, start_queue_count,
}
use hardware_drivers.Lldma.Queue.{
  IoctlQueue, get_side, get_queue, get_queue_at, with_connector, with_status, clear_ring,
}

-- The device in which `xpcie_fpga_get_queue` starts the queue.
abbrev claimed : Side → Dev → ℕ → Dev
claimed side d chid = set_queue side d chid (clear_ring (with_status (queue_at side d chid) used))

-- What getting a free queue makes of it.
pub record Taken (q q' : QueueInfo) (id : List ℕ) : Type 0 where
  pub status : q'.status ≡ used
  pub connector : q'.connector_id ≡ id
  pub memory : (q'.qp_mem_addr ≡ q.qp_mem_addr) × (q'.qp_mem_size ≡ q.qp_mem_size)
  pub ring : (i : ℕ) → i < q.que.size → q'.que.ring i ≡ zero_desc
  pub place : (q'.que.base ≡ q.que.base) × (q'.que.size ≡ q.que.size)

-- `Taken` follows from the queue that was started, its heads aside.
Taken-of_heads :
    (q r q' : QueueInfo) (id : List ℕ)
    → off_heads r ≡ off_heads (clear_ring (with_status q used))
    → q' ≡ with_connector r id
    → Taken q q' id
Taken-of_heads q r q' id h e = record {
  status = ground arith;
  connector = ground arith;
  memory = ground arith;
  ring = λ i lt. rw e (ap (λ x. x.que.ring i) h ∙ ground arith);
  place = ground arith;
}

module _ (v : ℕ → ℕ) (d : Dev) (io : IoctlQueue) where
  get_queue_at-Taken :
      (side : Side)
      → (queue_at side d io.chid).status ≡ free
      → let d' = (get_queue_at v d io side).1 in
        Taken (queue_at side d io.chid) (queue_at side d' io.chid) io.connector_id
  unfolding get_queue_at
  get_queue_at-Taken enq f =
      Taken-of_heads _ (queue_at enq (start_queue v (claimed enq d io.chid) io.chid io.dir) io.chid)
        _ _ (ground (arith, start_queue_heads v (claimed enq d io.chid) io.chid io.dir enq io.chid))
        (ground arith)
  get_queue_at-Taken deq f =
      Taken-of_heads _ (queue_at deq (start_queue v (claimed deq d io.chid) io.chid io.dir) io.chid)
        _ _ (ground (arith, start_queue_heads v (claimed deq d io.chid) io.chid io.dir deq io.chid))
        (ground arith)

  get_queue_at-other :
      (side s : Side) (c : ℕ)
      → c ≢ io.chid
      → queue_at s (get_queue_at v d io side).1 c ≡ queue_at s d c
  unfolding get_queue_at
  get_queue_at-other enq enq c h =
      ground (arith, start_queue_other v (claimed enq d io.chid) io.chid io.dir enq c h)
  get_queue_at-other enq deq c h =
      ground (arith, start_queue_other v (claimed enq d io.chid) io.chid io.dir deq c h)
  get_queue_at-other deq enq c h =
      ground (arith, start_queue_other v (claimed deq d io.chid) io.chid io.dir enq c h)
  get_queue_at-other deq deq c h =
      ground (arith, start_queue_other v (claimed deq d io.chid) io.chid io.dir deq c h)

  get_queue_at-across :
      (side s : Side) (enable : ℕ) (c : ℕ)
      → start_side io.dir ≡ some (side, enable)
      → s ≢ side
      → queue_at s (get_queue_at v d io side).1 c ≡ queue_at s d c
  unfolding get_queue_at
  get_queue_at-across enq enq enable c e h = absurd (h refl)
  get_queue_at-across enq deq enable c e h =
      ground
        (arith, start_queue_across v (claimed enq d io.chid) io.chid io.dir enq enable deq c e h)
  get_queue_at-across deq enq enable c e h =
      ground
        (arith, start_queue_across v (claimed deq d io.chid) io.chid io.dir deq enable enq c e h)
  get_queue_at-across deq deq enable c e h = absurd (h refl)

  get_queue_at-count :
      (side : Side)
      → (get_queue_at v d io side).1.available_dma_channel_num ≡ d.available_dma_channel_num
  unfolding get_queue_at
  get_queue_at-count enq =
      ground (arith, start_queue_count v (claimed enq d io.chid) io.chid io.dir)
  get_queue_at-count deq =
      ground (arith, start_queue_count v (claimed deq d io.chid) io.chid io.dir)

pub free_or_used : (s : QueueStatus) → (s ≡ free) ⊎ (s ≡ used)
free_or_used free = inl refl
free_or_used used = inr refl

get_queue_at_refused :
    (v : ℕ → ℕ) (d : Dev) (io : IoctlQueue) (side : Side)
    → (queue_at side d io.chid).status ≡ used
    → get_queue_at v d io side ≡ (err ebusy, d, io)
unfolding get_queue_at
get_queue_at_refused v d io side u = ground arith

-- The two switches agree on the array of a direction.
start_side_of_get :
    (dir : Dir) (side : Side)
    → get_side dir ≡ some side
    → (enable : ℕ) × (start_side dir ≡ some (side, enable))
unfolding start_side
start_side_of_get host_to_dev side e = (3, ground arith)
start_side_of_get nw_to_dev side e = (2, ground arith)
start_side_of_get dev_to_host side e = (3, ground arith)
start_side_of_get dev_to_nw side e = (1, ground arith)
start_side_of_get _ side e = absurd (cc)

-- A queue is another one if it is in the other array or at another index.
abbrev pub IsOther : Side → ℕ → Side → ℕ → Type 0
IsOther side chid s c = (s ≢ side) ⊎ (c ≢ chid)

-- What a call that takes the queue `chid` of `side` leaves: that queue taken, all others as before.
pub record Takes (d d' : Dev) (side : Side) (chid : ℕ) (id : List ℕ) : Type 0 where
  pub taken : Taken (queue_at side d chid) (queue_at side d' chid) id
  pub others : (s : Side) (c : ℕ) → IsOther side chid s c → queue_at s d' c ≡ queue_at s d c
  pub channels : d'.available_dma_channel_num ≡ d.available_dma_channel_num

get_queue_at-others :
    (v : ℕ → ℕ) (d : Dev) (io : IoctlQueue) (side s : Side) (c : ℕ)
    → get_side io.dir ≡ some side
    → IsOther side io.chid s c
    → queue_at s (get_queue_at v d io side).1 c ≡ queue_at s d c
get_queue_at-others v d io side s c e (inl h) =
    let (enable, st) = start_side_of_get io.dir side e in
    get_queue_at-across v d io side s enable c st h
get_queue_at-others v d io side s c e (inr h) = get_queue_at-other v d io side s c h

-- What decides a call: an unknown direction or a used queue with a long connector id, an access
-- outside an array, or neither.
pub get_queue_guards :
    (v : ℕ → ℕ) (d : Dev) (io : IoctlQueue)
    → ((n : Errno) × (get_queue v d io ≡ some (err n, d, io)))
      ⊎ ((get_queue v d io ≡ none)
          ⊎ ((side : Side) × (get_side io.dir ≡ some side)
              × (io.chid < max_queue_pair)
              × (length io.connector_id < connector_id_name_max)))
unfolding get_queue
get_queue_guards v d io = elim (Option-cases (get_side io.dir)) [
  | inl e ↦ inl (einval, ground arith)
  | inr (side, e) ↦ elim (Bool-cases (ltb io.chid max_queue_pair)) [
    | inr far ↦ inr (inl (ground arith))
    | inl near ↦ elim (Bool-cases (ltb (length io.connector_id) connector_id_name_max)) [
      | inr long ↦ elim (free_or_used (queue_at side d io.chid).status) [
        | inl f ↦ inr (inl (ground arith))
        | inr u ↦ inl (ebusy, ground (arith, get_queue_at_refused v d io side u))
      ]
      | inl short ↦ inr (inr (side, e, ltb→lt _ _ near, ltb→lt _ _ short))
    ]
  ]
]

module _ (v : ℕ → ℕ) (d : Dev) (io : IoctlQueue) (side : Side) (e : get_side io.dir ≡ some side)
    (c : io.chid < max_queue_pair) (n : length io.connector_id < connector_id_name_max) where
  pub get_queue_lem : get_queue v d io ≡ some (get_queue_at v d io side)
  unfolding get_queue
  get_queue_lem = ground arith

  -- Getting a free queue within the array succeeds: the queue is used, has the caller's connector
  -- id, its memory and a ring of zeros, the caller learns its size, and no other queue changes.
  pub get_queue-Takes :
      (queue_at side d io.chid).status ≡ free
      → (d' : Dev) × (get_queue v d io
          ≡ some (ok, d', record io { map_size = (queue_at side d io.chid).qp_mem_size }))
        × Takes d d' side io.chid io.connector_id
  unfolding get_queue_at
  get_queue-Takes f = (
    (get_queue_at v d io side).1,
    get_queue_lem ∙ ground (arith),
    record {
      taken = get_queue_at-Taken v d io side f;
      others = λ s c' o. get_queue_at-others v d io side s c' e o;
      channels = get_queue_at-count v d io side;
    },
  )

  -- Getting a queue that is used fails with -EBUSY and changes nothing.
  pub get_queue_busy :
      (queue_at side d io.chid).status ≡ used → get_queue v d io ≡ some (err ebusy, d, io)
  unfolding get_queue_at
  get_queue_busy u = get_queue_lem ∙ ground arith

used_of_get :
    (v : ℕ → ℕ) (d : Dev) (io : IoctlQueue) (side : Side)
    → (queue_at side (get_queue_at v d io side).1 io.chid).status ≡ used
used_of_get v d io side = elim (free_or_used (queue_at side d io.chid).status) [
  | inl f ↦ (get_queue_at-Taken v d io side f).status
  | inr u ↦ rw (get_queue_at_refused v d io side u) u
]

-- After any successful call for a queue within the array, the next call for the same queue, by
-- whomever and with whatever connector id that fits, fails with -EBUSY and changes nothing.
pub get_queue_twice :
    (v : ℕ → ℕ) (d d' : Dev) (io io' again : IoctlQueue) (side : Side)
    → get_side io.dir ≡ some side
    → io.chid < max_queue_pair
    → length io.connector_id < connector_id_name_max
    → get_queue v d io ≡ some (ok, d', io')
    → get_side again.dir ≡ some side
    → again.chid ≡ io.chid
    → length again.connector_id < connector_id_name_max
    → get_queue v d' again ≡ some (err ebusy, d', again)
get_queue_twice v d d' io io' again side e c n done e2 c2 n2 =
    get_queue_busy v d' again side e2 (omega arith) n2
      (ground (arith, used_of_get v d io side, get_queue_lem v d io side e c n))
