-- ===== src/Lldma/Outcome.antt =====
-- What the calls that take or give back a queue can do to the driver's queues, whatever they
-- return.
use hardware_drivers.Prelude.{
  ℕ, ◌%◌, ◌^◌, ◌≡◌, refl, subst, ◌∙◌, ap, some, ◌⊎◌, inl, inr, Option-cases, arith,
}
use hardware_drivers.Device.{Dev, Dir, Side, queue_at, Ret, ok, err}
use hardware_drivers.Lldma.Channel.{stop_queue}
use hardware_drivers.Lldma.Queue.{
  IoctlQueue, get_queue, put_queue_info, put_queue, put_stopped, busy_if_failed,
}
use hardware_drivers.Lldma.Queue.Exclusive.{
  Takes, get_queue-Takes, get_queue_busy, get_queue_guards, free_or_used,
}
use hardware_drivers.Lldma.Queue.Release.{
  Releases, Releases-after, put_queue_info_guards, put_queue_info-Releases, stop_queue-queue_at,
  count-stop_queue,
}
use hardware_drivers.Lldma.Connect.{
  Connection, dev_connect, dev_disconnect, disconnect_stopped, reset_channel,
}
use hardware_drivers.Lldma.Connect.Lifecycle.{
  Connects, dev_connect-Connects, dev_connect_busy, dev_connect_guards, reset_channel_frame,
  selected,
}
use hardware_drivers.Lldma.Channel.Frame.{queue_at-off_bus}

-- What is the same after a call that moves no queue.
pub record SameQueues (d d' : Dev) : Type 0 where
  pub queues : (s : Side) (c : ℕ) → queue_at s d' c ≡ queue_at s d c
  pub channels : d'.available_dma_channel_num ≡ d.available_dma_channel_num

-- Every call that gets a queue either leaves the device as it is or takes one free queue.
pub get_queue_cases :
    (v : ℕ → ℕ) (d : Dev) (io : IoctlQueue) {r : Ret} {d' : Dev} {io' : IoctlQueue}
    → get_queue v d io ≡ some (r, d', io')
    → (d' ≡ d) ⊎ ((side : Side) × Takes d d' side io.chid io.connector_id)
get_queue_cases v d io {r} {d'} {io'} h = elim (get_queue_guards v d io) [
  | inl (n, e) ↦ inl (ground (arith, e))
  | inr (inl e) ↦ absurd (cc)
  | inr (inr (side, e, near, short)) ↦ elim (free_or_used (queue_at side d io.chid).status) [
    | inl f ↦
        let (d2, p, t) = get_queue-Takes v d io side e near short f in
        inr (side, subst (λ x. Takes d x side io.chid io.connector_id) (ground arith) t)
    | inr u ↦ inl (ground (arith, get_queue_busy v d io side e near short u))
  ]
]

pub SameQueues-refl : {d d' : Dev} → d' ≡ d → SameQueues d d'
SameQueues-refl e = record {
  queues = λ s c. ap (λ x. queue_at s x c) e;
  channels = ap (λ x. x.available_dma_channel_num) e;
}

-- The outcomes of a call that gives back a queue of the channel `chid`.
abbrev pub Gives : Dev → Dev → ℕ → Type 0
Gives d d' chid = SameQueues d d' ⊎ ((side : Side) × Releases d d' side chid)

pub put_queue_info_cases :
    (d : Dev) (chid : ℕ) (dir : Dir) {r : Ret} {d' : Dev}
    → put_queue_info d chid dir ≡ some (r, d')
    → Gives d d' chid
put_queue_info_cases d chid dir {r} {d'} h = elim (put_queue_info_guards d chid dir) [
  | inl e ↦ inl (SameQueues-refl (ground (arith, e)))
  | inr (inl e) ↦ absurd (cc)
  | inr (inr (side, e, near)) ↦
      let (d2, p, rel) = put_queue_info-Releases d chid dir side e near in
      inr (side, subst (λ x. Releases d x side chid) (ground arith) rel)
]

pub Gives-after : {d e d' : Dev} {chid : ℕ} → SameQueues d e → Gives e d' chid → Gives d d' chid
Gives-after same (inl after) = inl (record {
  queues = λ s c. after.queues s c ∙ same.queues s c;
  channels = after.channels ∙ same.channels;
})
Gives-after {d} {e} {d'} {chid} same (inr (side, rel)) =
    inr (side, Releases-after d e d' side chid same.queues same.channels rel)

pub stop_queue-SameQueues :
    (d : Dev) (chid : ℕ) (dir : Dir) → SameQueues d (stop_queue d chid dir).1
stop_queue-SameQueues d chid dir = record {
  queues = stop_queue-queue_at d chid dir;
  channels = count-stop_queue d chid dir;
}

busy_if_failed_dev : (x : Ret × Dev) → (busy_if_failed x).1 ≡ x.1
busy_if_failed_dev (ok, d) = refl
busy_if_failed_dev (err e, d) = refl

put_stopped_cases :
    (x : Ret × Dev) (chid : ℕ) (dir : Dir) {r : Ret} {d' : Dev}
    → put_stopped x chid dir ≡ some (r, d')
    → Gives x.1 d' chid
unfolding put_stopped
put_stopped_cases (err e, d) chid dir h = inl (SameQueues-refl (ground arith))
put_stopped_cases (ok, d) chid dir {r} {d'} h = elim (Option-cases (put_queue_info d chid dir)) [
  | inl e ↦ absurd (ground arith)
  | inr ((r2, d2), e) ↦
      subst (λ x. Gives d x chid) (ground (arith, busy_if_failed_dev (r2, d2)))
        (put_queue_info_cases d chid dir e)
]

pub put_queue_cases :
    (d : Dev) (io : IoctlQueue) {r : Ret} {d' : Dev}
    → put_queue d io ≡ some (r, d')
    → Gives d d' io.chid
unfolding put_queue
put_queue_cases d io h =
    Gives-after (stop_queue-SameQueues d io.chid io.dir)
      (put_stopped_cases (stop_queue d io.chid io.dir) io.chid io.dir h)

pub dev_connect_cases :
    (v : ℕ → ℕ) (d : Dev) (c : Connection) {r : Ret} {d' : Dev}
    → dev_connect v d c ≡ some (r, d')
    → (d' ≡ d) ⊎ ((side : Side) × Connects d d' side c.self_chid c.connector_id)
dev_connect_cases v d c {r} {d'} h = elim (dev_connect_guards v d c) [
  | inl (n, e) ↦ inl (ground (arith, e))
  | inr (inl e) ↦ absurd (cc)
  | inr (inr (side, e, near, short)) ↦ elim (free_or_used (queue_at side d c.self_chid).status) [
    | inl f ↦
        let (d2, p, t) = dev_connect-Connects v d c side e near short f in
        inr (side, subst (λ x. Connects d x side c.self_chid c.connector_id) (ground arith) t)
    | inr u ↦ inl (ground (arith, dev_connect_busy v d c side e near short u))
  ]
]

reset_channel-SameQueues : (d : Dev) (dir : Dir) → SameQueues d (reset_channel d dir)
reset_channel-SameQueues d dir = record {
  queues = λ s c. queue_at-off_bus s _ d c d.bus (reset_channel_frame d dir d.bus);
  channels = ap (λ x. x.available_dma_channel_num) (reset_channel_frame d dir d.bus);
}

disconnect_stopped_cases :
    (x : Ret × Dev) (chid : ℕ) (dir : Dir) {r : Ret} {d' : Dev}
    → disconnect_stopped x chid dir ≡ some (r, d')
    → Gives x.1 d' (chid % 2 ^ 16)
unfolding disconnect_stopped
disconnect_stopped_cases (err e, d) chid dir h = inl (SameQueues-refl (ground arith))
disconnect_stopped_cases (ok, d) chid dir {r} {d'} h =
    elim (Option-cases (put_queue_info (reset_channel d dir) (chid % 2 ^ 16) dir)) [
      | inl e ↦ absurd (ground arith)
      | inr ((r2, d2), e) ↦
          subst (λ x. Gives d x (chid % 2 ^ 16)) (ground arith)
            (Gives-after (reset_channel-SameQueues d dir)
              (put_queue_info_cases (reset_channel d dir) (chid % 2 ^ 16) dir e))
    ]

selected-SameQueues : (d : Dev) (chid : ℕ) (dir : Dir) → SameQueues d (selected d chid dir)
unfolding selected
selected-SameQueues d chid dir = record {
  queues = λ s c. queue_at-off_bus s _ d c d.bus refl;
  channels = refl;
}

pub dev_disconnect_cases :
    (d : Dev) (chid : ℕ) (dir : Dir) {r : Ret} {d' : Dev}
    → dev_disconnect d chid dir ≡ some (r, d')
    → Gives d d' (chid % 2 ^ 16)
unfolding dev_disconnect selected
dev_disconnect_cases d chid dir h =
    let d1 = selected d chid dir in
    Gives-after {d = d} {e = d1} (selected-SameQueues d chid dir) (
      Gives-after (stop_queue-SameQueues d1 (chid % 2 ^ 16) dir)
        (disconnect_stopped_cases (stop_queue d1 (chid % 2 ^ 16) dir) chid dir h))
