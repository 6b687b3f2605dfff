-- ===== src/Lldma/Tidy/Runs.antt =====
-- Sequences of the driver's calls that take and give back queues: they return and keep the
-- invariant.
use hardware_drivers.Prelude.{
  ℕ, ◌%◌, ◌^◌, ◌<◌, ◌≡◌, refl, sym, subst, ap, Option, none, some, List, [], ◌∷◌, inl, inr, length,
  Option-cases, arith,
}
use hardware_drivers.Device.{Dev, Dir, Ret, ok, err, einval, max_queue_pair, connector_id_name_max}
use hardware_drivers.Lldma.Channel.{stop_queue}
use hardware_drivers.Lldma.Queue.{
  IoctlQueue, get_side, get_queue, get_queue_at, put_side, put_queue_info, put_queue, put_stopped,
  busy_if_failed,
}
use hardware_drivers.Lldma.Queue.Exclusive.{get_queue_lem}
use hardware_drivers.Lldma.Queue.Release.{put_queue_info-Releases, put_queue_info_refused}
use hardware_drivers.Lldma.Connect.{
  Connection, connect_side, connect_at, dev_connect, dev_disconnect, disconnect_stopped,
  reset_channel,
}
use hardware_drivers.Lldma.Outcome.{
  Gives-after, get_queue_cases, put_queue_info_cases, put_queue_cases, dev_connect_cases,
  dev_disconnect_cases, stop_queue-SameQueues,
}
use hardware_drivers.Lldma.Tidy.{IsTidy, Takes-IsTidy, Connects-IsTidy, Gives-IsTidy}

-- A call of the driver that takes or gives back a queue, on a channel of the arrays and with a
-- connector id that fits with its end into the queue's. The driver tests neither.
pub data Call : Type 0 where
  gets :
      (io : IoctlQueue)
      → io.chid < max_queue_pair
      → length io.connector_id < connector_id_name_max
      → Call
  puts : (io : IoctlQueue) → io.chid < max_queue_pair → Call
  closes : (chid : ℕ) (dir : Dir) → chid < max_queue_pair → Call
  connects :
      (c : Connection)
      → c.self_chid < max_queue_pair
      → length c.connector_id < connector_id_name_max
      → Call
  disconnects : (chid : ℕ) (dir : Dir) → chid < max_queue_pair → Call

abbrev without_request : Option (Ret × Dev × IoctlQueue) → Option (Ret × Dev)
without_request none = none
without_request (some (r, d, io)) = some (r, d)

pub run : (ℕ → ℕ) → Dev → Call → Option (Ret × Dev)
run v d (gets io near short) = without_request (get_queue v d io)
run v d (puts io near) = put_queue d io
run v d (closes chid dir near) = put_queue_info (stop_queue d chid dir).1 chid dir
run v d (connects c near short) = dev_connect v d c
run v d (disconnects chid dir near) = dev_disconnect d chid dir

-- Any number of calls, whatever each of them answers; nothing if one leaves the arrays.
pub run_all : (ℕ → ℕ) → Dev → List Call → Option Dev
run_all v d [] = some d
run_all v d (c ∷ cs) = elim (run v d c) [ none ↦ none | some (r, d') ↦ run_all v d' cs ]

put_queue_info-returns :
    (d : Dev) (chid : ℕ) (dir : Dir)
    → chid < max_queue_pair
    → (r : Ret) × (d' : Dev) × (put_queue_info d chid dir ≡ some (r, d'))
put_queue_info-returns d chid dir near = elim (Option-cases (put_side dir)) [
  | inl e ↦ (err einval, d, put_queue_info_refused d chid dir e)
  | inr (side, e) ↦ let (d', p, rel) = put_queue_info-Releases d chid dir side e near in (ok, d', p)
]

pub put_stopped-returns :
    (x : Ret × Dev) (chid : ℕ) (dir : Dir)
    → chid < max_queue_pair
    → (r : Ret) × (d' : Dev) × (put_stopped x chid dir ≡ some (r, d'))
unfolding put_stopped
put_stopped-returns (err e, d) chid dir near = (err e, d, refl)
put_stopped-returns (ok, d) chid dir near =
    let (r, d', p) = put_queue_info-returns d chid dir near in
    ((busy_if_failed (r, d')).0, (busy_if_failed (r, d')).1, rw (p, put_stopped) refl)

disconnect_stopped-returns :
    (x : Ret × Dev) (chid : ℕ) (dir : Dir)
    → chid < max_queue_pair
    → (r : Ret) × (d' : Dev) × (disconnect_stopped x chid dir ≡ some (r, d'))
unfolding disconnect_stopped
disconnect_stopped-returns (err e, d) chid dir near = (err e, d, refl)
disconnect_stopped-returns (ok, d) chid dir near =
    let (r, d', p) =
      put_queue_info-returns (reset_channel d dir) (chid % 2 ^ 16) dir (omega arith) in
    (ok, d', rw (p, disconnect_stopped) refl)

pub dev_disconnect-returns :
    (d : Dev) (chid : ℕ) (dir : Dir)
    → chid < max_queue_pair
    → (r : Ret) × (d' : Dev) × (dev_disconnect d chid dir ≡ some (r, d'))
unfolding dev_disconnect
dev_disconnect-returns d chid dir near = disconnect_stopped-returns _ chid dir near

get_queue-returns :
    (v : ℕ → ℕ) (d : Dev) (io : IoctlQueue)
    → io.chid < max_queue_pair
    → length io.connector_id < connector_id_name_max
    → (r : Ret) × (d' : Dev) × (without_request (get_queue v d io) ≡ some (r, d'))
unfolding get_queue
get_queue-returns v d io near short = elim (Option-cases (get_side io.dir)) [
  | inl e ↦ (err einval, d, ground arith)
  | inr (side, e) ↦ (
    (get_queue_at v d io side).0,
    (get_queue_at v d io side).1,
    ap without_request (get_queue_lem v d io side e near short),
  )
]

pub dev_connect-returns :
    (v : ℕ → ℕ) (d : Dev) (c : Connection)
    → c.self_chid < max_queue_pair
    → length c.connector_id < connector_id_name_max
    → (r : Ret) × (d' : Dev) × (dev_connect v d c ≡ some (r, d'))
unfolding dev_connect
dev_connect-returns v d c near short = elim (Option-cases (connect_side c.dir)) [
  | inl e ↦ (err einval, d, ground arith)
  | inr (side, e) ↦ ((connect_at v d c side).0, (connect_at v d c side).1, ground arith)
]

run-returns : (v : ℕ → ℕ) (d : Dev) (c : Call) → (r : Ret) × (d' : Dev) × (run v d c ≡ some (r, d'))
unfolding run put_queue
run-returns v d (gets io near short) = get_queue-returns v d io near short
run-returns v d (puts io near) = put_stopped-returns _ io.chid io.dir near
run-returns v d (closes chid dir near) = put_queue_info-returns _ chid dir near
run-returns v d (connects c near short) = dev_connect-returns v d c near short
run-returns v d (disconnects chid dir near) = dev_disconnect-returns d chid dir near

gets-IsTidy :
    (v : ℕ → ℕ) (d d' : Dev) (io : IoctlQueue) (r : Ret) (x : Option (Ret × Dev × IoctlQueue))
    → get_queue v d io ≡ x
    → without_request x ≡ some (r, d')
    → IsTidy d
    → IsTidy d'
gets-IsTidy v d d' io r none p h t = absurd (ground arith)
gets-IsTidy v d d' io r (some (r', e, io')) p h t =
    let same : e ≡ d' = ground arith in
    subst IsTidy same (elim (get_queue_cases v d io p) [
      | inl q ↦ subst IsTidy (sym q) t
      | inr (side, takes) ↦ Takes-IsTidy takes t
    ])

run-IsTidy :
    (v : ℕ → ℕ) (d d' : Dev) (c : Call) (r : Ret) → run v d c ≡ some (r, d') → IsTidy d → IsTidy d'
unfolding run
run-IsTidy v d d' (gets io near short) r h t = gets-IsTidy v d d' io r _ refl h t
run-IsTidy v d d' (puts io near) r h t = Gives-IsTidy (put_queue_cases d io h) t
run-IsTidy v d d' (closes chid dir near) r h t =
    Gives-IsTidy
      (Gives-after (stop_queue-SameQueues d chid dir) (put_queue_info_cases _ chid dir h)) t
run-IsTidy v d d' (connects c near short) r h t = elim (dev_connect_cases v d c h) [
  | inl e ↦ subst IsTidy (sym e) t
  | inr (side, made) ↦ Connects-IsTidy made t
]
run-IsTidy v d d' (disconnects chid dir near) r h t =
    Gives-IsTidy (dev_disconnect_cases d chid dir h) t

-- Any sequence of calls that get, put, close, connect and disconnect queues, in any order, on
-- channels of the arrays and with connector ids of less than 128 bytes, runs without touching
-- memory outside the arrays, whatever each of the calls answers; and afterwards a free queue has no
-- connector id and at most 32 channels are counted, if this held before.
pub run_all-IsTidy :
    (v : ℕ → ℕ) (d : Dev) (cs : List Call)
    → IsTidy d
    → (d' : Dev) × (run_all v d cs ≡ some d') × IsTidy d'
unfolding run_all
run_all-IsTidy v d [] t = (d, refl, t)
run_all-IsTidy v d (c ∷ cs) t =
    let (r, e, p) = run-returns v d c in
    let (d', q, t') = run_all-IsTidy v e cs (run-IsTidy v d e c r p t) in
    (d', rw (p, run_all) q, t')
