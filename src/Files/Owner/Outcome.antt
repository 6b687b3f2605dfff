-- ===== src/Files/Owner/Outcome.antt =====
-- The outcomes of the calls on queues that the ioctl commands make.
use hardware_drivers.Prelude.{
  ℕ, ◌<◌, ◌≡◌, refl, ap, sym, ◌∙◌, subst, Bool, true, false, Option, none, some, ◌⊎◌, inl, inr,
  arith, ◌==◌, ◌||◌, if◌then◌else◌,
}
use hardware_drivers.Device.{
  Dev, Dir, host_to_dev, dev_to_host, nw_to_dev, dev_to_nw, d2d_rx, d2d_tx, d2d_d_rx, d2d_d_tx,
  other_dir, Ret, ok, err, Errno, Side, enq, deq, queue_at, max_queue_pair,
}
use hardware_drivers.Lldma.Channel.{stop_queue}
use hardware_drivers.Lldma.Queue.{IoctlQueue, get_queue, put_side, put_queue, ref_queue}
use hardware_drivers.Lldma.Queue.Exclusive.{
  IsOther, get_queue-Takes, get_queue_busy, get_queue_guards, free_or_used,
}
use hardware_drivers.Lldma.Queue.Release.{Releases, put_queue-Releases}
use hardware_drivers.Files.{Private, is_kind, dir_number, bind_found, bind_queue}

pub Ret-cases : (r : Ret) → (r ≡ ok) ⊎ ((e : Errno) × (r ≡ err e))
Ret-cases ok = inl refl
Ret-cases (err e) = inr (e, refl)

-- The outcomes of a call that puts a queue within the array.
pub put_queue_outcome :
    (d : Dev) (io : IoctlQueue) (side : Side) (r : Ret) (d' : Dev)
    → put_side io.dir ≡ some side
    → io.chid < max_queue_pair
    → put_queue d io ≡ some (r, d')
    → ((r ≡ ok) × Releases d d' side io.chid)
      ⊎ ((e : Errno) × (r ≡ err e) × ((s : Side) (c : ℕ) → queue_at s d' c ≡ queue_at s d c))
put_queue_outcome d io side r d' e near h =
    let (gives, keeps) = put_queue-Releases d io side e near in
    elim (Ret-cases (stop_queue d io.chid io.dir).0) [
      | inl p ↦
          let (d2, q, rel) = gives p in
          inl (ground arith, subst (λ x. Releases d x side io.chid) (ground arith) rel)
      | inr (n, p) ↦
          let (q, same) = keeps n p in
          inr (n, ground arith, λ s c. ap (λ x. queue_at s x c) (ground arith) ∙ same s c)
    ]

pub put_others :
    (d d' : Dev) (io : IoctlQueue) (side : Side) (r : Ret)
    → put_side io.dir ≡ some side
    → io.chid < max_queue_pair
    → put_queue d io ≡ some (r, d')
    → (s : Side) (c : ℕ) → IsOther side io.chid s c
    → queue_at s d' c ≡ queue_at s d c
put_others d d' io side r e near h s c o = elim (put_queue_outcome d io side r d' e near h) [
  | inl (p, rel) ↦ rel.others s c o
  | inr (n, p, same) ↦ same s c
]

-- A call for a queue that fails changes nothing.
pub get_queue-err :
    (v : ℕ → ℕ) (d : Dev) (io : IoctlQueue) (e : Errno) (d' : Dev) (io' : IoctlQueue)
    → get_queue v d io ≡ some (err e, d', io')
    → d' ≡ d
get_queue-err v d io e d' io' h = elim (get_queue_guards v d io) [
  | inl (n, g) ↦ ground (arith, g)
  | inr (inl g) ↦ absurd (ground (arith, g))
  | inr (inr (side, g, near, short)) ↦ elim (free_or_used (queue_at side d io.chid).status) [
    | inl f ↦ let (d2, p, t) = get_queue-Takes v d io side g near short f in absurd (ground arith)
    | inr u ↦ ground (arith, get_queue_busy v d io side g near short u)
  ]
]

-- The kinds whose numbers agree have their queues in the same array.
abbrev side_of_number : ℕ → Option Side
side_of_number n =
    if n == 0 || n == 2 || n == 5 || n == 7 then some enq else if n == 4 then none else some deq

side_of-dir_number : (k : Dir) → put_side k ≡ side_of_number (dir_number k)
side_of-dir_number host_to_dev = refl
side_of-dir_number dev_to_host = refl
side_of-dir_number nw_to_dev = refl
side_of-dir_number dev_to_nw = refl
side_of-dir_number other_dir = refl
side_of-dir_number d2d_rx = refl
side_of-dir_number d2d_tx = refl
side_of-dir_number d2d_d_rx = refl
side_of-dir_number d2d_d_tx = refl

pub put_side-is_kind :
    (k : Option Dir) (l dir : Dir) → k ≡ some l → is_kind k dir ≡ true → put_side dir ≡ put_side l
put_side-is_kind none l dir e h = absurd (ground arith)
put_side-is_kind (some k) l dir e h =
    let number : dir_number dir ≡ dir_number k = ground arith in
    let kind : k ≡ l = ground arith in
    side_of-dir_number dir
    ∙ ap side_of_number number
    ∙ sym (side_of-dir_number k)
    ∙ ap put_side kind

bind_found-is_get_queue :
    (to_user : Bool) (f f' : Private) (io' : IoctlQueue) (r : Ret) (x : Ret × IoctlQueue)
    → bind_found to_user f x ≡ (r, f', io')
    → f'.is_get_queue ≡ f.is_get_queue
unfolding bind_found
bind_found-is_get_queue true f f' io' r (ok, io) h = ground arith
bind_found-is_get_queue false f f' io' r (ok, io) h = ground arith
bind_found-is_get_queue to_user f f' io' r (err e, io) h = ground arith

pub bind_queue-is_get_queue :
    (from_user to_user : Bool) (d : Dev) (f f' : Private) (io io' : IoctlQueue) (r : Ret)
    → bind_queue from_user to_user d f io ≡ (r, f', io')
    → f'.is_get_queue ≡ f.is_get_queue
unfolding bind_queue
bind_queue-is_get_queue true to_user d f f' io io' r h =
    bind_found-is_get_queue to_user f f' io' r (ref_queue d io) h
bind_queue-is_get_queue false to_user d f f' io io' r h = ground arith
