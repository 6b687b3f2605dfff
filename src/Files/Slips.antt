-- ===== src/Files/Slips.antt =====
-- What a file forgets: a queue that it bound, or another one that it freed, in place of its own.
use hardware_drivers.Prelude.{ℕ, ◌<◌, ◌≡◌, refl, true, some, arith}
use hardware_drivers.Device.{Dev, Ret, ok, err, free, Side, queue_at, max_queue_pair}
use hardware_drivers.Lldma.Queue.{IoctlQueue, put_side, ref_queue}
use hardware_drivers.Lldma.Queue.Exclusive.{IsOther}
use hardware_drivers.Lldma.Queue.Release.{put_queue-Releases}
use hardware_drivers.Lldma.Channel.{stop_queue}
use hardware_drivers.Files.{
  Private, bound, unbound, bind_found, bind_queue, free_put, free_queue, release,
}
use hardware_drivers.Files.Close.{release-Releases}

bind_found-bound :
    (f f' : Private) (io' : IoctlQueue) (x : Ret × IoctlQueue)
    → bind_found true f x ≡ (ok, f', io')
    → f' ≡ bound f io'.chid io'.dir
unfolding bind_found
bind_found-bound f f' io' (ok, io) h = ground arith
bind_found-bound f f' io' (err e, io) h = absurd (ground arith)

bind_queue-bound :
    (d : Dev) (f f' : Private) (io io' : IoctlQueue)
    → bind_queue true true d f io ≡ (ok, f', io')
    → f' ≡ bound f io'.chid io'.dir
unfolding bind_queue
bind_queue-bound d f f' io io' h = bind_found-bound f f' io' (ref_queue d io) h

-- XPCIE_DEV_LLDMA_BIND_QUEUE does not look whether the file has a queue of its own. Closing a file
-- that has allocated a queue and bound another one afterwards gives back the bound queue, whoever
-- owns it, and every other queue stays as it is, its own included.
pub release_after_bind :
    (d : Dev) (f f' : Private) (io io' : IoctlQueue) (side : Side)
    → f.is_get_queue ≡ true
    → bind_queue true true d f io ≡ (ok, f', io')
    → put_side io'.dir ≡ some side
    → io'.chid < max_queue_pair
    → (d' : Dev) × (release d f' ≡ some d')
      × ((queue_at side d' io'.chid).status ≡ free)
      × ((s : Side) (c : ℕ) → IsOther side io'.chid s c → queue_at s d' c ≡ queue_at s d c)
release_after_bind d f f' io io' side g h e near =
    let b = bind_queue-bound d f f' io io' h in
    let (d', p, r) =
      release-Releases d f' io'.chid io'.dir side (rw b g) (rw b refl) (rw b refl) e near in
    (d', p, r.given.status, r.others)

-- XPCIE_DEV_LLDMA_FREE_QUEUE does not compare the channel of the request with that of the file. If
-- the requested channel drains, its queue is given back, whoever owns it; the file forgets its own
-- queue, so that closing it changes nothing and that queue stays as it is.
pub release_after_free :
    (d : Dev) (f : Private) (io : IoctlQueue) (side : Side)
    → f.que_kind ≡ some io.dir
    → put_side io.dir ≡ some side
    → io.chid < max_queue_pair
    → (stop_queue d io.chid io.dir).0 ≡ ok
    → (d' : Dev) × (f' : Private) × (free_queue true d f io ≡ some (ok, d', f'))
      × (release d' f' ≡ some d')
      × ((queue_at side d' io.chid).status ≡ free)
      × ((s : Side) (c : ℕ) → IsOther side io.chid s c → queue_at s d' c ≡ queue_at s d c)
unfolding free_queue free_put release
release_after_free d f io side k e near drained =
    let (d', p, r) = (put_queue-Releases d io side e near).0 drained in
    (d', unbound f, rw k (ground (arith, p)), refl, r.given.status, r.others)
