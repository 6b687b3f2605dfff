-- ===== src/Files/Owner/Calls.antt =====
-- What the ioctl commands on queues leave of the queues that files hold.
use hardware_drivers.Prelude.{
  ℕ, ◌≡◌, refl, ap, sym, ◌∙◌, subst, Bool, true, false, some, inl, inr, Bool-cases, Option-cases,
  arith,
}
use hardware_drivers.Device.{Dev, Ret, ok, err, Side, queue_at}
use hardware_drivers.Lldma.Queue.{IoctlQueue, get_queue, put_side, put_queue}
use hardware_drivers.Lldma.Queue.Exclusive.{IsOther}
use hardware_drivers.Files.{
  Private, open_file, owning, is_kind, alloc_got, alloc_queue, bind_queue, free_put, free_queue,
  release,
}
use hardware_drivers.Files.Close.{get_queue-Got, put_side_of_get, release-Releases}
use hardware_drivers.Files.Owner.{
  World, with_file, Owns, IsOwned, quiet-IsOwned, gain-IsOwned, same-IsOwned, Keeps-same,
  Keeps-free, Keeps-owned, unchanged-IsOwned,
}
use hardware_drivers.Files.Owner.Outcome.{
  put_others, get_queue-err, put_side-is_kind, bind_queue-is_get_queue, put_queue_outcome,
}

module _ (w : World) (h : IsOwned w) (i : ℕ) where
  -- XPCIE_DEV_LLDMA_ALLOC_QUEUE by a file without a queue of its own, whatever it returns.
  alloc_got-IsOwned :
      (v : ℕ → ℕ) (to_user : Bool) (io io2 io' : IoctlQueue) (r2 r : Ret) (d2 d' : Dev)
      (f' : Private)
      → (w.files i).is_get_queue ≡ false
      → get_queue v w.dev io ≡ some (r2, d2, io2)
      → alloc_got to_user (w.files i) (r2, d2, io2) ≡ some (r, d', f', io')
      → IsOwned (with_file w i d' f')
  unfolding alloc_got
  alloc_got-IsOwned v to_user io io2 io' (err e) r d2 d' f' n g a =
      let same : d' ≡ w.dev = ground (arith, get_queue-err v w.dev io e d2 io2 g) in
      unchanged-IsOwned w i d' f' h (ground arith) same
  alloc_got-IsOwned v true io io2 io' ok r d2 d' f' n g a =
      let got = get_queue-Got v w.dev io d2 io2 g in
      let e : d' ≡ d2 = ground arith in
      let ef : f' ≡ owning (w.files i) io2.chid io2.dir = ground arith in
      let o : Owns f' got.side io.chid = rw ef (record {
        dir = io2.dir;
        held = refl;
        chid = ap some got.same_chid;
        kind = refl;
        side_of = ap put_side got.same_dir ∙ put_side_of_get io.dir got.side got.kind;
      }) in
      rw e (
        gain-IsOwned w i d2 f' got.side io.chid h o got.near got.was_free got.takes.taken.status
          (Keeps-free w i d2 got.side io.chid h got.was_free got.takes.others))
  alloc_got-IsOwned v false io io2 io' ok r d2 d' f' n g a =
      elim (Option-cases (put_queue d2 io2)) [
        | inl e ↦ absurd (ground arith)
        | inr ((r3, d3), e) ↦
            let got = get_queue-Got v w.dev io d2 io2 g in
            let others =
              put_others d2 d3 io2 got.side r3
                (ap put_side got.same_dir ∙ put_side_of_get io.dir got.side got.kind)
                (omega (arith, got.near, got.same_chid)) e in
            let ed : d' ≡ d3 = ground arith in
            rw ed (
              quiet-IsOwned w i d3 f' h (ground arith) (
                Keeps-free w i d3 got.side io.chid h got.was_free (λ s c o.
                  others s c (subst (λ x. IsOther got.side x s c) (sym got.same_chid) o)
                  ∙ got.takes.others s c o)))
      ]

  pub alloc_queue-IsOwned :
      (v : ℕ → ℕ) (from_user to_user : Bool) (io io' : IoctlQueue) (r : Ret) (d' : Dev)
      (f' : Private)
      → (w.files i).is_get_queue ≡ false
      → alloc_queue v from_user to_user w.dev (w.files i) io ≡ some (r, d', f', io')
      → IsOwned (with_file w i d' f')
  unfolding alloc_queue
  alloc_queue-IsOwned v false to_user io io' r d' f' n a =
      unchanged-IsOwned w i d' f' h (ground arith) (ground arith)
  alloc_queue-IsOwned v true to_user io io' r d' f' n a =
      elim (Option-cases (get_queue v w.dev io)) [
        | inl e ↦ absurd (ground arith)
        | inr ((r2, d2, io2), e) ↦
            alloc_got-IsOwned v to_user io io2 io' r2 r d2 d' f' n e (ground arith)
      ]

  -- XPCIE_DEV_LLDMA_BIND_QUEUE by a file without a queue of its own.
  pub bind_queue-IsOwned :
      (from_user to_user : Bool) (io io' : IoctlQueue) (r : Ret) (f' : Private)
      → (w.files i).is_get_queue ≡ false
      → bind_queue from_user to_user w.dev (w.files i) io ≡ (r, f', io')
      → IsOwned (with_file w i w.dev f')
  bind_queue-IsOwned from_user to_user io io' r f' n a =
      quiet-IsOwned w i w.dev f' h
        (bind_queue-is_get_queue from_user to_user w.dev (w.files i) f' io io' r a ∙ n)
        (Keeps-same w i w.dev h (λ s c. refl))

  -- XPCIE_DEV_LLDMA_FREE_QUEUE of the file's own channel.
  free_put-IsOwned :
      (io : IoctlQueue) (r2 r : Ret) (d2 d' : Dev) (f' : Private) (side : Side)
      → Owns (w.files i) side io.chid
      → put_side io.dir ≡ some side
      → put_queue w.dev io ≡ some (r2, d2)
      → free_put (w.files i) (some (r2, d2)) ≡ some (r, d', f')
      → IsOwned (with_file w i d' f')
  unfolding free_put
  free_put-IsOwned io ok r d2 d' f' side o e p a = quiet-IsOwned w i d' f' h (ground arith) (
      Keeps-owned w i d' side io.chid h o (λ s c x.
        ap (λ y. queue_at s y c) (ground arith)
        ∙ put_others w.dev d2 io side ok e (h.near i side io.chid o) p s c x))
  free_put-IsOwned io (err n) r d2 d' f' side o e p a =
      elim (put_queue_outcome w.dev io side (err n) d2 e (h.near i side io.chid o) p) [
        | inl (q, rel) ↦ absurd (ground arith)
        | inr (m, q, same) ↦
            let ed : d' ≡ d2 = ground arith in
            let ef : f' ≡ w.files i = ground arith in rw (ed, ef) (same-IsOwned w i d2 h same)
      ]

  pub free_queue-IsOwned :
      (from_user : Bool) (io : IoctlQueue) (r : Ret) (d' : Dev) (f' : Private)
      → (w.files i).is_get_queue ≡ true
      → (w.files i).chid ≡ some io.chid
      → free_queue from_user w.dev (w.files i) io ≡ some (r, d', f')
      → IsOwned (with_file w i d' f')
  unfolding free_queue
  free_queue-IsOwned false io r d' f' g c a =
      let ed : d' ≡ w.dev = ground arith in
      let ef : f' ≡ w.files i = ground arith in rw (ed, ef) (same-IsOwned w i w.dev h (λ s c. refl))
  free_queue-IsOwned true io r d' f' g c a =
      elim (Bool-cases (is_kind (w.files i).que_kind io.dir)) [
        | inr k ↦
            let ed : d' ≡ w.dev = ground arith in
            let ef : f' ≡ w.files i = ground arith in
            rw (ed, ef) (same-IsOwned w i w.dev h (λ s c. refl))
        | inl k ↦ elim (Option-cases (put_queue w.dev io)) [
          | inl e ↦ absurd (ground arith)
          | inr ((r2, d2), e) ↦
              let (side, x, o) = h.whole i g in
              let own : Owns (w.files i) side io.chid = record {
                dir = o.dir;
                held = o.held;
                chid = c;
                kind = o.kind;
                side_of = o.side_of;
              } in
              free_put-IsOwned io r2 r d2 d' f' side own
                (put_side-is_kind (w.files i).que_kind o.dir io.dir o.kind k ∙ o.side_of) e
                (ground arith)
        ]
      ]

  -- The end of a file, whatever it holds: its number goes to a file that is opened later.
  pub release-IsOwned :
      (no_lock : Bool) (d' : Dev)
      → release w.dev (w.files i) ≡ some d'
      → IsOwned (with_file w i d' (open_file no_lock))
  unfolding release open_file
  release-IsOwned no_lock d' a = elim (Bool-cases (w.files i).is_get_queue) [
    | inr n ↦ unchanged-IsOwned w i d' (open_file no_lock) h refl (ground arith)
    | inl g ↦
        let (side, c, o) = h.whole i g in
        let (d2, p, rel) =
          release-Releases w.dev (w.files i) c o.dir side g o.chid o.kind o.side_of
            (h.near i side c o) in
        let ed : d' ≡ d2 = ground (arith, p) in
        rw ed (
          quiet-IsOwned w i d2 (open_file no_lock) h refl
            (Keeps-owned w i d2 side c h o rel.others))
  ]
