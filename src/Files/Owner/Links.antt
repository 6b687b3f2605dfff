-- ===== src/Files/Owner/Links.antt =====
-- What the ioctl commands on connections leave of the queues that files hold.
use hardware_drivers.Prelude.{
  ℕ, ◌<◌, ◌≡◌, refl, ap, sym, ◌∙◌, subst, Bool, true, false, Option, none, some, ◌⊎◌, inl, inr,
  Bool-cases, Option-cases, arith, ◌==◌, if◌then◌else◌,
}
use hardware_drivers.Device.{
  Dev, Dir, host_to_dev, dev_to_host, nw_to_dev, dev_to_nw, d2d_rx, d2d_tx, d2d_d_rx, d2d_d_tx,
  other_dir, Ret, ok, err, Errno, free, Side, queue_at, max_queue_pair, einval, ebusy,
}
use hardware_drivers.Lldma.Channel.{stop_queue}
use hardware_drivers.Lldma.Queue.{put_side}
use hardware_drivers.Lldma.Queue.Exclusive.{free_or_used}
use hardware_drivers.Lldma.Queue.Release.{Releases}
use hardware_drivers.Lldma.Connect.{Connection, connect_side, dev_connect, dev_disconnect}
use hardware_drivers.Lldma.Connect.Lifecycle.{
  Connects, dev_connect-Connects, dev_connect_busy, dev_connect_guards, dev_disconnect-Releases,
  selected,
}
use hardware_drivers.Files.{
  Private, owning, IoctlConnect, d2d_dir, connect_done, alloc_connection, disconnect_done,
  disconnect_bound, free_connection,
}
use hardware_drivers.Files.Owner.{
  World, with_file, Owns, IsOwned, quiet-IsOwned, gain-IsOwned, same-IsOwned, Keeps-free,
  Keeps-owned, unchanged-IsOwned,
}
use hardware_drivers.Files.Owner.Outcome.{Ret-cases}

-- A direction that can be connected goes back to the same array.
put_side_of_connect :
    (dir : Dir) (side : Side) → connect_side dir ≡ some side → put_side dir ≡ some side
put_side_of_connect host_to_dev side h = absurd (ground arith)
put_side_of_connect dev_to_host side h = absurd (ground arith)
put_side_of_connect nw_to_dev side h = absurd (ground arith)
put_side_of_connect dev_to_nw side h = absurd (ground arith)
put_side_of_connect d2d_rx side h = h
put_side_of_connect d2d_tx side h = h
put_side_of_connect d2d_d_rx side h = h
put_side_of_connect d2d_d_tx side h = h
put_side_of_connect other_dir side h = absurd (ground arith)

-- What a call that connects a channel found and did.
pub record Linked (d d' : Dev) (c : Connection) : Type 0 where
  pub side : Side
  pub kind : connect_side c.dir ≡ some side
  pub near : c.self_chid < max_queue_pair
  pub was_free : (queue_at side d c.self_chid).status ≡ free
  pub connects : Connects d d' side c.self_chid c.connector_id

-- The outcomes of `xpcie_fpga_dev_connect` that touch no memory outside the arrays.
dev_connect_outcome :
    (v : ℕ → ℕ) (d : Dev) (c : Connection) (r : Ret) (d' : Dev)
    → dev_connect v d c ≡ some (r, d')
    → ((r ≡ ok) × Linked d d' c) ⊎ ((e : Errno) × (r ≡ err e) × (d' ≡ d))
dev_connect_outcome v d c r d' h = elim (dev_connect_guards v d c) [
  | inl (n, e) ↦ inr (n, ground (arith, e), ground (arith, e))
  | inr (inl e) ↦ absurd (ground (arith, e))
  | inr (inr (side, e, near, short)) ↦ elim (free_or_used (queue_at side d c.self_chid).status) [
    | inr u ↦ inr (
      ebusy,
      ground (arith, dev_connect_busy v d c side e near short u),
      ground (arith, dev_connect_busy v d c side e near short u),
    )
    | inl f ↦
        let (d2, p, t) = dev_connect-Connects v d c side e near short f in
        inl (
          ground arith,
          record {
            side = side;
            kind = e;
            near = near;
            was_free = f;
            connects = subst (λ x. Connects d x side c.self_chid c.connector_id) (ground arith) t;
          },
        )
  ]
]

-- The outcomes of `xpcie_fpga_dev_disconnect` on a channel within the array.
dev_disconnect_outcome :
    (d : Dev) (chid : ℕ) (dir : Dir) (side : Side) (r : Ret) (d' : Dev)
    → put_side dir ≡ some side
    → chid < max_queue_pair
    → dev_disconnect d chid dir ≡ some (r, d')
    → ((r ≡ ok) × Releases d d' side chid)
      ⊎ ((e : Errno) × (r ≡ err e) × ((s : Side) (c : ℕ) → queue_at s d' c ≡ queue_at s d c))
dev_disconnect_outcome d chid dir side r d' e near h =
    let (gives, keeps) = dev_disconnect-Releases d chid dir side e near in
    elim (Ret-cases (stop_queue (selected d chid dir) chid dir).0) [
      | inl p ↦
          let (d2, q, rel) = gives p in
          inl (ground arith, subst (λ x. Releases d x side chid) (ground arith) rel)
      | inr (n, p) ↦
          let (q, same) = keeps n p in
          inr (n, ground arith, λ s c. ap (λ x. queue_at s x c) (ground arith) ∙ same s c)
    ]

none_of_disconnect_done :
    (f : Private) (x : Ret × Dev × Private) → disconnect_done f none ≡ some x → ⊥
unfolding disconnect_done
none_of_disconnect_done f x h = ground arith

-- The call by a file that holds a queue.
free_connection_held :
    (d : Dev) (f : Private) (chid : ℕ) (dir : Dir)
    → f.is_get_queue ≡ true
    → f.chid ≡ some chid
    → f.que_kind ≡ some dir
    → free_connection d f ≡ disconnect_done f (dev_disconnect d chid dir)
unfolding free_connection disconnect_bound
free_connection_held d f chid dir g c k =
    ap (λ (b : Bool). if b then disconnect_bound d f f.chid f.que_kind else some (err einval, d, f))
      g
    ∙ ap (λ (x : Option ℕ). disconnect_bound d f x f.que_kind) c
    ∙ ap (λ (x : Option Dir). disconnect_bound d f (some chid) x) k

none_of_connect_done :
    (f : Private) (chid : ℕ) (dir : Dir) (x : Ret × Dev × Private)
    → connect_done f chid dir none ≡ some x
    → ⊥
unfolding connect_done
none_of_connect_done f chid dir x h = ground arith

module _ (w : World) (h : IsOwned w) (i : ℕ) where
  connect_done-IsOwned :
      (v : ℕ → ℕ) (c : Connection) (r2 r : Ret) (d2 d' : Dev) (f' : Private)
      → (w.files i).is_get_queue ≡ false
      → dev_connect v w.dev c ≡ some (r2, d2)
      → connect_done (w.files i) c.self_chid c.dir (some (r2, d2)) ≡ some (r, d', f')
      → IsOwned (with_file w i d' f')
  unfolding connect_done
  connect_done-IsOwned v c (err n) r d2 d' f' g p a =
      elim (dev_connect_outcome v w.dev c (err n) d2 p) [
        | inl (q, l) ↦ absurd (ground arith)
        | inr (m, q, e) ↦ unchanged-IsOwned w i d' f' h (ground arith) (ground arith)
      ]
  connect_done-IsOwned v c ok r d2 d' f' g p a = elim (dev_connect_outcome v w.dev c ok d2 p) [
    | inr (m, q, e) ↦ absurd (ground arith)
    | inl (q, l) ↦
        let ed : d' ≡ d2 = ground arith in
        let ef : f' ≡ owning (w.files i) c.self_chid c.dir = ground arith in
        let o : Owns f' l.side c.self_chid = rw ef (record {
          dir = c.dir;
          held = refl;
          chid = refl;
          kind = refl;
          side_of = put_side_of_connect c.dir l.side l.kind;
        }) in
        rw ed (
          gain-IsOwned w i d2 f' l.side c.self_chid h o l.near l.was_free
            (ap (λ x. x.status) l.connects.made)
            (Keeps-free w i d2 l.side c.self_chid h l.was_free l.connects.others))
  ]

  -- XPCIE_DEV_LLDMA_ALLOC_CONNECTION by a file without a queue of its own.
  pub alloc_connection-IsOwned :
      (v base_addr : ℕ → ℕ) (garbage : Dir) (dev_id : ℕ) (from_user : Bool) (c : IoctlConnect)
      (r : Ret) (d' : Dev) (f' : Private)
      → (w.files i).is_get_queue ≡ false
      → alloc_connection v base_addr garbage dev_id from_user w.dev (w.files i) c ≡ some (r, d', f')
      → IsOwned (with_file w i d' f')
  unfolding alloc_connection
  alloc_connection-IsOwned v base_addr garbage dev_id false c r d' f' g a =
      unchanged-IsOwned w i d' f' h (ground arith) (ground arith)
  alloc_connection-IsOwned v base_addr garbage dev_id true c r d' f' g a =
      elim (Bool-cases (dev_id == c.peer_minor)) [
        | inl e ↦ unchanged-IsOwned w i d' f' h (ground arith) (ground arith)
        | inr e ↦ elim (Bool-cases (base_addr c.peer_minor == 0)) [
          | inl b ↦ unchanged-IsOwned w i d' f' h (ground arith) (ground arith)
          | inr b ↦
              let dir = d2d_dir garbage c.buf_addr c.self_dir in
              let k : Connection = record {
                self_chid = c.self_chid;
                peer_chid = c.peer_chid;
                dir = dir;
                peer_addr = base_addr c.peer_minor;
                buf_size = c.buf_size;
                buf_addr = c.buf_addr;
                connector_id = c.connector_id;
              } in
              elim (Option-cases (dev_connect v w.dev k)) [
                | inl x ↦ absurd (
                    none_of_connect_done (w.files i) k.self_chid dir (r, d', f')
                      (rw (e, b, x) at a))
                | inr ((r2, d2), x) ↦ connect_done-IsOwned v k r2 r d2 d' f' g x (rw (e, b, x) at a)
              ]
        ]
      ]

  disconnect_done-IsOwned :
      (chid : ℕ) (dir : Dir) (side : Side) (r2 r : Ret) (d2 d' : Dev) (f' : Private)
      → Owns (w.files i) side chid
      → put_side dir ≡ some side
      → dev_disconnect w.dev chid dir ≡ some (r2, d2)
      → disconnect_done (w.files i) (some (r2, d2)) ≡ some (r, d', f')
      → IsOwned (with_file w i d' f')
  unfolding disconnect_done
  disconnect_done-IsOwned chid dir side ok r d2 d' f' o e p a =
      elim (dev_disconnect_outcome w.dev chid dir side ok d2 e (h.near i side chid o) p) [
        | inr (m, q, same) ↦ absurd (ground arith)
        | inl (q, rel) ↦
            let ed : d' ≡ d2 = ground arith in
            rw ed (
              quiet-IsOwned w i d2 f' h (ground arith)
                (Keeps-owned w i d2 side chid h o rel.others))
      ]
  disconnect_done-IsOwned chid dir side (err n) r d2 d' f' o e p a =
      elim (dev_disconnect_outcome w.dev chid dir side (err n) d2 e (h.near i side chid o) p) [
        | inl (q, rel) ↦ absurd (ground arith)
        | inr (m, q, same) ↦
            let ed : d' ≡ d2 = ground arith in
            let ef : f' ≡ w.files i = ground arith in rw (ed, ef) (same-IsOwned w i d2 h same)
      ]

  -- XPCIE_DEV_LLDMA_FREE_CONNECTION by any file.
  pub free_connection-IsOwned :
      (r : Ret) (d' : Dev) (f' : Private)
      → free_connection w.dev (w.files i) ≡ some (r, d', f')
      → IsOwned (with_file w i d' f')
  unfolding free_connection disconnect_bound
  free_connection-IsOwned r d' f' a = elim (Bool-cases (w.files i).is_get_queue) [
    | inr n ↦ unchanged-IsOwned w i d' f' h (ground arith) (ground arith)
    | inl g ↦
        let (side, c, o) = h.whole i g in
        elim (Option-cases (dev_disconnect w.dev c o.dir)) [
          | inl x ↦ absurd (
              none_of_disconnect_done (w.files i) (r, d', f')
                (ap (disconnect_done (w.files i)) (sym x)
                  ∙ sym (free_connection_held w.dev (w.files i) c o.dir g o.chid o.kind)
                  ∙ a))
          | inr ((r2, d2), x) ↦ disconnect_done-IsOwned c o.dir side r2 r d2 d' f' o o.side_of x (
              ap (disconnect_done (w.files i)) (sym x)
              ∙ sym (free_connection_held w.dev (w.files i) c o.dir g o.chid o.kind)
              ∙ a)
        ]
  ]
