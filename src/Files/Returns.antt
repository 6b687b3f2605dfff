-- ===== src/Files/Returns.antt =====
-- The calls on one open file, for a channel of the arrays and a connector id that fits, return.
use hardware_drivers.Prelude.{
  ℕ, ◌<◌, ◌≡◌, refl, Bool, true, false, Option, some, length, inl, inr, Bool-cases, Option-cases,
  arith, ◌==◌,
}
use hardware_drivers.Device.{
  Dev, Dir, Ret, ok, err, efault, ebusy, einval, max_queue_pair, connector_id_name_max,
}
use hardware_drivers.Lldma.Channel.{stop_queue}
use hardware_drivers.Lldma.Queue.{IoctlQueue, get_side, get_queue, get_queue_at, put_queue}
use hardware_drivers.Lldma.Queue.Exclusive.{get_queue_lem}
use hardware_drivers.Lldma.Connect.{Connection}
use hardware_drivers.Lldma.Tidy.Runs.{put_stopped-returns, dev_connect-returns}
use hardware_drivers.Files.{
  Private, owning, unbound, IoctlConnect, d2d_dir, is_kind, alloc_queue, alloc_got, free_queue,
  free_put, alloc_connection, connect_done, disconnect_done,
}

alloc_got-returns :
    (to_user : Bool) (f : Private) (r : Ret) (d : Dev) (io : IoctlQueue)
    → io.chid < max_queue_pair
    → (r' : Ret) × (d' : Dev) × (f' : Private) × (io' : IoctlQueue) × (alloc_got to_user f
          (r, d, io)
        ≡ some (r', d', f', io'))
unfolding alloc_got put_queue
alloc_got-returns to_user f (err e) d io near = (err e, d, f, io, refl)
alloc_got-returns true f ok d io near = (_, _, _, _, refl)
alloc_got-returns false f ok d io near =
    let (r, d', p) = put_stopped-returns (stop_queue d io.chid io.dir) io.chid io.dir near in
    (err efault, d', f, io, rw (p, alloc_got) refl)

got_same_chid :
    (v : ℕ → ℕ) (d : Dev) (io : IoctlQueue)
    → io.chid < max_queue_pair
    → length io.connector_id < connector_id_name_max
    → (r : Ret) × (d' : Dev) × (io' : IoctlQueue) × (get_queue v d io ≡ some (r, d', io'))
      × (io'.chid ≡ io.chid)
unfolding get_queue get_queue_at
got_same_chid v d io near short = elim (Option-cases (get_side io.dir)) [
  | inl e ↦ (err einval, d, io, ground arith, refl)
  | inr (side, e) ↦
      let x = get_queue_at v d io side in
      (x.0, x.1, x.2, get_queue_lem v d io side e near short, ground arith)
]

pub alloc_queue-returns :
    (v : ℕ → ℕ) (from_user to_user : Bool) (d : Dev) (f : Private) (io : IoctlQueue)
    → io.chid < max_queue_pair
    → length io.connector_id < connector_id_name_max
    → (r : Ret) × (d' : Dev) × (f' : Private) × (io' : IoctlQueue) × (alloc_queue v from_user
          to_user d f io
        ≡ some (r, d', f', io'))
unfolding alloc_queue
alloc_queue-returns v false to_user d f io near short = (_, _, _, _, refl)
alloc_queue-returns v true to_user d f io near short =
    let (r, d', io', p, c) = got_same_chid v d io near short in
    let (r', e, f', io2, q) = alloc_got-returns to_user f r d' io' (omega (arith, c)) in
    (r', e, f', io2, rw (p, alloc_queue) q)

free_put-returns :
    (f : Private) (o : Option (Ret × Dev)) (r : Ret) (d : Dev)
    → o ≡ some (r, d)
    → (r' : Ret) × (d' : Dev) × (f' : Private) × (free_put f o ≡ some (r', d', f'))
unfolding free_put
free_put-returns f o (err e) d p = (err ebusy, d, f, rw (p, free_put) refl)
free_put-returns f o ok d p = (ok, d, unbound f, rw (p, free_put) refl)

pub free_queue-returns :
    (from_user : Bool) (d : Dev) (f : Private) (io : IoctlQueue)
    → io.chid < max_queue_pair
    → (r : Ret) × (d' : Dev) × (f' : Private) × (free_queue from_user d f io ≡ some (r, d', f'))
unfolding free_queue put_queue
free_queue-returns false d f io near = (_, _, _, refl)
free_queue-returns true d f io near = elim (Bool-cases (is_kind f.que_kind io.dir)) [
  | inr n ↦ (err ebusy, d, f, rw n refl)
  | inl b ↦
      let (r, d', p) = put_stopped-returns (stop_queue d io.chid io.dir) io.chid io.dir near in
      let (r', e, f', q) = free_put-returns f _ r d' p in (r', e, f', rw b q)
]

connect_done-returns :
    (f : Private) (chid : ℕ) (dir : Dir) (o : Option (Ret × Dev)) (r : Ret) (d : Dev)
    → o ≡ some (r, d)
    → (r' : Ret) × (d' : Dev) × (f' : Private) × (connect_done f chid dir o ≡ some (r', d', f'))
unfolding connect_done
connect_done-returns f chid dir o (err e) d p = (err e, d, f, rw (p, connect_done) refl)
connect_done-returns f chid dir o ok d p = (ok, d, owning f chid dir, rw (p, connect_done) refl)

pub alloc_connection-returns :
    (v base_addr : ℕ → ℕ) (garbage : Dir) (dev_id : ℕ) (from_user : Bool) (d : Dev) (f : Private)
    (c : IoctlConnect)
    → c.self_chid < max_queue_pair
    → length c.connector_id < connector_id_name_max
    → (r : Ret) × (d' : Dev) × (f' : Private) × (alloc_connection v base_addr garbage dev_id
          from_user d f c
        ≡ some (r, d', f'))
unfolding alloc_connection
alloc_connection-returns v base_addr garbage dev_id false d f c near short = (_, _, _, refl)
alloc_connection-returns v base_addr garbage dev_id true d f c near short =
    elim (Bool-cases (dev_id == c.peer_minor)) [
      | inl own ↦ (err einval, d, f, rw own refl)
      | inr other ↦ elim (Bool-cases (base_addr c.peer_minor == 0)) [
        | inl gone ↦ (err einval, d, f, rw (other, gone) refl)
        | inr there ↦
            let dir = d2d_dir garbage c.buf_addr c.self_dir in
            let k : Connection = record {
              self_chid = c.self_chid;
              peer_chid = c.peer_chid;
              dir = dir;
              peer_addr = base_addr c.peer_minor;
              buf_size = c.buf_size;
              buf_addr = c.buf_addr;
              connector_id = c.connector_id;
            } in
            let (r, e, p) = dev_connect-returns v d k near short in
            let (r', e', f', q) = connect_done-returns f c.self_chid dir _ r e p in
            (r', e', f', rw (other, there) q)
      ]
    ]

pub disconnect_done-returns :
    (f : Private) (o : Option (Ret × Dev)) (r : Ret) (d : Dev)
    → o ≡ some (r, d)
    → (r' : Ret) × (d' : Dev) × (f' : Private) × (disconnect_done f o ≡ some (r', d', f'))
unfolding disconnect_done
disconnect_done-returns f o (err e) d p = (err e, d, f, rw (p, disconnect_done) refl)
disconnect_done-returns f o ok d p = (ok, d, unbound f, rw (p, disconnect_done) refl)
