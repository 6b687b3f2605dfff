-- ===== src/Files/Owner/Returns.antt =====
-- The calls on open files that touch no memory outside the arrays, and so return.
use hardware_drivers.Prelude.{
  ℕ, ◌<◌, ◌≡◌, refl, ◌∙◌, Bool, true, false, some, length, inl, inr, Bool-cases, arith,
}
use hardware_drivers.Device.{Dev, Dir, Ret, err, einval, max_queue_pair, connector_id_name_max}
use hardware_drivers.Lldma.Queue.{IoctlQueue}
use hardware_drivers.Lldma.Connect.{dev_disconnect}
use hardware_drivers.Lldma.Tidy.Runs.{dev_disconnect-returns}
use hardware_drivers.Files.{
  Private, IoctlConnect, alloc_queue, bind_queue, free_queue, alloc_connection, free_connection,
  disconnect_bound, disconnect_done, release,
}
use hardware_drivers.Files.Close.{release-Releases}
use hardware_drivers.Files.Owner.{World, IsOwned}
use hardware_drivers.Files.Returns.{
  alloc_queue-returns, free_queue-returns, alloc_connection-returns, disconnect_done-returns,
}

-- A call on the file `i` of a world. A file gets or binds a queue only while it holds none, and it
-- frees its own channel; the channel of a queue that is got is one of the arrays, and its connector
-- id fits with its end into the queue's. The driver tests none of this.
pub data Call (w : World) : Type 0 where
  allocs :
      (i : ℕ) (from_user to_user : Bool) (io : IoctlQueue)
      → (w.files i).is_get_queue ≡ false
      → io.chid < max_queue_pair
      → length io.connector_id < connector_id_name_max
      → Call w
  binds :
      (i : ℕ) (from_user to_user : Bool) (io : IoctlQueue)
      → (w.files i).is_get_queue ≡ false
      → Call w
  frees :
      (i : ℕ) (from_user : Bool) (io : IoctlQueue)
      → (w.files i).is_get_queue ≡ true
      → (w.files i).chid ≡ some io.chid
      → Call w
  connects :
      (i : ℕ) (base_addr : ℕ → ℕ) (garbage : Dir) (dev_id : ℕ) (from_user : Bool) (c : IoctlConnect)
      → (w.files i).is_get_queue ≡ false
      → c.self_chid < max_queue_pair
      → length c.connector_id < connector_id_name_max
      → Call w
  disconnects : (i : ℕ) → Call w
  closes : (i : ℕ) (no_lock : Bool) → Call w

held_connection :
    (d : Dev) (f : Private) (c : ℕ) (dir : Dir)
    → f.is_get_queue ≡ true
    → f.chid ≡ some c
    → f.que_kind ≡ some dir
    → free_connection d f ≡ disconnect_done f (dev_disconnect d c dir)
unfolding free_connection disconnect_bound
held_connection d f c dir g e k = ground arith

module _ (w : World) (h : IsOwned w) where
  own_chid_near :
      (i chid : ℕ)
      → (w.files i).is_get_queue ≡ true
      → (w.files i).chid ≡ some chid
      → chid < max_queue_pair
  own_chid_near i chid g e =
      let (side, c, o) = h.whole i g in
      let near = h.near i side c o in
      let same : c ≡ chid = ground (arith, o.chid, e) in omega (arith, near, same)

  free_connection-returns :
      (i : ℕ)
      → (r : Ret) × (d' : Dev) × (f' : Private) × (free_connection w.dev (w.files i)
          ≡ some (r, d', f'))
  unfolding free_connection
  free_connection-returns i = elim (Bool-cases (w.files i).is_get_queue) [
    | inr n ↦ (err einval, w.dev, w.files i, rw n refl)
    | inl g ↦
        let (side, c, o) = h.whole i g in
        let (r, e, p) = dev_disconnect-returns w.dev c o.dir (h.near i side c o) in
        let (r', e', f', q) = disconnect_done-returns (w.files i) _ r e p in
        (r', e', f', held_connection w.dev (w.files i) c o.dir g o.chid o.kind ∙ q)
  ]

  -- A file of an owned world can be closed.
  release-returns : (i : ℕ) → (d' : Dev) × (release w.dev (w.files i) ≡ some d')
  unfolding release
  release-returns i = elim (Bool-cases (w.files i).is_get_queue) [
    | inr n ↦ (w.dev, ground arith)
    | inl g ↦
        let (side, c, o) = h.whole i g in
        let (d', p, rel) =
          release-Releases w.dev (w.files i) c o.dir side g o.chid o.kind o.side_of
            (h.near i side c o) in
        (d', p)
  ]

-- What it means for a call to return.
pub Returns : (ℕ → ℕ) → (w : World) → Call w → Type 0
Returns v w (allocs i from_user to_user io n near short) =
    (r : Ret) × (d' : Dev) × (f' : Private) × (io' : IoctlQueue) × (alloc_queue v from_user to_user
        w.dev (w.files i) io
      ≡ some (r, d', f', io'))
Returns v w (binds i from_user to_user io n) =
    (r : Ret) × (f' : Private) × (io' : IoctlQueue) × (bind_queue from_user to_user w.dev
        (w.files i) io
      ≡ (r, f', io'))
Returns v w (frees i from_user io g c) =
    (r : Ret) × (d' : Dev) × (f' : Private) × (free_queue from_user w.dev (w.files i) io
      ≡ some (r, d', f'))
Returns v w (connects i base_addr garbage dev_id from_user c n near short) =
    (r : Ret) × (d' : Dev) × (f' : Private) × (alloc_connection v base_addr garbage dev_id from_user
        w.dev (w.files i) c
      ≡ some (r, d', f'))
Returns v w (disconnects i) =
    (r : Ret) × (d' : Dev) × (f' : Private) × (free_connection w.dev (w.files i) ≡ some (r, d', f'))
Returns v w (closes i no_lock) = (d' : Dev) × (release w.dev (w.files i) ≡ some d')

pub call-Returns : (v : ℕ → ℕ) (w : World) (c : Call w) → IsOwned w → Returns v w c
unfolding Returns
call-Returns v w (allocs i a b io n near short) h =
    alloc_queue-returns v a b w.dev (w.files i) io near short
call-Returns v w (binds i a b io n) h = (_, _, _, refl)
call-Returns v w (frees i a io g c) h =
    free_queue-returns a w.dev (w.files i) io (own_chid_near w h i io.chid g c)
call-Returns v w (connects i b g n a c e near short) h =
    alloc_connection-returns v b g n a w.dev (w.files i) c near short
call-Returns v w (disconnects i) h = free_connection-returns w h i
call-Returns v w (closes i no_lock) h = release-returns w h i
