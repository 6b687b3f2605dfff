-- ===== src/Files/Owner/Reached.antt =====
-- The queues that files hold, over any sequence of calls.
use hardware_drivers.Prelude.{ℕ, ◌<◌, length, ◌≡◌, Bool, true, false, some, arith}
use hardware_drivers.Device.{Dev, Dir, Ret, max_queue_pair, connector_id_name_max}
use hardware_drivers.Lldma.Queue.{IoctlQueue}
use hardware_drivers.Files.{
  Private, open_file, IoctlConnect, alloc_queue, bind_queue, free_queue, alloc_connection,
  free_connection, release,
}
use hardware_drivers.Files.Owner.{World, with_file, IsOwned}
use hardware_drivers.Files.Owner.Returns.{Call, Returns, call-Returns}
use hardware_drivers.Files.Owner.Calls.{
  alloc_queue-IsOwned, bind_queue-IsOwned, free_queue-IsOwned, release-IsOwned,
}
use hardware_drivers.Files.Owner.Links.{alloc_connection-IsOwned, free_connection-IsOwned}

-- A `Call` on the file `i` that returned, with any result, and the world after it; a closed file's
-- number is that of a file which is opened later.
pub data Step (v : ℕ → ℕ) (w : World) : World → Type 0 where
  allocs :
      (i : ℕ) (from_user to_user : Bool) (io io' : IoctlQueue) (r : Ret) (d' : Dev) (f' : Private)
      → (w.files i).is_get_queue ≡ false
      → io.chid < max_queue_pair
      → length io.connector_id < connector_id_name_max
      → alloc_queue v from_user to_user w.dev (w.files i) io ≡ some (r, d', f', io')
      → Step v w (with_file w i d' f')
  binds :
      (i : ℕ) (from_user to_user : Bool) (io io' : IoctlQueue) (r : Ret) (f' : Private)
      → (w.files i).is_get_queue ≡ false
      → bind_queue from_user to_user w.dev (w.files i) io ≡ (r, f', io')
      → Step v w (with_file w i w.dev f')
  frees :
      (i : ℕ) (from_user : Bool) (io : IoctlQueue) (r : Ret) (d' : Dev) (f' : Private)
      → (w.files i).is_get_queue ≡ true
      → (w.files i).chid ≡ some io.chid
      → free_queue from_user w.dev (w.files i) io ≡ some (r, d', f')
      → Step v w (with_file w i d' f')
  connects :
      (i : ℕ) (base_addr : ℕ → ℕ) (garbage : Dir) (dev_id : ℕ) (from_user : Bool) (c : IoctlConnect)
      (r : Ret) (d' : Dev) (f' : Private)
      → (w.files i).is_get_queue ≡ false
      → c.self_chid < max_queue_pair
      → length c.connector_id < connector_id_name_max
      → alloc_connection v base_addr garbage dev_id from_user w.dev (w.files i) c ≡ some (r, d', f')
      → Step v w (with_file w i d' f')
  disconnects :
      (i : ℕ) (r : Ret) (d' : Dev) (f' : Private)
      → free_connection w.dev (w.files i) ≡ some (r, d', f')
      → Step v w (with_file w i d' f')
  closes :
      (i : ℕ) (no_lock : Bool) (d' : Dev)
      → release w.dev (w.files i) ≡ some d'
      → Step v w (with_file w i d' (open_file no_lock))

pub data Reach (v : ℕ → ℕ) (w : World) : World → Type 0 where
  start : Reach v w w
  step : {x y : World} → Reach v w x → Step v x y → Reach v w y

Step-IsOwned : {v : ℕ → ℕ} {w w' : World} → Step v w w' → IsOwned w → IsOwned w'
Step-IsOwned {v} {w} (allocs i a b io io' r d' f' n near short e) h =
    alloc_queue-IsOwned w h i v a b io io' r d' f' n e
Step-IsOwned {v} {w} (binds i a b io io' r f' n e) h = bind_queue-IsOwned w h i a b io io' r f' n e
Step-IsOwned {v} {w} (frees i a io r d' f' g c e) h = free_queue-IsOwned w h i a io r d' f' g c e
Step-IsOwned {v} {w} (connects i b g n a c r d' f' p near short e) h =
    alloc_connection-IsOwned w h i v b g n a c r d' f' p e
Step-IsOwned {v} {w} (disconnects i r d' f' e) h = free_connection-IsOwned w h i r d' f' e
Step-IsOwned {v} {w} (closes i no_lock d' e) h = release-IsOwned w h i no_lock d' e

Reach-IsOwned : {v : ℕ → ℕ} {w w' : World} → Reach v w w' → IsOwned w → IsOwned w'
Reach-IsOwned start h = h
Reach-IsOwned (step r s) h = Step-IsOwned s (Reach-IsOwned r h)

-- Where no file holds a queue.
pub none-IsOwned : (w : World) → ((i : ℕ) → (w.files i).is_get_queue ≡ false) → IsOwned w
none-IsOwned w n = record {
  whole = λ i g. absurd (ground (arith, n i));
  near = λ i s c o. absurd (ground (arith, n i, o.held));
  taken = λ i s c o. absurd (ground (arith, n i, o.held));
  alone = λ i j s c o p. absurd (ground (arith, n i, o.held));
}

-- From files that hold nothing, over any sequence of calls by any number of files, in any order, in
-- which a file gets or binds a queue only while it holds none, for a channel of the arrays and with
-- a connector id of less than 128 bytes, and frees only its own channel: each file that holds a
-- queue holds one of the arrays that is used, and no other file holds it; and every next call of
-- this kind returns, without touching memory outside the arrays.
pub Reach-exclusive :
    (v : ℕ → ℕ) (w w' : World) (c : Call w')
    → ((i : ℕ) → (w.files i).is_get_queue ≡ false)
    → Reach v w w'
    → IsOwned w' × Returns v w' c
Reach-exclusive v w w' c n r =
    let h = Reach-IsOwned r (none-IsOwned w n) in (h, call-Returns v w' c h)
