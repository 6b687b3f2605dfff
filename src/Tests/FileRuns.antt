-- ===== src/Tests/FileRuns.antt =====
-- The theorems on open files at devices whose queues are all free, or all used.
use hardware_drivers.Prelude.{
  ℕ, ◌≡◌, refl, arith, true, false, some, none, [], bytes_eq, bytes_eq_self,
}
use hardware_drivers.Device.{Dev, host_to_dev, ok, free, Side, enq, queue_at}
use hardware_drivers.Lldma.Channel.{stop_queue, wait_drain}
use hardware_drivers.Lldma.Queue.{
  IoctlQueue, get_queue, get_queue_at, ref_queue, ref_rx, scan_queue, scan_from,
}
use hardware_drivers.Lldma.Queue.Exclusive.{IsOther}
use hardware_drivers.Files.{
  Private, owning, bound, alloc_queue, alloc_got, bind_queue, bind_found, free_queue, release,
}
use hardware_drivers.Files.Close.{alloc_then_release}
use hardware_drivers.Files.Owner.{World, with_file, IsOwned}
use hardware_drivers.Files.Owner.Returns.{Call, allocs, Returns}
use hardware_drivers.Files.Owner.Reached.{Step, start, step, Reach-exclusive}
use hardware_drivers.Files.Slips.{release_after_bind, release_after_free}
use hardware_drivers.Tests.Samples.{phys, idle, taken, ask, a_name}

abbrev fresh_file : Private
fresh_file = record { chid = none; que_kind = none; is_get_queue = false; is_avail_rw = false }

-- The device after the allocation.
abbrev granted : Dev
unfolding get_queue_at
granted = (get_queue_at phys idle ask enq).1

allocated :
    alloc_queue phys true true idle fresh_file ask
    ≡ some (ok, granted, owning fresh_file 1 host_to_dev, record ask { map_size = 32832 })
unfolding alloc_queue alloc_got get_queue get_queue_at queue_at
allocated = refl

-- Files that hold nothing, and the same once the file 0 has allocated a queue.
abbrev opened : World
opened = record { dev = idle; files = λ i. fresh_file }

abbrev one_holds : World
one_holds = with_file opened 0 granted (owning fresh_file 1 host_to_dev)

-- Another file asks for the same queue.
abbrev asks_too : Call one_holds
asks_too = allocs 1 true true ask refl (omega arith) (omega arith)

Reach-exclusive_example : IsOwned one_holds × Returns phys one_holds asks_too
Reach-exclusive_example =
    Reach-exclusive phys opened one_holds asks_too (λ i. refl)
      (step start (
        Step.allocs 0 true true ask (record ask { map_size = 32832 }) ok granted
          (owning fresh_file 1 host_to_dev) refl (omega arith) (omega arith) allocated))

alloc_then_release_example :
    (side : Side) × (d2 : Dev) × (release granted (owning fresh_file 1 host_to_dev) ≡ some d2)
    × ((queue_at side d2 1).status ≡ free)
    × ((queue_at side d2 1).connector_id ≡ [])
    × ((s : Side) (c : ℕ) → IsOther side 1 s c → queue_at s d2 c ≡ queue_at s idle c)
alloc_then_release_example =
    alloc_then_release phys idle fresh_file ask granted (owning fresh_file 1 host_to_dev)
      (record ask { map_size = 32832 }) allocated

-- A file that owns the queue of the channel 1 and binds a name that the channel 0 has.
abbrev owner : Private
owner = owning fresh_file 1 host_to_dev

abbrev found : IoctlQueue
found = record { dir = host_to_dev; chid = 0; map_size = 32832; connector_id = a_name }

binds :
    bytes_eq a_name a_name ≡ true
    → bind_queue true true taken owner ask ≡ (ok, bound owner 0 host_to_dev, found)
unfolding bind_queue bind_found ref_queue ref_rx scan_queue scan_from queue_at
binds e = rw e refl

release_after_bind_example :
    (d' : Dev) × (release taken (bound owner 0 host_to_dev) ≡ some d')
    × ((queue_at enq d' 0).status ≡ free)
    × ((s : Side) (c : ℕ) → IsOther enq 0 s c → queue_at s d' c ≡ queue_at s taken c)
release_after_bind_example =
    release_after_bind taken owner (bound owner 0 host_to_dev) ask found enq refl
      (binds (bytes_eq_self a_name)) refl (omega arith)

-- The same file frees the queue of the channel 2.
abbrev other : IoctlQueue
other = record ask { chid = 2 }

drains : (stop_queue taken 2 host_to_dev).0 ≡ ok
unfolding stop_queue wait_drain
drains = refl

release_after_free_example :
    (d' : Dev) × (f' : Private) × (free_queue true taken owner other ≡ some (ok, d', f'))
    × (release d' f' ≡ some d')
    × ((queue_at enq d' 2).status ≡ free)
    × ((s : Side) (c : ℕ) → IsOther enq 2 s c → queue_at s d' c ≡ queue_at s taken c)
release_after_free_example = release_after_free taken owner other enq refl refl (omega arith) drains
