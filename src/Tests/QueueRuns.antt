-- ===== src/Tests/QueueRuns.antt =====
-- The theorems on the driver's queues at concrete devices.
use hardware_drivers.Prelude.{List, ◌∷◌, ◌≢◌, true, bytes_eq, ℕ, ◌≡◌, refl, arith, some, []}
use hardware_drivers.Device.{
  Dev, host_to_dev, Side, enq, deq, queue_at, free, ok, err, Errno, ebusy,
}
use hardware_drivers.Lldma.Channel.{stop_queue}
use hardware_drivers.Lldma.Queue.{
  IoctlQueue, ref_rx, scan_queue, scan_from, get_queue, get_queue_at, put_queue, ref_queue,
}
use hardware_drivers.Lldma.Queue.Exclusive.{Takes, get_queue-Takes, get_queue_twice}
use hardware_drivers.Lldma.Queue.Release.{Releases, put_queue-Releases}
use hardware_drivers.Lldma.Queue.Lookup.{Binds, ref_queue-Binds}
use hardware_drivers.Lldma.Tidy.{IsTidy}
use hardware_drivers.Lldma.Tidy.Runs.{Call, gets, puts, run_all, run_all-IsTidy}
use hardware_drivers.Tests.Samples.{phys, a_name, idle, taken, ask}

get_queue-Takes_example :
    (d' : Dev) × (get_queue phys idle ask ≡ some (ok, d', record ask { map_size = 32832 }))
    × Takes idle d' enq 1 a_name
unfolding queue_at
get_queue-Takes_example = get_queue-Takes phys idle ask enq refl (omega arith) (omega arith) refl

-- The device after the call of `ask`.
abbrev asked : Dev
unfolding get_queue_at
asked = (get_queue_at phys idle ask enq).1

get_queue_twice_example : get_queue phys asked ask ≡ some (err ebusy, asked, ask)
unfolding asked get_queue get_queue_at queue_at
get_queue_twice_example =
    get_queue_twice phys idle asked ask (record ask { map_size = 32832 }) ask enq refl (omega arith)
      (omega arith) refl refl refl (omega arith)

put_queue-Releases_example :
    ((stop_queue taken 1 host_to_dev).0 ≡ ok
      → (d' : Dev) × (put_queue taken ask ≡ some (ok, d')) × Releases taken d' enq 1)
    × ((e : Errno)
        → (stop_queue taken 1 host_to_dev).0 ≡ err e
        → (put_queue taken ask ≡ some (err e, (stop_queue taken 1 host_to_dev).1))
          × ((s : Side) (c : ℕ)
              → queue_at s (stop_queue taken 1 host_to_dev).1 c ≡ queue_at s taken c))
put_queue-Releases_example = put_queue-Releases taken ask enq refl (omega arith)

ref_queue-Binds_example : Binds taken ask (ref_queue taken ask)
ref_queue-Binds_example = ref_queue-Binds taken ask

idle_unnamed :
    (s : Side) (c : ℕ) → (queue_at s idle c).status ≡ free → (queue_at s idle c).connector_id ≡ []
unfolding queue_at
idle_unnamed enq c f = refl
idle_unnamed deq c f = refl

idle-IsTidy : IsTidy idle
idle-IsTidy = record { unnamed = idle_unnamed; channels = omega arith }

-- A queue is taken, asked for again and given back.
abbrev three_calls : List Call
three_calls =
    gets ask (omega arith) (omega arith)
    ∷ gets ask (omega arith) (omega arith)
    ∷ puts ask (omega arith)
    ∷ []

run_all-IsTidy_example : (d' : Dev) × (run_all phys idle three_calls ≡ some d') × IsTidy d'
run_all-IsTidy_example = run_all-IsTidy phys idle three_calls idle-IsTidy

taken_unnamed :
    (s : Side) (c : ℕ) → (queue_at s taken c).status ≡ free → (queue_at s taken c).connector_id ≡ []
unfolding queue_at
taken_unnamed enq c f = absurd (ground arith)
taken_unnamed deq c f = absurd (ground arith)

taken-IsTidy : IsTidy taken
taken-IsTidy = record { unnamed = taken_unnamed; channels = omega arith }

-- The binding of the first channel.
abbrev first_bound : IoctlQueue
first_bound = record { dir = host_to_dev; chid = 0; map_size = 32832; connector_id = a_name }

taken-scan : bytes_eq a_name a_name ≡ true → ref_queue taken ask ≡ (ok, first_bound)
unfolding ref_queue ref_rx scan_queue scan_from queue_at
taken-scan e = rw e refl

name_ne : a_name ≢ []
name_ne e = ground arith
