-- ===== src/Tests/WorkerRuns.antt =====
-- Two processes that enqueue at the same time on a ring of four descriptors.
use hardware_drivers.Prelude.{[], ◌∷◌, ◌<◌, ◌⊎◌, ◌≡◌, refl, arith}
use hardware_drivers.Ring.Workers.Alone.{written, alone-Holds}
use hardware_drivers.Ring.Fifo.{Holds}
use hardware_drivers.Ring.Workers.{
  finished, full, alone, World, begin, Run, stop, step, works, work, access,
}
use hardware_drivers.Ring.Workers.Apart.{Exclusive, Run-Exclusive}
use hardware_drivers.Tests.Samples.{a_ring, a_command}

abbrev two_callers : World
two_callers = record {
  que = a_ring;
  worker = λ i. begin;
  command = λ i. a_command;
  dst_pa64 = λ i. 0x8000;
  age = λ i. 0;
}

-- Both read the head and see that the descriptor is free; the first then moves the head.
abbrev contended : World
contended = work (work (work (work (work two_callers 0) 1) 0) 1) 0

contended-Run : Run two_callers contended
unfolding work access
contended-Run =
    step
      (step
        (step (step (step stop (works 0) (λ i k p. ground arith)) (works 1) (λ i k p. ground arith))
          (works 0) (λ i k p. ground arith))
        (works 1) (λ i k p. ground arith))
      (works 0) (λ i k p. ground arith)

Run-Exclusive_example : Exclusive contended
Run-Exclusive_example =
    Run-Exclusive two_callers contended
      (record { size = omega arith; head = omega arith; out = λ i. refl }) contended-Run

-- One process alone on an empty ring.
empty_Holds : Holds a_ring []
empty_Holds = record {
  sized = omega arith;
  head = omega arith;
  fits = omega arith;
  tail = refl;
  slots = λ k b. refl;
  live = tt;
}

alone-Holds_example :
    ((0 < a_ring.size)
      × ((alone 6 a_command 0x8000 a_ring begin).1 ≡ finished a_ring.writehead)
      × Holds (alone 6 a_command 0x8000 a_ring begin).0 (written a_command 0x8000 ∷ []))
    ⊎ ((0 ≡ a_ring.size) × (alone 6 a_command 0x8000 a_ring begin ≡ (a_ring, full)))
alone-Holds_example =
    alone-Holds a_command 0x8000 a_ring [] empty_Holds (λ e. absurd (omega (arith, e)))
