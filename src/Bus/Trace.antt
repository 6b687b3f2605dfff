-- ===== src/Bus/Trace.antt =====
-- The writes of a register log, oldest first, and the value that a register was last given.
use hardware_drivers.Prelude.{ℕ, Option, none, some, List, [], ◌∷◌, ◌==◌, if◌then◌else◌}
use hardware_drivers.Bus.{Access, load, store}

-- What a register holds if the FPGA keeps what is written to it.
unfoldable pub last_write : ℕ → List Access → Option ℕ
last_write r [] = none
last_write r (load _ ∷ log) = last_write r log
last_write r (store a v ∷ log) = if a == r then some v else last_write r log
