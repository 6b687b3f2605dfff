-- ===== src/Tests/ChainRuns.antt =====
-- The theorems on the function chain table and on the reference counts at concrete devices.
use hardware_drivers.Prelude.{ℕ, ◌≡◌, refl, arith, Option, some, [], true}
use hardware_drivers.Prelude.Int.{ℤ}
use hardware_drivers.Bus.{u32}
use hardware_drivers.Device.{Dev, free, ok}
use hardware_drivers.Chain.{
  FpgaId, egress, ingress_word, egress_word, decode_ingress, decode_egress, entry_at,
  update_func_chain_table, delete_func_chain_table,
}
use hardware_drivers.Chain.Word.{IsRequest, table_words_round_trip}
use hardware_drivers.Chain.Table.{IsOther}
use hardware_drivers.Chain.Deletion.{empty_entry, delete_after_update}
use hardware_drivers.Refcount.{control_refcount, write, all}
use hardware_drivers.Refcount.Lock.{readers, writer, IsHeld, control_refcount-lock_step}
use hardware_drivers.Tests.Samples.{board, queue_of, an_id, idle}

an_id-IsRequest : IsRequest an_id
an_id-IsRequest = record {
  cid = omega arith;
  fchid = omega arith;
  extif_id = omega arith;
  enable_flag = omega arith;
  active_flag = omega arith;
  direct_flag = omega arith;
  virtual_flag = omega arith;
  blocking_flag = omega arith;
}

-- A request with nothing in it.
abbrev blank : FpgaId
blank = record {
  lane = 1;
  extif_id = 0;
  cid = 0;
  fchid = 0;
  enable_flag = 0;
  active_flag = 0;
  direct_flag = 0;
  virtual_flag = 0;
  blocking_flag = 0;
}

table_words_round_trip_example :
    (decode_ingress blank (u32 (ingress_word an_id))
      ≡ record blank { fchid = 5; enable_flag = 1; active_flag = 0; direct_flag = 1 })
    × (decode_egress blank (u32 (egress_word an_id)) ≡ record blank {
      extif_id = 1;
      cid = 300;
      enable_flag = 1;
      active_flag = 0;
      virtual_flag = 0;
      blocking_flag = 1;
    })
table_words_round_trip_example = table_words_round_trip an_id blank an_id-IsRequest

-- An FPGA whose registers all hold 1 answers every request.
abbrev answering : Dev
answering = board (queue_of free []) 1

delete_after_update_example :
    (d1 : Dev) × (d2 : Dev) × (update_func_chain_table answering an_id egress ≡ some (ok, d1))
    × (delete_func_chain_table d1 an_id egress ≡ some (ok, d2, an_id))
    × (entry_at d2 1 5 egress ≡ empty_entry)
    × ((l f k : ℕ)
        → IsOther 1 5 egress l f k
        → d2.fch_dev_table l f k ≡ answering.fch_dev_table l f k)
delete_after_update_example = delete_after_update answering an_id egress refl refl (λ log. refl)

control_refcount-lock_step_example :
    (d' : Dev) × (out : Option ℤ) × (control_refcount idle write all true ≡ some (ok, d', out))
    × IsHeld d' writer
control_refcount-lock_step_example =
    control_refcount-lock_step idle (readers 0) write (omega arith) (λ lane h. refl) (omega arith)
