-- ===== src/Chain/Ddr/Kept.antt =====
-- What the offsets in DDR memory read back as once they are set.
use hardware_drivers.Prelude.{
  ℕ, ◌*◌, ◌^◌, ◌≡◌, refl, ap, ◌∙◌, Bool, true, false, some, List, arith, if◌then◌else◌,
}
use hardware_drivers.Device.{Dev}
use hardware_drivers.Chain.Stats.{ChainDdr, read_ddr, get_ddr_offset_frame}
use hardware_drivers.Chain.Ddr.{nw_base_h, nw_words, lldma_words, write_words, set_ddr_offset_frame}
use hardware_drivers.Chain.Ddr.Memory.{
  written, AllInside, write_words-Shows, report, read_ddr-Shows, IsMemory, place,
}

-- What the driver sets: the buffers of the network interface, and of the interface to the host.
abbrev pub nw_ddr : ℕ → ChainDdr
nw_ddr lane = record {
  base = nw_base_h lane * 2 ^ 32;
  rx_offset = 0x0;
  rx_stride = 0x200000;
  rx_size = 0xA;
  tx_offset = 0x100000;
  tx_stride = 0x200000;
  tx_size = 0xA;
}

abbrev pub lldma_ddr : ChainDdr
lldma_ddr = record {
  base = 0x0;
  rx_offset = 0x0;
  rx_stride = 0x100000;
  rx_size = 0xA;
  tx_offset = 0x2000000;
  tx_stride = 0x100000;
  tx_size = 0xA;
}

report-nw_words :
    (first lane : ℕ) (f : ℕ → ℕ) → report first lane (written (nw_words lane) f) ≡ nw_ddr lane
report-nw_words first lane f = ground arith

report-lldma_words :
    (first lane : ℕ) (f : ℕ → ℕ) → report first lane (written lldma_words f) ≡ lldma_ddr
report-lldma_words first lane f = refl

-- What the registers of an interface hold.
abbrev before : Dev → ℕ → ℕ → ℕ → ℕ
before d first lane j = d.bus.answer d.bus.log (place d first lane j)

-- A report of an interface after its words were written.
report-written :
    (first lane : ℕ) (d : Dev) (words : List (ℕ × ℕ))
    → IsMemory d first lane
    → AllInside words
    → (read_ddr (write_words d first lane words) first lane).0
      ≡ report first lane (written words (before d first lane))
report-written first lane d words m a =
    let (m', s) = write_words-Shows first lane d words (before d first lane) m a (λ j p. refl) in
    read_ddr-Shows first lane (write_words d first lane words) (written words (before d first lane))
      m' s

inside : AllInside lldma_words
inside = ground arith

inside_nw : (lane : ℕ) → AllInside (nw_words lane)
inside_nw lane = ground arith

-- Where the registers of an interface keep what was written, the report of the DDR buffers after
-- they were set shows, whatever the registers held before, the buffers of the network for one
-- interface and those of the host for the other: the network is interface 1, and interface 0 if the
-- driver was built with EXTIFINV.
pub ddr_offset_frame_kept :
    (extifinv : Bool) (d : Dev) (lane : ℕ)
    → IsMemory d 0x100 lane
    → IsMemory d 0x140 lane
    → ((get_ddr_offset_frame (set_ddr_offset_frame extifinv d 0 lane) 0 lane).0
        ≡ some (if extifinv then nw_ddr lane else lldma_ddr))
      × ((get_ddr_offset_frame (set_ddr_offset_frame extifinv d 1 lane) 1 lane).0
          ≡ some (if extifinv then lldma_ddr else nw_ddr lane))
unfolding get_ddr_offset_frame set_ddr_offset_frame
ddr_offset_frame_kept true d lane m0 m1 = (
  ap some (
      report-written 0x100 lane d (nw_words lane) m0 (inside_nw lane)
      ∙ report-nw_words 0x100 lane (before d 0x100 lane)),
  ap some (
      report-written 0x140 lane d lldma_words m1 inside
      ∙ report-lldma_words 0x140 lane (before d 0x140 lane)),
)
ddr_offset_frame_kept false d lane m0 m1 = (
  ap some (
      report-written 0x100 lane d lldma_words m0 inside
      ∙ report-lldma_words 0x100 lane (before d 0x100 lane)),
  ap some (
      report-written 0x140 lane d (nw_words lane) m1 (inside_nw lane)
      ∙ report-nw_words 0x140 lane (before d 0x140 lane)),
)
