-- ===== src/Chain/Ddr/Memory.antt =====
-- Registers that keep what was written to them: what a report of an interface shows.
use hardware_drivers.Prelude.{
  ℕ, ◌+◌, ◌*◌, ◌%◌, ◌^◌, ◌<◌, ◌≡◌, ◌≢◌, refl, ap, ◌∙◌, Bool-cases, List, [], ◌∷◌, inl, inr, arith,
  ◌==◌, if◌then◌else◌,
}
use native.Mathlib.Nat.{add-zero}
use hardware_drivers.Bus.{Access, load, store, u32}
use hardware_drivers.Device.{Dev, chain_reg_read, chain_reg_write}
use hardware_drivers.Prelude.Bits.{bit_or_disjoint}
use hardware_drivers.Chain.Stats.{ChainDdr, read_pair, read_ddr}
use hardware_drivers.Chain.Ddr.{write_words}

-- The register `k` of an interface.
abbrev pub place : Dev → ℕ → ℕ → ℕ → ℕ
place d first lane k = u32 (d.chain.base + d.chain.len * lane + (first + k))

-- The registers of an interface keep what was written to them last.
pub record IsMemory (d : Dev) (first lane : ℕ) : Type 0 where
  pub stored :
      (log : List Access) (k v : ℕ)
      → k < 0x30
      → d.bus.answer (store (place d first lane k) v ∷ log) (place d first lane k) ≡ v
  pub kept :
      (log : List Access) (j k v : ℕ)
      → j < 0x30
      → k < 0x30
      → j ≢ k
      → d.bus.answer (store (place d first lane k) v ∷ log) (place d first lane j)
        ≡ d.bus.answer log (place d first lane j)
  pub loaded :
      (log : List Access) (j k : ℕ)
      → j < 0x30
      → k < 0x30
      → d.bus.answer (load (place d first lane k) ∷ log) (place d first lane j)
        ≡ d.bus.answer log (place d first lane j)

-- The registers show the words `f`.
abbrev pub Shows : Dev → ℕ → ℕ → (ℕ → ℕ) → Type 0
Shows d first lane f = (j : ℕ) → j < 0x30 → d.bus.answer d.bus.log (place d first lane j) ≡ f j

-- The words after some more were written.
abbrev pub put_word : ℕ → ℕ → (ℕ → ℕ) → ℕ → ℕ
put_word k v f j = if k == j then u32 v else f j

abbrev pub written : List (ℕ × ℕ) → (ℕ → ℕ) → ℕ → ℕ
written [] f = f
written ((k, v) ∷ words) f = written words (put_word k v f)

abbrev pub AllInside : List (ℕ × ℕ) → Type 0
AllInside [] = Unit {0}
AllInside ((k, v) ∷ words) = (k < 0x30) × AllInside words

module _ (first lane : ℕ) where
  chain_reg_write-IsMemory :
      (d : Dev) (offset l v : ℕ)
      → IsMemory d first lane
      → IsMemory (chain_reg_write d offset l v) first lane
  unfolding chain_reg_write
  chain_reg_write-IsMemory d offset l v m = record {
    stored = m.stored;
    kept = m.kept;
    loaded = m.loaded;
  }

  chain_reg_read-IsMemory :
      (d : Dev) (offset l : ℕ)
      → IsMemory d first lane
      → IsMemory (chain_reg_read d offset l).1 first lane
  unfolding chain_reg_read
  chain_reg_read-IsMemory d offset l m = record {
    stored = m.stored;
    kept = m.kept;
    loaded = m.loaded;
  }

  chain_reg_write-Shows :
      (d : Dev) (k v : ℕ) (f : ℕ → ℕ)
      → IsMemory d first lane
      → k < 0x30
      → Shows d first lane f
      → Shows (chain_reg_write d (first + k) lane v) first lane (put_word k v f)
  unfolding chain_reg_write
  chain_reg_write-Shows d k v f m p s j q = elim (Bool-cases (k == j)) [
    | inl e ↦ ground (arith, m.stored d.bus.log k (u32 v) p)
    | inr e ↦ rw e (m.kept d.bus.log j k (u32 v) q p (λ x. ground arith) ∙ s j q)
  ]

  chain_reg_read-Shows :
      (d : Dev) (k : ℕ) (f : ℕ → ℕ)
      → IsMemory d first lane
      → k < 0x30
      → Shows d first lane f
      → Shows (chain_reg_read d (first + k) lane).1 first lane f
        × ((chain_reg_read d (first + k) lane).0 ≡ u32 (f k))
  unfolding chain_reg_read
  chain_reg_read-Shows d k f m p s = (λ j q. m.loaded d.bus.log j k q p ∙ s j q, ap u32 (s k p))

  pub write_words-Shows :
      (d : Dev) (words : List (ℕ × ℕ)) (f : ℕ → ℕ)
      → IsMemory d first lane
      → AllInside words
      → Shows d first lane f
      → IsMemory (write_words d first lane words) first lane
        × Shows (write_words d first lane words) first lane (written words f)
  unfolding write_words
  write_words-Shows d [] f m a s = (m, s)
  write_words-Shows d ((k, v) ∷ words) f m a s =
      write_words-Shows (chain_reg_write d (first + k) lane v) words (put_word k v f)
        (chain_reg_write-IsMemory d (first + k) lane v m) a.1
        (chain_reg_write-Shows d k v f m a.0 s)

  read_pair-Shows :
      (d : Dev) (k l : ℕ) (f : ℕ → ℕ)
      → IsMemory d first lane
      → k < 0x30
      → l < 0x30
      → Shows d first lane f
      → IsMemory (read_pair d (first + k) (first + l) lane).1 first lane
        × Shows (read_pair d (first + k) (first + l) lane).1 first lane f
        × ((read_pair d (first + k) (first + l) lane).0 ≡ u32 (f k) + u32 (f l) * 2 ^ 32)
  unfolding read_pair
  read_pair-Shows d k l f m p q s =
      let a = chain_reg_read-Shows d k f m p s in
      let d1 = (chain_reg_read d (first + k) lane).1 in
      let m1 = chain_reg_read-IsMemory d (first + k) lane m in
      let b = chain_reg_read-Shows d1 l f m1 q a.0 in
      (
        chain_reg_read-IsMemory d1 (first + l) lane m1,
        b.0,
        rw (a.1, b.1) (bit_or_disjoint 32 (u32 (f k)) (u32 (f l)) (omega arith)),
      )

  -- The report of registers that show the words `f`.
  abbrev pub report : (ℕ → ℕ) → ChainDdr
  report f = record {
    base = u32 (f 0x0) + u32 (f 0x4) * 2 ^ 32;
    rx_offset = u32 (f 0x10) + u32 (f 0x14) * 2 ^ 32;
    rx_stride = u32 (f 0x18);
    rx_size = u32 (f 0x1C) % 2 ^ 4;
    tx_offset = u32 (f 0x20) + u32 (f 0x24) * 2 ^ 32;
    tx_stride = u32 (f 0x28);
    tx_size = u32 (f 0x2C) % 2 ^ 4;
  }

  pub read_ddr-Shows :
      (d : Dev) (f : ℕ → ℕ)
      → IsMemory d first lane
      → Shows d first lane f
      → (read_ddr d first lane).0 ≡ report f
  unfolding read_ddr
  read_ddr-Shows d f m s =
      let (m1, s1, e1) =
        rw (add-zero first) at (read_pair-Shows d 0x0 0x4 f m (omega arith) (omega arith) s) in
      let d1 = (read_pair d first (first + 0x4) lane).1 in
      let (m2, s2, e2) = read_pair-Shows d1 0x10 0x14 f m1 (omega arith) (omega arith) s1 in
      let d2 = (read_pair d1 (first + 0x10) (first + 0x14) lane).1 in
      let (s3, e3) = chain_reg_read-Shows d2 0x18 f m2 (omega arith) s2 in
      let d3 = (chain_reg_read d2 (first + 0x18) lane).1 in
      let m3 = chain_reg_read-IsMemory d2 (first + 0x18) lane m2 in
      let (s4, e4) = chain_reg_read-Shows d3 0x1C f m3 (omega arith) s3 in
      let d4 = (chain_reg_read d3 (first + 0x1C) lane).1 in
      let m4 = chain_reg_read-IsMemory d3 (first + 0x1C) lane m3 in
      let (m5, s5, e5) = read_pair-Shows d4 0x20 0x24 f m4 (omega arith) (omega arith) s4 in
      let d5 = (read_pair d4 (first + 0x20) (first + 0x24) lane).1 in
      let (s6, e6) = chain_reg_read-Shows d5 0x28 f m5 (omega arith) s5 in
      let d6 = (chain_reg_read d5 (first + 0x28) lane).1 in
      let m6 = chain_reg_read-IsMemory d5 (first + 0x28) lane m5 in
      let (s7, e7) = chain_reg_read-Shows d6 0x2C f m6 (omega arith) s6 in
      rw (e1, e2, e3, e4, e5, e6, e7) refl
