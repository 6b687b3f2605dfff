-- ===== src/Lldma/Queue/Lookup.antt =====
-- Finding a queue by its connector id: `xpcie_fpga_scan_queue` and `xpcie_fpga_ref_queue`.
use hardware_drivers.Prelude.{
  ℕ, zero, suc, ◌+◌, ◌<◌, ◌≤◌, ◌≡◌, ◌≢◌, refl, ◌∙◌, ap, false, List, ◌⊎◌, inl, inr, bytes_eq,
  bytes_eq_sound, bytes_eq_self, Bool-cases, arith,
}
use hardware_drivers.Device.{
  Dev, host_to_dev, dev_to_host, Side, enq, deq, queue_at, Ret, ok, err, ebusy,
}
use hardware_drivers.Lldma.Queue.{
  IoctlQueue, Scan, found, failed, scan_from, scan_queue, ref_tx, ref_rx, ref_queue,
}

-- The connector id of a channel.
abbrev pub name_of : Dev → Side → ℕ → List ℕ
name_of d side c = (queue_at side d c).connector_id

-- No channel from `lo` up to `hi` has the connector id.
abbrev pub NoneNamed : Dev → Side → List ℕ → ℕ → ℕ → Type 0
NoneNamed d side id lo hi = (j : ℕ) → lo ≤ j → j < hi → name_of d side j ≢ id

-- The channel `c` is the first one from `lo` up to `hi` that has the connector id.
pub record IsFirst (d : Dev) (side : Side) (id : List ℕ) (lo hi c : ℕ) : Type 0 where
  pub above : lo ≤ c
  pub below : c < hi
  pub named : name_of d side c ≡ id
  pub earlier : NoneNamed d side id lo c

data Scans (d : Dev) (side : Side) (id : List ℕ) (lo hi : ℕ) (r : Scan) : Type 0 where
  hit : (c : ℕ) → IsFirst d side id lo hi c → r ≡ found c → Scans d side id lo hi r
  miss : NoneNamed d side id lo hi → r ≡ failed ebusy → Scans d side id lo hi r

le_cases : (lo j : ℕ) → lo ≤ j → (lo ≡ j) ⊎ (lo + 1 ≤ j)
le_cases lo j h = grind arith

ne_of_differ : (xs ys : List ℕ) → bytes_eq xs ys ≡ false → xs ≢ ys
ne_of_differ xs ys h e = cc (ap (λ x. bytes_eq x ys) e, bytes_eq_self ys)

module _ (d : Dev) (side : Side) (id : List ℕ) where
  NoneNamed-extend :
      (lo hi : ℕ)
      → name_of d side lo ≢ id
      → NoneNamed d side id (lo + 1) hi
      → NoneNamed d side id lo hi
  NoneNamed-extend lo hi differs rest j a b = elim (le_cases lo j a) [
    | inl e ↦ λ h. differs (ap (name_of d side) e ∙ h)
    | inr l ↦ rest j l b
  ]

  Scans-extend :
      (lo hi : ℕ) {r : Scan}
      → name_of d side lo ≢ id
      → Scans d side id (lo + 1) hi r
      → Scans d side id lo hi r
  Scans-extend lo hi differs (hit c f e) =
      hit c
        (record {
          above = omega (arith, f.above);
          below = f.below;
          named = f.named;
          earlier = NoneNamed-extend lo c differs f.earlier;
        })
        e
  Scans-extend lo hi differs (miss n e) = miss (NoneNamed-extend lo hi differs n) e

  scan_from-Scans :
      (left chid hi : ℕ)
      → hi ≡ chid + left
      → Scans d side id chid hi (scan_from d side id left chid)
  unfolding scan_from
  scan_from-Scans zero chid hi e = miss (λ j a b. absurd (omega arith)) refl
  scan_from-Scans (suc left) chid hi e = elim (Bool-cases (bytes_eq (name_of d side chid) id)) [
    | inl same ↦
        hit chid
          (record {
            above = omega arith;
            below = omega arith;
            named = bytes_eq_sound _ _ same;
            earlier = λ j a b. absurd (omega arith);
          })
          (rw same)
    | inr differ ↦ rw differ (
        Scans-extend chid hi (ne_of_differ _ _ differ)
          (scan_from-Scans left (chid + 1) hi (omega arith)))
  ]

abbrev count : Dev → ℕ
count d = d.available_dma_channel_num

-- The three answers of `xpcie_fpga_ref_queue`.
pub data Binds (d : Dev) (io : IoctlQueue) (r : Ret × IoctlQueue) : Type 0 where
  rx :
      (c : ℕ)
      → IsFirst d enq io.connector_id 0 d.available_dma_channel_num c
      → r
        ≡ (ok, record io { dir = host_to_dev; map_size = (queue_at enq d c).qp_mem_size; chid = c })
      → Binds d io r
  tx :
      (c : ℕ)
      → NoneNamed d enq io.connector_id 0 d.available_dma_channel_num
      → IsFirst d deq io.connector_id 0 d.available_dma_channel_num c
      → r
        ≡ (ok, record io { dir = dev_to_host; map_size = (queue_at deq d c).qp_mem_size; chid = c })
      → Binds d io r
  unknown :
      NoneNamed d enq io.connector_id 0 d.available_dma_channel_num
      → NoneNamed d deq io.connector_id 0 d.available_dma_channel_num
      → r ≡ (err ebusy, io)
      → Binds d io r

scan_queue-Scans :
    (d : Dev) (id : List ℕ)
    → Scans d enq id 0 d.available_dma_channel_num (scan_queue d id host_to_dev)
      × Scans d deq id 0 d.available_dma_channel_num (scan_queue d id dev_to_host)
unfolding scan_queue
scan_queue-Scans d id = (
  scan_from-Scans d enq id (count d) 0 (count d) (omega arith),
  scan_from-Scans d deq id (count d) 0 (count d) (omega arith),
)

ref_tx-Binds :
    (d : Dev) (io : IoctlQueue) (s : Scan)
    → NoneNamed d enq io.connector_id 0 d.available_dma_channel_num
    → Scans d deq io.connector_id 0 d.available_dma_channel_num s
    → Binds d io (ref_tx d io s)
unfolding ref_tx
ref_tx-Binds d io s none_rx (hit c f e) = tx c none_rx f (rw e)
ref_tx-Binds d io s none_rx (miss n e) = unknown none_rx n (rw e)

ref_rx-Binds :
    (d : Dev) (io : IoctlQueue) (s : Scan)
    → Scans d enq io.connector_id 0 d.available_dma_channel_num s
    → Binds d io (ref_rx d io s)
unfolding ref_rx
ref_rx-Binds d io s (hit c f e) = rx c f (rw e)
ref_rx-Binds d io s (miss n e) = rw e (ref_tx-Binds d io _ n (scan_queue-Scans d io.connector_id).1)

-- `xpcie_fpga_ref_queue` gives the number, the direction and the size of the mapped memory of the
-- first available RX channel that has the connector id; if there is none, of the first TX channel
-- that has it; the connector id of the request stays. It fails with -EBUSY, leaving the request as
-- it was, exactly if neither direction has one.
pub ref_queue-Binds : (d : Dev) (io : IoctlQueue) → Binds d io (ref_queue d io)
unfolding ref_queue
ref_queue-Binds d io = ref_rx-Binds d io _ (scan_queue-Scans d io.connector_id).0
