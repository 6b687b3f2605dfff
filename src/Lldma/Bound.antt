-- ===== src/Lldma/Bound.antt =====
-- A queue that `xpcie_fpga_ref_queue` binds has an owner.
use hardware_drivers.Prelude.{ℕ, ◌≡◌, ◌≢◌, refl, sym, ◌∙◌, ap, List, [], inl, inr, arith, subst}
use hardware_drivers.Device.{Dev, Dir, dev_to_host, Side, enq, deq, queue_at, used, Ret, ok}
use hardware_drivers.Lldma.Queue.{IoctlQueue, ref_queue}
use hardware_drivers.Lldma.Queue.Exclusive.{free_or_used}
use hardware_drivers.Lldma.Queue.Lookup.{Binds, rx, tx, unknown, ref_queue-Binds}
use hardware_drivers.Lldma.Tidy.{IsTidy}

-- The array in which a direction of a bound queue stands.
abbrev pub bound_side : Dir → Side
bound_side dev_to_host = deq
bound_side _ = enq

-- A channel that is named is used, if free channels have no name and the name is not empty.
named-used :
    (d : Dev) (side : Side) (id : List ℕ) (c : ℕ)
    → IsTidy d
    → id ≢ []
    → (queue_at side d c).connector_id ≡ id
    → (queue_at side d c).status ≡ used
named-used d side id c t n e = elim (free_or_used (queue_at side d c).status) [
  | inr u ↦ u
  | inl f ↦ absurd (n (sym e ∙ t.unnamed side c f))
]

-- What a successful call has bound.
abbrev pub IsBound : Dev → IoctlQueue → IoctlQueue → Type 0
IsBound d io io' =
    let q = queue_at (bound_side io'.dir) d io'.chid in
    (q.status ≡ used) × (q.connector_id ≡ io.connector_id) × (io'.map_size ≡ q.qp_mem_size)

IsBound-of_Binds :
    (d : Dev) (io io' : IoctlQueue) (r : Ret × IoctlQueue)
    → IsTidy d
    → io.connector_id ≢ []
    → Binds d io r
    → r ≡ (ok, io')
    → IsBound d io io'
IsBound-of_Binds d io io' r t n (rx c f e) h =
    subst (IsBound d io) (ap (λ (x : Ret × IoctlQueue). x.1) (sym e ∙ h))
      (named-used d enq io.connector_id c t n f.named, f.named, refl)
IsBound-of_Binds d io io' r t n (tx c none_rx f e) h =
    subst (IsBound d io) (ap (λ (x : Ret × IoctlQueue). x.1) (sym e ∙ h))
      (named-used d deq io.connector_id c t n f.named, f.named, refl)
IsBound-of_Binds d io io' r t n (unknown a b e) h = absurd (ground arith)

-- In a state where free queues have no connector id and at most 32 channels are counted, a
-- successful call of `xpcie_fpga_ref_queue` with a connector id that is not empty has bound a queue
-- that is used and has this connector id, and reports the size of its memory.
pub ref_queue-IsBound :
    (d : Dev) (io io' : IoctlQueue)
    → IsTidy d
    → io.connector_id ≢ []
    → ref_queue d io ≡ (ok, io')
    → IsBound d io io'
ref_queue-IsBound d io io' t n h =
    IsBound-of_Binds d io io' (ref_queue d io) t n (ref_queue-Binds d io) h
